-- ===== src/Calloc/Clear.antt =====
-- What `dlcalloc` does to the memory that `dlmalloc` gives it.
use dlmalloc_rs.Prelude.{
  ℕ, ◌+◌, ◌*◌, ◌^◌, ◌≤◌, ◌<◌, ◌≡◌, ◌≢◌, refl, ◌∙◌, true, false, arith, ◌==◌, ltb,
}
use dlmalloc_rs.Size.{mem2chunk}
use dlmalloc_rs.State.{State, done}
use dlmalloc_rs.Head.{is_mmapped, calloc_must_clear}
use dlmalloc_rs.Os.{Os}
use dlmalloc_rs.Malloc.{dlmalloc}
use dlmalloc_rs.Calloc.{fill, calloc_request, dlcalloc}
use dlmalloc_rs.Calloc.Overflow.{calloc_request_exact}

-- All of `n` bytes from `mem` on are 0.
abbrev pub IsClear : State → (mem n : ℕ) → Type 0
IsClear s mem n = (a : ℕ) → mem ≤ a → a < mem + n → s.heap.payload a ≡ 0

calloc_request_fits :
    (n e : ℕ) → n < 2 ^ 64 → e < 2 ^ 64 → n * e < 2 ^ 64 → calloc_request n e ≡ n * e
calloc_request_fits n e hn he fits =
    let small : ltb (n * e) (2 ^ 64) ≡ true = ground (arith, fits) in
    calloc_request_exact n e hn he ∙ rw small refl

-- When the product of the arguments fits 64 bits and `dlmalloc` returns a block for it that is not
-- directly mapped, `dlcalloc` returns that block with all of its requested bytes 0, leaves every
-- other byte of the user's alone, and changes nothing else of the state: no head, foot or link of a
-- chunk or bin, and nothing in malloc_state.
pub dlcalloc-IsClear :
    (os : Os) (s t : State) (n e mem : ℕ)
    → n < 2 ^ 64
    → e < 2 ^ 64
    → n * e < 2 ^ 64
    → dlmalloc os (n * e) s ≡ done mem t
    → mem ≢ 0
    → is_mmapped t (mem2chunk mem) ≡ false
    → (u : State) × (dlcalloc os n e s ≡ done mem u)
      × IsClear u mem (n * e)
      × ((a : ℕ) → a < mem → u.heap.payload a ≡ t.heap.payload a)
      × ((a : ℕ) → mem + n * e ≤ a → u.heap.payload a ≡ t.heap.payload a)
      × (u ≡ record t { heap = record (t.heap) { payload = u.heap.payload } })
unfolding dlcalloc fill calloc_must_clear
dlcalloc-IsClear os s t n e mem hn he fits run some ordinary =
    let req = calloc_request_fits n e hn he fits in
    let given : (mem == 0) ≡ false = ground (arith, some) in
    (
      fill mem 0 (n * e) t,
      rw (req, run, given, ordinary) refl,
      (λ a low high. ground (arith, low, high)),
      (λ a below. ground (arith, below)),
      (λ a above. ground (arith, above)),
      refl,
    )
