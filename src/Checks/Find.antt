-- ===== src/Checks/Find.antt =====
-- `bin_find` on a small bin decides whether the bin's stack has the chunk.
use dlmalloc_rs.Prelude.{
  ℕ, zero, suc, ◌<◌, ◌≡◌, ◌≢◌, ◌∙◌, refl, ap, Bool, true, false, not, ◌||◌, ◌==◌, some,
  if◌then◌else◌, List, [], ◌∷◌, arith, Bool-cases, inl, inr, Fresh, length,
}
use dlmalloc_rs.Size.{is_small, small_index}
use dlmalloc_rs.State.{State, smallbin_at}
use dlmalloc_rs.Head.{chunksize}
use dlmalloc_rs.SmallBin.{smallmap_is_marked}
use dlmalloc_rs.SmallBin.Ring.{Links}
use dlmalloc_rs.SmallBin.Stacks.{SmallBins, Holds}
use dlmalloc_rs.Checks.{circle_has, bin_find}

abbrev pub has : ℕ → List ℕ → Bool
has x [] = false
has x (y ∷ ys) = y == x || has x ys

pub circle_has-Links :
    (rounds x b a : ℕ) (xs : List ℕ) (s : State)
    → Links s.heap.fd s.heap.bk a xs b
    → Fresh b xs
    → length xs < rounds
    → circle_has rounds x b a s ≡ some (has x (a ∷ xs))
unfolding circle_has
circle_has-Links zero x b a xs s l off fuel = absurd (omega arith)
circle_has-Links (suc rounds) x b a [] s l off fuel =
    let over : not (s.heap.fd a == b) ≡ false = ground (arith, l.0) in
    elim (Bool-cases (a == x)) [ inl e ↦ rw (e) refl | inr e ↦ rw (e, over) refl ]
circle_has-Links (suc rounds) x b a (y ∷ ys) s l off fuel =
    let on : not (s.heap.fd a == b) ≡ true = ground (arith, l.0, off.0) in
    let rest = circle_has-Links rounds x b y ys s l.2 off.1 (omega arith) in
    elim (Bool-cases (a == x)) [
      | inl e ↦ rw (e) refl
      | inr e ↦ rw (e, on) (ap (λ (p : ℕ). circle_has rounds x b p s) l.0 ∙ rest)
    ]

find_in_bin :
    (rounds x i : ℕ) (s : State) (xs : List ℕ)
    → Holds (smallmap_is_marked s i) s.heap.fd s.heap.bk s.m.least_addr (smallbin_at s i) xs
    → Fresh (smallbin_at s i) xs
    → x ≢ smallbin_at s i
    → length xs < rounds
    → (if smallmap_is_marked s i
        then circle_has rounds x (smallbin_at s i) (smallbin_at s i) s
        else some false)
      ≡ some (has x xs)
find_in_bin rounds x i s [] h off ne fuel = rw h refl
find_in_bin rounds x i s (y ∷ ys) h off ne fuel =
    let other : (smallbin_at s i == x) ≡ false = ground (arith, ne) in
    let found =
      circle_has-Links rounds x (smallbin_at s i) (smallbin_at s i) (y ∷ ys) s h.1 off fuel in
    rw (h.0) (found ∙ ap (λ (b : Bool). some (b || has x (y ∷ ys))) other)

-- When the small bins hold the stacks `bins`, and `x` has a small size with one of the 32 indices and
-- is not the bin itself, `bin_find` ends within one round more than the bin has chunks, and tells
-- whether they include `x`.
pub bin_find-SmallBins :
    (rounds x : ℕ) (s : State) (bins : ℕ → List ℕ)
    → SmallBins s bins
    → is_small (chunksize s x) ≡ true
    → small_index (chunksize s x) < 32
    → x ≢ smallbin_at s (small_index (chunksize s x))
    → length (bins (small_index (chunksize s x))) < rounds
    → bin_find rounds x s ≡ some (has x (bins (small_index (chunksize s x))))
unfolding bin_find
bin_find-SmallBins rounds x s bins inv small lt ne fuel =
    let i = small_index (chunksize s x) in
    rw small (find_in_bin rounds x i s (bins i) (inv.each i lt) (inv.off_bins i i lt lt) ne fuel)
