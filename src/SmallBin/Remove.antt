-- ===== src/SmallBin/Remove.antt =====
-- The runs of `unlink_small_chunk` and `unlink_first_small_chunk` on a bin that holds the chunk.
use dlmalloc_rs.Prelude.{
  ℕ, ◌≤◌, ◌<◌, ◌≡◌, ◌≢◌, refl, subst, true, false, List, [], ◌∷◌, ◌++◌, arith, Fresh, Distinct,
  All-append, ◌==◌, ◌||◌, ◌&&◌,
}
use dlmalloc_rs.Size.{small_index}
use dlmalloc_rs.State.{State, smallbin_at, ok_address}
use dlmalloc_rs.SmallBin.{clear_smallmap, link_over, unlink_small_chunk, unlink_first_small_chunk}
use dlmalloc_rs.SmallBin.Ring.{bk_All, fd_All, fd-bk, bk-fd}
use dlmalloc_rs.SmallBin.Stacks.{SmallBins, Leaves, leaves, OnlySmall, update, Apart, Apart-symm}
use dlmalloc_rs.SmallBin.Unlink.{Found, found, off, order, unlink_last, unlink_middle}

Distinct-Apart : (ys : List ℕ) (p : ℕ) (zs : List ℕ) → Distinct (ys ++ p ∷ zs) → Apart ys zs
Distinct-Apart [] p zs d = tt
Distinct-Apart (y ∷ ys) p zs d =
    ((All-append (λ c. y ≢ c) ys (p ∷ zs) d.0).1.1, Distinct-Apart ys p zs d.1)

module _ {s : State} {i : ℕ} {p : ℕ} where
  -- The checks on the chunk behind `p`, on the one before it, and on whether it is alone.
  behind_ok :
      (ys zs : List ℕ)
      → Found s i ys p zs
      → (s.heap.fd p == smallbin_at s i
          || (ok_address s (s.heap.fd p) && s.heap.bk (s.heap.fd p) == p))
        ≡ true
  behind_ok ys [] f = ground (arith, f.behind.0)
  behind_ok ys (q ∷ zs) f =
      let low : s.m.least_addr ≤ q =
        (All-append (λ c. s.m.least_addr ≤ c) ys (p ∷ q ∷ zs) f.low).1.1.0 in
      ground
        (arith, f.behind.0, low, bk-fd s.heap.fd s.heap.bk p (q ∷ zs) (smallbin_at s i) f.behind)

  before_ok :
      (ys zs : List ℕ)
      → Found s i ys p zs
      → (s.heap.bk p == smallbin_at s i
          || (ok_address s (s.heap.bk p) && s.heap.fd (s.heap.bk p) == p))
        ≡ true
  before_ok [] zs f = ground (arith, f.before.1)
  before_ok (y ∷ ys) zs f =
      let low : s.m.least_addr ≤ s.heap.bk p =
        bk_All s.heap.fd s.heap.bk (λ c. s.m.least_addr ≤ c) y ys p f.before.2
          ((All-append (λ c. s.m.least_addr ≤ c) (y ∷ ys) (p ∷ zs) f.low).0) in
      ground (arith, low, fd-bk s.heap.fd s.heap.bk (smallbin_at s i) (y ∷ ys) p f.before)

  alone : (ys zs : List ℕ) → Found s i ys p zs → ys ++ zs ≡ [] → (s.heap.bk p == s.heap.fd p) ≡ true
  alone [] [] f e = ground (arith, f.before.1, f.behind.0)
  alone [] (q ∷ zs) f e = cc
  alone (y ∷ ys) zs f e = cc

  not_alone :
      (ys zs : List ℕ)
      → Found s i ys p zs
      → Fresh (smallbin_at s i) (ys ++ p ∷ zs)
      → Distinct (ys ++ p ∷ zs)
      → (x : ℕ) (xs : List ℕ) → ys ++ zs ≡ x ∷ xs
      → (s.heap.bk p == s.heap.fd p) ≡ false
  not_alone [] [] f o d x xs e = cc
  not_alone [] (q ∷ zs) f o d x xs e = ground (arith, f.before.1, f.behind.0, o.1.0)
  not_alone (y ∷ ys) zs f o d x xs e =
      let b = smallbin_at s i in
      let apart : Fresh (s.heap.fd p) (y ∷ ys) =
        fd_All s.heap.fd s.heap.bk (λ c. Fresh c (y ∷ ys)) p zs b f.behind
          (Apart-symm (y ∷ ys) zs (Distinct-Apart (y ∷ ys) p zs d))
          ((All-append (λ c. b ≢ c) (y ∷ ys) (p ∷ zs) o).0) in
      let differ : s.heap.fd p ≢ s.heap.bk p =
        bk_All s.heap.fd s.heap.bk (λ c. s.heap.fd p ≢ c) y ys p f.before.2 apart in
      ground (arith, differ)

-- When the small bins hold the stacks `bins` and `p` is anywhere in the stack of its size's bin, the
-- run returns, `p` is out of that stack, in which the others keep their order, the other stacks are
-- as before, and nothing but links and the small map has changed.
pub unlink_small_chunk-SmallBins :
    (s : State) (bins : ℕ → List ℕ) (p size : ℕ) (ys zs : List ℕ)
    → SmallBins s bins
    → small_index size < 32
    → bins (small_index size) ≡ ys ++ p ∷ zs
    → Leaves
        (λ t. SmallBins t (update bins (small_index size) (ys ++ zs)) × OnlySmall s t)
        (unlink_small_chunk p size s)
unfolding unlink_small_chunk clear_smallmap
unlink_small_chunk-SmallBins s bins p size ys zs inv lt e = go (ys ++ zs) refl
  where
    go :
        (xs : List ℕ)
        → ys ++ zs ≡ xs
        → Leaves
            (λ t. SmallBins t (update bins (small_index size) (ys ++ zs)) × OnlySmall s t)
            (unlink_small_chunk p size s)
    go [] left =
        let f = found inv (small_index size) lt ys p zs e in
        rw (behind_ok ys zs f, alone ys zs f left)
          (leaves (unlink_last inv (small_index size) lt ys p zs e left, refl))
    go (x ∷ xs) left =
        let f = found inv (small_index size) lt ys p zs e in
        let o = off inv (small_index size) lt ys p zs e (small_index size) lt in
        let d = order inv (small_index size) lt ys p zs e in
        rw (behind_ok ys zs f, not_alone ys zs f o d x xs left, before_ok ys zs f)
          (leaves (unlink_middle inv (small_index size) lt ys p zs e x xs left, refl))

-- When the small bins hold the stacks `bins` and `p` is on top of stack `i`, the run with the bin's
-- address and index returns, `p` is off the stack, the other stacks are as before, and nothing but
-- links and the small map has changed.
pub unlink_first_small_chunk-SmallBins :
    (s : State) (bins : ℕ → List ℕ) (p i : ℕ) (zs : List ℕ)
    → SmallBins s bins
    → i < 32
    → bins i ≡ p ∷ zs
    → Leaves
        (λ t. SmallBins t (update bins i zs) × OnlySmall s t)
        (unlink_first_small_chunk (smallbin_at s i) p i s)
unfolding unlink_first_small_chunk clear_smallmap
unlink_first_small_chunk-SmallBins s bins p i [] inv lt e =
    let f = found inv i lt [] p [] e in
    let only : (smallbin_at s i == s.heap.fd p) ≡ true = ground (arith, f.behind.0) in
    rw only (leaves (unlink_last inv i lt [] p [] e refl, refl))
unlink_first_small_chunk-SmallBins s bins p i (q ∷ zs) inv lt e =
    let f = found inv i lt [] p (q ∷ zs) e in
    let o = off inv i lt [] p (q ∷ zs) e i lt in
    let more : (smallbin_at s i == s.heap.fd p) ≡ false = ground (arith, f.behind.0, o.1.0) in
    let ok : (ok_address s (s.heap.fd p) && s.heap.bk (s.heap.fd p) == p) ≡ true =
      ground (arith, f.behind.0, f.behind.1, f.low.1.0) in
    let before : s.heap.bk p ≡ smallbin_at s i = f.before.1 in
    rw (more, ok)
      (leaves (
        subst (λ b. SmallBins (link_over b (s.heap.fd p) s) (update bins i (q ∷ zs))) before
            (unlink_middle inv i lt [] p (q ∷ zs) e q zs refl),
        refl,
      ))
