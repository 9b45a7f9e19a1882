-- ===== src/SmallBin/Unlink.antt =====
-- `unlink_small_chunk` and `unlink_first_small_chunk` take a chunk out of the stack of its bin.
use dlmalloc_rs.Prelude.{
  ℕ, ◌≤◌, ◌<◌, ◌≡◌, ◌≢◌, refl, sym, subst, true, List, [], ◌∷◌, ◌++◌, arith, All, Fresh, Distinct,
  All-append, All-remove, All-of, Distinct-append_middle,
}
use dlmalloc_rs.BinMap.{clear_bit, bit_is_marked}
use dlmalloc_rs.BinMap.Laws.{bit_is_marked-clear_bit}
use dlmalloc_rs.State.{State, smallbin_at}
use dlmalloc_rs.SmallBin.{clear_smallmap, smallmap_is_marked, link_over}
use dlmalloc_rs.SmallBin.Ring.{Links, All-write, split, bk_All, fd_All}
use dlmalloc_rs.SmallBin.Stacks.{
  Holds, IsBin, SmallBins, update, Apart, Apart-cons, SmallBins-update, Holds-frame,
  Holds-link_over,
}

-- A bin with a chunk `p`, and what its links say.
pub record Found (s : State) (i : ℕ) (ys : List ℕ) (p : ℕ) (zs : List ℕ) : Type 0 where
  pub before : Links s.heap.fd s.heap.bk (smallbin_at s i) ys p
  pub behind : Links s.heap.fd s.heap.bk p zs (smallbin_at s i)
  pub links : Links s.heap.fd s.heap.bk (smallbin_at s i) (ys ++ p ∷ zs) (smallbin_at s i)
  pub low : All (λ c. s.m.least_addr ≤ c) (ys ++ p ∷ zs)
  pub marked : smallmap_is_marked s i ≡ true

Holds-Found :
    (s : State) (i : ℕ) (ys : List ℕ) (p : ℕ) (zs : List ℕ)
    → IsBin s i (ys ++ p ∷ zs)
    → Found s i ys p zs
Holds-Found s i [] p zs h = record {
  before = (split s.heap.fd s.heap.bk (smallbin_at s i) [] p zs (smallbin_at s i) h.1).0;
  behind = (split s.heap.fd s.heap.bk (smallbin_at s i) [] p zs (smallbin_at s i) h.1).1;
  links = h.1;
  low = h.2;
  marked = h.0;
}
Holds-Found s i (y ∷ ys) p zs h = record {
  before = (split s.heap.fd s.heap.bk (smallbin_at s i) (y ∷ ys) p zs (smallbin_at s i) h.1).0;
  behind = (split s.heap.fd s.heap.bk (smallbin_at s i) (y ∷ ys) p zs (smallbin_at s i) h.1).1;
  links = h.1;
  low = h.2;
  marked = h.0;
}

module _ {s : State} {bins : ℕ → List ℕ} (inv : SmallBins s bins) (i : ℕ) (lt : i < 32)
    (ys : List ℕ) (p : ℕ) (zs : List ℕ) (e : bins i ≡ ys ++ p ∷ zs) where
  pub found : Found s i ys p zs
  found = Holds-Found s i ys p zs (subst (IsBin s i) e (inv.each i lt))

  pub off : (j : ℕ) → j < 32 → Fresh (smallbin_at s j) (ys ++ p ∷ zs)
  off j h = subst (Fresh (smallbin_at s j)) e (inv.off_bins i j lt h)

  apart : (j : ℕ) → j < 32 → i ≢ j → Apart (ys ++ p ∷ zs) (bins j)
  apart j h ne = subst (λ q. Apart q (bins j)) e (inv.apart i j lt h ne)

  pub order : Distinct (ys ++ p ∷ zs)
  order = subst Distinct e (inv.distinct i lt)

  -- Every node of this bin is fresh for another one.
  other_bin : (j : ℕ) → j < 32 → i ≢ j → Apart (ys ++ p ∷ zs) (smallbin_at s j ∷ bins j)
  other_bin j h ne = Apart-cons (smallbin_at s j) (bins j) (ys ++ p ∷ zs) (off j h) (apart j h ne)

  this_bin : (j : ℕ) → j < 32 → i ≢ j → Fresh (smallbin_at s i) (smallbin_at s j ∷ bins j)
  this_bin j h ne = (omega arith, inv.off_bins j i h lt)

  bk_other : (j : ℕ) → j < 32 → i ≢ j → Fresh (s.heap.bk p) (smallbin_at s j ∷ bins j)
  bk_other j h ne =
      let q = smallbin_at s j ∷ bins j in
      bk_All s.heap.fd s.heap.bk (λ c. Fresh c q) (smallbin_at s i) ys p found.before
        (this_bin j h ne, (All-append (λ c. Fresh c q) ys (p ∷ zs) (other_bin j h ne)).0)

  fd_other : (j : ℕ) → j < 32 → i ≢ j → Fresh (s.heap.fd p) (smallbin_at s j ∷ bins j)
  fd_other j h ne =
      let q = smallbin_at s j ∷ bins j in
      fd_All s.heap.fd s.heap.bk (λ c. Fresh c q) p zs (smallbin_at s i) found.behind
        ((All-append (λ c. Fresh c q) ys (p ∷ zs) (other_bin j h ne)).1.1) (this_bin j h ne)

  marked_after :
      (j : ℕ)
      → j < 32
      → i ≢ j
      → bit_is_marked (clear_bit s.m.smallmap i) j ≡ bit_is_marked s.m.smallmap j
  marked_after j h ne = ground (arith, bit_is_marked-clear_bit s.m.smallmap i j lt h)

  -- The last chunk: the map's bit is cleared, and the links stay.
  pub unlink_last : ys ++ zs ≡ [] → SmallBins (clear_smallmap i s) (update bins i (ys ++ zs))
  unfolding clear_smallmap smallmap_is_marked
  unlink_last none_left =
      SmallBins-update s (clear_smallmap i s) bins i (ys ++ zs) inv refl
        ((Distinct-append_middle ys p zs order).0)
        (λ j h. All-remove (λ c. smallbin_at s j ≢ c) ys p zs (off j h))
        (λ j h ne. All-remove (λ c. Fresh c (bins j)) ys p zs (apart j h ne))
        (subst (IsBin (clear_smallmap i s) i) (sym none_left)
          (ground (arith, bit_is_marked-clear_bit s.m.smallmap i i lt lt)))
        (λ j h ne.
          Holds-frame (bit_is_marked s.m.smallmap j) (bit_is_marked (clear_bit s.m.smallmap i) j)
            s.heap.fd s.heap.bk s.heap.fd s.heap.bk s.m.least_addr (smallbin_at s j) (bins j)
            (marked_after j h ne) (All-of _ (smallbin_at s j ∷ bins j) (λ c. refl))
            (All-of _ (smallbin_at s j ∷ bins j) (λ c. refl)) (inv.each j h))

  -- One of several: its neighbours are joined.
  pub unlink_middle :
      (x : ℕ) (xs : List ℕ)
      → ys ++ zs ≡ x ∷ xs
      → SmallBins (link_over (s.heap.bk p) (s.heap.fd p) s) (update bins i (ys ++ zs))
  unfolding smallmap_is_marked
  unlink_middle x xs some_left =
      let t = link_over (s.heap.bk p) (s.heap.fd p) s in
      SmallBins-update s t bins i (ys ++ zs) inv refl ((Distinct-append_middle ys p zs order).0)
        (λ j h. All-remove (λ c. smallbin_at s j ≢ c) ys p zs (off j h))
        (λ j h ne. All-remove (λ c. Fresh c (bins j)) ys p zs (apart j h ne))
        (subst (λ m. Holds m t.heap.fd t.heap.bk s.m.least_addr (smallbin_at s i) (ys ++ zs))
          (sym found.marked)
          (Holds-link_over s.heap.fd s.heap.bk s.m.least_addr (smallbin_at s i) ys p zs
            (off i lt, order) found.links found.low x xs some_left))
        (λ j h ne.
          Holds-frame (smallmap_is_marked s j) (smallmap_is_marked s j) s.heap.fd s.heap.bk
            t.heap.fd t.heap.bk s.m.least_addr (smallbin_at s j) (bins j) refl
            (All-write s.heap.fd (s.heap.bk p) (s.heap.fd p) (smallbin_at s j ∷ bins j)
              (bk_other j h ne))
            (All-write s.heap.bk (s.heap.fd p) (s.heap.bk p) (smallbin_at s j ∷ bins j)
              (fd_other j h ne))
            (inv.each j h))
