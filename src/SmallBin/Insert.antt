-- ===== src/SmallBin/Insert.antt =====
-- `insert_small_chunk` pushes a chunk on the stack of its bin.
use dlmalloc_rs.Prelude.{
  ℕ, ◌≤◌, ◌<◌, ◌≡◌, ◌≢◌, refl, sym, subst, true, List, [], ◌∷◌, arith, Fresh, Distinct, leb,
}
use dlmalloc_rs.Size.{small_index}
use dlmalloc_rs.BinMap.{mark_bit, bit_is_marked}
use dlmalloc_rs.BinMap.Laws.{bit_is_marked-mark_bit}
use dlmalloc_rs.State.{State, smallbin_at}
use dlmalloc_rs.SmallBin.{mark_smallmap, smallmap_is_marked, link_first, insert_small_chunk}
use dlmalloc_rs.SmallBin.Stacks.{
  IsBin, SmallBins, Leaves, leaves, OnlySmall, update, Apart, SmallBins-update, Holds-frame,
  All-write_twice, Holds-link_first,
}

-- A chunk that can go into a bin: no bin holds it, and it is none of the bins' own addresses.
pub record IsNew (s : State) (bins : ℕ → List ℕ) (p : ℕ) : Type 0 where
  pub low : s.m.least_addr ≤ p
  pub off_bins : (j : ℕ) → j < 32 → p ≢ smallbin_at s j
  pub off_chunks : (j : ℕ) → j < 32 → Fresh p (bins j)

module _ {s : State} {bins : ℕ → List ℕ} (inv : SmallBins s bins) (p i : ℕ) (lt : i < 32)
    (new : IsNew s bins p) where
  marked_after :
      (j : ℕ)
      → j < 32
      → i ≢ j
      → bit_is_marked (mark_bit s.m.smallmap i) j ≡ bit_is_marked s.m.smallmap j
  marked_after j h ne = ground (arith, bit_is_marked-mark_bit s.m.smallmap i j lt h)

  off_other : (j : ℕ) → j < 32 → i ≢ j → Fresh (smallbin_at s i) (smallbin_at s j ∷ bins j)
  off_other j h ne = (omega arith, inv.off_bins j i h lt)

  new_other : (j : ℕ) → j < 32 → Fresh p (smallbin_at s j ∷ bins j)
  new_other j h = (new.off_bins j h, new.off_chunks j h)

  off_self : (j : ℕ) → j < 32 → Fresh (smallbin_at s j) (p ∷ bins i)
  off_self j h = ((λ e. new.off_bins j h (sym e)), inv.off_bins i j lt h)

  Apart-self : (j : ℕ) → j < 32 → i ≢ j → Apart (p ∷ bins i) (bins j)
  Apart-self j h ne = (new.off_chunks j h, inv.apart i j lt h ne)

  -- The first chunk of an empty bin.
  pub insert_empty :
      bins i ≡ []
      → SmallBins
          (link_first (smallbin_at s i) p (smallbin_at s i) (mark_smallmap i s))
          (update bins i (p ∷ bins i))
  unfolding mark_smallmap smallmap_is_marked
  insert_empty e =
      let b = smallbin_at s i in
      let t = link_first b p b (mark_smallmap i s) in
      SmallBins-update s t bins i (p ∷ bins i) inv refl (new.off_chunks i lt, inv.distinct i lt)
        off_self Apart-self
        (subst (λ ys. IsBin t i (p ∷ ys)) (sym e)
          (
            ground (arith, bit_is_marked-mark_bit s.m.smallmap i i lt lt),
            (
              ground (arith, new.off_bins i lt),
              ground arith,
              (ground arith, ground (arith, new.off_bins i lt)),
            ),
            (new.low, tt),
          ))
        (λ j h ne.
          Holds-frame (smallmap_is_marked s j) (smallmap_is_marked t j) s.heap.fd s.heap.bk
            t.heap.fd t.heap.bk s.m.least_addr (smallbin_at s j) (bins j) (marked_after j h ne)
            (All-write_twice s.heap.fd b p p b (smallbin_at s j ∷ bins j) (off_other j h ne)
              (new_other j h))
            (All-write_twice s.heap.bk b p p b (smallbin_at s j ∷ bins j) (off_other j h ne)
              (new_other j h))
            (inv.each j h))

  -- A further chunk goes before the first one, `x`.
  pub insert_more :
      (x : ℕ) (xs : List ℕ)
      → bins i ≡ x ∷ xs
      → SmallBins (link_first (smallbin_at s i) p x s) (update bins i (p ∷ bins i))
  unfolding smallmap_is_marked
  insert_more x xs e =
      let b = smallbin_at s i in
      let t = link_first b p x s in
      let holds : IsBin s i (x ∷ xs) = subst (IsBin s i) e (inv.each i lt) in
      let off_x : (j : ℕ) → j < 32 → Fresh (smallbin_at s j) (x ∷ xs) =
        λ j h. subst (Fresh (smallbin_at s j)) e (inv.off_bins i j lt h) in
      let x_other : (j : ℕ) → j < 32 → i ≢ j → Fresh x (smallbin_at s j ∷ bins j) = λ j h ne. (
        (λ q. (off_x j h).0 (sym q)),
        (subst (λ ys. Apart ys (bins j)) e (inv.apart i j lt h ne)).0,
      ) in
      let order : Distinct (x ∷ xs) = subst Distinct e (inv.distinct i lt) in
      SmallBins-update s t bins i (p ∷ bins i) inv refl (new.off_chunks i lt, inv.distinct i lt)
        off_self Apart-self
        (subst (λ ys. IsBin t i (p ∷ ys)) (sym e)
          (let filled =
              Holds-link_first s.heap.fd s.heap.bk s.m.least_addr b p x xs new.low
                (new.off_bins i lt, subst (Fresh p) e (new.off_chunks i lt)) (off_x i lt) order.0
                (refl, holds.1, holds.2) in
            (holds.0, filled.1, filled.2)))
        (λ j h ne.
          Holds-frame (smallmap_is_marked s j) (smallmap_is_marked t j) s.heap.fd s.heap.bk
            t.heap.fd t.heap.bk s.m.least_addr (smallbin_at s j) (bins j) refl
            (All-write_twice s.heap.fd b p p x (smallbin_at s j ∷ bins j) (off_other j h ne)
              (new_other j h))
            (All-write_twice s.heap.bk x p p b (smallbin_at s j ∷ bins j) (x_other j h ne)
              (new_other j h))
            (inv.each j h))

-- When the small bins hold the stacks `bins`, the size has a small bin and the chunk is new to them
-- all, the run returns, the chunk is on top of its bin's stack, the other stacks are as before, and
-- nothing but links and the small map has changed.
pub insert_small_chunk-SmallBins :
    (s : State) (bins : ℕ → List ℕ) (p size : ℕ)
    → SmallBins s bins
    → small_index size < 32
    → IsNew s bins p
    → Leaves
        (λ t.
          SmallBins t (update bins (small_index size) (p ∷ bins (small_index size)))
          × OnlySmall s t)
        (insert_small_chunk p size s)
unfolding insert_small_chunk smallmap_is_marked
insert_small_chunk-SmallBins s bins p size inv lt new = go (bins (small_index size)) refl
  where
    go :
        (xs : List ℕ)
        → bins (small_index size) ≡ xs
        → Leaves
            (λ t.
              SmallBins t (update bins (small_index size) (p ∷ bins (small_index size)))
              × OnlySmall s t)
            (insert_small_chunk p size s)
    go [] e =
        let b = subst (IsBin s (small_index size)) e (inv.each (small_index size) lt) in
        rw b (leaves (insert_empty inv p (small_index size) lt new e, refl))
    go (x ∷ xs) e =
        let b = subst (IsBin s (small_index size)) e (inv.each (small_index size) lt) in
        let ok : leb s.m.least_addr x ≡ true = ground (arith, b.2.0) in
        rw (b.0, b.1.0, ok) (leaves (insert_more inv p (small_index size) lt new x xs e, refl))
