-- ===== src/FreeBins/Small.antt =====
-- `insert_small_chunk` keeps all the bins in order.
use dlmalloc_rs.Prelude.{
  ℕ, ◌<◌, ◌≡◌, ◌≢◌, ◌+◌, ◌*◌, ap, inl, inr, refl, sym, subst, true, ◌==◌, Bool-cases, List, [], ◌∷◌,
  arith, leb, Fresh,
}
use dlmalloc_rs.Size.{small_index}
use dlmalloc_rs.State.{State, smallbin_at, Run}
use dlmalloc_rs.Head.{chunksize}
use dlmalloc_rs.SmallBin.{mark_smallmap, link_first, insert_small_chunk}
use dlmalloc_rs.SmallBin.Stacks.{SmallBins, IsBin, Leaves, leaves, OnlySmall, update}
use dlmalloc_rs.SmallBin.Insert.{IsNew, insert_small_chunk-SmallBins}
use dlmalloc_rs.TreeBin.Trie.{Trie}
use dlmalloc_rs.TreeBin.Separate.{EveryChunk, Avoids, SameAt, EveryChunk-mono, EveryChunk-both}
use dlmalloc_rs.FreeBins.{FreeBins}
use dlmalloc_rs.FreeBins.Frame.{TreeBins-frame}

-- What two theorems say of the same run.
Leaves-both :
    (P Q : State → Type 0) (r : Run (Unit {0}))
    → Leaves P r
    → Leaves Q r
    → Leaves (λ t. P t × Q t) r
Leaves-both P Q r (leaves p) (leaves q) = leaves (p, q)

Leaves-mono :
    (P Q : State → Type 0) (r : Run (Unit {0}))
    → ((t : State) → P t → Q t)
    → Leaves P r
    → Leaves Q r
Leaves-mono P Q r f (leaves p) = leaves (f _ p)

link_first-SameAt :
    (b p f y : ℕ) (s : State) → y ≢ b → y ≢ p → y ≢ f → SameAt s (link_first b p f s) y
unfolding chunksize
link_first-SameAt b p f y s ne_b ne_p ne_f = record {
  node_same = record {
    fd = ground (arith, ne_b, ne_p);
    bk = ground (arith, ne_f, ne_p);
    parent = refl;
    index = refl;
    size = refl;
  };
  child0 = refl;
  child1 = refl;
}

mark_smallmap-SameAt :
    (b p i y : ℕ) (s : State) → y ≢ b → y ≢ p → SameAt s (link_first b p b (mark_smallmap i s)) y
unfolding chunksize mark_smallmap
mark_smallmap-SameAt b p i y s ne_b ne_p = record {
  node_same = record {
    fd = ground (arith, ne_b, ne_p);
    bk = ground (arith, ne_b, ne_p);
    parent = refl;
    index = refl;
    size = refl;
  };
  child0 = refl;
  child1 = refl;
}

-- Nothing but the links of the chunk, the bin and the bin's first chunk has changed.
insert_small_chunk-SameAt :
    (s : State) (stacks : ℕ → List ℕ) (p size : ℕ)
    → SmallBins s stacks
    → small_index size < 32
    → Leaves
        (λ t.
          (y : ℕ)
          → y ≢ p
          → y ≢ smallbin_at s (small_index size)
          → Fresh y (stacks (small_index size))
          → SameAt s t y)
        (insert_small_chunk p size s)
unfolding insert_small_chunk
insert_small_chunk-SameAt s stacks p size inv lt = go (stacks (small_index size)) refl
  where
    go :
        (xs : List ℕ)
        → stacks (small_index size) ≡ xs
        → Leaves
            (λ t.
              (y : ℕ)
              → y ≢ p
              → y ≢ smallbin_at s (small_index size)
              → Fresh y (stacks (small_index size))
              → SameAt s t y)
            (insert_small_chunk p size s)
    go [] e =
        let b = subst (IsBin s (small_index size)) e (inv.each (small_index size) lt) in
        rw b (
          leaves (λ y ne_p ne_b off.
            mark_smallmap-SameAt (smallbin_at s (small_index size)) p (small_index size) y s ne_b
              ne_p))
    go (x ∷ xs) e =
        let b = subst (IsBin s (small_index size)) e (inv.each (small_index size) lt) in
        let ok : leb s.m.least_addr x ≡ true = ground (arith, b.2.0) in
        rw (b.0, b.1.0, ok)
          (leaves (λ y ne_p ne_b off.
            link_first-SameAt (smallbin_at s (small_index size)) p x y s ne_b ne_p
              (subst (Fresh y) e off).0))

module _ (s t : State) (stacks : ℕ → List ℕ) (tries : ℕ → Trie) (p i : ℕ)
    (inv : FreeBins s stacks tries) (lt : i < 32) (off : (j : ℕ) → j < 32 → Avoids p (tries j))
    (only : OnlySmall s t) (small : SmallBins t (update stacks i (p ∷ stacks i)))
    (same : (y : ℕ) → y ≢ p → y ≢ smallbin_at s i → Fresh y (stacks i) → SameAt s t y) where
  pushed_apart :
      (k j : ℕ)
      → k < 32
      → j < 32
      → EveryChunk (λ y. Fresh y (update stacks i (p ∷ stacks i) k)) (tries j)
  pushed_apart k j hk hj = elim (Bool-cases (i == k)) [
    | inl e ↦ rw e (
        EveryChunk-mono _ _ (tries j) (λ y q. ((λ e'. q.0 (sym e')), q.1))
          (EveryChunk-both _ _ (tries j) (off j hj) (inv.apart i j lt hj)))
    | inr e ↦ rw e (inv.apart k j hk hj)
  ]

  pushed : FreeBins t (update stacks i (p ∷ stacks i)) tries
  pushed =
      let at = ap (λ (z : State). z.m.at) only in
      record {
        small = small;
        trees =
            TreeBins-frame s t tries inv.trees at (ap (λ (z : State). z.m.least_addr) only)
              (ap (λ (z : State). z.m.treemap) only) (ap (λ (z : State). z.m.treebins) only)
              (λ j h.
                EveryChunk-mono _ _ (tries j)
                  (λ y q. same y (λ e. q.0 (sym e)) (λ e. q.1.0 (sym e)) q.1.1)
                  (EveryChunk-both _ _ (tries j) (off j h)
                    (EveryChunk-both _ _ (tries j) (inv.off_bins i j lt h) (inv.apart i j lt h))));
        apart = pushed_apart;
        off_bins = λ k j hk hj.
            subst (λ a. Avoids (a + 72 + k * 16) (tries j)) (sym at) (inv.off_bins k j hk hj);
      }

-- The chunk on top of its stack; it was in no bin.
pub FreeBins-insert_small_chunk :
    (s : State) (stacks : ℕ → List ℕ) (tries : ℕ → Trie) (p size : ℕ)
    → FreeBins s stacks tries
    → small_index size < 32
    → IsNew s stacks p
    → ((j : ℕ) → j < 32 → Avoids p (tries j))
    → Leaves
        (λ t.
          FreeBins t (update stacks (small_index size) (p ∷ stacks (small_index size))) tries
          × OnlySmall s t)
        (insert_small_chunk p size s)
FreeBins-insert_small_chunk s stacks tries p size inv lt new off =
    Leaves-mono _ _ (insert_small_chunk p size s)
      (λ t h. (pushed s t stacks tries p (small_index size) inv lt off h.0.1 h.0.0 h.1, h.0.1))
      (Leaves-both _ _ (insert_small_chunk p size s)
        (insert_small_chunk-SmallBins s stacks p size inv.small lt new)
        (insert_small_chunk-SameAt s stacks p size inv.small lt))
