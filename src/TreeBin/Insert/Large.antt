-- ===== src/TreeBin/Insert/Large.antt =====
-- `insert_large_chunk` keeps the tree bins in order.
use dlmalloc_rs.Prelude.{
  ℕ, ◌+◌, ◌*◌, ◌%◌, ◌^◌, ◌<◌, ◌≡◌, ◌∙◌, refl, ap, sym, subst, true, ◌||◌, ◌==◌, ==_iff, Bool-cases,
  inl, inr, List,
}
use dlmalloc_rs.BinMap.{bit_is_marked}
use dlmalloc_rs.TreeIndex.{compute_tree_index, leftshift_for_tree_index}
use dlmalloc_rs.State.{State, done, treebin_at, MallocState}
use dlmalloc_rs.TreeBin.{insert_below, insert_large_chunk, treemap_is_marked}
use dlmalloc_rs.TreeBin.Trie.{is_node-cases, is_leaf, Trie, node, is_node, IsTrie, Represents}
use dlmalloc_rs.TreeBin.Bins.{undecided, base, TreeBins}
use dlmalloc_rs.TreeBin.Digits.{base_aligned, undecided_lt, index_lt, root_range, root-Bits}
use dlmalloc_rs.TreeBin.Separate.{Avoids, IsSeparate, EveryChunk-mono, Represents-frame}
use dlmalloc_rs.TreeBin.Insert.{Inserted, Inserted-filled}
use dlmalloc_rs.TreeBin.Insert.Ring.{OnlyLinks}
use dlmalloc_rs.TreeBin.Insert.Below.{IsInserted}
use dlmalloc_rs.TreeBin.Insert.Whole.{IsNewLarge, TreeBins-Inserted}
use dlmalloc_rs.TreeBin.Change.{set_trie}
use dlmalloc_rs.TreeBin.Insert.Walk.{insert_below-IsInserted}
use dlmalloc_rs.TreeBin.Insert.First.{
  prepared, prepared-SameAt, SameAt-trans, OnlyTrees, prepared-IsReady, own, Result, first_chunk,
}

module _ (s : State) (tries : ℕ → Trie) (x n : ℕ) (inv : TreeBins s tries)
    (new : IsNewLarge s tries x n) where
  -- The same record of roots and map: an insertion below a root changes links only.
  only_trees : (i : ℕ) (t : State) → OnlyLinks (prepared x i s) t → (t.m ≡ s.m) × OnlyTrees s t
  only_trees i t only = (ap (λ (z : State). z.m) only, subst (OnlyTrees s) (sym only) refl)

  -- The walk from the root of a bin with chunks.
  walk_from_root :
      (a k : ℕ) (ring : List ℕ) (l r : Trie)
      → tries (compute_tree_index n) ≡ node a k ring l r
      → (let i = compute_tree_index n in
          (s.m.treebins i ≡ a)
          × (t : State) × (insert_below 64 x n a
                (n * 2 ^ leftshift_for_tree_index i % 2 ^ 64)
                (prepared x i s)
              ≡ done tt t)
          × IsInserted
              (prepared x i s)
              t
              i
              (treebin_at s i)
              x
              n
              (undecided i)
              (base i)
              a
              (node a k ring l r))
  walk_from_root a k ring l r e =
      let i = compute_tree_index n in
      let lt = index_lt n new.large in
      let u = node a k ring l r in
      let range = root_range n i new.large new.word refl in
      let held = subst (Represents s i (treebin_at s i) (s.m.treebins i)) e (inv.each i lt) in
      let off : Avoids x u = subst (Avoids x) e (new.off i lt) in
      let shape =
        Represents-frame s (prepared x i s) i (treebin_at s i) (s.m.treebins i) u refl
          (EveryChunk-mono _ _ u (λ y ne. prepared-SameAt x i y s (λ same. ne (sym same))) off)
          held in
      let walk =
        insert_below-IsInserted (prepared x i s) i x n (prepared-IsReady s tries x n inv new)
          new.aligned u 64 (undecided i) (base i) (treebin_at s i)
          (n * 2 ^ leftshift_for_tree_index i % 2 ^ 64)
          (subst (IsTrie (undecided i) (base i)) e (inv.ordered i lt))
          (subst (λ p. Represents (prepared x i s) i (treebin_at s i) p u) held.0 shape)
          (subst IsSeparate e (inv.separate i lt)) off (base_aligned i lt)
          (root-Bits n i new.large new.word refl) range.0 range.1 (undecided_lt i lt) in
      (held.0, walk.0, walk.1, walk.2)

  walks :
      (a : ℕ) (t : State)
      → treemap_is_marked s (compute_tree_index n) ≡ true
      → s.m.treebins (compute_tree_index n) ≡ a
      → insert_below 64 x n a
          (n * 2 ^ leftshift_for_tree_index (compute_tree_index n) % 2 ^ 64)
          (prepared x (compute_tree_index n) s)
        ≡ done tt t
      → insert_large_chunk x n s ≡ done tt t
  unfolding insert_large_chunk treemap_is_marked
  walks a t marked root steps =
      let i = compute_tree_index n in
      rw marked (
        ap
          (λ (p : ℕ).
            insert_below 64 x n p (n * 2 ^ leftshift_for_tree_index i % 2 ^ 64) (prepared x i s))
          root
        ∙ steps)

  marks_same : (t : State) (j : ℕ) → t.m ≡ s.m → treemap_is_marked t j ≡ treemap_is_marked s j
  unfolding treemap_is_marked
  marks_same t j e = ap (λ (z : MallocState). bit_is_marked z.treemap j) e

  marks_kept :
      (i j : ℕ)
      → i < 32
      → j < 32
      → is_node (tries i) ≡ true
      → treemap_is_marked s j ≡ (i == j || treemap_is_marked s j)
  marks_kept i j lt h filled = elim (Bool-cases (i == j)) [
    | inl e ↦
        rw e (inv.marked j h ∙ subst (λ k. is_node (tries k) ≡ true) ((==_iff i j).0 e) filled)
    | inr e ↦ rw e refl
  ]

  further_chunk :
      (a k : ℕ) (ring : List ℕ) (l r : Trie)
      → tries (compute_tree_index n) ≡ node a k ring l r
      → (Result s tries x n inv new)
  further_chunk a k ring l r e =
      let i = compute_tree_index n in
      let lt = index_lt n new.large in
      let filled : is_node (tries i) ≡ true = ap is_node e in
      let walk = walk_from_root a k ring l r e in
      let t = walk.1 in
      let I = walk.3 in
      let only = only_trees i t I.only in
      let m_same = only.0 in
      let ins = subst (λ u. Inserted x n u I.after) (sym e) I.inserted in
      (
        t,
        I.after,
        walks a t (inv.marked i lt ∙ filled) walk.0 walk.2,
        only.1,
        ins,
        (λ y ne off.
            SameAt-trans s (prepared x i s) t y (prepared-SameAt x i y s ne)
              (I.same y ne (subst (Avoids y) e off))),
        TreeBins-Inserted s t tries i x n I.after inv lt (own s tries x n inv new) new.off
            (ap (λ (z : MallocState). z.least_addr) m_same) (ap (λ (z : MallocState). z.at) m_same)
            (λ j h ne. ap (λ (z : MallocState). z.treebins j) m_same)
            (subst (λ (z : MallocState). z.treemap < 2 ^ 32) (sym m_same) inv.map)
            (λ j h. marks_same t j m_same ∙ marks_kept i j lt h filled)
            (λ y ne off.
              SameAt-trans s (prepared x i s) t y (prepared-SameAt x i y s ne)
                (I.same y ne (subst (Avoids y) e off)))
            ins
            (subst (λ (z : MallocState). Represents t i (z.at + 600 + i * 8) (z.treebins i) I.after)
              (sym m_same)
              (subst (λ p. Represents t i (treebin_at s i) p I.after) (sym walk.0) I.shape))
            I.ordered (Inserted-filled ins),
      )

pub insert_large_chunk-Result :
    (s : State) (tries : ℕ → Trie) (x n : ℕ) (inv : TreeBins s tries) (new : IsNewLarge s tries x n)
    → Result s tries x n inv new
insert_large_chunk-Result s tries x n inv new =
    elim (Bool-cases (is_node (tries (compute_tree_index n)))) [
      | inl filled ↦
          let root = is_node-cases (tries (compute_tree_index n)) filled in
          further_chunk s tries x n inv new root.0 root.1 root.2 root.3 root.4 root.5
      | inr empty ↦ first_chunk s tries x n inv new (is_leaf (tries (compute_tree_index n)) empty)
    ]

-- When the tree bins hold the tries `tries` and `x` is a chunk of `n` bytes that is in none of them
-- (`n` a multiple of 16 from 256 on and below 2 ^ 64, and the chunk not below the least address),
-- `insert_large_chunk` returns, and changes only the links between tree chunks, the bins' roots and
-- their map. The tree bins then hold the same tries, but that of the bin for `n`, where `x` is a new
-- leaf, or the next one in the ring of a node of size `n`: each size is still on its path, each
-- parent link, mark and ring is right, and no chunk is in two places.
pub insert_large_chunk-TreeBins :
    (s : State) (tries : ℕ → Trie) (x n : ℕ)
    → TreeBins s tries
    → IsNewLarge s tries x n
    → (t : State) × (after : Trie) × (insert_large_chunk x n s ≡ done tt t)
      × OnlyTrees s t
      × Inserted x n (tries (compute_tree_index n)) after
      × TreeBins t (set_trie tries (compute_tree_index n) after)
insert_large_chunk-TreeBins s tries x n inv new =
    let h = insert_large_chunk-Result s tries x n inv new in (h.0, h.1, h.2, h.3, h.4, h.6)
