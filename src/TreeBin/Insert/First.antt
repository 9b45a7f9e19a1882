-- ===== src/TreeBin/Insert/First.antt =====
-- `insert_large_chunk` on an empty bin, and what it does before it looks at the bin.
use dlmalloc_rs.Prelude.{ℕ, ◌≡◌, ◌≢◌, ◌∙◌, refl, ap, sym, subst, true, not, [], arith}
use dlmalloc_rs.BinMap.{bit_is_marked}
use dlmalloc_rs.BinMap.Laws.{bit_is_marked-mark_bit, mark_bit-lt}
use dlmalloc_rs.TreeIndex.{compute_tree_index}
use dlmalloc_rs.State.{State, done, treebin_at, set_child, set_index, set_parent, set_treebin}
use dlmalloc_rs.Head.{chunksize}
use dlmalloc_rs.TreeBin.{insert_large_chunk, treemap_is_marked, mark_treemap, link_self}
use dlmalloc_rs.TreeBin.Trie.{Trie, leaf, node, is_node, Represents}
use dlmalloc_rs.TreeBin.Bins.{undecided, base, BelongsTo, TreeBins}
use dlmalloc_rs.TreeBin.Digits.{base_aligned, index_lt, root_range}
use dlmalloc_rs.TreeBin.Separate.{Avoids, SameAt}
use dlmalloc_rs.TreeBin.Insert.{Inserted, new_leaf}
use dlmalloc_rs.TreeBin.Insert.Ring.{IsReady}
use dlmalloc_rs.TreeBin.Insert.Down.{new_leaf-IsTrie}
use dlmalloc_rs.TreeBin.Insert.Whole.{IsNewLarge, TreeBins-Inserted}
use dlmalloc_rs.TreeBin.Change.{set_trie}

-- The fields that `insert_large_chunk` sets before it looks at the bin.
abbrev pub prepared : (x i : ℕ) → State → State
prepared x i s = set_child x 0 0 (set_child x 1 0 (set_index x i s))

pub prepared-SameAt : (x i y : ℕ) (s : State) → y ≢ x → SameAt s (prepared x i s) y
unfolding chunksize
prepared-SameAt x i y s ne = record {
  node_same = record { fd = refl; bk = refl; parent = refl; index = ground arith; size = refl };
  child0 = ground arith;
  child1 = ground arith;
}

pub SameAt-trans : (s t u : State) (y : ℕ) → SameAt s t y → SameAt t u y → SameAt s u y
SameAt-trans s t u y p q = record {
  node_same = record {
    fd = q.node_same.fd ∙ p.node_same.fd;
    bk = q.node_same.bk ∙ p.node_same.bk;
    parent = q.node_same.parent ∙ p.node_same.parent;
    index = q.node_same.index ∙ p.node_same.index;
    size = q.node_same.size ∙ p.node_same.size;
  };
  child0 = q.child0 ∙ p.child0;
  child1 = q.child1 ∙ p.child1;
}

-- Nothing has changed but the links between tree chunks, the roots of the tree bins and their map.
abbrev pub OnlyTrees : State → State → Type 0
OnlyTrees s t = t ≡ record s {
  heap = record (s.heap) {
    fd = t.heap.fd;
    bk = t.heap.bk;
    child0 = t.heap.child0;
    child1 = t.heap.child1;
    parent = t.heap.parent;
    index = t.heap.index;
  };
  m = record (s.m) { treemap = t.m.treemap; treebins = t.m.treebins };
}

-- The first chunk of an empty bin.
abbrev first : (x i : ℕ) → State → State
first x i s =
    link_self x (set_parent x (treebin_at s i) (set_treebin i x (mark_treemap i (prepared x i s))))

first-SameAt : (x i y : ℕ) (s : State) → y ≢ x → SameAt s (first x i s) y
unfolding chunksize mark_treemap
first-SameAt x i y s ne = record {
  node_same = record {
    fd = ground arith;
    bk = ground arith;
    parent = ground arith;
    index = ground arith;
    size = refl;
  };
  child0 = ground arith;
  child1 = ground arith;
}

module _ (s : State) (tries : ℕ → Trie) (x n : ℕ) (inv : TreeBins s tries)
    (new : IsNewLarge s tries x n) where
  pub prepared-IsReady : IsReady (prepared x (compute_tree_index n) s) (compute_tree_index n) n x
  unfolding chunksize
  prepared-IsReady = record {
    nonnull = new.nonnull;
    low = new.low;
    size = new.size;
    index = ground arith;
    no_left = ground arith;
    no_right = ground arith;
  }

  first-Represents :
      Represents
        (first x (compute_tree_index n) s)
        (compute_tree_index n)
        (treebin_at (first x (compute_tree_index n) s) (compute_tree_index n))
        ((first x (compute_tree_index n) s).m.treebins (compute_tree_index n))
        (node x n [] leaf leaf)
  unfolding chunksize mark_treemap
  first-Represents = (
    ground arith,
    record {
      nonnull = new.nonnull;
      low = new.low;
      size = new.size;
      parent = ground arith;
      index = ground arith;
    },
    (ground arith, ground arith),
    tt,
    ground arith,
    ground arith,
  )

  -- The result of an insertion.
  abbrev pub Result : Type 0
  Result =
      (t : State) × (after : Trie) × (insert_large_chunk x n s ≡ done tt t)
      × OnlyTrees s t
      × Inserted x n (tries (compute_tree_index n)) after
      × ((y : ℕ) → y ≢ x → Avoids y (tries (compute_tree_index n)) → SameAt s t y)
      × TreeBins t (set_trie tries (compute_tree_index n) after)

  pub own : BelongsTo (compute_tree_index n) n
  own = record { aligned = new.aligned; large = new.large; word = new.word; index = refl }

  pub first_chunk : tries (compute_tree_index n) ≡ leaf → Result
  unfolding insert_large_chunk mark_treemap treemap_is_marked
  first_chunk empty =
      let i = compute_tree_index n in
      let lt = index_lt n new.large in
      let clear : not (bit_is_marked s.m.treemap i) ≡ true =
        ground (arith, inv.marked i lt, ap is_node empty) in
      let range = root_range n i new.large new.word refl in
      let ins = subst (λ u. Inserted x n u (node x n [] leaf leaf)) (sym empty) new_leaf in
      (
        first x i s,
        node x n [] leaf leaf,
        rw clear refl,
        refl,
        ins,
        (λ y ne off. first-SameAt x i y s ne),
        TreeBins-Inserted s (first x i s) tries i x n (node x n [] leaf leaf) inv lt own new.off
            refl refl (λ j h ne. ground arith) (mark_bit-lt s.m.treemap i inv.map lt)
            (λ j h. bit_is_marked-mark_bit s.m.treemap i j lt h)
            (λ y ne off. first-SameAt x i y s ne) ins first-Represents
            (new_leaf-IsTrie (undecided i) (base i) x n new.aligned (base_aligned i lt) range.0
              range.1)
            refl,
      )
