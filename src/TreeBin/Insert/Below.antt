-- ===== src/TreeBin/Insert/Below.antt =====
-- The walk of `insert_large_chunk` down a tree.
use dlmalloc_rs.Prelude.{ℕ, ◌≢◌, refl, ◌==◌, Bool-cases, inl, inr, [], arith}
use dlmalloc_rs.State.{State, set_parent, set_child}
use dlmalloc_rs.Head.{chunksize}
use dlmalloc_rs.TreeBin.{link_self}
use dlmalloc_rs.TreeBin.Trie.{Trie, leaf, node, IsTrie, Represents}
use dlmalloc_rs.TreeBin.Separate.{Avoids, SameNode, SameAt}
use dlmalloc_rs.TreeBin.Insert.{Inserted}
use dlmalloc_rs.TreeBin.Insert.Ring.{IsReady, OnlyLinks}

-- The chunk `x` is in the trie `after` that was `u`, and no chunk elsewhere has changed.
pub record IsInserted (s t : State) (i up x n w lo p : ℕ) (u : Trie) : Type 0 where
  pub after : Trie
  pub inserted : Inserted x n u after
  pub shape : Represents t i up p after
  pub ordered : IsTrie w lo after
  pub same : (y : ℕ) → y ≢ x → Avoids y u → SameAt s t y
  pub only : OnlyLinks s t

abbrev pub leaf_insertion : (x a side : ℕ) → State → State
leaf_insertion x a side s = link_self x (set_parent x a (set_child a side x s))

pub leaf_insertion-SameAt :
    (x a side y : ℕ) (s : State) → y ≢ x → y ≢ a → SameAt s (leaf_insertion x a side s) y
unfolding chunksize
leaf_insertion-SameAt x a side y s ne_x ne_a = elim (Bool-cases (side == 0)) [
  | inl e ↦ rw e (record {
    node_same = record {
      fd = ground arith;
      bk = ground arith;
      parent = ground arith;
      index = refl;
      size = refl;
    };
    child0 = ground arith;
    child1 = refl;
  })
  | inr e ↦ rw e (record {
    node_same = record {
      fd = ground arith;
      bk = ground arith;
      parent = ground arith;
      index = refl;
      size = refl;
    };
    child0 = refl;
    child1 = ground arith;
  })
]

pub leaf_insertion-SameNode :
    (x a side y : ℕ) (s : State) → y ≢ x → SameNode s (leaf_insertion x a side s) y
unfolding chunksize
leaf_insertion-SameNode x a side y s ne = elim (Bool-cases (side == 0)) [
  | inl e ↦ rw e (record {
    fd = ground arith;
    bk = ground arith;
    parent = ground arith;
    index = refl;
    size = refl;
  })
  | inr e ↦ rw e (record {
    fd = ground arith;
    bk = ground arith;
    parent = ground arith;
    index = refl;
    size = refl;
  })
]

-- The new chunk as a leaf.
pub leaf_insertion-leaf :
    (i n x a side : ℕ) (s : State)
    → x ≢ a
    → IsReady s i n x
    → Represents (leaf_insertion x a side s) i a x (node x n [] leaf leaf)
unfolding chunksize
leaf_insertion-leaf i n x a side s ne h = elim (Bool-cases (side == 0)) [
  | inl e ↦ rw e (
    refl,
    record {
      nonnull = h.nonnull;
      low = h.low;
      size = h.size;
      parent = ground arith;
      index = h.index;
    },
    (ground arith, ground arith),
    tt,
    ground (arith, h.no_left),
    h.no_right,
  )
  | inr e ↦ rw e (
    refl,
    record {
      nonnull = h.nonnull;
      low = h.low;
      size = h.size;
      parent = ground arith;
      index = h.index;
    },
    (ground arith, ground arith),
    tt,
    h.no_left,
    ground (arith, h.no_right),
  )
]
