-- ===== src/TreeBin/Unlink/Child.antt =====
-- A write of a child field, as the steps of `unlink_large_chunk` make it.
use dlmalloc_rs.Prelude.{ℕ, ◌≡◌, ◌≢◌, ◌⊎◌, inl, inr, refl, ◌==◌, Bool-cases, arith}
use dlmalloc_rs.State.{State, child, set_child}
use dlmalloc_rs.Head.{chunksize}
use dlmalloc_rs.TreeBin.Separate.{SameNode, SameAt}
use dlmalloc_rs.TreeBin.Insert.Ring.{OnlyLinks}
use dlmalloc_rs.TreeBin.Unlink.Replace.{Relinked}

module _ (p side q : ℕ) (s : State) where
  pub set_child-OnlyLinks : OnlyLinks s (set_child p side q s)
  set_child-OnlyLinks = elim (Bool-cases (side == 0)) [ inl e ↦ rw e refl | inr e ↦ rw e refl ]

  pub set_child-SameNode : (y : ℕ) → SameNode s (set_child p side q s) y
  unfolding chunksize
  set_child-SameNode y = elim (Bool-cases (side == 0)) [
    | inl e ↦ rw e (record { fd = refl; bk = refl; parent = refl; index = refl; size = refl })
    | inr e ↦ rw e (record { fd = refl; bk = refl; parent = refl; index = refl; size = refl })
  ]

  pub set_child-SameAt : (y : ℕ) → y ≢ p → SameAt s (set_child p side q s) y
  unfolding chunksize
  set_child-SameAt y ne = elim (Bool-cases (side == 0)) [
    | inl e ↦ rw e (record {
      node_same = record { fd = refl; bk = refl; parent = refl; index = refl; size = refl };
      child0 = ground (arith, ne);
      child1 = refl;
    })
    | inr e ↦ rw e (record {
      node_same = record { fd = refl; bk = refl; parent = refl; index = refl; size = refl };
      child0 = refl;
      child1 = ground (arith, ne);
    })
  ]

  pub set_child-Relinked :
      (x : ℕ)
      → child s p side ≡ x
      → (side ≡ 0) ⊎ (side ≡ 1)
      → Relinked s (set_child p side q s) p x q
  set_child-Relinked x link ways = elim (Bool-cases (side == 0)) [
    | inl e ↦ rw e (inl (ground (arith, link, e), ground arith, refl))
    | inr e ↦ rw e (inr (ground (arith, link, e), ground arith, refl))
  ]

-- An empty child stays empty when a child field is cleared.
pub cleared :
    (p side y : ℕ) (s : State)
    → s.heap.child0 y ≡ 0
    → s.heap.child1 y ≡ 0
    → ((set_child p side 0 s).heap.child0 y ≡ 0) × ((set_child p side 0 s).heap.child1 y ≡ 0)
cleared p side y s left right = elim (Bool-cases (side == 0)) [
  | inl e ↦ rw e (ground (arith, left), right)
  | inr e ↦ rw e (left, ground (arith, right))
]
