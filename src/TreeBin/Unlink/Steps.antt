-- ===== src/TreeBin/Unlink/Steps.antt =====
-- The steps of `unlink_large_chunk` put together, for each way that it can take.
use dlmalloc_rs.Prelude.{
  ℕ, ◌≤◌, ◌≡◌, ◌≢◌, ◌⊎◌, inl, inr, refl, true, false, not, ◌==◌, Bool-cases, arith,
}
use dlmalloc_rs.State.{State, done, child, child_addr, set_child, set_treebin, ok_address}
use dlmalloc_rs.TreeBin.{
  take_leaf, take_replacement, relink_parent, adopt, unlink_large_chunk, clear_treemap,
}
use dlmalloc_rs.TreeBin.Trie.{Trie}
use dlmalloc_rs.TreeBin.Unlink.Leaf.{EndsAt}

-- A chunk behind the first one of a ring has no parent.
pub ring_chunk-steps :
    (x r : ℕ) (s t : State)
    → take_replacement x s ≡ done r t
    → s.heap.parent x ≡ 0
    → unlink_large_chunk x s ≡ done tt t
unfolding unlink_large_chunk
ring_chunk-steps x r s t take none =
    let stop : not (s.heap.parent x == 0) ≡ false = ground (arith, none) in rw (take, stop) refl

-- A node that another chunk replaces.
pub replaced-steps :
    (x r : ℕ) (s s1 s2 t : State)
    → take_replacement x s ≡ done r s1
    → s.heap.parent x ≢ 0
    → relink_parent x (s.heap.parent x) r s1 ≡ done tt s2
    → r ≢ 0
    → adopt x (s.heap.parent x) r s2 ≡ done tt t
    → unlink_large_chunk x s ≡ done tt t
unfolding unlink_large_chunk
replaced-steps x r s s1 s2 t take some relink more adopts =
    let go : not (s.heap.parent x == 0) ≡ true = ground (arith, some) in
    let given : not (r == 0) ≡ true = ground (arith, more) in rw (take, go, relink, given) adopts

-- A leaf that is alone in its ring.
pub removed-steps :
    (x : ℕ) (s t : State)
    → take_replacement x s ≡ done 0 s
    → s.heap.parent x ≢ 0
    → relink_parent x (s.heap.parent x) 0 s ≡ done tt t
    → unlink_large_chunk x s ≡ done tt t
unfolding unlink_large_chunk
removed-steps x s t take some relink =
    let go : not (s.heap.parent x == 0) ≡ true = ground (arith, some) in rw (take, go, relink) refl

-- The root of bin `i`.
pub relink-root :
    (x xp r i : ℕ) (s : State)
    → s.heap.index x ≡ i
    → s.m.treebins i ≡ x
    → r ≢ 0
    → relink_parent x xp r s ≡ done tt (set_treebin i r s)
unfolding relink_parent
relink-root x xp r i s at root more =
    let here : (x == s.m.treebins i) ≡ true = ground (arith, root) in
    let given : (r == 0) ≡ false = ground (arith, more) in rw (at, here, given) refl

pub relink-last :
    (x xp i : ℕ) (s : State)
    → s.heap.index x ≡ i
    → s.m.treebins i ≡ x
    → relink_parent x xp 0 s ≡ done tt (clear_treemap i (set_treebin i 0 s))
unfolding relink_parent
relink-last x xp i s at root =
    let here : (x == s.m.treebins i) ≡ true = ground (arith, root) in rw (at, here) refl

-- A node below another one: the field of the parent that leads to it.
pub relink-below :
    (x xp r i : ℕ) (s : State)
    → s.heap.index x ≡ i
    → s.m.treebins i ≢ x
    → s.m.least_addr ≤ xp
    → (s.heap.child0 xp ≡ x) ⊎ (s.heap.child1 xp ≡ x)
    → (side : ℕ) × (child s xp side ≡ x)
      × ((side ≡ 0) ⊎ (side ≡ 1))
      × (relink_parent x xp r s ≡ done tt (set_child xp side r s))
unfolding relink_parent
relink-below x xp r i s at other low link =
    let off : (x == s.m.treebins i) ≡ false = ground (arith, other) in
    let fine : ok_address s xp ≡ true = ground (arith, low) in
    elim (Bool-cases (s.heap.child0 xp == x)) [
      | inl e ↦ (0, ground (arith, e), inl refl, rw (at, off, fine, e) refl)
      | inr e ↦ elim link [
        | inl h ↦ absurd (ground (arith, h, e))
        | inr h ↦ (1, h, inr refl, rw (at, off, fine, e) refl)
      ]
    ]

module _ (x : ℕ) (s : State) (alone : s.heap.bk x ≡ x) where
  -- The leaf that the walk finds takes the place of a node without a ring.
  cut-steps :
      (side p : ℕ) (v : Trie) (R : EndsAt s 64 x side p v)
      → s.m.least_addr ≤ R.above
      → take_leaf x side p s ≡ done (R.found) (set_child R.above R.way 0 s)
  unfolding take_leaf
  cut-steps side p v R low =
      let fine : ok_address s (child_addr R.above R.way) ≡ true = ground (arith, low) in
      rw (R.steps, fine) refl

  pub from_right-steps :
      (v : Trie) (R : EndsAt s 64 x 1 (s.heap.child1 x) v)
      → s.heap.child1 x ≢ 0
      → s.m.least_addr ≤ R.above
      → take_replacement x s ≡ done (R.found) (set_child R.above R.way 0 s)
  unfolding take_replacement
  from_right-steps v R some low =
      let single : not (s.heap.bk x == x) ≡ false = ground (arith, alone) in
      let go : not (s.heap.child1 x == 0) ≡ true = ground (arith, some) in
      rw (single, go) (cut-steps 1 (s.heap.child1 x) v R low)

  pub from_left-steps :
      (v : Trie) (R : EndsAt s 64 x 0 (s.heap.child0 x) v)
      → s.heap.child1 x ≡ 0
      → s.heap.child0 x ≢ 0
      → s.m.least_addr ≤ R.above
      → take_replacement x s ≡ done (R.found) (set_child R.above R.way 0 s)
  unfolding take_replacement
  from_left-steps v R none some low =
      let single : not (s.heap.bk x == x) ≡ false = ground (arith, alone) in
      let stop : not (s.heap.child1 x == 0) ≡ false = ground (arith, none) in
      let go : not (s.heap.child0 x == 0) ≡ true = ground (arith, some) in
      rw (single, stop, go) (cut-steps 0 (s.heap.child0 x) v R low)

  pub no_child-steps : s.heap.child1 x ≡ 0 → s.heap.child0 x ≡ 0 → take_replacement x s ≡ done 0 s
  unfolding take_replacement
  no_child-steps right left =
      let single : not (s.heap.bk x == x) ≡ false = ground (arith, alone) in
      let stop : not (s.heap.child1 x == 0) ≡ false = ground (arith, right) in
      let none : not (s.heap.child0 x == 0) ≡ false = ground (arith, left) in
      rw (single, stop, none) refl
