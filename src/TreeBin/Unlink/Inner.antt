-- ===== src/TreeBin/Unlink/Inner.antt =====
-- `unlink_large_chunk` on a node below another one, and on a leaf that nothing replaces.
use dlmalloc_rs.Prelude.{
  ℕ, ◌<◌, ◌≤◌, ◌≡◌, ◌≢◌, ◌∙◌, ◌⊎◌, inl, inr, refl, ap, sym, subst, List, [], arith,
}
use dlmalloc_rs.State.{State, MallocState, done, set_child, set_treebin}
use dlmalloc_rs.Head.{chunksize}
use dlmalloc_rs.TreeBin.{take_replacement, relink_parent, clear_treemap}
use dlmalloc_rs.TreeBin.Trie.{Trie, leaf, node, Represents}
use dlmalloc_rs.TreeBin.Separate.{Avoids, IsSeparate, SameAt, EveryChunk-mono}
use dlmalloc_rs.TreeBin.Insert.First.{SameAt-trans}
use dlmalloc_rs.TreeBin.Unlink.{Below, replace, Below-EveryChunk, Below-IsSeparate, Without-replace}
use dlmalloc_rs.TreeBin.Unlink.Replace.{
  Relinked, parent_in, parent_link, Below-Represents, replace-Represents,
}
use dlmalloc_rs.TreeBin.Unlink.Leaf.{Represents-low, leaf-Without}
use dlmalloc_rs.TreeBin.Unlink.Child.{
  set_child-OnlyLinks, set_child-SameNode, set_child-SameAt, set_child-Relinked,
}
use dlmalloc_rs.TreeBin.Unlink.Detach.{Detached}
use dlmalloc_rs.TreeBin.Unlink.Adopt.{OnlyLinks-trans, SameNode-trans}
use dlmalloc_rs.TreeBin.Unlink.Steps.{removed-steps, replaced-steps, relink-last, relink-below}
use dlmalloc_rs.TreeBin.Unlink.Tree.{
  Unlinked, OnlyLinks-OnlyTrees, Represents-nonnull, replace-filled, parent_avoids, other_root,
}
use dlmalloc_rs.TreeBin.Unlink.Head.{Relinked-around, adopts_there}

SameAt-refl : (s : State) (y : ℕ) → SameAt s s y
SameAt-refl s y = record {
  node_same = record { fd = refl; bk = refl; parent = refl; index = refl; size = refl };
  child0 = refl;
  child1 = refl;
}

SameAt-last : (s : State) (i y : ℕ) → SameAt s (clear_treemap i (set_treebin i 0 s)) y
unfolding chunksize clear_treemap
SameAt-last s i y = record {
  node_same = record { fd = refl; bk = refl; parent = refl; index = refl; size = refl };
  child0 = refl;
  child1 = refl;
}

-- A node below another one: what is known of its parent.
module _ (s : State) (i up p x n : ℕ) (ring : List ℕ) (l r : Trie) {u : Trie}
    (place : Below (node x n ring l r) u) (m : Represents s i up p u) (d : IsSeparate u) where
  parent_nonnull : s.heap.parent x ≢ 0
  parent_nonnull =
      let pos =
        parent_in s i x n ring l r (λ y. 0 < y) up p place m (Represents-nonnull s i up p u m) in
      ground (arith, pos)

  -- The field of the parent is written.
  relinks :
      (q : ℕ) (s1 : State)
      → s1.m ≡ s.m
      → s1.heap.index x ≡ s.heap.index x
      → SameAt s s1 (s.heap.parent x)
      → p ≡ s.m.treebins i
      → (side : ℕ) × (relink_parent x (s.heap.parent x) q s1
          ≡ done tt (set_child (s.heap.parent x) side q s1))
        × Relinked s1 (set_child (s.heap.parent x) side q s1) (s.heap.parent x) x q
  relinks q s1 same_m same_index same root =
      let xp = s.heap.parent x in
      let own = Below-Represents s i x n ring l r up p place m in
      let other = other_root s i x n ring l r up p place m d in
      let low =
        parent_in s i x n ring l r (λ y. s.m.least_addr ≤ y) up p place m
          (Represents-low s i up p u m) in
      let link : (s1.heap.child0 xp ≡ x) ⊎ (s1.heap.child1 xp ≡ x) =
        elim (parent_link s i x n ring l r up p place m) [
          | inl e ↦ inl (same.child0 ∙ e)
          | inr e ↦ inr (same.child1 ∙ e)
        ] in
      let step =
        relink-below x xp q i s1 (same_index ∙ own.1.index)
          (λ e. other (root ∙ sym (ap (λ (z : MallocState). z.treebins i) same_m) ∙ e))
          (subst (λ (z : MallocState). z.least_addr ≤ xp) (sym same_m) low) link in
      (step.0, step.3, set_child-Relinked xp step.0 q s1 x step.1 step.2)

module _ (s s1 : State) (i up x n b : ℕ) (ring : List ℕ) (l r : Trie) {u : Trie}
    (place : Below (node x n ring l r) u) (m : Represents s i up (s.m.treebins i) u)
    (d : IsSeparate u) (take : take_replacement x s ≡ done b s1)
    (D : Detached s s1 i x n b ring l r) where
  pub replaced_inside : Unlinked s i up x u
  replaced_inside =
      let sub = node x n ring l r in
      let p = s.m.treebins i in
      let xp = s.heap.parent x in
      let v = node b D.size D.own D.left D.right in
      let off = parent_avoids s i x n ring l r up p place m d in
      let same_m : s1.m ≡ s.m = ap (λ (z : State). z.m) D.only in
      let link =
        relinks s i up p x n ring l r place m d b s1 same_m D.index (D.others xp off) refl in
      let side = link.0 in
      let s2 = set_child xp side b s1 in
      let only2 = set_child-OnlyLinks xp side b s1 in
      let elsewhere = set_child-SameAt xp side b s1 in
      let A =
        adopts_there s s1 i x n b ring l r take D s2 xp (ap (λ (z : State). z.m.least_addr) only2)
          (elsewhere x (λ e. off.0 (sym e)))
          (EveryChunk-mono _ _ v (λ y ne. elsewhere y (λ e. ne (sym e)))
            (D.without.every (λ z. xp ≢ z) off))
          (Below-IsSeparate sub place d) in
      let t = A.after in
      let only = OnlyLinks-trans s s2 t (OnlyLinks-trans s s1 s2 D.only only2) A.only in
      let same = λ (y : ℕ) (ne : y ≢ xp) (away : Avoids y sub).
        SameAt-trans s s2 t y (SameAt-trans s s1 s2 y (D.others y away) (elsewhere y ne))
          (A.others y (D.without.every (λ z. y ≢ z) away)) in
      let behind = A.others xp (D.without.every (λ z. xp ≢ z) off) in
      let last_m : t.m ≡ s.m = ap (λ (z : State). z.m) only in
      record {
        after = t;
        trie = replace place v;
        steps =
            replaced-steps x b s s1 s2 t take (parent_nonnull s i up p x n ring l r place m d)
              link.1 (ground (arith, D.ready.nonnull)) A.steps;
        only = OnlyLinks-OnlyTrees s t only;
        shape =
            subst (λ q. Represents t i up q (replace place v))
              (sym (ap (λ (z : MallocState). z.treebins i) last_m))
              (replace-Represents s i x n ring l r t v b
                (ap (λ (z : MallocState). z.least_addr) last_m) (λ y away ne. same y ne away)
                (SameNode-trans s s2 t xp
                  (SameNode-trans s s1 s2 xp (D.others xp off).node_same
                    (set_child-SameNode xp side b s1 xp))
                  behind.node_same)
                (Relinked-around s s1 s2 t xp x b (D.others xp off) behind link.2) A.shape up p
                place m d);
        without = Without-replace x [] sub v place D.without;
        others = λ y away.
            same y (λ e. parent_in s i x n ring l r (λ z. y ≢ z) up p place m away e)
              (Below-EveryChunk (λ z. y ≢ z) sub place away);
        roots = λ j ne. ap (λ (z : MallocState). z.treebins j) last_m;
        map = inl (ap (λ (z : MallocState). z.treemap) last_m, replace-filled place v);
      }

-- A leaf that is alone in its ring.
module _ (s : State) (i up x n : ℕ) (take : take_replacement x s ≡ done 0 s) where
  pub removed_root :
      0 < up
      → Represents s i up (s.m.treebins i) (node x n [] leaf leaf)
      → Unlinked s i up x (node x n [] leaf leaf)
  unfolding clear_treemap
  removed_root pos m =
      let xp = s.heap.parent x in
      record {
        after = clear_treemap i (set_treebin i 0 s);
        trie = leaf;
        steps =
            removed-steps x s (clear_treemap i (set_treebin i 0 s)) take
              (ground (arith, pos, m.1.parent)) (relink-last x xp i s m.1.index m.0);
        only = refl;
        shape = ground arith;
        without = leaf-Without x n [];
        others = λ y off. SameAt-last s i y;
        roots = λ j ne. ground (arith, ne);
        map = inr (refl, refl);
      }

  pub removed_inside :
      {u : Trie} (place : Below (node x n [] leaf leaf) u)
      → Represents s i up (s.m.treebins i) u
      → IsSeparate u
      → Unlinked s i up x u
  removed_inside {u} place m d =
      let sub = node x n [] leaf leaf in
      let p = s.m.treebins i in
      let xp = s.heap.parent x in
      let off = parent_avoids s i x n [] leaf leaf up p place m d in
      let link =
        relinks s i up p x n [] leaf leaf place m d 0 s refl refl (SameAt-refl s xp) refl in
      let side = link.0 in
      let t = set_child xp side 0 s in
      let only = set_child-OnlyLinks xp side 0 s in
      let elsewhere = set_child-SameAt xp side 0 s in
      let last_m : t.m ≡ s.m = ap (λ (z : State). z.m) only in
      record {
        after = t;
        trie = replace place leaf;
        steps =
            removed-steps x s t take (parent_nonnull s i up p x n [] leaf leaf place m d) link.1;
        only = OnlyLinks-OnlyTrees s t only;
        shape =
            subst (λ q. Represents t i up q (replace place leaf))
              (sym (ap (λ (z : MallocState). z.treebins i) last_m))
              (replace-Represents s i x n [] leaf leaf t leaf 0
                (ap (λ (z : MallocState). z.least_addr) last_m) (λ y away ne. elsewhere y ne)
                (set_child-SameNode xp side 0 s xp) link.2 refl up p place m d);
        without = Without-replace x [] sub leaf place (leaf-Without x n []);
        others = λ y away.
            elsewhere y (λ e. parent_in s i x n [] leaf leaf (λ z. y ≢ z) up p place m away e);
        roots = λ j ne. ap (λ (z : MallocState). z.treebins j) last_m;
        map = inl (ap (λ (z : MallocState). z.treemap) last_m, replace-filled place leaf);
      }
