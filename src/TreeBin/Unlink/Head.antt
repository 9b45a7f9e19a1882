-- ===== src/TreeBin/Unlink/Head.antt =====
-- `unlink_large_chunk` on a node that another chunk replaces.
use dlmalloc_rs.Prelude.{ℕ, ◌<◌, ◌≡◌, ◌≢◌, ◌∙◌, inl, inr, refl, ap, sym, subst, List, arith}
use dlmalloc_rs.State.{State, MallocState, done, set_treebin}
use dlmalloc_rs.Head.{chunksize}
use dlmalloc_rs.TreeBin.{take_replacement}
use dlmalloc_rs.TreeBin.Trie.{Trie, node, Represents, IsRingChunk}
use dlmalloc_rs.TreeBin.Separate.{
  EveryChunk, IsSeparate, SameAt, All-map, All-both, EveryChunk-of, Represents-frame,
  IsRingChunk-frame, Links-frame,
}
use dlmalloc_rs.TreeBin.Insert.Ring.{IsReady}
use dlmalloc_rs.TreeBin.Insert.First.{SameAt-trans}
use dlmalloc_rs.TreeBin.Unlink.Replace.{Relinked}
use dlmalloc_rs.TreeBin.Unlink.Detach.{Detached}
use dlmalloc_rs.TreeBin.Unlink.Adopt.{Adopted, adopt-Adopted}
use dlmalloc_rs.TreeBin.Unlink.Steps.{replaced-steps, relink-root}
use dlmalloc_rs.TreeBin.Unlink.Tree.{Unlinked, OnlyLinks-OnlyTrees, OnlyTrees-trans}

IsReady-frame :
    (s t : State) (i k b : ℕ)
    → t.m.least_addr ≡ s.m.least_addr
    → SameAt s t b
    → IsReady s i k b
    → IsReady t i k b
IsReady-frame s t i k b low same h = record {
  nonnull = h.nonnull;
  low = omega (arith, low, h.low);
  size = same.node_same.size ∙ h.size;
  index = same.node_same.index ∙ h.index;
  no_left = same.child0 ∙ h.no_left;
  no_right = same.child1 ∙ h.no_right;
}

pub SameAt-set_treebin : (s : State) (i b y : ℕ) → SameAt s (set_treebin i b s) y
unfolding chunksize
SameAt-set_treebin s i b y = record {
  node_same = record { fd = refl; bk = refl; parent = refl; index = refl; size = refl };
  child0 = refl;
  child1 = refl;
}

-- A field that is relinked between two states is so between states around them.
pub Relinked-around :
    (s s1 s2 t : State) (xp x q : ℕ)
    → SameAt s s1 xp
    → SameAt s2 t xp
    → Relinked s1 s2 xp x q
    → Relinked s t xp x q
Relinked-around s s1 s2 t xp x q before behind link = elim link [
  | inl h ↦ inl (sym before.child0 ∙ h.0, behind.child0 ∙ h.1, behind.child1 ∙ h.2 ∙ before.child1)
  | inr h ↦ inr (sym before.child1 ∙ h.0, behind.child1 ∙ h.1, behind.child0 ∙ h.2 ∙ before.child0)
]

module _ (s s1 : State) (i x n b : ℕ) (ring : List ℕ) (l r : Trie)
    (take : take_replacement x s ≡ done b s1) (D : Detached s s1 i x n b ring l r) where
  -- The chunk takes the place of `x` when the state has changed elsewhere.
  pub adopts_there :
      (s2 : State) (xp : ℕ)
      → s2.m.least_addr ≡ s1.m.least_addr
      → SameAt s1 s2 x
      → EveryChunk (SameAt s1 s2) (node b D.size D.own D.left D.right)
      → IsSeparate (node x n ring l r)
      → Adopted s2 i x xp b D.size D.own D.left D.right
  adopts_there s2 xp low at_x same d =
      let apart = D.without.separate d in
      adopt-Adopted s2 i x xp b D.size D.own D.left D.right
        (IsReady-frame s1 s2 i D.size b low same.0 D.ready)
        (Links-frame s1 s2 b D.own (same.0.node_same, All-map _ _ D.own (λ y h. h.node_same) same.1)
          D.links)
        (All-map _ _ D.own (λ y h. IsRingChunk-frame s1 s2 i D.size y low h.0 h.1)
          (All-both (SameAt s1 s2) (IsRingChunk s1 i D.size) D.own same.1 D.own_chunks))
        (subst (λ q. Represents s2 i x q D.left) (sym at_x.child0)
          (Represents-frame s1 s2 i x (s1.heap.child0 x) D.left low same.2 D.left_shape))
        (subst (λ q. Represents s2 i x q D.right) (sym at_x.child1)
          (Represents-frame s1 s2 i x (s1.heap.child1 x) D.right low same.3 D.right_shape))
        apart.0 apart.1.0

  -- The root of a bin.
  pub replaced_root :
      (up : ℕ)
      → 0 < up
      → Represents s i up (s.m.treebins i) (node x n ring l r)
      → IsSeparate (node x n ring l r)
      → Unlinked s i up x (node x n ring l r)
  replaced_root up pos m d =
      let xp = s.heap.parent x in
      let s2 = set_treebin i b s1 in
      let v = node b D.size D.own D.left D.right in
      let same_m : s1.m ≡ s.m = ap (λ (z : State). z.m) D.only in
      let root : s1.m.treebins i ≡ x = ap (λ (z : MallocState). z.treebins i) same_m ∙ m.0 in
      let A =
        adopts_there s2 xp refl (SameAt-set_treebin s1 i b x)
          (EveryChunk-of (SameAt s1 s2) v (λ y. SameAt-set_treebin s1 i b y)) d in
      let t = A.after in
      let last_m : t.m ≡ s2.m = ap (λ (z : State). z.m) A.only in
      let entry : t.m.treebins i ≡ b =
        ap (λ (z : MallocState). z.treebins i) last_m ∙ ground arith in
      record {
        after = t;
        trie = v;
        steps =
            replaced-steps x b s s1 s2 t take (ground (arith, pos, m.1.parent))
              (relink-root x xp b i s1 (D.index ∙ m.1.index) root (ground (arith, D.ready.nonnull)))
              (ground (arith, D.ready.nonnull)) A.steps;
        only =
            OnlyTrees-trans s s2 t (OnlyTrees-trans s s1 s2 (OnlyLinks-OnlyTrees s s1 D.only) refl)
              (OnlyLinks-OnlyTrees s2 t A.only);
        shape =
            subst (λ q. Represents t i up q v) (sym entry)
              (subst (λ q. Represents t i q b v) m.1.parent A.shape);
        without = D.without;
        others = λ y off.
            SameAt-trans s s2 t y
              (SameAt-trans s s1 s2 y (D.others y off) (SameAt-set_treebin s1 i b y))
              (A.others y (D.without.every (λ z. y ≢ z) off));
        roots = λ j ne.
            ap (λ (z : MallocState). z.treebins j) last_m
            ∙ ground (arith, ne)
            ∙ ap (λ (z : MallocState). z.treebins j) same_m;
        map = inl (
          ap (λ (z : MallocState). z.treemap) last_m ∙ ap (λ (z : MallocState). z.treemap) same_m,
          refl,
        );
      }
