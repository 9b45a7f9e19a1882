-- ===== src/TreeBin/Unlink/Replace.antt =====
-- A subtree replaced in memory: the parent of its root points to the new root, and the rest of the
-- tree stands.
use dlmalloc_rs.Prelude.{ℕ, ◌<◌, ◌≡◌, ◌≢◌, ◌∙◌, ◌⊎◌, inl, inr, refl, sym, subst, List, arith, All}
use dlmalloc_rs.State.{State}
use dlmalloc_rs.TreeBin.Trie.{Trie, leaf, node, Represents}
use dlmalloc_rs.TreeBin.Separate.{
  EveryChunk, Avoids, IsSeparate, SameNode, SameAt, EveryChunk-mono, EveryChunk-both, All-map,
  All-both, Avoids-swap, Represents-frame, Represents-node,
}
use dlmalloc_rs.TreeBin.Unlink.{
  Below, at_left, at_right, in_left, in_right, replace, Below-EveryChunk,
}

-- The field of `xp` that led to `x` now leads to `q`.
abbrev pub Relinked : (s t : State) (xp x q : ℕ) → Type 0
Relinked s t xp x q =
    ((s.heap.child0 xp ≡ x) × (t.heap.child0 xp ≡ q) × (t.heap.child1 xp ≡ s.heap.child1 xp))
    ⊎ ((s.heap.child1 xp ≡ x) × (t.heap.child1 xp ≡ q) × (t.heap.child0 xp ≡ s.heap.child0 xp))

-- A pointer to another subtree.
pub not_child :
    (s : State) (i up p x : ℕ) (t : Trie) → Represents s i up p t → Avoids x t → 0 < x → p ≢ x
not_child s i up p x leaf m off pos = omega (arith, m, pos)
not_child s i up p x (node a n ring l r) m off pos = λ e. off.0 (sym e ∙ m.0)

module _ (s : State) (i x n : ℕ) (rg : List ℕ) (l r : Trie) where
  -- The root's parent is one of the chunks of the tree around it.
  pub parent_in :
      (P : ℕ → Type 0) (up p : ℕ) {t : Trie}
      → Below (node x n rg l r) t
      → Represents s i up p t
      → EveryChunk P t
      → P (s.heap.parent x)
  parent_in P up p at_left m h = subst P (sym m.4.1.parent) h.0
  parent_in P up p at_right m h = subst P (sym m.5.1.parent) h.0
  parent_in P up p (in_left {a} b) m h = parent_in P a (s.heap.child0 a) b m.4 h.2
  parent_in P up p (in_right {a} b) m h = parent_in P a (s.heap.child1 a) b m.5 h.3

  pub parent_link :
      (up p : ℕ) {t : Trie}
      → Below (node x n rg l r) t
      → Represents s i up p t
      → (s.heap.child0 (s.heap.parent x) ≡ x) ⊎ (s.heap.child1 (s.heap.parent x) ≡ x)
  parent_link up p at_left m = inl (subst (λ q. s.heap.child0 q ≡ x) (sym m.4.1.parent) m.4.0)
  parent_link up p at_right m = inr (subst (λ q. s.heap.child1 q ≡ x) (sym m.5.1.parent) m.5.0)
  parent_link up p (in_left {a} b) m = parent_link a (s.heap.child0 a) b m.4
  parent_link up p (in_right {a} b) m = parent_link a (s.heap.child1 a) b m.5

  pub Below-Represents :
      (up p : ℕ) {t : Trie}
      → Below (node x n rg l r) t
      → Represents s i up p t
      → Represents s i (s.heap.parent x) x (node x n rg l r)
  Below-Represents up p (at_left {a}) m =
      subst (λ q. Represents s i q x (node x n rg l r)) (sym m.4.1.parent)
        (subst (λ q. Represents s i a q (node x n rg l r)) m.4.0 m.4)
  Below-Represents up p (at_right {a}) m =
      subst (λ q. Represents s i q x (node x n rg l r)) (sym m.5.1.parent)
        (subst (λ q. Represents s i a q (node x n rg l r)) m.5.0 m.5)
  Below-Represents up p (in_left {a} b) m = Below-Represents a (s.heap.child0 a) b m.4
  Below-Represents up p (in_right {a} b) m = Below-Represents a (s.heap.child1 a) b m.5

  module _ (t : State) (v : Trie) (q : ℕ) (low : t.m.least_addr ≡ s.m.least_addr)
      (same : (y : ℕ) → Avoids y (node x n rg l r) → y ≢ s.heap.parent x → SameAt s t y)
      (at : SameNode s t (s.heap.parent x)) (linked : Relinked s t (s.heap.parent x) x q)
      (base : Represents t i (s.heap.parent x) q v) where
    -- The children of the parent, when `x` is the left one, and when it is the right one.
    linked_left :
        (a : ℕ) (w : Trie)
        → s.heap.parent x ≡ a
        → Represents s i a (s.heap.child1 a) w
        → Avoids x w
        → 0 < x
        → (t.heap.child0 a ≡ q) × (t.heap.child1 a ≡ s.heap.child1 a)
    linked_left a w e m off pos =
        let at_a = subst (λ (b : ℕ). Relinked s t b x q) e linked in
        elim at_a [
          | inl h ↦ (h.1, h.2)
          | inr h ↦ absurd (not_child s i a (s.heap.child1 a) x w m off pos h.0)
        ]

    linked_right :
        (a : ℕ) (w : Trie)
        → s.heap.parent x ≡ a
        → Represents s i a (s.heap.child0 a) w
        → Avoids x w
        → 0 < x
        → (t.heap.child1 a ≡ q) × (t.heap.child0 a ≡ s.heap.child0 a)
    linked_right a w e m off pos =
        let at_a = subst (λ (b : ℕ). Relinked s t b x q) e linked in
        elim at_a [
          | inl h ↦ absurd (not_child s i a (s.heap.child0 a) x w m off pos h.0)
          | inr h ↦ (h.1, h.2)
        ]

    -- Chunks apart from the parent and from the subtree.
    others :
        (a : ℕ) (w : Trie)
        → s.heap.parent x ≡ a
        → EveryChunk (λ y. Avoids y (node x n rg l r)) w
        → Avoids a w
        → EveryChunk (SameAt s t) w
    others a w e off off_a =
        EveryChunk-mono _ _ w (λ y h. same y h.0 (λ e'. h.1 (sym (e' ∙ e))))
          (EveryChunk-both _ _ w off off_a)

    others_ring :
        (a : ℕ) (ring : List ℕ)
        → s.heap.parent x ≡ a
        → All (λ y. Avoids y (node x n rg l r)) ring
        → All (λ y. a ≢ y) ring
        → All (SameAt s t) ring
    others_ring a ring e off off_a =
        All-map _ _ ring (λ y h. same y h.0 (λ e'. h.1 (sym (e' ∙ e))))
          (All-both _ _ ring off off_a)

    -- Chunks apart from a tree around the subtree.
    around :
        (up p y : ℕ) {u : Trie}
        → Below (node x n rg l r) u
        → Represents s i up p u
        → Avoids y u
        → SameAt s t y
    around up p y b m off =
        same y (Below-EveryChunk (λ z. y ≢ z) (node x n rg l r) b off)
          (parent_in (λ z. y ≢ z) up p b m off)

    pub replace-Represents :
        (up p : ℕ) {u : Trie} (b : Below (node x n rg l r) u)
        → Represents s i up p u
        → IsSeparate u
        → Represents t i up p (replace b v)
    replace-Represents up p (at_left {a} {n = k} {ring} {r = w}) m d =
        let u = node x n rg l r in
        let e = m.4.1.parent in
        let links = linked_left a w e m.5 d.3.0 m.4.1.nonnull in
        subst (λ c. Represents t i up c (node a k ring v w)) (sym m.0)
          (Represents-node s t i up a k ring u w v w low (subst (SameNode s t) e at)
            (others_ring a ring e (All-map _ _ ring (λ y h. h.0) d.2) d.0.0)
            (refl, m.1, m.2, m.3, m.4, m.5)
            (subst (λ c. Represents t i a c v) (sym links.0)
              (subst (λ c. Represents t i c q v) e base))
            (subst (λ c. Represents t i a c w) (sym links.1)
              (Represents-frame s t i a (s.heap.child1 a) w low
                (others a w e (Avoids-swap u w d.3) d.1.1) m.5)))
    replace-Represents up p (at_right {a} {n = k} {ring} {l = w}) m d =
        let u = node x n rg l r in
        let e = m.5.1.parent in
        let back = Avoids-swap w u d.3 in
        let links = linked_right a w e m.4 back.0 m.5.1.nonnull in
        subst (λ c. Represents t i up c (node a k ring w v)) (sym m.0)
          (Represents-node s t i up a k ring w u w v low (subst (SameNode s t) e at)
            (others_ring a ring e (All-map _ _ ring (λ y h. h.1) d.2) d.0.0)
            (refl, m.1, m.2, m.3, m.4, m.5)
            (subst (λ c. Represents t i a c w) (sym links.1)
              (Represents-frame s t i a (s.heap.child0 a) w low (others a w e d.3 d.1.0) m.4))
            (subst (λ c. Represents t i a c v) (sym links.0)
              (subst (λ c. Represents t i c q v) e base)))
    replace-Represents up p (in_left {a} {n = k} {ring} {l = u} {r = w} b) m d =
        let here = around a (s.heap.child0 a) a b m.4 d.1.0 in
        let off = Avoids-swap u w d.3 in
        subst (λ c. Represents t i up c (node a k ring (replace b v) w)) (sym m.0)
          (Represents-node s t i up a k ring u w (replace b v) w low here.node_same
            (All-map _ _ ring (λ y h. around a (s.heap.child0 a) y b m.4 h.0) d.2)
            (refl, m.1, m.2, m.3, m.4, m.5)
            (subst (λ c. Represents t i a c (replace b v)) (sym here.child0)
              (replace-Represents a (s.heap.child0 a) b m.4 d.4))
            (subst (λ c. Represents t i a c w) (sym here.child1)
              (Represents-frame s t i a (s.heap.child1 a) w low
                (EveryChunk-mono _ _ w (λ y h. around a (s.heap.child0 a) y b m.4 h) off) m.5)))
    replace-Represents up p (in_right {a} {n = k} {ring} {l = w} {r = u} b) m d =
        let here = around a (s.heap.child1 a) a b m.5 d.1.1 in
        subst (λ c. Represents t i up c (node a k ring w (replace b v))) (sym m.0)
          (Represents-node s t i up a k ring w u w (replace b v) low here.node_same
            (All-map _ _ ring (λ y h. around a (s.heap.child1 a) y b m.5 h.1) d.2)
            (refl, m.1, m.2, m.3, m.4, m.5)
            (subst (λ c. Represents t i a c w) (sym here.child0)
              (Represents-frame s t i a (s.heap.child0 a) w low
                (EveryChunk-mono _ _ w (λ y h. around a (s.heap.child1 a) y b m.5 h) d.3) m.4))
            (subst (λ c. Represents t i a c (replace b v)) (sym here.child1)
              (replace-Represents a (s.heap.child1 a) b m.5 d.5)))
