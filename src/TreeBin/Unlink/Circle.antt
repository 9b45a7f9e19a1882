-- ===== src/TreeBin/Unlink/Circle.antt =====
-- What a tree is after a chunk was taken out of a ring: one behind a node, or the node itself.
use dlmalloc_rs.Prelude.{
  ℕ, ◌≤◌, ◌≡◌, ◌≢◌, ◌∙◌, refl, ap, sym, subst, List, [], ◌∷◌, ◌++◌, All, All-append, All_at,
  All-remove, Distinct-append_middle,
}
use dlmalloc_rs.State.{State, done}
use dlmalloc_rs.SmallBin.Ring.{split, join, bk_ne, bk_All, fd_All, fd-bk, bk-fd}
use dlmalloc_rs.TreeBin.{take_replacement}
use dlmalloc_rs.TreeBin.Trie.{Trie, node, Represents}
use dlmalloc_rs.TreeBin.Separate.{Avoids, IsSeparate, SameAt, All-map}
use dlmalloc_rs.TreeBin.Unlink.Detach.{Detached}
use dlmalloc_rs.TreeBin.Unlink.Ring.{
  ring_cut, ring_cut-steps, ring_cut-SameAt, IsTreeChunk-cut, IsRingChunk-cut, Represents-cut,
  Distinct-append_last, first-Without,
}

module _ (s : State) (i up a k x : ℕ) (ys zs : List ℕ) (l r : Trie)
    (m : Represents s i up a (node a k (ys ++ x ∷ zs) l r))
    (d : IsSeparate (node a k (ys ++ x ∷ zs) l r)) where
  -- What holds of the node and its ring holds of the neighbours.
  neighbours : (P : ℕ → Type 0) → P a → All P (ys ++ x ∷ zs) → P (s.heap.bk x) × P (s.heap.fd x)
  neighbours P h hs =
      let links = split s.heap.fd s.heap.bk a ys x zs a m.2 in
      let parts = All-append P ys (x ∷ zs) hs in
      (
        bk_All s.heap.fd s.heap.bk P a ys x links.0 (h, parts.0),
        fd_All s.heap.fd s.heap.bk P x zs a links.1 parts.1.1 h,
      )

  pub member-steps : take_replacement x s ≡ done (s.heap.bk x) (ring_cut x s)
  member-steps =
      let links = split s.heap.fd s.heap.bk a ys x zs a m.2 in
      let other : x ≢ a = λ e. All_at (λ y. a ≢ y) ys x zs d.0.0 (sym e) in
      let fresh = (All-append (λ y. x ≢ y) ys zs (Distinct-append_middle ys x zs d.0.1).1).0 in
      let low =
        neighbours (λ y. s.m.least_addr ≤ y) m.1.low
          (All-map _ _ (ys ++ x ∷ zs) (λ y h. h.chunk.low) m.3) in
      ring_cut-steps x s (λ e. bk_ne s.heap.fd s.heap.bk x a ys x links.0 (other, fresh) (sym e))
        low.1 (bk-fd s.heap.fd s.heap.bk x zs a links.1) (fd-bk s.heap.fd s.heap.bk a ys x links.0)

  pub member-Represents : Represents (ring_cut x s) i up a (node a k (ys ++ zs) l r)
  member-Represents =
      let links = split s.heap.fd s.heap.bk a ys x zs a m.2 in
      let off = neighbours (λ y. Avoids y l × Avoids y r) d.1 d.2 in
      (
        refl,
        IsTreeChunk-cut s x i up k a m.1,
        join s.heap.fd s.heap.bk a ys x zs a links.0 links.1
            (All-remove (λ y. a ≢ y) ys x zs d.0.0, (Distinct-append_middle ys x zs d.0.1).0)
            (All-remove (λ y. a ≢ y) ys x zs d.0.0),
        All-map _ _ (ys ++ zs) (λ y h. IsRingChunk-cut s x i k y h) (All-remove _ ys x zs m.3),
        Represents-cut s x i a (s.heap.child0 a) l off.0.0 off.1.0 m.4,
        Represents-cut s x i a (s.heap.child1 a) r off.0.1 off.1.1 m.5,
      )

  pub member-SameAt : (y : ℕ) → Avoids y (node a k (ys ++ x ∷ zs) l r) → SameAt s (ring_cut x s) y
  member-SameAt y off =
      let ne = neighbours (λ z. y ≢ z) off.0 off.1 in ring_cut-SameAt x y s ne.0 ne.1

module _ (s : State) (i up x n b : ℕ) (ys : List ℕ) (l r : Trie)
    (m : Represents s i up x (node x n (ys ++ b ∷ []) l r))
    (d : IsSeparate (node x n (ys ++ b ∷ []) l r)) where
  first_neighbour : (P : ℕ → Type 0) → All P (ys ++ b ∷ []) → P (s.heap.fd x)
  first_neighbour P h =
      let links = split s.heap.fd s.heap.bk x ys b [] x m.2 in
      let parts = All-append P ys (b ∷ []) h in
      fd_All s.heap.fd s.heap.bk P x ys b links.0 parts.0 parts.1.0

  pub first-steps : take_replacement x s ≡ done b (ring_cut x s)
  first-steps =
      let links = split s.heap.fd s.heap.bk x ys b [] x m.2 in
      let other = (All-append (λ y. x ≢ y) ys (b ∷ []) d.0.0).1.0 in
      ring_cut-steps x s (λ e. other (sym e ∙ links.1.1))
        (first_neighbour (λ y. s.m.least_addr ≤ y)
          (All-map _ _ (ys ++ b ∷ []) (λ y h. h.chunk.low) m.3))
        (bk-fd s.heap.fd s.heap.bk x ys b links.0) (fd-bk s.heap.fd s.heap.bk b [] x links.1)
      ∙ ap (λ (q : ℕ). done q (ring_cut x s)) links.1.1

  first-Represents :
      (c : ℕ) (t : Trie)
      → Avoids b t
      → All (λ y. Avoids y t) (ys ++ b ∷ [])
      → Represents s i x c t
      → Represents (ring_cut x s) i x c t
  first-Represents c t off offs mt =
      let links = split s.heap.fd s.heap.bk x ys b [] x m.2 in
      Represents-cut s x i x c t (subst (λ q. Avoids q t) (sym links.1.1) off)
        (first_neighbour (λ y. Avoids y t) offs) mt

  pub first-Detached : Detached s (ring_cut x s) i x n b (ys ++ b ∷ []) l r
  first-Detached =
      let links = split s.heap.fd s.heap.bk x ys b [] x m.2 in
      let own = Distinct-append_last ys b d.0.1 in
      let chunks = All-append _ ys (b ∷ []) m.3 in
      let last = IsRingChunk-cut s x i n b chunks.1.0 in
      let offs = All-append _ ys (b ∷ []) d.2 in
      record {
        size = n;
        own = ys;
        left = l;
        right = r;
        only = refl;
        left_shape =
            first-Represents (s.heap.child0 x) l offs.1.0.0
              (All-map _ _ (ys ++ b ∷ []) (λ y h. h.0) d.2) m.4;
        right_shape =
            first-Represents (s.heap.child1 x) r offs.1.0.1
              (All-map _ _ (ys ++ b ∷ []) (λ y h. h.1) d.2) m.5;
        ready = record {
          nonnull = last.chunk.nonnull;
          low = last.chunk.low;
          size = last.chunk.size;
          index = last.chunk.index;
          no_left = last.no_left;
          no_right = last.no_right;
        };
        links = join s.heap.fd s.heap.bk b [] x ys b links.1 links.0 own own.0;
        own_chunks = All-map _ _ ys (λ y h. IsRingChunk-cut s x i n y h) chunks.0;
        index = refl;
        others = λ y off.
            ring_cut-SameAt x y s
              (λ e. (All-append (λ z. y ≢ z) ys (b ∷ []) off.1).1.0 (e ∙ links.1.1))
              (first_neighbour (λ z. y ≢ z) off.1);
        without = first-Without x n b ys l r;
      }
