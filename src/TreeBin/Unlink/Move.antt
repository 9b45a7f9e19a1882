-- ===== src/TreeBin/Unlink/Move.antt =====
-- `move_child`: a subtree of one node goes to another.
use dlmalloc_rs.Prelude.{
  ℕ, ◌<◌, ◌≤◌, ◌≡◌, ◌≢◌, ◌∙◌, refl, ap, sym, subst, true, false, not, ◌==◌, if◌then◌else◌,
  Bool-cases, inl, inr, List, arith,
}
use dlmalloc_rs.State.{State, done, child, set_child, set_parent, ok_address}
use dlmalloc_rs.Head.{chunksize}
use dlmalloc_rs.SmallBin.Ring.{frame}
use dlmalloc_rs.TreeBin.{move_child}
use dlmalloc_rs.TreeBin.Trie.{Trie, leaf, node, Represents, IsRingChunk}
use dlmalloc_rs.TreeBin.Separate.{
  Avoids, IsSeparate, SameNode, SameAt, EveryChunk-mono, EveryChunk-both, All-map, All-both,
  Represents-frame, IsRingChunk-frame,
}
use dlmalloc_rs.TreeBin.Insert.Ring.{OnlyLinks}

-- The subtree `v` of the node `x` is now one of the chunk `b`.
pub record Moved (s : State) (i x b side : ℕ) (v : Trie) : Type 0 where
  pub after : State
  pub steps : move_child side x b s ≡ done tt after
  pub only : OnlyLinks s after
  pub shape : Represents after i b (child after b side) v
  pub others : (y : ℕ) → y ≢ b → Avoids y v → SameAt s after y
  pub at : SameNode s after b
  pub kept : child after b (if side == 0 then 1 else 0) ≡ child s b (if side == 0 then 1 else 0)

abbrev moved : (side c b : ℕ) → State → State
moved side c b s = set_parent c b (set_child b side c s)

module _ (side c b : ℕ) (s : State) (ne : c ≢ b) where
  moved-SameAt : (y : ℕ) → y ≢ b → y ≢ c → SameAt s (moved side c b s) y
  unfolding chunksize
  moved-SameAt y ne_b ne_c = elim (Bool-cases (side == 0)) [
    | inl e ↦ rw e (record {
      node_same = record {
        fd = refl;
        bk = refl;
        parent = ground (arith, ne_c);
        index = refl;
        size = refl;
      };
      child0 = ground (arith, ne_b);
      child1 = refl;
    })
    | inr e ↦ rw e (record {
      node_same = record {
        fd = refl;
        bk = refl;
        parent = ground (arith, ne_c);
        index = refl;
        size = refl;
      };
      child0 = refl;
      child1 = ground (arith, ne_b);
    })
  ]

  moved-SameNode : SameNode s (moved side c b s) b
  unfolding chunksize
  moved-SameNode = elim (Bool-cases (side == 0)) [
    | inl e ↦
        rw e
          (record { fd = refl; bk = refl; parent = ground (arith, ne); index = refl; size = refl })
    | inr e ↦
        rw e
          (record { fd = refl; bk = refl; parent = ground (arith, ne); index = refl; size = refl })
  ]

  -- The root of the subtree has a new parent, and no other change.
  moved-root :
      (moved side c b s).heap.parent c ≡ b
      × SameAt s (set_parent c (s.heap.parent c) (moved side c b s)) c
  unfolding chunksize
  moved-root = elim (Bool-cases (side == 0)) [
    | inl e ↦ rw e (
      ground arith,
      record {
        node_same = record {
          fd = refl;
          bk = refl;
          parent = ground arith;
          index = refl;
          size = refl;
        };
        child0 = ground (arith, ne);
        child1 = refl;
      },
    )
    | inr e ↦ rw e (
      ground arith,
      record {
        node_same = record {
          fd = refl;
          bk = refl;
          parent = ground arith;
          index = refl;
          size = refl;
        };
        child0 = refl;
        child1 = ground (arith, ne);
      },
    )
  ]

  moved-child :
      (child (moved side c b s) b side ≡ c)
      × (child (moved side c b s) b (if side == 0 then 1 else 0)
          ≡ child s b (if side == 0 then 1 else 0))
  moved-child = elim (Bool-cases (side == 0)) [
    | inl e ↦ rw e (ground arith, refl)
    | inr e ↦ rw e (ground arith, refl)
  ]

  moved-OnlyLinks : OnlyLinks s (moved side c b s)
  moved-OnlyLinks = elim (Bool-cases (side == 0)) [ inl e ↦ rw e refl | inr e ↦ rw e refl ]

module _ (s : State) (i x b side : ℕ) (off_x : x ≢ b) where
  -- The subtree at its new place.
  moved-Represents :
      (c k : ℕ) (ring : List ℕ) (l r : Trie)
      → Represents s i x c (node c k ring l r)
      → IsSeparate (node c k ring l r)
      → Avoids b (node c k ring l r)
      → Represents (moved side c b s) i b c (node c k ring l r)
  unfolding chunksize
  moved-Represents c k ring l r m d off =
      let t = moved side c b s in
      let ne : c ≢ b = λ e. off.0 (sym e) in
      let low : t.m.least_addr ≡ s.m.least_addr =
        ap (λ (z : State). z.m.least_addr) (moved-OnlyLinks side c b s ne) in
      let root = moved-root side c b s ne in
      let same = moved-SameAt side c b s ne in
      let rings =
        All-map _ _ ring (λ y h. same y (λ e. h.0 (sym e)) (λ e. h.1 (sym e)))
          (All-both _ _ ring off.1 d.0.0) in
      let subtree = λ (v : Trie) (h : Avoids b v) (h' : Avoids c v).
        EveryChunk-mono _ _ v (λ y q. same y (λ e. q.0 (sym e)) (λ e. q.1 (sym e)))
          (EveryChunk-both _ _ v h h') in
      let links =
        All-map (SameAt s t) (λ y. t.heap.fd y ≡ s.heap.fd y) ring (λ y h. h.node_same.fd) rings in
      let links_back =
        All-map (SameAt s t) (λ y. t.heap.bk y ≡ s.heap.bk y) ring (λ y h. h.node_same.bk) rings in
      (
        refl,
        record {
          nonnull = m.1.nonnull;
          low = omega (arith, low, m.1.low);
          size = root.1.node_same.size ∙ m.1.size;
          parent = root.0;
          index = root.1.node_same.index ∙ m.1.index;
        },
        frame s.heap.fd s.heap.bk t.heap.fd t.heap.bk c ring c (root.1.node_same.fd, links)
            links_back root.1.node_same.bk m.2,
        All-map _ (IsRingChunk t i k) ring (λ y h. IsRingChunk-frame s t i k y low h.0 h.1)
            (All-both (SameAt s t) (IsRingChunk s i k) ring rings m.3),
        subst (λ q. Represents t i c q l) (sym root.1.child0)
            (Represents-frame s t i c (s.heap.child0 c) l low (subtree l off.2 d.1.0) m.4),
        subst (λ q. Represents t i c q r) (sym root.1.child1)
            (Represents-frame s t i c (s.heap.child1 c) r low (subtree r off.3 d.1.1) m.5),
      )

  nothing-Moved : child s x side ≡ 0 → child s b side ≡ 0 → Moved s i x b side leaf
  unfolding move_child
  nothing-Moved none empty =
      let stop : not (child s x side == 0) ≡ false = ground (arith, none) in
      record {
        after = s;
        steps = rw stop refl;
        only = refl;
        shape = empty;
        others = λ y ne off. record {
          node_same = record { fd = refl; bk = refl; parent = refl; index = refl; size = refl };
          child0 = refl;
          child1 = refl;
        };
        at = record { fd = refl; bk = refl; parent = refl; index = refl; size = refl };
        kept = refl;
      }

  moved-steps :
      (c : ℕ)
      → child s x side ≡ c
      → 0 < c
      → s.m.least_addr ≤ c
      → move_child side x b s ≡ done tt (moved side c b s)
  unfolding move_child
  moved-steps c link pos low =
      let go : not (child s x side == 0) ≡ true = ground (arith, link, pos) in
      let fine : ok_address s (child s x side) ≡ true = ground (arith, link, low) in
      rw (go, fine) (ap (λ (q : ℕ). done tt (moved side q b s)) link)

  pub move_child-Moved :
      (v : Trie)
      → Represents s i x (child s x side) v
      → IsSeparate v
      → Avoids b v
      → child s b side ≡ 0
      → Moved s i x b side v
  move_child-Moved leaf m d off empty = nothing-Moved m empty
  move_child-Moved (node c k ring l r) m d off empty =
      let ne : c ≢ b = λ e. off.0 (sym e) in
      let t = moved side c b s in
      let links = moved-child side c b s ne in
      record {
        after = t;
        steps = moved-steps c m.0 m.1.nonnull m.1.low;
        only = moved-OnlyLinks side c b s ne;
        shape =
            subst (λ q. Represents t i b q (node c k ring l r)) (sym links.0)
              (moved-Represents c k ring l r
                (subst (λ q. Represents s i x q (node c k ring l r)) m.0 m) d off);
        others = λ y ne_b away. moved-SameAt side c b s ne y ne_b away.0;
        at = moved-SameNode side c b s ne;
        kept = links.1;
      }
