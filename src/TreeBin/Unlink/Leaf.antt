-- ===== src/TreeBin/Unlink/Leaf.antt =====
-- `rightmost_leaf`: the walk in `unlink_large_chunk` to a leaf below a node.
use dlmalloc_rs.Prelude.{
  ℕ, zero, suc, ◌+◌, ◌≤◌, ◌<◌, ◌≡◌, ◌≢◌, ◌∙◌, ◌⊎◌, inl, inr, refl, ap, sym, subst, true, false, not,
  ◌==◌, List, ◌∷◌, arith, All-of,
}
use dlmalloc_rs.State.{State, done, child}
use dlmalloc_rs.TreeBin.{rightmost_leaf}
use dlmalloc_rs.TreeBin.Trie.{
  Trie, leaf, node, Each, Each-mono, IsTrie, IsTrie-range, span, Represents,
}
use dlmalloc_rs.TreeBin.Separate.{EveryChunk, All-map}
use dlmalloc_rs.TreeBin.Insert.Down.{leaf-IsTrie}
use dlmalloc_rs.TreeBin.Unlink.{
  Without, Below, at_left, at_right, in_left, in_right, replace, Below-Each,
}

-- The walk ends at the chunk `found`, a leaf of the trie, which a field of its parent leads to.
pub record EndsAt (s : State) (rounds up side p : ℕ) (u : Trie) : Type 0 where
  pub above : ℕ
  pub way : ℕ
  pub found : ℕ
  pub size : ℕ
  pub ring : List ℕ
  pub steps : rightmost_leaf rounds up side p s ≡ done (above, way, found) s
  pub place : (u ≡ node found size ring leaf leaf) ⊎ Below (node found size ring leaf leaf) u
  pub parent : s.heap.parent found ≡ above
  pub link : child s above way ≡ found
  pub ways : (way ≡ 0) ⊎ (way ≡ 1)

module _ (s : State) (i : ℕ) where
  stop :
      (rounds up side a k : ℕ) (ring : List ℕ)
      → Represents s i up a (node a k ring leaf leaf)
      → child s up side ≡ a
      → (side ≡ 0) ⊎ (side ≡ 1)
      → EndsAt s (suc rounds) up side a (node a k ring leaf leaf)
  unfolding rightmost_leaf
  stop rounds up side a k ring m link ways =
      let right : not (s.heap.child1 a == 0) ≡ false = ground (arith, m.5) in
      let left : not (s.heap.child0 a == 0) ≡ false = ground (arith, m.4) in
      record {
        above = up;
        way = side;
        found = a;
        size = k;
        ring = ring;
        steps = rw (right, left) refl;
        place = inl refl;
        parent = m.1.parent;
        link = link;
        ways = ways;
      }

  on_right :
      (rounds up side a k b : ℕ) (ring : List ℕ) (l r : Trie)
      → s.heap.child1 a ≡ b
      → 0 < b
      → EndsAt s rounds a 1 b r
      → EndsAt s (suc rounds) up side a (node a k ring l r)
  unfolding rightmost_leaf
  on_right rounds up side a k b ring l r link pos h =
      let some : not (s.heap.child1 a == 0) ≡ true = ground (arith, link, pos) in
      record {
        above = h.above;
        way = h.way;
        found = h.found;
        size = h.size;
        ring = h.ring;
        steps = rw some (ap (λ (q : ℕ). rightmost_leaf rounds a 1 q s) link ∙ h.steps);
        place = inr (elim h.place [
          | inl e ↦ subst (λ v. Below v (node a k ring l r)) e at_right
          | inr place ↦ in_right place
        ]);
        parent = h.parent;
        link = h.link;
        ways = h.ways;
      }

  on_left :
      (rounds up side a k b : ℕ) (ring : List ℕ) (l r : Trie)
      → s.heap.child1 a ≡ 0
      → s.heap.child0 a ≡ b
      → 0 < b
      → EndsAt s rounds a 0 b l
      → EndsAt s (suc rounds) up side a (node a k ring l r)
  unfolding rightmost_leaf
  on_left rounds up side a k b ring l r none link pos h =
      let right : not (s.heap.child1 a == 0) ≡ false = ground (arith, none) in
      let some : not (s.heap.child0 a == 0) ≡ true = ground (arith, link, pos) in
      record {
        above = h.above;
        way = h.way;
        found = h.found;
        size = h.size;
        ring = h.ring;
        steps = rw (right, some) (ap (λ (q : ℕ). rightmost_leaf rounds a 0 q s) link ∙ h.steps);
        place = inr (elim h.place [
          | inl e ↦ subst (λ v. Below v (node a k ring l r)) e at_left
          | inr place ↦ in_left place
        ]);
        parent = h.parent;
        link = h.link;
        ways = h.ways;
      }

  pub rightmost_leaf-EndsAt :
      (rounds w lo up side a k : ℕ) (ring : List ℕ) (l r : Trie)
      → Represents s i up a (node a k ring l r)
      → child s up side ≡ a
      → (side ≡ 0) ⊎ (side ≡ 1)
      → IsTrie w lo (node a k ring l r)
      → w < rounds
      → EndsAt s rounds up side a (node a k ring l r)
  rightmost_leaf-EndsAt zero w lo up side a k ring l r m link ways h fuel = absurd (omega arith)
  rightmost_leaf-EndsAt (suc rounds) w lo up side a k ring leaf leaf m link ways h fuel =
      stop rounds up side a k ring m link ways
  rightmost_leaf-EndsAt (suc rounds) zero lo up side a k ring (node b j rb l1 l2) r m link ways h
        fuel =
      absurd (cc)
  rightmost_leaf-EndsAt (suc rounds) zero lo up side a k ring leaf (node b j rb r1 r2) m link ways h
        fuel =
      absurd (cc)
  rightmost_leaf-EndsAt (suc rounds) (suc w) lo up side a k ring l (node b j rb r1 r2) m link ways h
        fuel =
      on_right rounds up side a k b ring l (node b j rb r1 r2) m.5.0 m.5.1.nonnull (
        rightmost_leaf-EndsAt rounds w (lo + span w) a 1 b j rb r1 r2
          (subst (λ q. Represents s i a q (node b j rb r1 r2)) m.5.0 m.5) m.5.0 (inr refl) h.4
          (omega arith))
  rightmost_leaf-EndsAt (suc rounds) (suc w) lo up side a k ring (node b j rb l1 l2) leaf m link
        ways h fuel =
      on_left rounds up side a k b ring (node b j rb l1 l2) leaf m.5 m.4.0 m.4.1.nonnull (
        rightmost_leaf-EndsAt rounds w lo a 0 b j rb l1 l2
          (subst (λ q. Represents s i a q (node b j rb l1 l2)) m.4.0 m.4) m.4.0 (inl refl) h.3
          (omega arith))

pub Represents-low :
    (s : State) (i up p : ℕ) (t : Trie)
    → Represents s i up p t
    → EveryChunk (λ y. s.m.least_addr ≤ y) t
Represents-low s i up p leaf m = tt
Represents-low s i up p (node a n ring l r) m = (
  m.1.low,
  All-map _ _ ring (λ y h. h.chunk.low) m.3,
  Represents-low s i a (s.heap.child0 a) l m.4,
  Represents-low s i a (s.heap.child1 a) r m.5,
)

-- A leaf taken out with its ring.
pub leaf-Without : (b k : ℕ) (ring : List ℕ) → Without (b ∷ ring) (node b k ring leaf leaf) leaf
leaf-Without b k ring = record {
  member = λ P h. (h.0, h.1);
  every = λ P h. tt;
  back = λ P f h. (f.0, f.1, tt, tt);
  sizes = λ P h. tt;
  separate = λ d. (tt, All-of _ (b ∷ ring) (λ y. tt));
  ordered = λ w lo al h. leaf-IsTrie w lo;
}

-- The rest of the trie has no other node of the leaf's size.
pub leaf_size :
    (w lo b k : ℕ) (ring : List ℕ) {t : Trie} (place : Below (node b k ring leaf leaf) t)
    → IsTrie w lo t
    → Each (λ a j. j ≢ k) (replace place leaf)
leaf_size zero lo b k ring at_left h = absurd (cc)
leaf_size zero lo b k ring at_right h = absurd (cc)
leaf_size zero lo b k ring (in_left place) h =
    absurd
      (Below-Each (λ a n. ⊥) (node b k ring leaf leaf) place
        (subst (Each (λ a n. ⊥)) (sym h.1) tt)).0
leaf_size zero lo b k ring (in_right place) h =
    absurd
      (Below-Each (λ a n. ⊥) (node b k ring leaf leaf) place
        (subst (Each (λ a n. ⊥)) (sym h.2) tt)).0
leaf_size (suc w) lo b k ring (at_left {r = r}) h =
    let own = IsTrie-range w lo (node b k ring leaf leaf) h.3 in
    (
      (λ e. h.5.0 (sym e)),
      tt,
      Each-mono _ _ r (λ a j q e. omega (arith, q, e, own.0)) (IsTrie-range w (lo + span w) r h.4),
    )
leaf_size (suc w) lo b k ring (at_right {l = l}) h =
    let own = IsTrie-range w (lo + span w) (node b k ring leaf leaf) h.4 in
    (
      (λ e. h.6.0 (sym e)),
      Each-mono _ _ l (λ a j q e. omega (arith, q, e, own.0)) (IsTrie-range w lo l h.3),
      tt,
    )
leaf_size (suc w) lo b k ring (in_left {l = l} {r = r} place) h =
    let u = node b k ring leaf leaf in
    let own = Below-Each _ u place (IsTrie-range w lo l h.3) in
    (
      (λ e. (Below-Each _ u place h.5).0 (sym e)),
      leaf_size w lo b k ring place h.3,
      Each-mono _ _ r (λ a j q e. omega (arith, q, e, own.0)) (IsTrie-range w (lo + span w) r h.4),
    )
leaf_size (suc w) lo b k ring (in_right {l = l} {r = r} place) h =
    let u = node b k ring leaf leaf in
    let own = Below-Each _ u place (IsTrie-range w (lo + span w) r h.4) in
    (
      (λ e. (Below-Each _ u place h.6).0 (sym e)),
      Each-mono _ _ l (λ a j q e. omega (arith, q, e, own.0)) (IsTrie-range w lo l h.3),
      leaf_size w (lo + span w) b k ring place h.4,
    )
