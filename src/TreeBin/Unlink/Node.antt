-- ===== src/TreeBin/Unlink/Node.antt =====
-- `take_replacement` at a node: the last chunk of its ring, a leaf below it, or none.
use dlmalloc_rs.Prelude.{
  ℕ, zero, suc, ◌+◌, ◌≤◌, ◌<◌, ◌≡◌, ◌⊎◌, inl, inr, refl, ap, sym, subst, List, [], ◌∷◌, ◌++◌, arith,
}
use dlmalloc_rs.State.{State, done, set_child}
use dlmalloc_rs.TreeBin.{take_replacement}
use dlmalloc_rs.TreeBin.Trie.{Trie, leaf, node, IsTrie, span, Represents}
use dlmalloc_rs.TreeBin.Separate.{IsSeparate}
use dlmalloc_rs.TreeBin.Unlink.{Below, at_left, at_right, in_left, in_right, replaced_node}
use dlmalloc_rs.TreeBin.Unlink.Replace.{parent_in}
use dlmalloc_rs.TreeBin.Unlink.Leaf.{EndsAt, rightmost_leaf-EndsAt, Represents-low}
use dlmalloc_rs.TreeBin.Unlink.Detach.{Detached, cut-Detached}
use dlmalloc_rs.TreeBin.Unlink.Ring.{ring_cut}
use dlmalloc_rs.TreeBin.Unlink.Circle.{first-steps, first-Detached}
use dlmalloc_rs.TreeBin.Unlink.Steps.{from_right-steps, from_left-steps, no_child-steps}

pub data Taken (s : State) (i x n : ℕ) (ring : List ℕ) (l r : Trie) : Type 1 where
  single :
      take_replacement x s ≡ done 0 s
      → node x n ring l r ≡ node x n [] leaf leaf
      → Taken s i x n ring l r
  replaced :
      (b : ℕ) (t : State)
      → take_replacement x s ≡ done b t
      → Detached s t i x n b ring l r
      → Taken s i x n ring l r

-- A list that is not empty has a last element.
last_of : (y : ℕ) (ys : List ℕ) → (zs : List ℕ) × (b : ℕ) × (y ∷ ys ≡ zs ++ b ∷ [])
last_of y [] = ([], y, refl)
last_of y (z ∷ zs) =
    let rest = last_of z zs in (y ∷ rest.0, rest.1, ap (λ (q : List ℕ). y ∷ q) rest.2)

module _ (s : State) (i up x n : ℕ) where
  from_ring_end :
      (zs : List ℕ) (b : ℕ) (l r : Trie)
      → Represents s i up x (node x n (zs ++ b ∷ []) l r)
      → IsSeparate (node x n (zs ++ b ∷ []) l r)
      → Taken s i x n (zs ++ b ∷ []) l r
  from_ring_end zs b l r m d =
      replaced b (ring_cut x s) (first-steps s i up x n b zs l r m d)
        (first-Detached s i up x n b zs l r m d)

  from_ring :
      (y : ℕ) (ys : List ℕ) (l r : Trie)
      → Represents s i up x (node x n (y ∷ ys) l r)
      → IsSeparate (node x n (y ∷ ys) l r)
      → Taken s i x n (y ∷ ys) l r
  from_ring y ys l r m d =
      let last = last_of y ys in
      subst (λ rg. Taken s i x n rg l r) (sym last.2)
        (from_ring_end last.0 last.1 l r
          (subst (λ rg. Represents s i up x (node x n rg l r)) last.2 m)
          (subst (λ rg. IsSeparate (node x n rg l r)) last.2 d))

  module _ (l r : Trie) (m : Represents s i up x (node x n [] l r))
      (d : IsSeparate (node x n [] l r)) where
    -- A leaf that the walk found.
    from_leaf :
        (side p : ℕ) (v : Trie) (R : EndsAt s 64 x side p v)
        → Below (node R.found R.size R.ring leaf leaf) (node x n [] l r)
        → (s.m.least_addr ≤ R.above
            → take_replacement x s ≡ done (R.found) (set_child R.above R.way 0 s))
        → Taken s i x n [] l r
    from_leaf side p v R place steps =
        let low =
          subst (λ q. s.m.least_addr ≤ q) R.parent
            (parent_in s i R.found R.size R.ring leaf leaf (λ y. s.m.least_addr ≤ y) up x place m
              (Represents-low s i up x (node x n [] l r) m)) in
        let rest = replaced_node x n [] l r leaf place in
        replaced R.found (set_child R.above R.way 0 s) (steps low) (
          cut-Detached x n R.found R.size R.ring l r rest.0 rest.1 place rest.2 s i up R.above R.way
            m d R.parent R.link R.ways)

    leaf_on_right :
        (b k : ℕ) (own : List ℕ)
        → (r ≡ node b k own leaf leaf) ⊎ Below (node b k own leaf leaf) r
        → Below (node b k own leaf leaf) (node x n [] l r)
    leaf_on_right b k own place = elim place [
      | inl e ↦ subst (λ v. Below v (node x n [] l r)) e at_right
      | inr h ↦ in_right h
    ]

    leaf_on_left :
        (b k : ℕ) (own : List ℕ)
        → (l ≡ node b k own leaf leaf) ⊎ Below (node b k own leaf leaf) l
        → Below (node b k own leaf leaf) (node x n [] l r)
    leaf_on_left b k own place = elim place [
      | inl e ↦ subst (λ v. Below v (node x n [] l r)) e at_left
      | inr h ↦ in_left h
    ]

    from_right :
        (w lo c k : ℕ) (rg : List ℕ) (r1 r2 : Trie)
        → r ≡ node c k rg r1 r2
        → IsTrie w lo r
        → w < 64
        → Taken s i x n [] l r
    from_right w lo c k rg r1 r2 e h fuel =
        let mr = subst (Represents s i x (s.heap.child1 x)) e m.5 in
        let R0 =
          rightmost_leaf-EndsAt s i 64 w lo x 1 c k rg r1 r2
            (subst (λ q. Represents s i x q (node c k rg r1 r2)) mr.0 mr) mr.0 (inr refl)
            (subst (IsTrie w lo) e h) fuel in
        let R =
          subst (EndsAt s 64 x 1 (s.heap.child1 x)) (sym e)
            (subst (λ q. EndsAt s 64 x 1 q (node c k rg r1 r2)) (sym mr.0) R0) in
        from_leaf 1 (s.heap.child1 x) r R (leaf_on_right R.found R.size R.ring R.place)
          (from_right-steps x s m.2.1 r R (ground (arith, mr.0, mr.1.nonnull)))

    from_left :
        (w lo c k : ℕ) (rg : List ℕ) (l1 l2 : Trie)
        → r ≡ leaf
        → l ≡ node c k rg l1 l2
        → IsTrie w lo l
        → w < 64
        → Taken s i x n [] l r
    from_left w lo c k rg l1 l2 er e h fuel =
        let none = subst (Represents s i x (s.heap.child1 x)) er m.5 in
        let ml = subst (Represents s i x (s.heap.child0 x)) e m.4 in
        let R0 =
          rightmost_leaf-EndsAt s i 64 w lo x 0 c k rg l1 l2
            (subst (λ q. Represents s i x q (node c k rg l1 l2)) ml.0 ml) ml.0 (inl refl)
            (subst (IsTrie w lo) e h) fuel in
        let R =
          subst (EndsAt s 64 x 0 (s.heap.child0 x)) (sym e)
            (subst (λ q. EndsAt s 64 x 0 q (node c k rg l1 l2)) (sym ml.0) R0) in
        from_leaf 0 (s.heap.child0 x) l R (leaf_on_left R.found R.size R.ring R.place)
          (from_left-steps x s m.2.1 l R none (ground (arith, ml.0, ml.1.nonnull)))

  pub take_replacement-Taken :
      (w lo : ℕ) (ring : List ℕ) (l r : Trie)
      → Represents s i up x (node x n ring l r)
      → IsSeparate (node x n ring l r)
      → IsTrie w lo (node x n ring l r)
      → w < 64
      → Taken s i x n ring l r
  take_replacement-Taken w lo (y ∷ ys) l r m d h fuel = from_ring y ys l r m d
  take_replacement-Taken w lo [] leaf leaf m d h fuel =
      single (no_child-steps x s m.2.1 m.5 m.4) refl
  take_replacement-Taken zero lo [] l (node c k rg r1 r2) m d h fuel = absurd (cc)
  take_replacement-Taken zero lo [] (node c k rg l1 l2) leaf m d h fuel = absurd (cc)
  take_replacement-Taken (suc w) lo [] l (node c k rg r1 r2) m d h fuel =
      from_right l (node c k rg r1 r2) m d w (lo + span w) c k rg r1 r2 refl h.4 (omega arith)
  take_replacement-Taken (suc w) lo [] (node c k rg l1 l2) leaf m d h fuel =
      from_left (node c k rg l1 l2) leaf m d w lo c k rg l1 l2 refl refl h.3 (omega arith)
