-- ===== src/TreeBin/Unlink/Any.antt =====
-- `unlink_large_chunk` on any chunk of a tree.
use dlmalloc_rs.Prelude.{
  ℕ, zero, suc, ◌+◌, ◌≤◌, ◌<◌, ◌≡◌, ◌∙◌, ◌⊎◌, inl, inr, refl, ap, sym, subst, true, ◌==◌,
  Bool-cases, List, [], ◌∷◌, ◌++◌, arith,
}
use dlmalloc_rs.State.{State}
use dlmalloc_rs.TreeBin.Trie.{Trie, leaf, node, IsTrie, span, Represents}
use dlmalloc_rs.TreeBin.Separate.{IsSeparate}
use dlmalloc_rs.TreeBin.Unlink.{Below, at_left, at_right, in_left, in_right, Below-IsSeparate}
use dlmalloc_rs.TreeBin.Unlink.Replace.{Below-Represents}
use dlmalloc_rs.TreeBin.Unlink.Node.{single, replaced, take_replacement-Taken}
use dlmalloc_rs.TreeBin.Unlink.Tree.{Unlinked, member_of_root, member_inside}
use dlmalloc_rs.TreeBin.Unlink.Head.{replaced_root}
use dlmalloc_rs.TreeBin.Unlink.Inner.{replaced_inside, removed_root, removed_inside}
use dlmalloc_rs.Checks.Find.{has}
use dlmalloc_rs.Checks.Trees.{holds}

-- The node of the trie that has `x`, itself or in its ring.
pub record Place (x : ℕ) (u : Trie) : Type 0 where
  pub first : ℕ
  pub size : ℕ
  pub ring : List ℕ
  pub left : Trie
  pub right : Trie
  pub held : has x (first ∷ ring) ≡ true
  pub where_from : (u ≡ node first size ring left right) ⊎ Below (node first size ring left right) u

Place-left : (x a n : ℕ) (ring : List ℕ) (l r : Trie) → Place x l → Place x (node a n ring l r)
Place-left x a n ring l r p = record {
  first = p.first;
  size = p.size;
  ring = p.ring;
  left = p.left;
  right = p.right;
  held = p.held;
  where_from = inr (elim p.where_from [
    | inl e ↦ subst (λ v. Below v (node a n ring l r)) e at_left
    | inr b ↦ in_left b
  ]);
}

Place-right : (x a n : ℕ) (ring : List ℕ) (l r : Trie) → Place x r → Place x (node a n ring l r)
Place-right x a n ring l r p = record {
  first = p.first;
  size = p.size;
  ring = p.ring;
  left = p.left;
  right = p.right;
  held = p.held;
  where_from = inr (elim p.where_from [
    | inl e ↦ subst (λ v. Below v (node a n ring l r)) e at_right
    | inr b ↦ in_right b
  ]);
}

node_having : (x : ℕ) (u : Trie) → holds x u ≡ true → Place x u
node_having x leaf h = absurd (cc)
node_having x (node a n ring l r) h = elim (Bool-cases (has x (a ∷ ring))) [
  | inl here ↦ record {
    first = a;
    size = n;
    ring = ring;
    left = l;
    right = r;
    held = here;
    where_from = inl refl;
  }
  | inr other ↦ elim (Bool-cases (holds x l)) [
    | inl left ↦ Place-left x a n ring l r (node_having x l left)
    | inr none ↦ Place-right x a n ring l r (node_having x r (ground (arith, h, other, none)))
  ]
]

in_list :
    (x : ℕ) (ring : List ℕ)
    → has x ring ≡ true
    → (ys : List ℕ) × (zs : List ℕ) × (ring ≡ ys ++ x ∷ zs)
in_list x [] h = absurd (cc)
in_list x (y ∷ ring) h = elim (Bool-cases (y == x)) [
  | inl e ↦ ([], ring, ap (λ (q : ℕ). q ∷ ring) (ground (arith, e)))
  | inr other ↦
      let rest = in_list x ring (ground (arith, h, other)) in
      (y ∷ rest.0, rest.1, ap (λ (q : List ℕ). y ∷ q) rest.2)
]

no_Below : (u : Trie) → Below u leaf → ⊥
no_Below u b = elim b [ ]

Below-IsTrie :
    (w lo a n : ℕ) (ring : List ℕ) (l r : Trie) {u : Trie}
    → Below (node a n ring l r) u
    → IsTrie w lo u
    → (v : ℕ) × (lo' : ℕ) × (v ≤ w) × IsTrie v lo' (node a n ring l r)
Below-IsTrie zero lo a n ring l r at_left h = absurd (cc)
Below-IsTrie zero lo a n ring l r at_right h = absurd (cc)
Below-IsTrie zero lo a n ring l r (in_left b) h =
    absurd (no_Below (node a n ring l r) (subst (Below (node a n ring l r)) h.1 b))
Below-IsTrie zero lo a n ring l r (in_right b) h =
    absurd (no_Below (node a n ring l r) (subst (Below (node a n ring l r)) h.2 b))
Below-IsTrie (suc w) lo a n ring l r at_left h = (w, lo, omega arith, h.3)
Below-IsTrie (suc w) lo a n ring l r at_right h = (w, lo + span w, omega arith, h.4)
Below-IsTrie (suc w) lo a n ring l r (in_left b) h =
    let rest = Below-IsTrie w lo a n ring l r b h.3 in
    (rest.0, rest.1, omega (arith, rest.2), rest.3)
Below-IsTrie (suc w) lo a n ring l r (in_right b) h =
    let rest = Below-IsTrie w (lo + span w) a n ring l r b h.4 in
    (rest.0, rest.1, omega (arith, rest.2), rest.3)

module _ (s : State) (i up : ℕ) (pos : 0 < up) where
  -- The node itself.
  node_of_root :
      (w lo x n : ℕ) (ring : List ℕ) (l r : Trie)
      → Represents s i up (s.m.treebins i) (node x n ring l r)
      → IsSeparate (node x n ring l r)
      → IsTrie w lo (node x n ring l r)
      → w < 64
      → Unlinked s i up x (node x n ring l r)
  node_of_root w lo x n ring l r m d h fuel =
      let held = subst (λ q. Represents s i up q (node x n ring l r)) m.0 m in
      elim (take_replacement-Taken s i up x n w lo ring l r held d h fuel) [
        | single take e ↦
            subst (λ v. Unlinked s i up x v) (sym e)
              (removed_root s i up x n take pos (subst (Represents s i up (s.m.treebins i)) e m))
        | replaced b t take D ↦ replaced_root s t i x n b ring l r take D up pos m d
      ]

  node_inside :
      (w lo x n : ℕ) (ring : List ℕ) (l r : Trie) {u : Trie} (place : Below (node x n ring l r) u)
      → Represents s i up (s.m.treebins i) u
      → IsSeparate u
      → IsTrie w lo u
      → w < 64
      → Unlinked s i up x u
  node_inside w lo x n ring l r {u} place m d h fuel =
      let held = Below-Represents s i x n ring l r up (s.m.treebins i) place m in
      let own = Below-IsTrie w lo x n ring l r place h in
      elim (take_replacement-Taken s i (s.heap.parent x) x n own.0 own.1 ring l r held
        (Below-IsSeparate (node x n ring l r) place d) own.3 (omega (arith, own.2, fuel))) [
          | single take e ↦ removed_inside s i up x n take (subst (λ v. Below v u) e place) m d
          | replaced b t take D ↦ replaced_inside s t i up x n b ring l r place m d take D
        ]

  -- A chunk behind the first one of a ring.
  member_at :
      (x a n : ℕ) (ring : List ℕ) (l r u : Trie)
      → has x ring ≡ true
      → (u ≡ node a n ring l r) ⊎ Below (node a n ring l r) u
      → Represents s i up (s.m.treebins i) u
      → IsSeparate u
      → Unlinked s i up x u
  member_at x a n ring l r u member from m d =
      let at = in_list x ring member in
      let same : node a n ring l r ≡ node a n (at.0 ++ x ∷ at.1) l r =
        ap (λ (q : List ℕ). node a n q l r) at.2 in
      elim from [
        | inl e ↦
            let e' = e ∙ same in
            subst (Unlinked s i up x) (sym e') (
              member_of_root s i up a n x at.0 at.1 l r
                (subst (Represents s i up (s.m.treebins i)) e' m) (subst IsSeparate e' d))
        | inr b ↦ member_inside s i up a n x at.0 at.1 l r (subst (λ v. Below v u) same b) m d
      ]

  node_at :
      (w lo x n : ℕ) (ring : List ℕ) (l r u : Trie)
      → (u ≡ node x n ring l r) ⊎ Below (node x n ring l r) u
      → Represents s i up (s.m.treebins i) u
      → IsSeparate u
      → IsTrie w lo u
      → w < 64
      → Unlinked s i up x u
  node_at w lo x n ring l r u from m d h fuel = elim from [
    | inl e ↦ subst (Unlinked s i up x) (sym e) (
        node_of_root w lo x n ring l r (subst (Represents s i up (s.m.treebins i)) e m)
          (subst IsSeparate e d) (subst (IsTrie w lo) e h) fuel)
    | inr b ↦ node_inside w lo x n ring l r b m d h fuel
  ]

  pub unlink_large_chunk-Unlinked :
      (w lo x : ℕ) (u : Trie)
      → Represents s i up (s.m.treebins i) u
      → IsSeparate u
      → IsTrie w lo u
      → w < 64
      → holds x u ≡ true
      → Unlinked s i up x u
  unlink_large_chunk-Unlinked w lo x u m d h fuel held =
      let P = node_having x u held in
      elim (Bool-cases (P.first == x)) [
        | inl e ↦
            let same : P.first ≡ x = ground (arith, e) in
            subst (λ y. Unlinked s i up y u) same
              (node_at w lo P.first P.size P.ring P.left P.right u P.where_from m d h fuel)
        | inr other ↦
            member_at x P.first P.size P.ring P.left P.right u (ground (arith, P.held, other))
              P.where_from m d
      ]
