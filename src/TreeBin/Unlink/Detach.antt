-- ===== src/TreeBin/Unlink/Detach.antt =====
-- `take_leaf`: a leaf below a node without a ring is cut off, to take the node's place.
use dlmalloc_rs.Prelude.{
  ℕ, zero, suc, ◌+◌, ◌%◌, ◌≡◌, ◌≢◌, ◌∙◌, ◌⊎◌, refl, ap, sym, subst, List, [], ◌∷◌, arith, All,
  All-of,
}
use dlmalloc_rs.State.{State, child, set_child}
use dlmalloc_rs.SmallBin.Ring.{Links}
use dlmalloc_rs.TreeBin.Trie.{
  Trie, leaf, node, Each, IsTrie, IsTrie-range, span, Represents, IsRingChunk,
}
use dlmalloc_rs.TreeBin.Separate.{
  Avoids, IsSeparate, SameAt, All-map, IsTreeChunk-frame, Links-frame,
}
use dlmalloc_rs.TreeBin.Insert.Ring.{IsReady, OnlyLinks}
use dlmalloc_rs.TreeBin.Insert.Down.{span_aligned}
use dlmalloc_rs.TreeBin.Unlink.{
  Without, Below, at_left, at_right, in_left, in_right, replace, Below-Each, Below-IsSeparate,
  Without-replace,
}
use dlmalloc_rs.TreeBin.Unlink.Replace.{Relinked, parent_in, Below-Represents, replace-Represents}
use dlmalloc_rs.TreeBin.Unlink.Leaf.{leaf-Without, leaf_size}
use dlmalloc_rs.TreeBin.Unlink.Child.{
  set_child-OnlyLinks, set_child-SameNode, set_child-SameAt, set_child-Relinked, cleared,
}

-- The chunk `b` has been taken out of the ring or the subtrees of the node `x`, with the ring that is
-- to be its own, and can take the place of `x`, whose fields lead to the subtrees without it.
pub record Detached (s t : State) (i x n b : ℕ) (ring : List ℕ) (l r : Trie) : Type 1 where
  pub size : ℕ
  pub own : List ℕ
  pub left : Trie
  pub right : Trie
  pub only : OnlyLinks s t
  pub left_shape : Represents t i x (t.heap.child0 x) left
  pub right_shape : Represents t i x (t.heap.child1 x) right
  pub ready : IsReady t i size b
  pub links : Links t.heap.fd t.heap.bk b own b
  pub own_chunks : All (IsRingChunk t i size) own
  pub index : t.heap.index x ≡ s.heap.index x
  pub others : (y : ℕ) → Avoids y (node x n ring l r) → SameAt s t y
  pub without : Without (x ∷ []) (node x n ring l r) (node b size own left right)

-- Sizes in a trie are multiples of 16.
IsTrie-aligned : (w lo : ℕ) (t : Trie) → lo % 16 ≡ 0 → IsTrie w lo t → Each (λ a n. n % 16 ≡ 0) t
IsTrie-aligned zero lo leaf al h = tt
IsTrie-aligned (suc w) lo leaf al h = tt
IsTrie-aligned zero lo (node a n ring l r) al h =
    let aligned = λ (b k : ℕ). k % 16 ≡ 0 in
    (omega (arith, h.0, al), subst (Each aligned) (sym h.1) tt, subst (Each aligned) (sym h.2) tt)
IsTrie-aligned (suc w) lo (node a n ring l r) al h = (
  h.2,
  IsTrie-aligned w lo l al h.3,
  IsTrie-aligned w (lo + span w) r (omega (arith, al, span_aligned w)) h.4,
)

-- A node without subtrees has no leaf below it.
no_leaf :
    (b k : ℕ) (own : List ℕ) (x n : ℕ) (l r : Trie)
    → l ≡ leaf
    → r ≡ leaf
    → Below (node b k own leaf leaf) (node x n [] l r)
    → ⊥
no_leaf b k own x n l r el er at_left = cc
no_leaf b k own x n l r el er at_right = cc
no_leaf b k own x n l r el er (in_left place) =
    (Below-Each (λ a j. ⊥) (node b k own leaf leaf) place (subst (Each (λ a j. ⊥)) (sym el) tt)).0
no_leaf b k own x n l r el er (in_right place) =
    (Below-Each (λ a j. ⊥) (node b k own leaf leaf) place (subst (Each (λ a j. ⊥)) (sym er) tt)).0

module _ (x n b k : ℕ) (own : List ℕ) (l r l' r' : Trie)
    (place : Below (node b k own leaf leaf) (node x n [] l r))
    (cut : replace place leaf ≡ node x n [] l' r') where
  cut-Without : Without (b ∷ own) (node x n [] l r) (node x n [] l' r')
  cut-Without =
      subst (Without (b ∷ own) (node x n [] l r)) cut
        (Without-replace b own (node b k own leaf leaf) leaf place (leaf-Without b k own))

  -- The leaf fits in the place of `x`.
  promoted-IsTrie :
      (w lo : ℕ) → lo % 16 ≡ 0 → IsTrie w lo (node x n [] l r) → IsTrie w lo (node b k own l' r')
  promoted-IsTrie zero lo al h = absurd (no_leaf b k own x n l r h.1 h.2 place)
  promoted-IsTrie (suc w) lo al h =
      let u = node b k own leaf leaf in
      let range = (Below-Each _ u place (IsTrie-range (suc w) lo (node x n [] l r) h)).0 in
      let aligned = (Below-Each _ u place (IsTrie-aligned (suc w) lo (node x n [] l r) al h)).0 in
      let rest = cut-Without.ordered (suc w) lo al h in
      let sizes = subst (Each (λ a j. j ≢ k)) cut (leaf_size (suc w) lo b k own place h) in
      (range.0, range.1, aligned, rest.3, rest.4, sizes.1, sizes.2)

  promoted-IsSeparate :
      IsSeparate (node x n [] l r)
      → IsSeparate (node b k own l' r') × All (λ y. Avoids y (node b k own l' r')) (x ∷ [])
  promoted-IsSeparate d =
      let rest = cut-Without.separate d in
      let own_apart = Below-IsSeparate (node b k own leaf leaf) place d in
      (
        (
          own_apart.0,
          (rest.1.0.2, rest.1.0.3),
          All-map _ _ own (λ y q. (q.2, q.3)) rest.1.1,
          rest.0.3,
          rest.0.4,
          rest.0.5,
        ),
        (
          (
            (λ e. rest.1.0.0 (sym e)),
            All-map _ _ own (λ y q e. q.0 (sym e)) rest.1.1,
            rest.0.1.0,
            rest.0.1.1,
          ),
          tt,
        ),
      )

  promoted-Without : Without (x ∷ []) (node x n [] l r) (node b k own l' r')
  promoted-Without = record {
    member = λ P h. (h.0, tt);
    every = λ P h.
        let rest = cut-Without.every P h in
        let gone = cut-Without.member P h in (gone.0, gone.1, rest.2, rest.3);
    back = λ P f h. cut-Without.back P (h.0, h.1) (f.0, tt, h.2, h.3);
    sizes = λ P h.
        let rest = cut-Without.sizes P h in
        ((Below-Each (λ a j. P j) (node b k own leaf leaf) place h).0, rest.1, rest.2);
    separate = promoted-IsSeparate;
    ordered = promoted-IsTrie;
  }

  module _ (s : State) (i up above way : ℕ) (m : Represents s i up x (node x n [] l r))
      (d : IsSeparate (node x n [] l r)) (parent : s.heap.parent b ≡ above)
      (link : child s above way ≡ b) (ways : (way ≡ 0) ⊎ (way ≡ 1)) where
    cut-Represents : Represents (set_child above way 0 s) i up x (node x n [] l' r')
    cut-Represents =
        let t = set_child above way 0 s in
        subst (Represents t i up x) cut (
          replace-Represents s i b k own leaf leaf t leaf 0
            (ap (λ (z : State). z.m.least_addr) (set_child-OnlyLinks above way 0 s))
            (λ y off ne. set_child-SameAt above way 0 s y (λ e. ne (e ∙ sym parent)))
            (set_child-SameNode above way 0 s (s.heap.parent b))
            (subst (λ p. Relinked s t p b 0) (sym parent)
              (set_child-Relinked above way 0 s b link ways))
            refl up x place m d)

    pub cut-Detached : Detached s (set_child above way 0 s) i x n b [] l r
    cut-Detached =
        let t = set_child above way 0 s in
        let low = ap (λ (z : State). z.m.least_addr) (set_child-OnlyLinks above way 0 s) in
        let shape = cut-Represents in
        let old = Below-Represents s i b k own leaf leaf up x place m in
        let same = set_child-SameNode above way 0 s in
        let at_b = IsTreeChunk-frame s t i (s.heap.parent b) k b low (same b) old.1 in
        let empty = cleared above way b s old.4 old.5 in
        record {
          size = k;
          own = own;
          left = l';
          right = r';
          only = set_child-OnlyLinks above way 0 s;
          left_shape = shape.4;
          right_shape = shape.5;
          ready = record {
            nonnull = at_b.nonnull;
            low = at_b.low;
            size = at_b.size;
            index = at_b.index;
            no_left = empty.0;
            no_right = empty.1;
          };
          links = Links-frame s t b own (same b, All-of _ own same) old.2;
          own_chunks =
              All-map _ _ own
                (λ y h.
                  let kept = cleared above way y s h.no_left h.no_right in
                  record {
                    chunk = IsTreeChunk-frame s t i 0 k y low (same y) h.chunk;
                    no_left = kept.0;
                    no_right = kept.1;
                  })
                old.3;
          index = (same x).index;
          others = λ y off.
              set_child-SameAt above way 0 s y (λ e.
                parent_in s i b k own leaf leaf (λ z. y ≢ z) up x place m off (e ∙ sym parent));
          without = promoted-Without;
        }
