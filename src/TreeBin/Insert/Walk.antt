-- ===== src/TreeBin/Insert/Walk.antt =====
-- The walk of `insert_large_chunk` puts the chunk where its size belongs, by induction on the trie.
use dlmalloc_rs.Prelude.{
  ℕ, zero, suc, ◌+◌, ◌*◌, ◌%◌, ◌^◌, ◌≤◌, ◌<◌, ◌≡◌, ◌≢◌, ◌∙◌, refl, ap, sym, subst, ◌==◌, ltb,
  Bool-cases, inl, inr, List, [], ◌∷◌, arith,
}
use dlmalloc_rs.State.{State, done}
use dlmalloc_rs.TreeBin.{insert_below}
use dlmalloc_rs.TreeBin.Trie.{Trie, leaf, node, IsTrie, span, Represents}
use dlmalloc_rs.TreeBin.Digits.{Bits, low-Bits, high-Bits}
use dlmalloc_rs.TreeBin.Separate.{Avoids, IsSeparate, All-map, Avoids-swap}
use dlmalloc_rs.TreeBin.Insert.{new_leaf, new_in_ring}
use dlmalloc_rs.TreeBin.Insert.Ring.{
  IsReady, ring_insertion, ring_insertion-steps, ring_insertion-Represents, ring_insertion-SameAt,
}
use dlmalloc_rs.TreeBin.Insert.Down.{
  Inserts, go_child, new_child, nodes_same, other_same, result_left, result_right, leaf_nodes,
  leaf_others, span_aligned, new_leaf-IsTrie,
}
use dlmalloc_rs.TreeBin.Insert.Below.{
  IsInserted, leaf_insertion, leaf_insertion-SameAt, leaf_insertion-leaf,
}

module _ (s : State) (i x n : ℕ) (ready : IsReady s i n x) (aligned : n % 16 ≡ 0) where
  -- The left subtree, empty or not.
  go_left :
      (up a k rounds w lo bits : ℕ) (ring : List ℕ) (l r : Trie)
      → Represents s i up a (node a k ring l r)
      → IsSeparate (node a k ring l r)
      → Avoids x (node a k ring l r)
      → IsTrie (suc w) lo (node a k ring l r)
      → k ≢ n
      → lo % 16 ≡ 0
      → Bits (suc w) lo n bits
      → lo ≤ n
      → n < lo + span w
      → w < rounds
      → Inserts s i x n l
      → (t : State) × (insert_below (suc rounds) x n a bits s ≡ done tt t)
        × IsInserted s t i up x n (suc w) lo a (node a k ring l r)
  go_left up a k rounds w lo bits ring leaf r m apart new h differs al bt from to fuel ih =
      let t = leaf_insertion x a 0 s in
      let step = low-Bits w lo n bits bt from to in
      result_left s i x n ready aligned up a k rounds w lo bits ring leaf r m apart new h differs t
        (node x n [] leaf leaf)
        (new_child s i x n ready aligned up a k rounds w lo bits ring leaf r m apart new h differs 0
          step.0 m.4)
        refl
        (leaf_nodes s i x n ready aligned up a k rounds w lo bits ring leaf r m apart new h differs
          0)
        (leaf_others s i x n ready aligned up a k rounds w lo bits ring leaf r m apart new h differs
          0 r new.3 apart.1.1)
        refl (λ y ne off. leaf_insertion-SameAt x a 0 y s ne off.0) new_leaf
        (subst (λ q. Represents t i a q (node x n [] leaf leaf)) (ground arith)
          (leaf_insertion-leaf i n x a 0 s new.0 ready))
        (new_leaf-IsTrie w lo x n aligned al from to)
  go_left up a k rounds w lo bits ring (node b j rb l1 l2) r m apart new h differs al bt from to
        fuel ih =
      let l = node b j rb l1 l2 in
      let step = low-Bits w lo n bits bt from to in
      let some : s.heap.child0 a ≢ 0 = ground (arith, m.4.0, m.4.1.nonnull) in
      let shape = subst (λ q. Represents s i a q l) m.4.0 m.4 in
      let below =
        ih rounds w lo a (bits * 2 % 2 ^ 64) h.3 shape apart.4 new.2 al step.1 from to fuel in
      let t = below.0 in
      let I = below.2 in
      let at = I.same a (λ e. new.0 (sym e)) apart.1.0 in
      result_left s i x n ready aligned up a k rounds w lo bits ring l r m apart new h differs t
        I.after
        (go_child s i x n ready aligned up a k rounds w lo bits ring l r m apart new h differs 0
            step.0 some
          ∙ ap (λ (q : ℕ). insert_below rounds x n q (bits * 2 % 2 ^ 64) s) m.4.0
          ∙ below.1)
        I.only
        (nodes_same s i x n ready aligned up a k rounds w lo bits ring l r m apart new h differs t l
          I.same apart.1.0 (All-map _ _ ring (λ y q. q.0) apart.2))
        (other_same s i x n ready aligned up a k rounds w lo bits ring l r m apart new h differs t l
          r I.same new.3 (Avoids-swap l r apart.3))
        at.child1 (λ y ne off. I.same y ne off.2) I.inserted
        (subst (λ q. Represents t i a q I.after) (sym (at.child0 ∙ m.4.0)) I.shape) I.ordered

  -- The right subtree, empty or not.
  go_right :
      (up a k rounds w lo bits : ℕ) (ring : List ℕ) (l r : Trie)
      → Represents s i up a (node a k ring l r)
      → IsSeparate (node a k ring l r)
      → Avoids x (node a k ring l r)
      → IsTrie (suc w) lo (node a k ring l r)
      → k ≢ n
      → lo % 16 ≡ 0
      → Bits (suc w) lo n bits
      → lo + span w ≤ n
      → n < lo + span (suc w)
      → w < rounds
      → Inserts s i x n r
      → (t : State) × (insert_below (suc rounds) x n a bits s ≡ done tt t)
        × IsInserted s t i up x n (suc w) lo a (node a k ring l r)
  go_right up a k rounds w lo bits ring l leaf m apart new h differs al bt from to fuel ih =
      let t = leaf_insertion x a 1 s in
      let step = high-Bits w lo n bits bt from to in
      result_right s i x n ready aligned up a k rounds w lo bits ring l leaf m apart new h differs t
        (node x n [] leaf leaf)
        (new_child s i x n ready aligned up a k rounds w lo bits ring l leaf m apart new h differs 1
          step.0 m.5)
        refl
        (leaf_nodes s i x n ready aligned up a k rounds w lo bits ring l leaf m apart new h differs
          1)
        (leaf_others s i x n ready aligned up a k rounds w lo bits ring l leaf m apart new h differs
          1 l new.2 apart.1.0)
        refl (λ y ne off. leaf_insertion-SameAt x a 1 y s ne off.0) new_leaf
        (subst (λ q. Represents t i a q (node x n [] leaf leaf)) (ground arith)
          (leaf_insertion-leaf i n x a 1 s new.0 ready))
        (new_leaf-IsTrie w (lo + span w) x n aligned (omega (arith, al, span_aligned w)) from
          (omega (arith, to)))
  go_right up a k rounds w lo bits ring l (node b j rb r1 r2) m apart new h differs al bt from to
        fuel ih =
      let r = node b j rb r1 r2 in
      let step = high-Bits w lo n bits bt from to in
      let some : s.heap.child1 a ≢ 0 = ground (arith, m.5.0, m.5.1.nonnull) in
      let shape = subst (λ q. Represents s i a q r) m.5.0 m.5 in
      let below =
        ih rounds w (lo + span w) a (bits * 2 % 2 ^ 64) h.4 shape apart.5 new.3
          (omega (arith, al, span_aligned w)) step.1 from (omega (arith, to)) fuel in
      let t = below.0 in
      let I = below.2 in
      let at = I.same a (λ e. new.0 (sym e)) apart.1.1 in
      result_right s i x n ready aligned up a k rounds w lo bits ring l r m apart new h differs t
        I.after
        (go_child s i x n ready aligned up a k rounds w lo bits ring l r m apart new h differs 1
            step.0 some
          ∙ ap (λ (q : ℕ). insert_below rounds x n q (bits * 2 % 2 ^ 64) s) m.5.0
          ∙ below.1)
        I.only
        (nodes_same s i x n ready aligned up a k rounds w lo bits ring l r m apart new h differs t r
          I.same apart.1.1 (All-map _ _ ring (λ y q. q.1) apart.2))
        (other_same s i x n ready aligned up a k rounds w lo bits ring l r m apart new h differs t r
          l I.same new.2 apart.3)
        at.child0 (λ y ne off. I.same y ne off.3) I.inserted
        (subst (λ q. Represents t i a q I.after) (sym (at.child1 ∙ m.5.0)) I.shape) I.ordered

  in_ring :
      (rounds w lo up bits a k : ℕ) (ring : List ℕ) (l r : Trie)
      → IsTrie w lo (node a k ring l r)
      → IsTrie w lo (node a k (x ∷ ring) l r)
      → Represents s i up a (node a k ring l r)
      → IsSeparate (node a k ring l r)
      → Avoids x (node a k ring l r)
      → k ≡ n
      → (t : State) × (insert_below (suc rounds) x n a bits s ≡ done tt t)
        × IsInserted s t i up x n w lo a (node a k ring l r)
  in_ring rounds w lo up bits a k ring l r h h' m apart new same = (
    ring_insertion x a s,
    ring_insertion-steps s i up x a n k ring l r m new ready same rounds bits,
    record {
      after = node a k (x ∷ ring) l r;
      inserted = new_in_ring same;
      shape = ring_insertion-Represents s i up x a n k ring l r m new ready same apart;
      ordered = h';
      same = ring_insertion-SameAt s i up x a n k ring l r m new ready same;
      only = refl;
    },
  )

  in_node :
      (a k : ℕ) (ring : List ℕ) (l r : Trie)
      → Inserts s i x n l
      → Inserts s i x n r
      → Inserts s i x n (node a k ring l r)
  in_node a k ring l r ihl ihr zero w lo up bits h m apart new al bt from to fuel =
      absurd (omega arith)
  in_node a k ring l r ihl ihr (suc rounds) zero lo up bits h m apart new al bt from to fuel =
      in_ring rounds zero lo up bits a k ring l r h h m apart new
        (omega (arith, h.0, aligned, al, from, to))
  in_node a k ring l r ihl ihr (suc rounds) (suc w) lo up bits h m apart new al bt from to fuel =
      elim (Bool-cases (k == n)) [
        | inl same ↦
            in_ring rounds (suc w) lo up bits a k ring l r h h m apart new (ground (arith, same))
        | inr differs ↦ elim (Bool-cases (ltb n (lo + span w))) [
          | inl low ↦
              go_left up a k rounds w lo bits ring l r m apart new h (ground (arith, differs)) al bt
                from (ground arith) (omega arith) ihl
          | inr high ↦
              go_right up a k rounds w lo bits ring l r m apart new h (ground (arith, differs)) al
                bt (ground arith) to (omega arith) ihr
        ]
      ]

  -- `insert_below` puts the chunk in the trie, where its size belongs.
  pub insert_below-IsInserted : (u : Trie) → Inserts s i x n u
  insert_below-IsInserted leaf = tt
  insert_below-IsInserted (node a k ring l r) =
      in_node a k ring l r (insert_below-IsInserted l) (insert_below-IsInserted r)
