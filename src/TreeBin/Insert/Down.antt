-- ===== src/TreeBin/Insert/Down.antt =====
-- One step of `insert_below` from a node, to the left or to the right.
use dlmalloc_rs.Prelude.{
  ℕ, zero, suc, ◌+◌, ◌*◌, ◌/◌, ◌%◌, ◌^◌, ◌≤◌, ◌<◌, ◌≡◌, ◌≢◌, refl, ap, sym, subst, true, false, not,
  ◌==◌, List, [], arith, All,
}
use dlmalloc_rs.State.{State, done, child, child_addr, ok_address}
use dlmalloc_rs.Head.{chunksize}
use dlmalloc_rs.TreeBin.{insert_below}
use dlmalloc_rs.TreeBin.Trie.{Trie, leaf, node, IsTrie, span, Represents}
use dlmalloc_rs.TreeBin.Digits.{Bits}
use dlmalloc_rs.TreeBin.Separate.{
  EveryChunk, Avoids, IsSeparate, SameNode, SameAt, EveryChunk-mono, EveryChunk-both, All-map,
  All-both, Represents-frame, Represents-node,
}
use dlmalloc_rs.TreeBin.Insert.{Each-Inserted, Inserted, on_left, on_right}
use dlmalloc_rs.TreeBin.Insert.Ring.{IsReady, OnlyLinks}
use dlmalloc_rs.TreeBin.Insert.Below.{
  IsInserted, leaf_insertion, leaf_insertion-SameAt, leaf_insertion-SameNode,
}

pub leaf-IsTrie : (w lo : ℕ) → IsTrie w lo leaf
leaf-IsTrie zero lo = tt
leaf-IsTrie (suc w) lo = tt

pub new_leaf-IsTrie :
    (w lo x n : ℕ)
    → n % 16 ≡ 0
    → lo % 16 ≡ 0
    → lo ≤ n
    → n < lo + span w
    → IsTrie w lo (node x n [] leaf leaf)
new_leaf-IsTrie zero lo x n a b from to = (omega arith, refl, refl)
new_leaf-IsTrie (suc w) lo x n a b from to =
    (from, to, a, leaf-IsTrie w lo, leaf-IsTrie w (lo + span w), tt, tt)

pub span_aligned : (w : ℕ) → span w % 16 ≡ 0
span_aligned zero = refl
span_aligned (suc w) = omega (arith, span_aligned w)

-- What the walk from a node does, for all states of the walk.
abbrev pub Inserts : (s : State) (i x n : ℕ) → Trie → Type 0
Inserts s i x n leaf = Unit
Inserts s i x n (node a k ring l r) =
    (rounds w lo up bits : ℕ)
    → IsTrie w lo (node a k ring l r)
    → Represents s i up a (node a k ring l r)
    → IsSeparate (node a k ring l r)
    → Avoids x (node a k ring l r)
    → lo % 16 ≡ 0
    → Bits w lo n bits
    → lo ≤ n
    → n < lo + span w
    → w < rounds
    → (t : State) × (insert_below rounds x n a bits s ≡ done tt t)
      × IsInserted s t i up x n w lo a (node a k ring l r)

module _ (s : State) (i x n : ℕ) (ready : IsReady s i n x) (aligned : n % 16 ≡ 0) where
  module _ (up a k rounds w lo bits : ℕ) (ring : List ℕ) (l r : Trie)
      (m : Represents s i up a (node a k ring l r)) (apart : IsSeparate (node a k ring l r))
      (new : Avoids x (node a k ring l r)) (h : IsTrie (suc w) lo (node a k ring l r))
      (differs : k ≢ n) where
    pub go_child :
        (side : ℕ)
        → bits / 2 ^ 63 % 2 ≡ side
        → child s a side ≢ 0
        → insert_below (suc rounds) x n a bits s
          ≡ insert_below rounds x n (child s a side) (bits * 2 % 2 ^ 64) s
    unfolding insert_below
    go_child side bit some =
        let other : not (chunksize s a == n) ≡ true = ground (arith, m.1.size, differs) in
        let go : not (child s a side == 0) ≡ true = ground (arith, some) in rw (other, bit, go) refl

    pub new_child :
        (side : ℕ)
        → bits / 2 ^ 63 % 2 ≡ side
        → child s a side ≡ 0
        → insert_below (suc rounds) x n a bits s ≡ done tt (leaf_insertion x a side s)
    unfolding insert_below
    new_child side bit null =
        let other : not (chunksize s a == n) ≡ true = ground (arith, m.1.size, differs) in
        let stop : not (child s a side == 0) ≡ false = ground (arith, null) in
        let fine : ok_address s (child_addr a side) ≡ true = ground (arith, m.1.low) in
        rw (other, bit, stop, fine) refl

    -- The node itself is the same after an insertion below.
    pub nodes_same :
        (t : State) (u : Trie)
        → ((y : ℕ) → y ≢ x → Avoids y u → SameAt s t y)
        → Avoids a u
        → All (λ y. Avoids y u) ring
        → SameNode s t a × All (SameAt s t) ring
    nodes_same t u same off ring_off = (
      (same a (λ e. new.0 (sym e)) off).node_same,
      All-map _ _ ring (λ y q. same y (λ e. q.0 (sym e)) q.1) (All-both _ _ ring new.1 ring_off),
    )

    -- The other subtree is, too.
    pub other_same :
        (t : State) (u v : Trie)
        → ((y : ℕ) → y ≢ x → Avoids y u → SameAt s t y)
        → Avoids x v
        → EveryChunk (λ y. Avoids y u) v
        → EveryChunk (SameAt s t) v
    other_same t u v same off apart_v =
        EveryChunk-mono _ _ v (λ y q. same y (λ e. q.0 (sym e)) q.1)
          (EveryChunk-both _ _ v off apart_v)

    -- The result at the node, from that in a subtree.
    abbrev pub Result : Type 0
    Result =
        (t : State) × (insert_below (suc rounds) x n a bits s ≡ done tt t)
        × IsInserted s t i up x n (suc w) lo a (node a k ring l r)

    pub result_left :
        (t : State) (l' : Trie)
        → insert_below (suc rounds) x n a bits s ≡ done tt t
        → OnlyLinks s t
        → SameNode s t a × All (SameAt s t) ring
        → EveryChunk (SameAt s t) r
        → t.heap.child1 a ≡ s.heap.child1 a
        → ((y : ℕ) → y ≢ x → Avoids y (node a k ring l r) → SameAt s t y)
        → Inserted x n l l'
        → Represents t i a (t.heap.child0 a) l'
        → IsTrie w lo l'
        → Result
    result_left t l' steps only nodes others kept same ins shape ordered =
        let other : n ≢ k = λ e. differs (sym e) in
        let low : t.m.least_addr ≡ s.m.least_addr = ap (λ (z : State). z.m.least_addr) only in
        (
          t,
          steps,
          record {
            after = node a k ring l' r;
            inserted = on_left ins;
            shape = Represents-node s t i up a k ring l r l' r low nodes.0 nodes.1 m shape (
                subst (λ q. Represents t i a q r) (sym kept)
                  (Represents-frame s t i a (s.heap.child1 a) r low others m.5));
            ordered =
                (h.0, h.1, h.2, ordered, h.4, Each-Inserted (λ b j. j ≢ k) other ins h.5, h.6);
            same = same;
            only = only;
          },
        )

    pub result_right :
        (t : State) (r' : Trie)
        → insert_below (suc rounds) x n a bits s ≡ done tt t
        → OnlyLinks s t
        → SameNode s t a × All (SameAt s t) ring
        → EveryChunk (SameAt s t) l
        → t.heap.child0 a ≡ s.heap.child0 a
        → ((y : ℕ) → y ≢ x → Avoids y (node a k ring l r) → SameAt s t y)
        → Inserted x n r r'
        → Represents t i a (t.heap.child1 a) r'
        → IsTrie w (lo + span w) r'
        → Result
    result_right t r' steps only nodes others kept same ins shape ordered =
        let other : n ≢ k = λ e. differs (sym e) in
        let low : t.m.least_addr ≡ s.m.least_addr = ap (λ (z : State). z.m.least_addr) only in
        (
          t,
          steps,
          record {
            after = node a k ring l r';
            inserted = on_right ins;
            shape =
                Represents-node s t i up a k ring l r l r' low nodes.0 nodes.1 m
                  (subst (λ q. Represents t i a q l) (sym kept)
                    (Represents-frame s t i a (s.heap.child0 a) l low others m.4))
                  shape;
            ordered =
                (h.0, h.1, h.2, h.3, ordered, h.5, Each-Inserted (λ b j. j ≢ k) other ins h.6);
            same = same;
            only = only;
          },
        )

    -- A new leaf at the node.
    pub leaf_nodes :
        (side : ℕ)
        → SameNode s (leaf_insertion x a side s) a × All (SameAt s (leaf_insertion x a side s)) ring
    leaf_nodes side = (
      leaf_insertion-SameNode x a side a s (λ e. new.0 (sym e)),
      All-map _ _ ring
          (λ y q. leaf_insertion-SameAt x a side y s (λ e. q.0 (sym e)) (λ e. q.1 (sym e)))
          (All-both _ _ ring new.1 apart.0.0),
    )

    pub leaf_others :
        (side : ℕ) (v : Trie)
        → Avoids x v
        → Avoids a v
        → EveryChunk (SameAt s (leaf_insertion x a side s)) v
    leaf_others side v off apart_a =
        EveryChunk-mono _ _ v
          (λ y q. leaf_insertion-SameAt x a side y s (λ e. q.0 (sym e)) (λ e. q.1 (sym e)))
          (EveryChunk-both _ _ v off apart_a)
