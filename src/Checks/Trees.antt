-- ===== src/Checks/Trees.antt =====
-- `bin_find` on a tree bin decides whether the bin's trie has the chunk.
use dlmalloc_rs.Prelude.{
  ℕ, zero, suc, ◌+◌, ◌*◌, ◌/◌, ◌%◌, ◌^◌, ◌≤◌, ◌<◌, ◌≡◌, ◌≢◌, ◌∙◌, refl, ap, sym, subst, Bool, true,
  false, not, ◌&&◌, ◌||◌, ◌==◌, some, List, [], ◌∷◌, arith, Bool-cases, inl, inr, ltb, All, length,
}
use dlmalloc_rs.Size.{is_small}
use dlmalloc_rs.TreeIndex.{compute_tree_index, leftshift_for_tree_index}
use dlmalloc_rs.State.{State, child, treebin_at}
use dlmalloc_rs.Head.{chunksize}
use dlmalloc_rs.TreeBin.Trie.{
  Trie, leaf, node, is_node, is_leaf, Each, Each-mono, IsTrie, IsTrie-range, span, Represents,
  IsTreeChunk, IsRingChunk,
}
use dlmalloc_rs.TreeBin.Separate.{IsSeparate}
use dlmalloc_rs.TreeBin.Bins.{TreeBins, undecided, base}
use dlmalloc_rs.TreeBin.Digits.{
  Bits, low-Bits, high-Bits, root-Bits, root_range, index_lt, base_aligned, undecided_lt,
}
use dlmalloc_rs.TreeBin.Insert.Down.{span_aligned}
use dlmalloc_rs.Checks.{circle_has, node_for, ring_has, bin_find}
use dlmalloc_rs.Checks.Find.{has, circle_has-Links}

-- The trie has the chunk, as a node or in a ring.
abbrev pub holds : ℕ → Trie → Bool
holds x leaf = false
holds x (node a n ring l r) = has x (a ∷ ring) || (holds x l || holds x r)

-- All rings are shorter than `rounds`.
abbrev pub Rings : ℕ → Trie → Type 0
Rings rounds leaf = Unit
Rings rounds (node a n ring l r) = (length ring < rounds) × Rings rounds l × Rings rounds r

has_none :
    (s : State) (i x n k : ℕ) (ring : List ℕ)
    → All (IsRingChunk s i k) ring
    → chunksize s x ≡ n
    → k ≢ n
    → has x ring ≡ false
has_none s i x n k [] h size ne = refl
has_none s i x n k (y ∷ ys) h size ne =
    let other : (y == x) ≡ false = elim (Bool-cases (y == x)) [
      | inl e ↦ absurd (ne (sym h.0.chunk.size ∙ ap (chunksize s) (ground (arith, e)) ∙ size))
      | inr e ↦ e
    ] in
    rw other (has_none s i x n k ys h.1 size ne)

node_other :
    (s : State) (i up x n a k : ℕ)
    → IsTreeChunk s i up k a
    → chunksize s x ≡ n
    → k ≢ n
    → (a == x) ≡ false
node_other s i up x n a k h size ne = elim (Bool-cases (a == x)) [
  | inl e ↦ absurd (ne (sym h.size ∙ ap (chunksize s) (ground (arith, e)) ∙ size))
  | inr e ↦ e
]

holds_none :
    (s : State) (i up p x n : ℕ) (t : Trie)
    → Represents s i up p t
    → chunksize s x ≡ n
    → Each (λ b k. k ≢ n) t
    → holds x t ≡ false
holds_none s i up p x n leaf m size h = refl
holds_none s i up p x n (node a k ring l r) m size h =
    rw
      (
        node_other s i up x n a k m.1 size h.0,
        has_none s i x n k ring m.3 size h.0,
        holds_none s i a (s.heap.child0 a) x n l m.4 size h.1,
        holds_none s i a (s.heap.child1 a) x n r m.5 size h.2,
      )
      refl

or_none : (b : Bool) → (b || false) ≡ b
or_none true = refl
or_none false = refl

large_size : (n : ℕ) → 256 ≤ n → is_small n ≡ false
unfolding is_small
large_size n h = ground arith

module _ (s : State) (i rounds x n : ℕ) (size : chunksize s x ≡ n) (aligned : n % 16 ≡ 0) where
  at_node :
      (fuel w lo up p bits a k : ℕ) (ring : List ℕ) (l r : Trie)
      → Represents s i up p (node a k ring l r)
      → IsSeparate (node a k ring l r)
      → Rings rounds (node a k ring l r)
      → holds x l ≡ false
      → holds x r ≡ false
      → k ≡ n
      → ring_has rounds x s (node_for (suc fuel) n p bits s) ≡ some (holds x (node a k ring l r))
  unfolding node_for
  at_node fuel w lo up p bits a k ring l r m apart short nl nr same =
      let given : not (p == 0) ≡ true = ground (arith, m.0, m.1.nonnull) in
      let found : not (chunksize s p == n) ≡ false =
        ground (arith, subst (λ q. chunksize s q ≡ k) (sym m.0) m.1.size, same) in
      let circle = circle_has-Links rounds x a a ring s m.2 apart.0.0 short.0 in
      rw (given, found, given)
        (ap (λ (q : ℕ). circle_has rounds x q q s) m.0
          ∙ circle
          ∙ rw (nl, nr) (ap some (sym (or_none (has x (a ∷ ring))))))

  -- On to the child that the size's bit says.
  step :
      (fuel up p bits bit a k : ℕ) (ring : List ℕ) (l r : Trie)
      → Represents s i up p (node a k ring l r)
      → k ≢ n
      → bits / 2 ^ 63 % 2 ≡ bit
      → node_for (suc fuel) n p bits s ≡ node_for fuel n (child s a bit) (bits * 2 % 2 ^ 64) s
  unfolding node_for
  step fuel up p bits bit a k ring l r m differs top =
      let on : (not (p == 0) && not (chunksize s p == n)) ≡ true =
        ground
          (arith, m.0, m.1.nonnull, subst (λ q. chunksize s q ≡ k) (sym m.0) m.1.size, differs) in
      rw (on, top) (ap (λ (q : ℕ). node_for fuel n (child s q bit) (bits * 2 % 2 ^ 64) s) m.0)

  pub node_for-holds :
      (fuel w lo up p bits : ℕ) (t : Trie)
      → Represents s i up p t
      → IsSeparate t
      → IsTrie w lo t
      → Rings rounds t
      → lo % 16 ≡ 0
      → Bits w lo n bits
      → lo ≤ n
      → n < lo + span w
      → w < fuel
      → ring_has rounds x s (node_for fuel n p bits s) ≡ some (holds x t)
  unfolding node_for
  node_for-holds zero w lo up p bits t m apart h short al bt from to enough = absurd (omega arith)
  node_for-holds (suc fuel) w lo up p bits leaf m apart h short al bt from to enough =
      let stop : not (p == 0) ≡ false = ground (arith, m) in rw (stop, stop) refl
  node_for-holds (suc fuel) zero lo up p bits (node a k ring leaf leaf) m apart h short al bt from
        to enough =
      at_node fuel zero lo up p bits a k ring leaf leaf m apart short refl refl
        (omega (arith, h.0, aligned, al, from, to))
  node_for-holds (suc fuel) zero lo up p bits (node a k ring (node b j rb l1 l2) r) m apart h short
        al bt from to enough =
      absurd (cc)
  node_for-holds (suc fuel) zero lo up p bits (node a k ring leaf (node b j rb l1 l2)) m apart h
        short al bt from to enough =
      absurd (cc)
  node_for-holds (suc fuel) (suc w) lo up p bits (node a k ring l r) m apart h short al bt from to
        enough =
      let rest_low = λ (hyp : n < lo + span w).
        node_for-holds fuel w lo a (s.heap.child0 a) (bits * 2 % 2 ^ 64) l m.4 apart.4 h.3 short.1
          al (low-Bits w lo n bits bt from hyp).1 from hyp (omega arith) in
      let rest_high = λ (hyp : lo + span w ≤ n).
        node_for-holds fuel w (lo + span w) a (s.heap.child1 a) (bits * 2 % 2 ^ 64) r m.5 apart.5
          h.4 short.2 (omega (arith, al, span_aligned w)) (high-Bits w lo n bits bt hyp to).1 hyp
          (omega (arith, to)) (omega arith) in
      elim (Bool-cases (k == n)) [
        | inl found ↦
            let same : k ≡ n = ground (arith, found) in
            let nl =
              holds_none s i a (s.heap.child0 a) x n l m.4 size
                (Each-mono _ _ l (λ b j ne e. ne (e ∙ sym same)) h.5) in
            let nr =
              holds_none s i a (s.heap.child1 a) x n r m.5 size
                (Each-mono _ _ r (λ b j ne e. ne (e ∙ sym same)) h.6) in
            at_node fuel (suc w) lo up p bits a k ring l r m apart short nl nr same
        | inr other ↦
            let differs : k ≢ n = ground (arith, other) in
            let na = node_other s i up x n a k m.1 size differs in
            let none_here = has_none s i x n k ring m.3 size differs in
            elim (Bool-cases (ltb n (lo + span w))) [
              | inl low ↦
                  let below : n < lo + span w = ground (arith, low) in
                  let nr = holds_none s i a (s.heap.child1 a) x n r m.5 size (
                    Each-mono _ _ r (λ b j q e. omega (arith, q, e, below))
                      (IsTrie-range w (lo + span w) r h.4)) in
                  ap (ring_has rounds x s) (
                    step fuel up p bits 0 a k ring l r m differs
                      (low-Bits w lo n bits bt from below).0)
                  ∙ rest_low below
                  ∙ rw (na, none_here, nr) (ap some (sym (or_none (holds x l))))
              | inr high ↦
                  let above : lo + span w ≤ n = ground (arith, high) in
                  let nl = holds_none s i a (s.heap.child0 a) x n l m.4 size (
                    Each-mono _ _ l (λ b j q e. omega (arith, q, e, above))
                      (IsTrie-range w lo l h.3)) in
                  ap (ring_has rounds x s) (
                    step fuel up p bits 1 a k ring l r m differs
                      (high-Bits w lo n bits bt above to).0)
                  ∙ rest_high above
                  ∙ rw (na, none_here, nl) refl
            ]
      ]

-- When the tree bins hold the tries `tries`, the size of `x` is a multiple of 16 from 256 on and below
-- 2 ^ 64, and the rings of its bin have fewer than `rounds` chunks behind their first, `bin_find` ends
-- within `rounds` rounds along a ring, and tells whether the bin's trie has `x`, as a node or in a
-- ring.
pub bin_find-TreeBins :
    (rounds x : ℕ) (s : State) (tries : ℕ → Trie)
    → TreeBins s tries
    → chunksize s x % 16 ≡ 0
    → 256 ≤ chunksize s x
    → chunksize s x < 2 ^ 64
    → Rings rounds (tries (compute_tree_index (chunksize s x)))
    → bin_find rounds x s ≡ some (holds x (tries (compute_tree_index (chunksize s x))))
unfolding bin_find
bin_find-TreeBins rounds x s tries inv aligned large word short =
    let n = chunksize s x in
    let i = compute_tree_index n in
    let lt = index_lt n large in
    let not_small : is_small n ≡ false = large_size n large in
    let range = root_range n i large word refl in
    elim (Bool-cases (is_node (tries i))) [
      | inr empty ↦
          rw (not_small, inv.marked i lt, empty)
            (ap (λ (t : Trie). some (holds x t)) (sym (is_leaf (tries i) empty)))
      | inl filled ↦
          rw (not_small, inv.marked i lt, filled)
            (node_for-holds s i rounds x n refl aligned 64 (undecided i) (base i) (treebin_at s i)
              (s.m.treebins i) (n * 2 ^ leftshift_for_tree_index i % 2 ^ 64) (tries i)
              (inv.each i lt) (inv.separate i lt) (inv.ordered i lt) short (base_aligned i lt)
              (root-Bits n i large word refl) range.0 range.1 (undecided_lt i lt))
    ]
