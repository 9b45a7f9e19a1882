-- ===== src/TreeAlloc/Large/Own.antt =====
-- The search of the request's own bin, and what goes on from the subtree that it leaves.
use dlmalloc_rs.Prelude.{
  ℕ, ◌-◌, ◌^◌, ◌≤◌, ◌<◌, ◌≡◌, ◌≢◌, ◌∙◌, ◌⊎◌, refl, arith, ltb, Bool-cases, inl, inr,
}
use dlmalloc_rs.Size.{sub64}
use dlmalloc_rs.TreeIndex.{compute_tree_index}
use dlmalloc_rs.State.{State, done, treebin_at}
use dlmalloc_rs.TreeBin.Trie.{
  Trie, leaf, node, Each, Each-mono, Each-both, Each-HasNode, HasNode, here, left, right,
  Represents,
}
use dlmalloc_rs.TreeBin.Bins.{undecided, base, BelongsTo, TreeBins}
use dlmalloc_rs.TreeAlloc.{Search, search_leftmost}
use dlmalloc_rs.TreeAlloc.Leftmost.{search_leftmost-IsBest, search_leftmost-zero}
use dlmalloc_rs.TreeBin.Digits.{undecided_lt}
use dlmalloc_rs.TreeAlloc.Walk.{Walked}
use dlmalloc_rs.TreeAlloc.Walk.Steps.{Each-self}
use dlmalloc_rs.TreeAlloc.Walk.Found.{walk-Walked}
use dlmalloc_rs.TreeBin.Digits.{index_lt, root_range, root-Bits}
use dlmalloc_rs.TreeAlloc.Large.{start, own_bin}

-- The search ends at a chunk of the trie that is large enough, and no such chunk is smaller.
pub record FitsBest (nb : ℕ) (out : Search) (t : Trie) : Type 0 where
  pub a : ℕ
  pub n : ℕ
  pub among : HasNode a n t
  pub enough : nb ≤ n
  pub at : out.v ≡ a
  pub rest : out.rsize ≡ n - nb
  pub least : Each (λ b k. nb ≤ k → n ≤ k) t

pub HasNode-nonnull :
    (s : State) (i up p a n : ℕ) (t : Trie) → Represents s i up p t → HasNode a n t → 0 < a
HasNode-nonnull s i up p a n leaf m h = elim h [ ]
HasNode-nonnull s i up p a n (node b k ring l r) m here = m.1.nonnull
HasNode-nonnull s i up p a n (node b k ring l r) m (left h) =
    HasNode-nonnull s i b (s.heap.child0 b) a n l m.4 h
HasNode-nonnull s i up p a n (node b k ring l r) m (right h) =
    HasNode-nonnull s i b (s.heap.child1 b) a n r m.5 h

-- The search that goes on from where the walk stopped: a further chunk is large enough.
leftmost_rest :
    (s : State) (i nb : ℕ) (q r : Search) (t rest : Trie) (W : Walked s i nb q r t rest)
    → (out : Search) × (search_leftmost 64 nb r s ≡ done out s)
      × (out.rsize ≤ r.rsize)
      × Each (λ a n. (r.rsize ≡ 0) ⊎ ((nb ≤ n) × (n < 2 ^ 64) × (out.rsize ≤ n - nb))) W.trie
      × (((out.v ≡ r.v) × (out.rsize ≡ r.rsize))
          ⊎ ((a n : ℕ) × HasNode a n W.trie × (nb ≤ n) × (out.v ≡ a) × (out.rsize ≡ n - nb)))
leftmost_rest s i nb q r t rest W = elim (W.candidates) [
  | inl exact ↦ (
    record r { t = 0 },
    search_leftmost-zero 64 W.w W.lo i W.up nb W.trie s r W.ordered W.shape exact W.depth,
    omega arith,
    Each-mono _ _ W.trie (λ a n x. inl exact) (Each-self W.trie),
    inl (refl, refl),
  )
  | inr fits ↦
      let found =
        search_leftmost-IsBest 64 W.w W.lo i W.up nb W.trie s r W.ordered W.shape fits W.depth in
      let best = found.2 in
      (
        found.0,
        found.1,
        best.no_worse,
        Each-mono _ _ W.trie (λ a n x. inr (x.0.0, x.0.1, x.1))
            (Each-both _ _ W.trie fits best.least),
        elim (best.source) [
          | inl same ↦ inl same
          | inr (a, n, m, e, f) ↦ inr (a, n, m, (Each-HasNode _ W.trie a n fits m).0, e, f)
        ],
      )
]

pub start_size : (nb : ℕ) → 0 < nb → nb < 2 ^ 64 → sub64 0 nb ≡ 2 ^ 64 - nb
unfolding sub64
start_size nb pos word = omega arith

module _ (s : State) (tries : ℕ → Trie) (nb : ℕ) (inv : TreeBins s tries) (large : 256 ≤ nb)
    (word : nb < 2 ^ 64) where
  pub own_bin-Walked :
      (let i = compute_tree_index nb in
        (r : Search) × (own_bin nb s ≡ done r s)
        × Walked s i nb (start nb (s.m.treebins i)) r (tries i) leaf)
  own_bin-Walked =
      let i = compute_tree_index nb in
      let lt = index_lt nb large in
      let range = root_range nb i large word refl in
      let words =
        Each-mono _ _ (tries i) (λ a n (b : BelongsTo i n). (omega (arith, b.large), b.word))
          (inv.sizes i lt) in
      walk-Walked s i nb word 64 (undecided i) (base i) (treebin_at s i) _ 0
        (start nb (s.m.treebins i)) (tries i) leaf (inv.ordered i lt) (inv.each i lt) words
        (root-Bits nb i large word refl) range.0 range.1 (undecided_lt i lt) (undecided_lt i lt)
        (omega (arith, start_size nb (omega arith) word))
        (record {
          up = 0;
          w = 0;
          lo = 0;
          shape = refl;
          ordered = tt;
          depth = omega arith;
          above = tt;
        })

pub some_node :
    (s : State) (i up p : ℕ) (t : Trie) → Represents s i up p t → p ≢ 0 → (a n : ℕ) × HasNode a n t
some_node s i up p leaf m some = absurd (some m)
some_node s i up p (node a n ring l r) m some = (a, n, here)

no_node :
    (s : State) (i up p a n : ℕ) (t : Trie) → Represents s i up p t → p ≡ 0 → HasNode a n t → ⊥
no_node s i up p a n leaf m null h = elim h [ ]
no_node s i up p a n (node b k ring l r) m null h = absurd (omega (arith, m.0, m.1.nonnull, null))

module _ (s : State) (i nb root : ℕ) (r : Search) (t : Trie) (pos : 0 < nb) (word : nb < 2 ^ 64)
    (W : Walked s i nb (start nb root) r t leaf) where
  -- Of the chunks that are large enough, none is better than the best of the whole search.
  covered_least :
      (out : Search)
      → out.rsize ≤ r.rsize
      → Each (λ a n. (r.rsize ≡ 0) ⊎ ((nb ≤ n) × (n < 2 ^ 64) × (out.rsize ≤ n - nb))) W.trie
      → Each (λ b k. nb ≤ k → out.rsize ≤ k - nb) t
  covered_least out le rest =
      Each-mono _ _ t
        (λ b k c enough. elim (c enough) [
          | inl better ↦ omega (arith, better, le)
          | inr (c', j, m, less) ↦ elim (Each-HasNode _ W.trie c' j rest m) [
            | inl exact ↦ omega (arith, exact, le)
            | inr both ↦ omega (arith, both, less)
          ]
        ])
        W.covers

  fits_best :
      (out : Search) (a n : ℕ)
      → HasNode a n t
      → nb ≤ n
      → out.v ≡ a
      → out.rsize ≡ n - nb
      → Each (λ b k. nb ≤ k → out.rsize ≤ k - nb) t
      → FitsBest nb out t
  fits_best out a n m enough at rest least = record {
    a = a;
    n = n;
    among = m;
    enough = enough;
    at = at;
    rest = rest;
    least = Each-mono _ _ t (λ b k h big. omega (arith, h big, rest, enough, big)) least;
  }

  -- The walk found a chunk, or left a subtree.
  pub own_found :
      ((r.t ≢ 0) ⊎ (r.v ≢ 0))
      → (out : Search) × (search_leftmost 64 nb r s ≡ done out s) × FitsBest nb out t
  own_found some =
      let rest = leftmost_rest s i nb (start nb root) r t leaf W in
      let out = rest.0 in
      let least = covered_least out rest.2 rest.3 in
      (
        out,
        rest.1,
        elim (rest.4) [
          | inr (a, n, m, enough, at, e) ↦ elim (W.inside a n m) [
            | inl own ↦ fits_best out a n own enough at e least
            | inr none_aside ↦ elim none_aside [ ]
          ]
          | inl (v, e) ↦ elim (W.source) [
            | inr (a, n, m, enough, at, f) ↦ fits_best out a n m enough (v ∙ at) (e ∙ f) least
            | inl (null, f) ↦ elim some [
              | inr given ↦ absurd (given null)
              | inl subtree ↦
                  let sub = some_node s i W.up r.t W.trie W.shape subtree in
                  absurd (elim (Each-HasNode _ W.trie sub.0 sub.1 rest.3 sub.2) [
                    | inl exact ↦ omega (arith, exact, f, start_size nb pos word)
                    | inr both ↦ omega (arith, both, e, f, start_size nb pos word)
                  ])
            ]
          ]
        ],
      )

  -- The walk found no chunk, and no subtree is left.
  pub own_none :
      (up p : ℕ)
      → Represents s i up p t
      → Each (λ a n. n < 2 ^ 64) t
      → r.t ≡ 0
      → r.v ≡ 0
      → Each (λ b k. k < nb) t × (r.rsize ≡ 2 ^ 64 - nb)
  own_none up p m words none_left null = elim (W.source) [
    | inr (a, n, own, enough, at, f) ↦
        absurd (omega (arith, HasNode-nonnull s i up p a n t m own, at, null))
    | inl (v, f) ↦ (
      Each-mono _ _ t
          (λ b k both. elim (Bool-cases (ltb k nb)) [
            | inl below ↦ ground arith
            | inr enough ↦ elim (both.1 (ground arith)) [
              | inl better ↦
                  absurd (ground (arith, better, f, start_size nb pos word, both.0, enough))
              | inr (c, j, sub, less) ↦
                  absurd (no_node s i W.up r.t c j W.trie W.shape none_left sub)
            ]
          ])
          (Each-both _ _ t words W.covers),
      f ∙ start_size nb pos word,
    )
  ]
