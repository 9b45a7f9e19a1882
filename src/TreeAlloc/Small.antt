-- ===== src/TreeAlloc/Small.antt =====
-- `tmalloc_small` takes the smallest chunk of all the trees.
use dlmalloc_rs.Prelude.{
  ℕ, ◌+◌, ◌-◌, ◌%◌, ◌^◌, ◌≤◌, ◌<◌, ◌≡◌, ◌≢◌, ◌∙◌, ap, refl, sym, subst, true, false, List, arith,
  ltb, ◌==◌, Bool-cases, inl, inr, ==_iff,
}
use dlmalloc_rs.Word.{bit_at}
use dlmalloc_rs.Size.{sub64}
use dlmalloc_rs.BinMap.{least_bit, compute_bit2idx}
use dlmalloc_rs.BinMap.Laws.{bit_is_marked-bit_at}
use dlmalloc_rs.BinMap.First.{least_bit_index}
use dlmalloc_rs.State.{State, treebin_at, done, leftmost_child}
use dlmalloc_rs.Head.{chunksize}
use dlmalloc_rs.TreeBin.{treemap_is_marked}
use dlmalloc_rs.TreeBin.Trie.{
  is_node-cases, Trie, leaf, node, is_node, Each, Each-mono, Each-both, Each-HasNode, HasNode,
  Represents,
}
use dlmalloc_rs.TreeBin.Digits.{undecided_lt}
use dlmalloc_rs.TreeBin.Bins.{undecided, base, BelongsTo-lt, TreeBins}
use dlmalloc_rs.TreeAlloc.{Search, search_leftmost, split_small, tmalloc_small}
use dlmalloc_rs.TreeAlloc.Leftmost.{Fits, search_leftmost-IsBest}

-- The node at `a` is in bin `i`, and no chunk of any bin is smaller.
pub record IsLeast (tries : ℕ → Trie) (i a n : ℕ) : Type 0 where
  pub bin : i < 32
  pub among : HasNode a n (tries i)
  pub least : (j : ℕ) → j < 32 → Each (λ b k. n ≤ k) (tries j)

pub Each-no_node : (P : ℕ → ℕ → Type 0) (t : Trie) → is_node t ≡ false → Each P t
Each-no_node P leaf e = tt
Each-no_node P (node a n ring l r) e = cc

-- The first round of the search, which `tmalloc_small` makes by itself.
first_step :
    (nb root n : ℕ) (s : State)
    → 0 < root
    → chunksize s root ≡ n
    → n < 2 ^ 64
    → search_leftmost 65 nb (record { t = root; v = 0; rsize = 2 ^ 64 }) s
      ≡ search_leftmost 64 nb
          (record { t = leftmost_child s root; v = root; rsize = sub64 (chunksize s root) nb })
          s
unfolding search_leftmost sub64
first_step nb root n s given size word =
    let go : (root == 0) ≡ false = ground (arith, given) in
    let better : ltb ((chunksize s root + 2 ^ 64 - nb) % 2 ^ 64) (2 ^ 64) ≡ true = ground arith in
    rw (go, better) refl

module _ {s : State} {tries : ℕ → Trie} (inv : TreeBins s tries) (i : ℕ) (lt : i < 32) where
  fits : (nb : ℕ) → nb ≤ 256 → Fits nb (tries i)
  fits nb h =
      Each-mono _ _ (tries i) (λ a n b. (omega (arith, h, b.large), b.word)) (inv.sizes i lt)

  -- The least chunk of the first bin that is not empty is the least of all.
  IsLeast-of_all :
      (a n : ℕ)
      → ((j : ℕ) → j < i → is_node (tries j) ≡ false)
      → HasNode a n (tries i)
      → Each (λ b k. n ≤ k) (tries i)
      → IsLeast tries i a n
  IsLeast-of_all a n before m low = record {
    bin = lt;
    among = m;
    least = λ j h. elim (Bool-cases (ltb j i)) [
      | inl earlier ↦ Each-no_node _ (tries j) (before j (ground arith))
      | inr not_earlier ↦ elim (Bool-cases (i == j)) [
        | inl same ↦ subst (λ k. Each (λ b c. n ≤ c) (tries k)) ((==_iff i j).0 same) low
        | inr later ↦
            Each-mono _ _ (tries j)
              (λ b k bk.
                let less =
                  BelongsTo-lt i j n k (ground arith) h
                    (Each-HasNode _ (tries i) a n (inv.sizes i lt) m) bk in
                omega (arith, less))
              (inv.sizes j h)
      ]
    ];
  }

  -- The search of `tmalloc_small` in bin `i`.
  search_bin_least :
      (nb a n : ℕ) (ring : List ℕ) (l r : Trie)
      → nb ≤ 256
      → tries i ≡ node a n ring l r
      → (b k : ℕ) × HasNode b k (tries i)
        × Each (λ c m. k ≤ m) (tries i)
        × (search_leftmost 64 nb
              (record {
                t = leftmost_child s (s.m.treebins i);
                v = s.m.treebins i;
                rsize = sub64 (chunksize s (s.m.treebins i)) nb;
              })
              s
            ≡ done (record { t = 0; v = b; rsize = k - nb }) s)
  search_bin_least nb a n ring l r small e =
      let shape = subst (Represents s i (treebin_at s i) (s.m.treebins i)) e (inv.each i lt) in
      let q : Search = record { t = s.m.treebins i; v = 0; rsize = 2 ^ 64 } in
      let f = fits nb small in
      let found =
        search_leftmost-IsBest 65 (undecided i) (base i) i (treebin_at s i) nb (tries i) s q
          (inv.ordered i lt) (inv.each i lt) f (omega (arith, undecided_lt i lt)) in
      let best = found.2 in
      elim (best.source) [
        | inl (_, none_better) ↦
            let root = (subst (Fits nb) e f).0 in
            let better = (subst (Each (λ b k. found.0.rsize ≤ k - nb)) e best.least).0 in
            absurd (omega (arith, none_better, root, better))
        | inr (b, k, m, at, rest) ↦ (
          b,
          k,
          m,
          Each-mono _ _ (tries i)
              (λ c j both. omega (arith, both, rest, Each-HasNode _ (tries i) b k f m))
              (Each-both _ _ (tries i) f best.least),
          sym (
                first_step nb (s.m.treebins i) n s (omega (arith, shape.0, shape.1.nonnull))
                  (subst (λ p. chunksize s p ≡ n) (sym shape.0) shape.1.size)
                  (subst (Fits nb) e f).0.1)
              ∙ found.1
              ∙ ap (λ x. done x s) (ground (arith, best.finished, at, rest)),
        )
      ]

pub node_by_bit :
    {s : State} {tries : ℕ → Trie}
    → TreeBins s tries
    → (j : ℕ) → j < 32
    → (bit_at s.m.treemap j == 1) ≡ is_node (tries j)
unfolding treemap_is_marked
node_by_bit {s = s} inv j h = sym (bit_is_marked-bit_at s.m.treemap j h) ∙ inv.marked j h

empty_before :
    {s : State} {tries : ℕ → Trie}
    → TreeBins s tries
    → (i j : ℕ) → i < 32
    → j < i
    → bit_at s.m.treemap j ≡ 0
    → is_node (tries j) ≡ false
empty_before inv i j last h z = ground (arith, node_by_bit inv j (omega (arith, last, h)), z)

-- When the tree bins hold the tries `tries`, not all of them empty, and the request is at most 256,
-- the search of `tmalloc_small` ends, and its run is `split_small` of a smallest chunk of all the trees.
pub tmalloc_small-IsLeast :
    (s : State) (tries : ℕ → Trie) (nb : ℕ)
    → TreeBins s tries
    → s.m.treemap ≢ 0
    → nb ≤ 256
    → (i a n : ℕ) × IsLeast tries i a n × (tmalloc_small nb s ≡ split_small a nb (n - nb) s)
unfolding tmalloc_small
tmalloc_small-IsLeast s tries nb inv some small =
    let i = compute_bit2idx (least_bit s.m.treemap) in
    let first = least_bit_index s.m.treemap (omega (arith, some)) inv.map in
    let filled : is_node (tries i) ≡ true = ground (arith, node_by_bit inv i first.0, first.1) in
    let root = is_node-cases (tries i) filled in
    let found = search_bin_least inv i first.0 nb root.0 root.1 root.2 root.3 root.4 small root.5 in
    let before = λ (j : ℕ) (h : j < i). empty_before inv i j first.0 h (first.2 j h) in
    (
      i,
      found.0,
      found.1,
      IsLeast-of_all inv i first.0 found.0 found.1 before found.2 found.3,
      rw (found.4) refl,
    )
