-- ===== src/TreeBin/Bins.antt =====
-- The 32 tree bins as tries, and the order of the sizes across them.
use dlmalloc_rs.Prelude.{
  ℕ, ◌+◌, ◌/◌, ◌%◌, ◌^◌, ◌≤◌, ◌<◌, ◌≡◌, ◌≢◌, refl, subst, true, arith, ltb, leb, ◌==◌, ◌||◌,
  if◌then◌else◌, Bool-cases, inl, inr, passes_up_to, passes_up_to_lem,
}
use dlmalloc_rs.TreeIndex.{compute_tree_index, minsize_for_tree_index}
use dlmalloc_rs.TreeIndex.Bounds.{compute_tree_index_range, compute_tree_index_last}
use dlmalloc_rs.State.{State, treebin_at}
use dlmalloc_rs.TreeBin.{treemap_is_marked}
use dlmalloc_rs.TreeBin.Separate.{EveryChunk, Avoids, IsSeparate}
use dlmalloc_rs.TreeBin.Trie.{Trie, is_node, Each, IsTrie, Represents}

-- Bin `i` leaves this many bits of a size undecided, above its least size; the last bin has no
-- upper bound and decides no bit.
abbrev pub undecided : ℕ → ℕ
undecided i = if i == 31 then 60 else i / 2 + 3

unfoldable pub base : ℕ → ℕ
base i = if i == 31 then 0 else minsize_for_tree_index i

-- A size that goes to tree bin `i`.
pub record BelongsTo (i n : ℕ) : Type 0 where
  pub aligned : n % 16 ≡ 0
  pub large : 256 ≤ n
  pub word : n < 2 ^ 64
  pub index : compute_tree_index n ≡ i

-- The tree bins hold the tries: pointers, sizes and the map agree with them, and no chunk is in two
-- places.
pub record TreeBins (s : State) (tries : ℕ → Trie) : Type 0 where
  pub map : s.m.treemap < 2 ^ 32
  pub each : (i : ℕ) → i < 32 → Represents s i (treebin_at s i) (s.m.treebins i) (tries i)
  pub ordered : (i : ℕ) → i < 32 → IsTrie (undecided i) (base i) (tries i)
  pub sizes : (i : ℕ) → i < 32 → Each (λ a n. BelongsTo i n) (tries i)
  pub marked : (i : ℕ) → i < 32 → treemap_is_marked s i ≡ is_node (tries i)
  pub separate : (i : ℕ) → i < 32 → IsSeparate (tries i)
  pub apart : (i j : ℕ) → i < 32 → j < 32 → i ≢ j → EveryChunk (λ y. Avoids y (tries j)) (tries i)

-- Over pairs: a test of all `j` below `i`, for each `i` up to 31.
minsize_order_table :
    passes_up_to
      (λ j.
        passes_up_to
          (λ i. leb (minsize_for_tree_index (i + 1)) (minsize_for_tree_index j) || leb j i)
          32)
      32
    ≡ true
unfolding passes_up_to minsize_for_tree_index
minsize_order_table = refl

minsize_order :
    (i j : ℕ) → i < j → j < 32 → minsize_for_tree_index (i + 1) ≤ minsize_for_tree_index j
minsize_order i j h k =
    let row = passes_up_to_lem _ 32 j k minsize_order_table in
    ground (arith, passes_up_to_lem _ 32 i (omega arith) row)

-- A lower bin has smaller sizes.
pub BelongsTo-lt : (i j n m : ℕ) → i < j → j < 32 → BelongsTo i n → BelongsTo j m → n < m
BelongsTo-lt i j n m lower last bn bm = elim (Bool-cases (ltb n (2 ^ 24))) [
  | inr huge ↦ absurd (omega (arith, compute_tree_index_last n (ground arith), bn.index))
  | inl small ↦ elim (Bool-cases (ltb m (2 ^ 24))) [
    | inr huge ↦ ground arith
    | inl below ↦
        let rn = compute_tree_index_range n bn.large (ground arith) in
        let rm = compute_tree_index_range m bm.large (ground arith) in
        let top = subst (λ k. n < minsize_for_tree_index (k + 1)) bn.index rn.2 in
        let bottom = subst (λ k. minsize_for_tree_index k ≤ m) bm.index rm.1 in
        omega (arith, minsize_order i j lower last, top, bottom)
  ]
]
