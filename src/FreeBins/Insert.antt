-- ===== src/FreeBins/Insert.antt =====
-- `insert_chunk` keeps all the bins in order.
use dlmalloc_rs.Prelude.{
  ℕ, ◌+◌, ◌*◌, ◌%◌, ◌^◌, ◌≤◌, ◌<◌, ◌≡◌, ◌≢◌, refl, ap, sym, subst, true, false, ◌==◌, Bool-cases,
  inl, inr, List, ◌∷◌, arith, All, Fresh,
}
use dlmalloc_rs.Size.{is_small, small_index}
use dlmalloc_rs.TreeIndex.{compute_tree_index}
use dlmalloc_rs.State.{State, Run, done, smallbin_at}
use dlmalloc_rs.Head.{chunksize}
use dlmalloc_rs.SmallBin.{insert_small_chunk}
use dlmalloc_rs.SmallBin.Stacks.{Leaves, leaves, OnlySmall, update}
use dlmalloc_rs.SmallBin.Insert.{IsNew}
use dlmalloc_rs.TreeBin.{insert_chunk}
use dlmalloc_rs.TreeBin.Trie.{Trie}
use dlmalloc_rs.TreeBin.Separate.{EveryChunk, Avoids, SameAt, All-map, All-both}
use dlmalloc_rs.TreeBin.Digits.{index_lt}
use dlmalloc_rs.TreeBin.Change.{set_trie}
use dlmalloc_rs.TreeBin.Insert.{Inserted, EveryChunk-Inserted}
use dlmalloc_rs.TreeBin.Insert.Whole.{IsNewLarge}
use dlmalloc_rs.TreeBin.Insert.First.{Result}
use dlmalloc_rs.TreeBin.Insert.Large.{insert_large_chunk-Result}
use dlmalloc_rs.FreeBins.{FreeBins}
use dlmalloc_rs.FreeBins.Small.{FreeBins-insert_small_chunk}
use dlmalloc_rs.FreeBins.Large.{Fresh-swap, SmallBins-OnlyTrees}

-- A chunk of size `n` that is in no bin.
pub record IsLoose (s : State) (stacks : ℕ → List ℕ) (tries : ℕ → Trie) (x n : ℕ) : Type 0 where
  pub nonnull : 0 < x
  pub size : chunksize s x ≡ n
  pub aligned : n % 16 ≡ 0
  pub word : n < 2 ^ 64
  pub new : IsNew s stacks x
  pub off : (j : ℕ) → j < 32 → Avoids x (tries j)

-- The chunk `x` is on top of the stack for its size, or in the trie for it.
pub data Put (stacks : ℕ → List ℕ) (tries : ℕ → Trie) (x n : ℕ)
    : (ℕ → List ℕ) → (ℕ → Trie) → Type 0 where
  on_stack :
      is_small n ≡ true
      → Put stacks tries x n (update stacks (small_index n) (x ∷ stacks (small_index n))) tries
  in_trie :
      {after : Trie}
      → is_small n ≡ false
      → Inserted x n (tries (compute_tree_index n)) after
      → Put stacks tries x n stacks (set_trie tries (compute_tree_index n) after)

-- Nothing has changed but links, roots and the maps of the bins.
abbrev pub OnlyBins : State → State → Type 0
OnlyBins s t = t ≡ record s {
  heap = record (s.heap) {
    fd = t.heap.fd;
    bk = t.heap.bk;
    child0 = t.heap.child0;
    child1 = t.heap.child1;
    parent = t.heap.parent;
    index = t.heap.index;
  };
  m = record (s.m) { smallmap = t.m.smallmap; treemap = t.m.treemap; treebins = t.m.treebins };
}

-- What `insert_chunk` does.
pub record IsPut (s : State) (stacks : ℕ → List ℕ) (tries : ℕ → Trie) (x n : ℕ) : Type 0 where
  pub after : State
  pub stacks_after : ℕ → List ℕ
  pub tries_after : ℕ → Trie
  pub steps : insert_chunk x n s ≡ done tt after
  pub put : Put stacks tries x n stacks_after tries_after
  pub bins : FreeBins after stacks_after tries_after
  pub only : OnlyBins s after

small_size : (n : ℕ) → is_small n ≡ true → small_index n < 32
unfolding is_small small_index
small_size n h = ground arith

large_size : (n : ℕ) → is_small n ≡ false → 256 ≤ n
unfolding is_small
large_size n h = ground arith

module _ (s : State) (stacks : ℕ → List ℕ) (tries : ℕ → Trie) (x n : ℕ)
    (inv : FreeBins s stacks tries) (loose : IsLoose s stacks tries x n) where
  small-IsPut :
      is_small n ≡ true
      → (r : Run (Unit {0})) → insert_chunk x n s ≡ r
      → Leaves
          (λ t.
            FreeBins t (update stacks (small_index n) (x ∷ stacks (small_index n))) tries
            × OnlySmall s t)
          r
      → IsPut s stacks tries x n
  small-IsPut small r e (leaves {t} h) = record {
    after = t;
    stacks_after = update stacks (small_index n) (x ∷ stacks (small_index n));
    tries_after = tries;
    steps = e;
    put = on_stack small;
    bins = h.0;
    only = subst (OnlyBins s) (sym h.1) refl;
  }

  -- The small bins have neither the chunk nor one of the trees.
  stack_same :
      (t : State) (i : ℕ)
      → i < 32
      → ((y : ℕ) → y ≢ x → Avoids y (tries i) → SameAt s t y)
      → (k : ℕ) → k < 32
      → All (SameAt s t) (smallbin_at s k ∷ stacks k)
  stack_same t i lt same k h =
      All-map _ _ (smallbin_at s k ∷ stacks k) (λ y q. same y q.0 q.1)
        (All-both _ _ (smallbin_at s k ∷ stacks k)
          (
            (λ e. loose.new.off_bins k h (sym e)),
            All-map _ _ (stacks k) (λ y ne e. ne (sym e)) (loose.new.off_chunks k h),
          )
          (inv.off_bins k i h lt, Fresh-swap (stacks k) (tries i) (inv.apart k i h lt)))

  -- What holds of the chunk and of all chunks of the trees holds after the insertion.
  all_tries :
      (P : ℕ → Type 0) (i : ℕ) (after : Trie)
      → P x
      → Inserted x n (tries i) after
      → (j : ℕ) → EveryChunk P (tries j)
      → EveryChunk P (set_trie tries i after j)
  all_tries P i after own ins j h = elim (Bool-cases (i == j)) [
    | inl e ↦ rw e (
        EveryChunk-Inserted P own ins
          (subst (λ k. EveryChunk P (tries k)) (sym (ground (arith, e))) h))
    | inr e ↦ rw e h
  ]

  new_large : is_small n ≡ false → IsNewLarge s tries x n
  new_large big = record {
    nonnull = loose.nonnull;
    low = loose.new.low;
    size = loose.size;
    aligned = loose.aligned;
    large = large_size n big;
    word = loose.word;
    off = loose.off;
  }

  large-IsPut :
      (big : is_small n ≡ false)
      → Result s tries x n inv.trees (new_large big)
      → IsPut s stacks tries x n
  unfolding insert_chunk
  large-IsPut big h =
      let t = h.0 in
      let i = compute_tree_index n in
      let lt = index_lt n (large_size n big) in
      let at : t.m.at ≡ s.m.at = ap (λ (z : State). z.m.at) h.3 in
      record {
        after = t;
        stacks_after = stacks;
        tries_after = set_trie tries i h.1;
        steps = rw big h.2;
        put = in_trie big h.4;
        bins = record {
          small = SmallBins-OnlyTrees s t stacks inv.small h.3 (stack_same t i lt h.5);
          trees = h.6;
          apart = λ k j hk hj.
              all_tries (λ y. Fresh y (stacks k)) i h.1 (loose.new.off_chunks k hk) h.4 j
                (inv.apart k j hk hj);
          off_bins = λ k j hk hj.
              subst (λ a. Avoids (a + 72 + k * 16) (set_trie tries i h.1 j)) (sym at)
                (all_tries (λ y. smallbin_at s k ≢ y) i h.1 (λ e. loose.new.off_bins k hk (sym e))
                  h.4 j (inv.off_bins k j hk hj));
        };
        only = subst (OnlyBins s) (sym h.3) refl;
      }

  -- A chunk that is in no bin goes to the one for its size.
  pub insert_chunk-IsPut : IsPut s stacks tries x n
  unfolding insert_chunk
  insert_chunk-IsPut = elim (Bool-cases (is_small n)) [
    | inl small ↦ small-IsPut small (insert_small_chunk x n s) (rw small refl) (
        FreeBins-insert_small_chunk s stacks tries x n inv (small_size n small) loose.new loose.off)
    | inr big ↦ large-IsPut big (insert_large_chunk-Result s tries x n inv.trees (new_large big))
  ]
