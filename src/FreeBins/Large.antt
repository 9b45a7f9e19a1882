-- ===== src/FreeBins/Large.antt =====
-- `unlink_large_chunk` keeps all the bins in order.
use dlmalloc_rs.Prelude.{
  ℕ, ◌+◌, ◌*◌, ◌<◌, ◌≡◌, ap, sym, subst, true, ◌==◌, Bool-cases, inl, inr, List, [], ◌∷◌, arith,
  All, Fresh,
}
use dlmalloc_rs.State.{State, done, treebin_at, smallbin_at}
use dlmalloc_rs.SmallBin.{smallmap_is_marked}
use dlmalloc_rs.SmallBin.Stacks.{SmallBins, Holds, Holds-frame}
use dlmalloc_rs.TreeBin.{unlink_large_chunk}
use dlmalloc_rs.TreeBin.Trie.{Trie}
use dlmalloc_rs.TreeBin.Separate.{EveryChunk, Avoids, SameAt, EveryChunk-mono, All-map}
use dlmalloc_rs.TreeBin.Bins.{undecided, base}
use dlmalloc_rs.TreeBin.Digits.{undecided_lt}
use dlmalloc_rs.TreeBin.Change.{set_trie}
use dlmalloc_rs.TreeBin.Insert.First.{OnlyTrees}
use dlmalloc_rs.TreeBin.Unlink.{Without}
use dlmalloc_rs.TreeBin.Unlink.Tree.{Unlinked}
use dlmalloc_rs.TreeBin.Unlink.Any.{unlink_large_chunk-Unlinked}
use dlmalloc_rs.TreeBin.Unlink.Whole.{unlinked-TreeBins}
use dlmalloc_rs.Checks.Trees.{holds}
use dlmalloc_rs.FreeBins.{FreeBins}

-- The chunk `x` has been taken out of the trie of bin `i`.
pub record TakenOut (s : State) (stacks : ℕ → List ℕ) (tries : ℕ → Trie) (i x : ℕ) : Type 1 where
  pub after : State
  pub trie : Trie
  pub steps : unlink_large_chunk x s ≡ done tt after
  pub only : OnlyTrees s after
  pub without : Without (x ∷ []) (tries i) trie
  pub bins : FreeBins after stacks (set_trie tries i trie)

-- A list all of whose elements are apart from a trie.
pub Fresh-swap :
    (xs : List ℕ) (t : Trie) → EveryChunk (λ y. Fresh y xs) t → All (λ x. Avoids x t) xs
Fresh-swap [] t h = tt
Fresh-swap (x ∷ xs) t h = (
  EveryChunk-mono _ _ t (λ y q e. q.0 (sym e)) h,
  Fresh-swap xs t (EveryChunk-mono _ _ t (λ y q. q.1) h),
)

-- What holds of the chunks of all trees still does when one has lost a chunk.
pub EveryChunk-set_trie :
    (P : ℕ → Type 0) (tries : ℕ → Trie) (i x : ℕ) (t : Trie)
    → Without (x ∷ []) (tries i) t
    → (j : ℕ) → EveryChunk P (tries j)
    → EveryChunk P (set_trie tries i t j)
EveryChunk-set_trie P tries i x t w j h = elim (Bool-cases (i == j)) [
  | inl e ↦ rw e (w.every P (subst (λ k. EveryChunk P (tries k)) (sym (ground (arith, e))) h))
  | inr e ↦ rw e h
]

-- A change of the trees leaves the small bins as they are.
pub SmallBins-OnlyTrees :
    (s t : State) (stacks : ℕ → List ℕ)
    → SmallBins s stacks
    → OnlyTrees s t
    → ((k : ℕ) → k < 32 → All (SameAt s t) (smallbin_at s k ∷ stacks k))
    → SmallBins t stacks
unfolding smallmap_is_marked
SmallBins-OnlyTrees s t stacks inv only same =
    let at : t.m.at ≡ s.m.at = ap (λ (z : State). z.m.at) only in
    let low : s.m.least_addr ≡ t.m.least_addr = ap (λ (z : State). z.m.least_addr) (sym only) in
    record {
      each = λ k h.
          let bin : smallbin_at s k ≡ smallbin_at t k = omega (arith, at) in
          subst
            (λ b. Holds (smallmap_is_marked t k) t.heap.fd t.heap.bk t.m.least_addr b (stacks k))
            bin
            (subst
              (λ a.
                Holds (smallmap_is_marked t k) t.heap.fd t.heap.bk a (smallbin_at s k) (stacks k))
              low
              (Holds-frame (smallmap_is_marked s k) (smallmap_is_marked t k) s.heap.fd s.heap.bk
                t.heap.fd t.heap.bk s.m.least_addr (smallbin_at s k) (stacks k)
                (ap (λ (z : State). smallmap_is_marked z k) only)
                (All-map _ _ (smallbin_at s k ∷ stacks k) (λ y q. q.node_same.fd) (same k h))
                (All-map _ _ (smallbin_at s k ∷ stacks k) (λ y q. q.node_same.bk) (same k h))
                (inv.each k h)));
      distinct = inv.distinct;
      apart = inv.apart;
      off_bins = λ k j hk hj.
          subst (λ a. Fresh (a + 72 + j * 16) (stacks k)) (sym at) (inv.off_bins k j hk hj);
    }

module _ (s : State) (stacks : ℕ → List ℕ) (tries : ℕ → Trie) (i x : ℕ)
    (inv : FreeBins s stacks tries) (lt : i < 32) (held : holds x (tries i) ≡ true)
    (U : Unlinked s i (treebin_at s i) x (tries i)) where
  -- The small bins have none of the tree's chunks.
  small_same : (k : ℕ) → k < 32 → All (SameAt s U.after) (smallbin_at s k ∷ stacks k)
  small_same k h =
      All-map _ _ (smallbin_at s k ∷ stacks k) (λ y off. U.others y off)
        (inv.off_bins k i h lt, Fresh-swap (stacks k) (tries i) (inv.apart k i h lt))

  taken_out : TakenOut s stacks tries i x
  taken_out = record {
    after = U.after;
    trie = U.trie;
    steps = U.steps;
    only = U.only;
    without = U.without;
    bins = record {
      small = SmallBins-OnlyTrees s U.after stacks inv.small U.only small_same;
      trees = unlinked-TreeBins s tries i x inv.trees lt held U;
      apart = λ k j hk hj. EveryChunk-set_trie _ tries i x U.trie U.without j (inv.apart k j hk hj);
      off_bins = λ k j hk hj.
          subst (λ a. Avoids (a + 72 + k * 16) (set_trie tries i U.trie j))
            (sym (ap (λ (z : State). z.m.at) U.only))
            (EveryChunk-set_trie _ tries i x U.trie U.without j (inv.off_bins k j hk hj));
    };
  }

pub unlink_large_chunk-FreeBins :
    (s : State) (stacks : ℕ → List ℕ) (tries : ℕ → Trie) (i x : ℕ)
    → FreeBins s stacks tries
    → i < 32
    → holds x (tries i) ≡ true
    → TakenOut s stacks tries i x
unlink_large_chunk-FreeBins s stacks tries i x inv lt held =
    taken_out s stacks tries i x inv lt held (
      unlink_large_chunk-Unlinked s i (treebin_at s i) (omega arith) (undecided i) (base i) x
        (tries i) (inv.trees.each i lt) (inv.trees.separate i lt) (inv.trees.ordered i lt)
        (undecided_lt i lt) held)
