-- ===== src/TreeBin/Insert/Whole.antt =====
-- The tree bins after a chunk was put into one of them.
use dlmalloc_rs.Prelude.{
  ℕ, ◌%◌, ◌^◌, ◌≤◌, ◌<◌, ◌≡◌, ◌≢◌, sym, true, ◌||◌, ◌==◌, Bool-cases, inl, inr, arith,
}
use dlmalloc_rs.State.{State, treebin_at}
use dlmalloc_rs.Head.{chunksize}
use dlmalloc_rs.TreeBin.{treemap_is_marked}
use dlmalloc_rs.TreeBin.Trie.{Trie, is_node, IsTrie, Represents}
use dlmalloc_rs.TreeBin.Bins.{undecided, base, BelongsTo, TreeBins}
use dlmalloc_rs.TreeBin.Separate.{Avoids, SameAt, EveryChunk-mono, EveryChunk-both}
use dlmalloc_rs.TreeBin.Change.{set_trie, Represents-other, TreeBins-set_trie}
use dlmalloc_rs.TreeBin.Insert.{
  Inserted, Each-Inserted, EveryChunk-Inserted, Avoids-Inserted, IsSeparate-Inserted,
}

-- A chunk that can go into a tree bin: it is in none yet.
pub record IsNewLarge (s : State) (tries : ℕ → Trie) (x n : ℕ) : Type 0 where
  pub nonnull : 0 < x
  pub low : s.m.least_addr ≤ x
  pub size : chunksize s x ≡ n
  pub aligned : n % 16 ≡ 0
  pub large : 256 ≤ n
  pub word : n < 2 ^ 64
  pub off : (j : ℕ) → j < 32 → Avoids x (tries j)

-- The tree bins after an insertion into the trie of bin `i`.
pub TreeBins-Inserted :
    (s t : State) (tries : ℕ → Trie) (i x n : ℕ) (after : Trie)
    → TreeBins s tries
    → i < 32
    → BelongsTo i n
    → ((j : ℕ) → j < 32 → Avoids x (tries j))
    → t.m.least_addr ≡ s.m.least_addr
    → t.m.at ≡ s.m.at
    → ((j : ℕ) → j < 32 → i ≢ j → t.m.treebins j ≡ s.m.treebins j)
    → t.m.treemap < 2 ^ 32
    → ((j : ℕ) → j < 32 → treemap_is_marked t j ≡ (i == j || treemap_is_marked s j))
    → ((y : ℕ) → y ≢ x → Avoids y (tries i) → SameAt s t y)
    → Inserted x n (tries i) after
    → Represents t i (treebin_at t i) (t.m.treebins i) after
    → IsTrie (undecided i) (base i) after
    → is_node after ≡ true
    → TreeBins t (set_trie tries i after)
TreeBins-Inserted s t tries i x n after inv lt own off least at kept word marks same ins shape
      ordered filled =
    TreeBins-set_trie s t tries i after inv word
      (λ j h. elim (Bool-cases (i == j)) [
        | inl e ↦ rw e (ground (arith, marks j h, e, filled))
        | inr e ↦ rw e (ground (arith, marks j h, e))
      ])
      (λ j h ne. Represents-other s t tries i j x inv lt h ne (off j h) least at (kept j h ne) same)
      shape ordered (Each-Inserted _ own ins (inv.sizes i lt))
      (IsSeparate-Inserted (off i lt) ins (inv.separate i lt))
      (record {
        from = λ k h ne.
            EveryChunk-Inserted (λ y. Avoids y (tries k)) (off k h) ins (inv.apart i k lt h ne);
        to = λ j h ne.
            EveryChunk-mono _ _ (tries j) (λ y q. Avoids-Inserted y q.0 ins q.1)
              (EveryChunk-both _ _ (tries j) (off j h) (inv.apart j i h lt (λ e. ne (sym e))));
      })
