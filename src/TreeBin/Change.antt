-- ===== src/TreeBin/Change.antt =====
-- The tree bins after a change in one of them.
use dlmalloc_rs.Prelude.{
  ℕ, ◌^◌, ◌<◌, ◌≡◌, ◌≢◌, sym, subst, ◌==◌, ==_iff, if◌then◌else◌, Bool-cases, inl, inr, arith,
}
use dlmalloc_rs.State.{State, treebin_at}
use dlmalloc_rs.TreeBin.{treemap_is_marked}
use dlmalloc_rs.TreeBin.Trie.{Trie, is_node, Each, IsTrie, Represents}
use dlmalloc_rs.TreeBin.Bins.{undecided, base, BelongsTo, TreeBins}
use dlmalloc_rs.TreeBin.Separate.{
  EveryChunk, Avoids, IsSeparate, SameAt, EveryChunk-mono, EveryChunk-both, Represents-frame,
}

abbrev pub set_trie : (ℕ → Trie) → ℕ → Trie → ℕ → Trie
set_trie tries i t j = if i == j then t else tries j

-- A bin that has none of the changed chunks.
pub Represents-other :
    (s t : State) (tries : ℕ → Trie) (i j x : ℕ)
    → TreeBins s tries
    → i < 32
    → j < 32
    → i ≢ j
    → Avoids x (tries j)
    → t.m.least_addr ≡ s.m.least_addr
    → t.m.at ≡ s.m.at
    → t.m.treebins j ≡ s.m.treebins j
    → ((y : ℕ) → y ≢ x → Avoids y (tries i) → SameAt s t y)
    → Represents t j (treebin_at t j) (t.m.treebins j) (tries j)
Represents-other s t tries i j x inv lt h ne off least at kept same =
    let up : treebin_at s j ≡ treebin_at t j = omega (arith, at) in
    let others =
      EveryChunk-mono _ (SameAt s t) (tries j) (λ y q. same y (λ e. q.0 (sym e)) q.1)
        (EveryChunk-both _ _ (tries j) off (inv.apart j i h lt (λ e. ne (sym e)))) in
    subst (λ u. Represents t j u (t.m.treebins j) (tries j)) up
      (subst (λ q. Represents t j (treebin_at s j) q (tries j)) (sym kept)
        (Represents-frame s t j (treebin_at s j) (s.m.treebins j) (tries j) least others
          (inv.each j h)))

-- The trie `after` of bin `i` is apart from the others.
pub record IsApart (tries : ℕ → Trie) (i : ℕ) (after : Trie) : Type 0 where
  pub from : (k : ℕ) → k < 32 → i ≢ k → EveryChunk (λ y. Avoids y (tries k)) after
  pub to : (j : ℕ) → j < 32 → i ≢ j → EveryChunk (λ y. Avoids y after) (tries j)

-- The bins' chunks still differ.
apart_after :
    (s : State) (tries : ℕ → Trie) (i : ℕ) (after : Trie)
    → TreeBins s tries
    → IsApart tries i after
    → (j k : ℕ) → j < 32
    → k < 32
    → j ≢ k
    → EveryChunk (λ y. Avoids y (set_trie tries i after k)) (set_trie tries i after j)
apart_after s tries i after inv apart j k hj hk ne = elim (Bool-cases (i == j)) [
  | inl ej ↦ elim (Bool-cases (i == k)) [
    | inl ek ↦ absurd (ne (ground (arith, ej, ek)))
    | inr nk ↦ rw (ej, nk) (apart.from k hk (ground (arith, nk)))
  ]
  | inr nj ↦ elim (Bool-cases (i == k)) [
    | inl ek ↦ rw (nj, ek) (apart.to j hj (ground (arith, nj)))
    | inr nk ↦ rw (nj, nk) (inv.apart j k hj hk ne)
  ]
]

-- The bins with another trie in bin `i`.
pub TreeBins-set_trie :
    (s t : State) (tries : ℕ → Trie) (i : ℕ) (after : Trie)
    → TreeBins s tries
    → t.m.treemap < 2 ^ 32
    → ((j : ℕ)
        → j < 32
        → treemap_is_marked t j ≡ (if i == j then is_node after else treemap_is_marked s j))
    → ((j : ℕ) → j < 32 → i ≢ j → Represents t j (treebin_at t j) (t.m.treebins j) (tries j))
    → Represents t i (treebin_at t i) (t.m.treebins i) after
    → IsTrie (undecided i) (base i) after
    → Each (λ a n. BelongsTo i n) after
    → IsSeparate after
    → IsApart tries i after
    → TreeBins t (set_trie tries i after)
TreeBins-set_trie s t tries i after inv word marks others shape ordered sizes separate apart =
    record {
      map = word;
      each = λ j h. elim (Bool-cases (i == j)) [
        | inl e ↦ rw e (
            subst (λ k. Represents t k (treebin_at t k) (t.m.treebins k) after) ((==_iff i j).0 e)
              shape)
        | inr e ↦ rw e (others j h (ground (arith, e)))
      ];
      ordered = λ j h. elim (Bool-cases (i == j)) [
        | inl e ↦ rw e (subst (λ k. IsTrie (undecided k) (base k) after) ((==_iff i j).0 e) ordered)
        | inr e ↦ rw e (inv.ordered j h)
      ];
      sizes = λ j h. elim (Bool-cases (i == j)) [
        | inl e ↦ rw e (subst (λ k. Each (λ a m. BelongsTo k m) after) ((==_iff i j).0 e) sizes)
        | inr e ↦ rw e (inv.sizes j h)
      ];
      marked = λ j h. elim (Bool-cases (i == j)) [
        | inl e ↦ rw e (ground (arith, marks j h, e))
        | inr e ↦ rw e (ground (arith, marks j h, e, inv.marked j h))
      ];
      separate = λ j h. elim (Bool-cases (i == j)) [
        | inl e ↦ rw e separate
        | inr e ↦ rw e (inv.separate j h)
      ];
      apart = apart_after s tries i after inv apart;
    }
