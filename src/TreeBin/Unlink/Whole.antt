-- ===== src/TreeBin/Unlink/Whole.antt =====
-- `unlink_large_chunk` keeps the tree bins in order.
use dlmalloc_rs.Prelude.{
  ℕ, ◌^◌, ◌<◌, ◌≡◌, ◌≢◌, ◌∙◌, inl, inr, refl, ap, sym, subst, Bool, true, false, not, ◌&&◌, ◌==◌,
  if◌then◌else◌, Bool-cases, List, [], ◌∷◌, arith, Fresh,
}
use dlmalloc_rs.BinMap.{bit_is_marked}
use dlmalloc_rs.BinMap.Laws.{bit_is_marked-clear_bit, clear_bit-lt}
use dlmalloc_rs.State.{State, done, treebin_at}
use dlmalloc_rs.TreeBin.{unlink_large_chunk, treemap_is_marked}
use dlmalloc_rs.TreeBin.Trie.{Trie, leaf, node, is_node, Represents}
use dlmalloc_rs.TreeBin.Bins.{undecided, base, BelongsTo, TreeBins}
use dlmalloc_rs.TreeBin.Digits.{base_aligned, undecided_lt}
use dlmalloc_rs.TreeBin.Separate.{Avoids, IsSeparate, EveryChunk-mono}
use dlmalloc_rs.TreeBin.Change.{set_trie, Represents-other, TreeBins-set_trie}
use dlmalloc_rs.TreeBin.Insert.First.{OnlyTrees}
use dlmalloc_rs.TreeBin.Unlink.{Without}
use dlmalloc_rs.TreeBin.Unlink.Tree.{Unlinked}
use dlmalloc_rs.TreeBin.Unlink.Any.{unlink_large_chunk-Unlinked}
use dlmalloc_rs.Checks.Find.{has}
use dlmalloc_rs.Checks.Trees.{holds}

has_none : (y : ℕ) (xs : List ℕ) → Fresh y xs → has y xs ≡ false
has_none y [] off = refl
has_none y (x ∷ xs) off =
    let other : (x == y) ≡ false = ground (arith, off.0) in rw other (has_none y xs off.1)

not_has : (y : ℕ) (xs : List ℕ) → has y xs ≡ false → Fresh y xs
not_has y [] h = tt
not_has y (x ∷ xs) h = (ground (arith, h), not_has y xs (ground (arith, h)))

holds_none : (y : ℕ) (t : Trie) → Avoids y t → holds y t ≡ false
holds_none y leaf off = refl
holds_none y (node a n ring l r) off =
    rw (has_none y (a ∷ ring) (off.0, off.1), holds_none y l off.2, holds_none y r off.3) refl

not_holds : (y : ℕ) (t : Trie) → holds y t ≡ false → Avoids y t
not_holds y leaf h = tt
not_holds y (node a n ring l r) h =
    let here = not_has y (a ∷ ring) (ground (arith, h)) in
    (here.0, here.1, not_holds y l (ground (arith, h)), not_holds y r (ground (arith, h)))

and_false : (b : Bool) → (b && false) ≡ false
and_false true = refl
and_false false = refl

-- The other chunks, and only they, are still in the trie.
pub holds-Without :
    (x y : ℕ) (u v : Trie)
    → Without (x ∷ []) u v
    → IsSeparate u
    → holds y v ≡ (holds y u && not (y == x))
holds-Without x y u v w d = elim (Bool-cases (y == x)) [
  | inl e ↦
      let gone : Avoids y v =
        subst (λ z. Avoids z v) (sym (ground (arith, e))) (w.separate d).1.0 in
      rw (e, holds_none y v gone) (sym (and_false (holds y u)))
  | inr e ↦ elim (Bool-cases (holds y u)) [
    | inr none ↦ rw (e, none) (holds_none y v (w.every (λ z. y ≢ z) (not_holds y u none)))
    | inl held ↦ elim (Bool-cases (holds y v)) [
      | inl still ↦ rw (e, held) still
      | inr none ↦
          let off : Avoids y u = w.back (λ z. y ≢ z) (ground (arith, e), tt) (not_holds y v none) in
          absurd (ground (arith, held, holds_none y u off))
    ]
  ]
]

holds-filled : (x : ℕ) (u : Trie) → holds x u ≡ true → is_node u ≡ true
holds-filled x leaf h = cc
holds-filled x (node a n ring l r) h = refl

module _ (s : State) (tries : ℕ → Trie) (i x : ℕ) (inv : TreeBins s tries) (lt : i < 32)
    (held : holds x (tries i) ≡ true) (U : Unlinked s i (treebin_at s i) x (tries i)) where
  marks :
      (j : ℕ)
      → j < 32
      → treemap_is_marked U.after j ≡ (if i == j then is_node U.trie else treemap_is_marked s j)
  unfolding treemap_is_marked
  marks j h = elim U.map [
    | inl kept ↦ ap (λ (q : ℕ). bit_is_marked q j) kept.0 ∙ elim (Bool-cases (i == j)) [
      | inl e ↦
          let root = inv.marked i lt ∙ holds-filled x (tries i) held in
          rw e (
            subst (λ (k : ℕ). bit_is_marked s.m.treemap k ≡ true) (ground (arith, e)) root
            ∙ sym kept.1)
      | inr e ↦ rw e refl
    ]
    | inr cleared ↦
        ap (λ (q : ℕ). bit_is_marked q j) cleared.0
        ∙ bit_is_marked-clear_bit s.m.treemap i j lt h
        ∙ elim (Bool-cases (i == j)) [
          | inl e ↦ rw e (sym (ap is_node cleared.1))
          | inr e ↦ rw e refl
        ]
  ]

  word : U.after.m.treemap < 2 ^ 32
  word = elim U.map [
    | inl kept ↦ subst (λ q. q < 2 ^ 32) (sym kept.0) inv.map
    | inr cleared ↦ subst (λ q. q < 2 ^ 32) (sym cleared.0) (clear_bit-lt s.m.treemap i inv.map)
  ]

  at_same : U.after.m.at ≡ s.m.at
  at_same = ap (λ (z : State). z.m.at) U.only

  -- The chunk is in no other bin.
  pub elsewhere : (j : ℕ) → j < 32 → i ≢ j → Avoids x (tries j)
  elsewhere j h ne = (U.without.member (λ y. Avoids y (tries j)) (inv.apart i j lt h ne)).0

  pub unlinked-TreeBins : TreeBins U.after (set_trie tries i U.trie)
  unlinked-TreeBins =
      let t = U.after in
      TreeBins-set_trie s t tries i U.trie inv word marks
        (λ j h ne.
          Represents-other s t tries i j x inv lt h ne (elsewhere j h ne)
            (ap (λ (z : State). z.m.least_addr) U.only) at_same (U.roots j ne)
            (λ y ne_x off. U.others y off))
        (subst (λ q. Represents t i q (t.m.treebins i) U.trie) (omega (arith, at_same)) U.shape)
        (U.without.ordered (undecided i) (base i) (base_aligned i lt) (inv.ordered i lt))
        (U.without.sizes (BelongsTo i) (inv.sizes i lt)) (U.without.separate (inv.separate i lt)).0
        (record {
          from = λ k h ne. U.without.every (λ y. Avoids y (tries k)) (inv.apart i k lt h ne);
          to = λ j h ne.
              EveryChunk-mono _ _ (tries j) (λ y off. U.without.every (λ z. y ≢ z) off)
                (inv.apart j i h lt (λ e. ne (sym e)));
        })

-- When the tree bins hold the tries `tries` and the trie of bin `i` has the chunk `x`, as a node or
-- in the ring of one, `unlink_large_chunk` returns, and changes only the links between tree chunks,
-- the bins' roots and their map. The tree bins then hold the same tries, but that of bin `i`, which
-- has exactly the other chunks: each size is still on its path, each parent link, mark and ring is
-- right, and no chunk is in two places.
pub unlink_large_chunk-TreeBins :
    (s : State) (tries : ℕ → Trie) (i x : ℕ)
    → TreeBins s tries
    → i < 32
    → holds x (tries i) ≡ true
    → (t : State) × (after : Trie) × (unlink_large_chunk x s ≡ done tt t)
      × OnlyTrees s t
      × ((y : ℕ) → holds y after ≡ (holds y (tries i) && not (y == x)))
      × TreeBins t (set_trie tries i after)
unlink_large_chunk-TreeBins s tries i x inv lt held =
    let U =
      unlink_large_chunk-Unlinked s i (treebin_at s i) (omega arith) (undecided i) (base i) x
        (tries i) (inv.each i lt) (inv.separate i lt) (inv.ordered i lt) (undecided_lt i lt) held in
    (
      U.after,
      U.trie,
      U.steps,
      U.only,
      (λ y. holds-Without x y (tries i) U.trie U.without (inv.separate i lt)),
      unlinked-TreeBins s tries i x inv lt held U,
    )
