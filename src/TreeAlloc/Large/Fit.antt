-- ===== src/TreeAlloc/Large/Fit.antt =====
-- `tmalloc_large` is a best fit: the smallest chunk of all the trees that is large enough.
use dlmalloc_rs.Prelude.{
  ℕ, ◌-◌, ◌%◌, ◌^◌, ◌≤◌, ◌<◌, ◌≡◌, ◌≢◌, ◌∙◌, ◌⊎◌, ap, refl, subst, Bool, true, false, arith, ltb,
  ◌==◌, ◌&&◌, if◌then◌else◌, Bool-cases, inl, inr, ==_iff,
}
use dlmalloc_rs.Size.{sub64}
use dlmalloc_rs.TreeIndex.{compute_tree_index}
use dlmalloc_rs.State.{State, done, treebin_at}
use dlmalloc_rs.TreeBin.Trie.{is_node-cases, Trie, Each, Each-mono, Each-HasNode}
use dlmalloc_rs.TreeBin.Bins.{undecided, base, BelongsTo, BelongsTo-lt, TreeBins}
use dlmalloc_rs.TreeAlloc.{Search, search_leftmost, split_large, tmalloc_large, next_treebin}
use dlmalloc_rs.TreeAlloc.Leftmost.{Fits, search_leftmost-IsBest, search_leftmost-null}
use dlmalloc_rs.TreeAlloc.Small.{Each-no_node}
use dlmalloc_rs.TreeBin.Digits.{undecided_lt}
use dlmalloc_rs.TreeBin.Digits.{index_lt}
use dlmalloc_rs.TreeAlloc.Next.{IsNext, next_treebin-IsNext}
use dlmalloc_rs.TreeAlloc.Large.{IsBestFit, own_bin, next_root, serve, tmalloc_large-searches}
use dlmalloc_rs.TreeAlloc.Large.Own.{FitsBest, HasNode-nonnull, own_bin-Walked, own_found, own_none}

serve-chunk :
    (nb a n : ℕ) (out : Search) (s : State)
    → 0 < a
    → out.v ≡ a
    → out.rsize ≡ n - nb
    → serve nb out s
      ≡ (if ltb (n - nb) (sub64 s.m.dvsize nb) then split_large a nb (n - nb) s else done 0 s)
serve-chunk nb a n out s pos v e =
    let some : (a == 0) ≡ false = ground arith in
    elim (Bool-cases (ltb (n - nb) (sub64 s.m.dvsize nb))) [
      | inl fits ↦ rw (v, e, some, fits) refl
      | inr keep ↦ rw (v, e, some, keep) refl
    ]

module _ (s : State) (tries : ℕ → Trie) (nb : ℕ) (inv : TreeBins s tries)
    (own : BelongsTo (compute_tree_index nb) nb) where
  -- The sizes of the bins below the request's own.
  bins_below : (j : ℕ) → j < compute_tree_index nb → Each (λ b k. k < nb) (tries j)
  bins_below j below =
      let lt = index_lt nb own.large in
      Each-mono _ _ (tries j)
        (λ b k bk. BelongsTo-lt j (compute_tree_index nb) k nb below lt bk own)
        (inv.sizes j (omega (arith, below, lt)))

  bins_up_to :
      (j : ℕ)
      → Each (λ b k. k < nb) (tries (compute_tree_index nb))
      → j ≤ compute_tree_index nb
      → Each (λ b k. k < nb) (tries j)
  bins_up_to j small h = elim (Bool-cases (ltb j (compute_tree_index nb))) [
    | inl below ↦ bins_below j (ground arith)
    | inr same ↦ subst (λ k. Each (λ b c. c < nb) (tries k)) (ground (arith, same, h)) small
  ]

  -- A least chunk of the own bin is least of all; a least chunk of the next bin that is not empty,
  -- where the own bin has none.
  best_fit :
      (i : ℕ) (out : Search)
      → i < 32
      → (fit : FitsBest nb out (tries i)) → ((j : ℕ) → j < i → Each (λ b k. k < nb) (tries j))
      → IsBestFit tries nb i fit.a fit.n
  best_fit i out lt fit before = record {
    bin = lt;
    among = fit.among;
    enough = fit.enough;
    least = λ j bin. elim (Bool-cases (ltb j i)) [
      | inl earlier ↦
          Each-mono _ _ (tries j) (λ b k below enough. absurd (omega (arith, below, enough)))
            (before j (ground arith))
      | inr not_earlier ↦ elim (Bool-cases (i == j)) [
        | inl same ↦
            subst (λ k. Each (λ b c. nb ≤ c → fit.n ≤ c) (tries k)) ((==_iff i j).0 same) fit.least
        | inr later ↦
            Each-mono _ _ (tries j)
              (λ b k bk enough.
                let member = Each-HasNode _ (tries i) fit.a fit.n (inv.sizes i lt) fit.among in
                let less = BelongsTo-lt i j fit.n k (ground arith) bin member bk in
                omega (arith, less))
              (inv.sizes j bin)
      ]
    ];
  }

  -- The least chunk of the next bin that is not empty.
  next_fit :
      (i : ℕ) (r : Search)
      → IsNext s tries (compute_tree_index nb) i
      → r.rsize ≡ 2 ^ 64 - nb
      → (out : Search) × (search_leftmost 64 nb (record r { t = s.m.treebins i }) s ≡ done out s)
        × FitsBest nb out (tries i)
  next_fit i r next full =
      let lt = next.bin in
      let fits : Fits nb (tries i) =
        Each-mono _ _ (tries i)
          (λ b k bk.
            let less = BelongsTo-lt (compute_tree_index nb) i nb k next.above lt own bk in
            (omega (arith, less), bk.word))
          (inv.sizes i lt) in
      let found =
        search_leftmost-IsBest 64 (undecided i) (base i) i (treebin_at s i) nb (tries i) s
          (record r { t = s.m.treebins i }) (inv.ordered i lt) (inv.each i lt) fits
          (undecided_lt i lt) in
      let best = found.2 in
      let root = is_node-cases (tries i) next.filled in
      (
        found.0,
        found.1,
        elim (best.source) [
          | inl (v, e) ↦
              let top = (subst (λ t. Each (λ b k. (nb ≤ k) × (k < 2 ^ 64)) t) root.5 fits).0 in
              let better =
                (subst (λ t. Each (λ b k. found.0.rsize ≤ k - nb) t) root.5 best.least).0 in
              absurd (omega (arith, e, full, top, better, own.large))
          | inr (a, n, m, at, e) ↦
              let enough = (Each-HasNode _ (tries i) a n fits m).0 in
              record {
                a = a;
                n = n;
                among = m;
                enough = enough;
                at = at;
                rest = e;
                least =
                    Each-mono _ _ (tries i) (λ b k h big. omega (arith, h, e, enough, big))
                      best.least;
              }
        ],
      )

  -- The result of the searches, once they end with `out`.
  abbrev Served : Type 0
  Served =
      ((i a n : ℕ) × IsBestFit tries nb i a n
        × (tmalloc_large nb s ≡ (
            if ltb (n - nb) (sub64 s.m.dvsize nb) then split_large a nb (n - nb) s else done 0 s)))
      ⊎ (((j : ℕ) → j < 32 → Each (λ b k. k < nb) (tries j)) × (tmalloc_large nb s ≡ done 0 s))

  served :
      (i : ℕ) (r out : Search)
      → i < 32
      → own_bin nb s ≡ done r s
      → search_leftmost 64 nb (record r { t = next_root nb s r }) s ≡ done out s
      → FitsBest nb out (tries i)
      → ((j : ℕ) → j < i → Each (λ b k. k < nb) (tries j))
      → Served
  served i r out lt e f fit before = inl (
    i,
    fit.a,
    fit.n,
    best_fit i out lt fit before,
    tmalloc_large-searches nb r out s e f
        ∙ serve-chunk nb fit.a fit.n out s
            (HasNode-nonnull s i (treebin_at s i) (s.m.treebins i) fit.a fit.n (tries i)
              (inv.each i lt) fit.among)
            fit.at fit.rest,
  )

  -- The own bin has no chunk that is large enough.
  elsewhere :
      (r : Search)
      → own_bin nb s ≡ done r s
      → Each (λ b k. k < nb) (tries (compute_tree_index nb))
      → r.rsize ≡ 2 ^ 64 - nb
      → r.t ≡ 0
      → r.v ≡ 0
      → Served
  elsewhere r e small full none_left null =
      let idx = compute_tree_index nb in
      let stopped : (r.t == 0 && r.v == 0) ≡ true = ground (arith, none_left, null) in
      let by_root = λ (x : ℕ) (h : next_treebin s idx ≡ x).
        ap (λ (b : Bool). if b then next_treebin s idx else r.t) stopped ∙ h in
      elim (next_treebin-IsNext s tries idx inv (index_lt nb own.large)) [
        | inl (no_root, empty) ↦
            let out : Search = record r { t = 0 } in
            let f : search_leftmost 64 nb (record r { t = next_root nb s r }) s ≡ done out s =
              ap (λ (x : ℕ). search_leftmost 64 nb (record r { t = x }) s) (by_root 0 no_root)
              ∙ search_leftmost-null 64 nb out s refl in
            let no_chunk : (out.v == 0) ≡ true = ground (arith, null) in
            let nothing : serve nb out s ≡ done 0 s = rw no_chunk refl in
            inr (
              (λ j bin. elim (Bool-cases (ltb idx j)) [
                | inl above ↦ Each-no_node _ (tries j) (empty j (ground arith) bin)
                | inr not_above ↦ bins_up_to j small (ground arith)
              ]),
              tmalloc_large-searches nb r out s e f ∙ nothing,
            )
        | inr (i, next) ↦
            let found = next_fit i r next full in
            let f : search_leftmost 64 nb (record r { t = next_root nb s r }) s ≡ done found.0 s =
              ap (λ (x : ℕ). search_leftmost 64 nb (record r { t = x }) s)
                (by_root (s.m.treebins i) next.root)
              ∙ found.1 in
            served i r found.0 next.bin e f found.2 (λ j before. elim (Bool-cases (ltb idx j)) [
              | inl above ↦ Each-no_node _ (tries j) (next.skipped j (ground arith) before)
              | inr not_above ↦ bins_up_to j small (ground arith)
            ])
      ]

-- When the tree bins hold the tries `tries` and the request `nb` is a multiple of 16 from 256 on
-- and below 2 ^ 64, the search of `tmalloc_large` ends. If some chunk has `nb` bytes, it finds one of
-- the least size among all the trees' chunks that have them, and the run is `split_large` of that
-- chunk if the remainder is less than that of the designated victim (both modulo 2 ^ 64); else, and if
-- there is no such chunk, it returns 0 and changes nothing.
pub tmalloc_large-IsBestFit :
    (s : State) (tries : ℕ → Trie) (nb : ℕ)
    → TreeBins s tries
    → nb % 16 ≡ 0
    → 256 ≤ nb
    → nb < 2 ^ 64
    → ((i a n : ℕ) × IsBestFit tries nb i a n
        × (tmalloc_large nb s ≡ (
            if ltb (n - nb) (sub64 s.m.dvsize nb) then split_large a nb (n - nb) s else done 0 s)))
      ⊎ (((j : ℕ) → j < 32 → Each (λ b k. k < nb) (tries j)) × (tmalloc_large nb s ≡ done 0 s))
tmalloc_large-IsBestFit s tries nb inv aligned large word =
    let own : BelongsTo (compute_tree_index nb) nb = record {
      aligned = aligned;
      large = large;
      word = word;
      index = refl;
    } in
    let idx = compute_tree_index nb in
    let lt = index_lt nb large in
    let walked = own_bin-Walked s tries nb inv large word in
    let r = walked.0 in
    let pos : 0 < nb = omega arith in
    elim (Bool-cases (r.t == 0 && r.v == 0)) [
      | inl nothing ↦
          let none_left : r.t ≡ 0 = ground (arith, nothing) in
          let null : r.v ≡ 0 = ground (arith, nothing) in
          let small =
            own_none s idx nb (s.m.treebins idx) r (tries idx) pos word walked.2 (treebin_at s idx)
              (s.m.treebins idx) (inv.each idx lt)
              (Each-mono _ _ (tries idx) (λ b k (bk : BelongsTo idx k). bk.word) (inv.sizes idx lt))
              none_left null in
          elsewhere s tries nb inv own r walked.1 small.0 small.1 none_left null
      | inr some ↦
          let given : (r.t ≢ 0) ⊎ (r.v ≢ 0) = elim (Bool-cases (r.t == 0)) [
            | inl no_subtree ↦ inr (ground (arith, some, no_subtree))
            | inr subtree ↦ inl (ground (arith, subtree))
          ] in
          let found = own_found s idx nb (s.m.treebins idx) r (tries idx) pos word walked.2 given in
          let f : search_leftmost 64 nb (record r { t = next_root nb s r }) s ≡ done found.0 s =
            ap
              (λ (b : Bool).
                search_leftmost 64 nb (record r { t = if b then next_treebin s idx else r.t }) s)
              some
            ∙ found.1 in
          served s tries nb inv own idx r found.0 lt walked.1 f found.2
            (bins_below s tries nb inv own)
    ]
