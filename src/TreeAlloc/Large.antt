-- ===== src/TreeAlloc/Large.antt =====
-- `tmalloc_large` takes the smallest chunk of all the trees that is large enough.
pub mod Own
pub mod Fit
use dlmalloc_rs.Prelude.{
  ℕ, zero, suc, ◌+◌, ◌-◌, ◌*◌, ◌/◌, ◌%◌, ◌^◌, ◌≤◌, ◌<◌, ◌≡◌, ◌≢◌, ◌∙◌, ◌⊎◌, ap, refl, sym, subst,
  Bool, true, false, List, arith, ltb, ◌==◌, not, ◌&&◌, if◌then◌else◌, Bool-cases, inl, inr,
}
use dlmalloc_rs.Size.{sub64}
use dlmalloc_rs.TreeIndex.{compute_tree_index, leftshift_for_tree_index}
use dlmalloc_rs.State.{State, Run, Cmd, done, pure, treebin_at, child, leftmost_child}
use dlmalloc_rs.Head.{chunksize}
use dlmalloc_rs.TreeBin.{tree_rounds}
use dlmalloc_rs.TreeBin.Trie.{
  Trie, leaf, node, is_node, Each, Each-mono, Each-both, Each-HasNode, HasNode, here, left, right,
  span, IsTrie, Represents,
}
use dlmalloc_rs.TreeBin.Bins.{undecided, base, BelongsTo, BelongsTo-lt, TreeBins}
use dlmalloc_rs.TreeAlloc.{
  Search, improve, search_bin, search_leftmost, next_treebin, split_large, tmalloc_large,
}
use dlmalloc_rs.TreeAlloc.Leftmost.{Fits, IsBest, search_leftmost-null, search_leftmost-IsBest}
use dlmalloc_rs.TreeAlloc.Small.{Each-no_node}
use dlmalloc_rs.TreeBin.Digits.{undecided_lt}
use dlmalloc_rs.TreeAlloc.Walk.{Covered, Walked, SetAside}
use dlmalloc_rs.TreeAlloc.Walk.Steps.{walk}
use dlmalloc_rs.TreeAlloc.Walk.Found.{walk-Walked}
use dlmalloc_rs.TreeBin.Digits.{index_lt, root_range, root-Bits}
use dlmalloc_rs.TreeAlloc.Next.{IsNext, next_treebin-IsNext}

-- The node at `a` in bin `i` has at least `nb` bytes, and no chunk of any bin that has them is
-- smaller.
pub record IsBestFit (tries : ℕ → Trie) (nb i a n : ℕ) : Type 0 where
  pub bin : i < 32
  pub among : HasNode a n (tries i)
  pub enough : nb ≤ n
  pub least : (j : ℕ) → j < 32 → Each (λ b k. nb ≤ k → n ≤ k) (tries j)

abbrev pub start : (nb root : ℕ) → Search
start nb root = record { t = root; v = 0; rsize = sub64 0 nb }

-- The search of the request's own bin.
abbrev pub own_bin : (nb : ℕ) → State → Run Search
own_bin nb s =
    let idx = compute_tree_index nb in
    walk tree_rounds nb (nb * 2 ^ leftshift_for_tree_index idx % 2 ^ 64) 0
      (start nb (s.m.treebins idx)) s

abbrev pub next_root : (nb : ℕ) → State → Search → ℕ
next_root nb s r = if r.t == 0 && r.v == 0 then next_treebin s (compute_tree_index nb) else r.t

abbrev pub serve : (nb : ℕ) → Search → State → Run ℕ
serve nb out s =
    if not (out.v == 0) && ltb out.rsize (sub64 s.m.dvsize nb)
    then split_large out.v nb out.rsize s
    else done 0 s

own_bin_by :
    (nb : ℕ) (s : State)
    → (let idx = compute_tree_index nb in
        let root = s.m.treebins idx in
        (if not (root == 0)
            then search_bin tree_rounds nb
                (nb * 2 ^ leftshift_for_tree_index idx % 2 ^ 64)
                0
                (start nb root)
            else pure (start nb root))
          s
        ≡ own_bin nb s)
own_bin_by nb s = elim (Bool-cases (s.m.treebins (compute_tree_index nb) == 0)) [
  | inl null ↦ rw null (ap (λ (x : ℕ). done (start nb x) s) (ground (arith, null)))
  | inr some ↦ rw some refl
]

pub tmalloc_large-searches :
    (nb : ℕ) (r out : Search) (s : State)
    → own_bin nb s ≡ done r s
    → search_leftmost 64 nb (record r { t = next_root nb s r }) s ≡ done out s
    → tmalloc_large nb s ≡ serve nb out s
unfolding tmalloc_large
tmalloc_large-searches nb r out s e f =
    elim (Bool-cases (not (out.v == 0) && ltb out.rsize (sub64 s.m.dvsize nb))) [
      | inl given ↦ rw (own_bin_by nb s, e, f, given) refl
      | inr keep ↦ rw (own_bin_by nb s, e, f, keep) refl
    ]
