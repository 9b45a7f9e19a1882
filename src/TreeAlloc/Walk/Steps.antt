-- ===== src/TreeAlloc/Walk/Steps.antt =====
-- One step of the walk, and the whole walk.
use dlmalloc_rs.Prelude.{
  ℕ, ◌-◌, ◌^◌, ◌≤◌, ◌<◌, ◌≡◌, ◌⊎◌, refl, sym, subst, true, List, arith, ◌==◌, if◌then◌else◌, inl,
  inr,
}
use dlmalloc_rs.State.{State, Run, done}
use dlmalloc_rs.Head.{chunksize}
use dlmalloc_rs.TreeBin.Trie.{Trie, leaf, node, Each, Each-mono, HasNode, here, left, right}
use dlmalloc_rs.TreeAlloc.{Search, improve, search_bin}
use dlmalloc_rs.TreeAlloc.Walk.{Covered, Walked, SetAside, improve_any}

pub Each-self : (t : Trie) → Each (λ b k. HasNode b k t) t
Each-self leaf = tt
Each-self (node a n ring l r) = (
  here,
  Each-mono _ _ l (λ b k h. left h) (Each-self l),
  Each-mono _ _ r (λ b k h. right h) (Each-self r),
)

pub Covered-mono :
    (nb rsize k n : ℕ) (t : Trie) → nb ≤ k → k ≤ n → Covered nb rsize t k → Covered nb rsize t n
Covered-mono nb rsize k n t enough le c h = elim (c enough) [
  | inl better ↦ inl (omega (arith, better, le, enough))
  | inr (b, j, m, less) ↦ inr (b, j, m, omega (arith, less, le))
]

pub SetAside-mono :
    (s : State) (i p bound bound' : ℕ) (t : Trie)
    → bound' ≤ bound
    → SetAside s i p bound t
    → SetAside s i p bound' t
SetAside-mono s i p bound bound' t le h = record {
  up = h.up;
  w = h.w;
  lo = h.lo;
  shape = h.shape;
  ordered = h.ordered;
  depth = h.depth;
  above = Each-mono _ _ t (λ b k x. (omega (arith, x.0, le), x.1)) h.above;
}

-- What goes on from a node: the walk is over where there is no subtree.
abbrev pub walk : (rounds nb bits rst : ℕ) → Search → State → Run Search
walk rounds nb bits rst q s =
    if q.t == 0 then done (record q { t = rst }) s else search_bin rounds nb bits rst q s

module _ (s : State) (i nb : ℕ) where
  pub walk-leaf :
      (rounds bits rst bound : ℕ) (q : Search) (rest : Trie)
      → q.t ≡ 0
      → nb < bound
      → SetAside s i rst bound rest
      → (r : Search) × (walk rounds nb bits rst q s ≡ done r s) × Walked s i nb q r leaf rest
  walk-leaf rounds bits rst bound q rest null below aside =
      let stop : (q.t == 0) ≡ true = ground (arith, null) in
      (
        record q { t = rst },
        rw stop refl,
        record {
          trie = rest;
          up = aside.up;
          w = aside.w;
          lo = aside.lo;
          shape = aside.shape;
          ordered = aside.ordered;
          depth = aside.depth;
          candidates =
              inr (Each-mono _ _ rest (λ b k x. (omega (arith, x.0, below), x.1)) aside.above);
          inside = λ b k m. inr m;
          no_worse = omega arith;
          source = inl (refl, refl);
          covers = tt;
          covers_rest = Each-mono _ _ rest (λ b k m h. inr (b, k, m, omega arith)) (Each-self rest);
        },
      )

  -- From a subtree and what is set aside there to the whole trie.
  pub Walked-step :
      (a n t' : ℕ) (ring : List ℕ) (l r sub rest rest' : Trie) (q out : Search)
      → q.t ≡ a
      → chunksize s a ≡ n
      → 0 < n
      → n < 2 ^ 64
      → nb < 2 ^ 64
      → q.rsize ≤ 2 ^ 64 - nb
      → (W : Walked s i nb (record (improve s nb q) { t = t' }) out sub rest')
      → ((b k : ℕ) → HasNode b k sub → HasNode b k (node a n ring l r))
      → ((b k : ℕ) → HasNode b k rest' → HasNode b k (node a n ring l r) ⊎ HasNode b k rest)
      → Each (λ b k. Covered nb out.rsize W.trie k) l
      → Each (λ b k. Covered nb out.rsize W.trie k) r
      → Each (λ b k. Covered nb out.rsize W.trie k) rest
      → Walked s i nb q out (node a n ring l r) rest
  Walked-step a n t' ring l r sub rest rest' q out at size pos word small start W in_sub in_rest hl
        hr hrest =
      let step =
        improve_any s nb n q (subst (λ x. chunksize s x ≡ n) (sym at) size) pos word small start in
      record {
        trie = W.trie;
        up = W.up;
        w = W.w;
        lo = W.lo;
        shape = W.shape;
        ordered = W.ordered;
        depth = W.depth;
        candidates = W.candidates;
        inside =
            λ b k m. elim (W.inside b k m) [ inl x ↦ inl (in_sub b k x) | inr x ↦ in_rest b k x ];
        no_worse = omega (arith, W.no_worse, step.0);
        source = elim (W.source) [
          | inr (b, k, m, e, f, g) ↦ inr (b, k, in_sub b k m, e, f, g)
          | inl (e, f) ↦ elim (step.2) [
            | inl (g, h) ↦ inl (ground (arith, e, g), ground (arith, f, h))
            | inr (x, g, h) ↦ inr (a, n, here, x, ground (arith, e, g, at), ground (arith, f, h))
          ]
        ];
        covers = ((λ h. inl (omega (arith, W.no_worse, step.1 h))), hl, hr);
        covers_rest = hrest;
      }
