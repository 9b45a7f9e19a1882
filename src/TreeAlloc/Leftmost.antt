-- ===== src/TreeAlloc/Leftmost.antt =====
-- The walk along the leftmost branch finds the smallest chunk of a tree.
use dlmalloc_rs.Prelude.{
  ℕ, zero, suc, ◌+◌, ◌-◌, ◌%◌, ◌^◌, ◌≤◌, ◌<◌, ◌≡◌, ◌∙◌, ap, ◌⊎◌, inl, inr, refl, sym, subst, true,
  false, List, arith, ltb, ◌==◌, Bool-cases,
}
use dlmalloc_rs.Size.{sub64}
use dlmalloc_rs.State.{State, done, leftmost_child}
use dlmalloc_rs.Head.{chunksize}
use dlmalloc_rs.TreeBin.Trie.{
  Trie, leaf, node, Each, Each-mono, HasNode, here, left, right, span, IsTrie, IsTrie-range,
  Represents,
}
use dlmalloc_rs.TreeAlloc.{Search, improve, search_leftmost}

-- The end of a search from `q` through the nodes of `t`: nothing is left to visit, and the best
-- chunk is `q`'s or a node's, and no worse than any of them.
pub record IsBest (nb : ℕ) (q r : Search) (t : Trie) : Type 0 where
  pub finished : r.t ≡ 0
  pub no_worse : r.rsize ≤ q.rsize
  pub least : Each (λ a n. r.rsize ≤ n - nb) t
  pub source :
      ((r.v ≡ q.v) × (r.rsize ≡ q.rsize))
      ⊎ ((a n : ℕ) × HasNode a n t × (r.v ≡ a) × (r.rsize ≡ n - nb))

-- Sizes for which the remainder does not wrap around.
abbrev pub Fits : ℕ → Trie → Type 0
Fits nb t = Each (λ a n. (nb ≤ n) × (n < 2 ^ 64)) t

improve_lem :
    (s : State) (nb n : ℕ) (q : Search)
    → chunksize s q.t ≡ n
    → nb ≤ n
    → n < 2 ^ 64
    → ((improve s nb q).rsize ≤ q.rsize)
      × ((improve s nb q).rsize ≤ n - nb)
      × ((((improve s nb q).v ≡ q.v) × ((improve s nb q).rsize ≡ q.rsize))
          ⊎ (((improve s nb q).v ≡ q.t) × ((improve s nb q).rsize ≡ n - nb)))
unfolding sub64
improve_lem s nb n q size enough small =
    let rest : (n + 2 ^ 64 - nb) % 2 ^ 64 ≡ n - nb = omega arith in
    elim (Bool-cases (ltb (n - nb) q.rsize)) [
      | inl better ↦ rw (size, rest, better) (ground arith, omega arith, inr (refl, refl))
      | inr worse ↦ rw (size, rest, worse) (omega arith, ground arith, inl (refl, refl))
    ]

-- A node, and then the subtree that the walk goes on to.
then_subtree :
    (s : State) (nb a n : ℕ) (ring : List ℕ) (l r sub : Trie) (q out : Search) (next : ℕ)
    → q.t ≡ a
    → chunksize s a ≡ n
    → nb ≤ n
    → n < 2 ^ 64
    → IsBest nb (record (improve s nb q) { t = next }) out sub
    → ((b k : ℕ) → HasNode b k sub → HasNode b k (node a n ring l r))
    → Each (λ b k. out.rsize ≤ k - nb) l
    → Each (λ b k. out.rsize ≤ k - nb) r
    → IsBest nb q out (node a n ring l r)
then_subtree s nb a n ring l r sub q out next at size enough small best inside hl hr =
    let step = improve_lem s nb n q (subst (λ x. chunksize s x ≡ n) (sym at) size) enough small in
    record {
      finished = best.finished;
      no_worse = omega (arith, best.no_worse, step.0);
      least = (omega (arith, best.no_worse, step.1), hl, hr);
      source = elim (best.source) [
        | inr (b, k, m, e, f) ↦ inr (b, k, inside b k m, e, f)
        | inl (e, f) ↦ elim (step.2) [
          | inl (g, h) ↦ inl (ground (arith, e, g), ground (arith, f, h))
          | inr (g, h) ↦ inr (a, n, here, ground (arith, e, g, at), ground (arith, f, h))
        ]
      ];
    }

-- What lies to the right of a node that the walk passes on the left is no better.
right_worse :
    (nb w lo b k : ℕ) (ring : List ℕ) (l1 l2 r : Trie) (out : Search)
    → IsTrie w lo (node b k ring l1 l2)
    → IsTrie w (lo + span w) r
    → out.rsize ≤ k - nb
    → Each (λ c m. out.rsize ≤ m - nb) r
right_worse nb w lo b k ring l1 l2 r out hl hr better =
    Each-mono _ _ r
      (λ c m h. omega (arith, h, (IsTrie-range w lo (node b k ring l1 l2) hl).0, better))
      (IsTrie-range w (lo + span w) r hr)

pub search_leftmost-null :
    (rounds nb : ℕ) (q : Search) (s : State) → q.t ≡ 0 → search_leftmost rounds nb q s ≡ done q s
unfolding search_leftmost
search_leftmost-null zero nb q s h =
    let stop : (q.t == 0) ≡ true = ground (arith, h) in rw stop refl
search_leftmost-null (suc rounds) nb q s h =
    let stop : (q.t == 0) ≡ true = ground (arith, h) in rw stop refl

-- `search_leftmost` visits a trie with `w` undecided bits in `w + 1` rounds.
pub search_leftmost-IsBest :
    (rounds w lo i up nb : ℕ) (t : Trie) (s : State) (q : Search)
    → IsTrie w lo t
    → Represents s i up q.t t
    → Fits nb t
    → w < rounds
    → (r : Search) × (search_leftmost rounds nb q s ≡ done r s) × IsBest nb q r t
unfolding search_leftmost
search_leftmost-IsBest zero w lo i up nb t s q h m f fuel = absurd (omega arith)
search_leftmost-IsBest (suc rounds) w lo i up nb leaf s q h m f fuel =
    let stop : (q.t == 0) ≡ true = ground (arith, m) in
    (
      q,
      rw stop refl,
      record { finished = m; no_worse = omega arith; least = tt; source = inl (refl, refl) },
    )
search_leftmost-IsBest (suc rounds) zero lo i up nb (node a n ring l r) s q h m f fuel =
    let go : (q.t == 0) ≡ false = ground (arith, m.0, m.1.nonnull) in
    let no_left : s.heap.child0 a ≡ 0 = subst (Represents s i a (s.heap.child0 a)) h.1 m.4 in
    let no_right : s.heap.child1 a ≡ 0 = subst (Represents s i a (s.heap.child1 a)) h.2 m.5 in
    let down : leftmost_child s q.t ≡ 0 = ground (arith, m.0, no_left, no_right) in
    let last = record (improve s nb q) { t = 0 } in
    let none_worse =
      λ (k : Trie) (e : k ≡ leaf). subst (Each (λ b j. last.rsize ≤ j - nb)) (sym e) tt in
    (
      last,
      rw (go, down) (search_leftmost-null rounds nb last s refl),
      then_subtree s nb a n ring l r leaf q last 0 m.0 m.1.size f.0.0 f.0.1
          (record {
            finished = refl;
            no_worse = omega arith;
            least = tt;
            source = inl (refl, refl);
          })
          (λ b k x. elim x [ ]) (none_worse l h.1) (none_worse r h.2),
    )
search_leftmost-IsBest (suc rounds) (suc w) lo i up nb (node a n ring leaf r) s q h m f fuel =
    let go : (q.t == 0) ≡ false = ground (arith, m.0, m.1.nonnull) in
    let down : leftmost_child s q.t ≡ s.heap.child1 a = ground (arith, m.0, m.4) in
    let rest =
      search_leftmost-IsBest rounds w (lo + span w) i a nb r s
        (record (improve s nb q) { t = s.heap.child1 a }) h.4 m.5 f.2 (omega arith) in
    (
      rest.0,
      rw (go, down) (rest.1),
      then_subtree s nb a n ring leaf r r q rest.0 (s.heap.child1 a) m.0 m.1.size f.0.0 f.0.1 rest.2
          (λ b k x. right x) tt rest.2.least,
    )
search_leftmost-IsBest (suc rounds) (suc w) lo i up nb (node a n ring (node b k rb l1 l2) r) s q h m
      f fuel =
    let go : (q.t == 0) ≡ false = ground (arith, m.0, m.1.nonnull) in
    let down : leftmost_child s q.t ≡ s.heap.child0 a = ground (arith, m.0, m.4.0, m.4.1.nonnull) in
    let rest =
      search_leftmost-IsBest rounds w lo i a nb (node b k rb l1 l2) s
        (record (improve s nb q) { t = s.heap.child0 a }) h.3 m.4 f.1 (omega arith) in
    (
      rest.0,
      rw (go, down) (rest.1),
      then_subtree s nb a n ring (node b k rb l1 l2) r (node b k rb l1 l2) q rest.0
          (s.heap.child0 a) m.0 m.1.size f.0.0 f.0.1 rest.2 (λ c x y. left y) rest.2.least
          (right_worse nb w lo b k rb l1 l2 r rest.0 h.3 h.4 (rest.2.least.0)),
    )

-- A search whose best chunk fits exactly finds no better one.
pub search_leftmost-zero :
    (rounds w lo i up nb : ℕ) (t : Trie) (s : State) (q : Search)
    → IsTrie w lo t
    → Represents s i up q.t t
    → q.rsize ≡ 0
    → w < rounds
    → search_leftmost rounds nb q s ≡ done (record q { t = 0 }) s
unfolding search_leftmost
search_leftmost-zero rounds w lo i up nb leaf s q h m z fuel =
    search_leftmost-null rounds nb q s m ∙ ap (λ (x : ℕ). done (record q { t = x }) s) m
search_leftmost-zero zero w lo i up nb (node a n ring l r) s q h m z fuel = absurd (omega arith)
search_leftmost-zero (suc rounds) zero lo i up nb (node a n ring l r) s q h m z fuel =
    let go : (q.t == 0) ≡ false = ground (arith, m.0, m.1.nonnull) in
    let no_left : s.heap.child0 a ≡ 0 = subst (Represents s i a (s.heap.child0 a)) h.1 m.4 in
    let no_right : s.heap.child1 a ≡ 0 = subst (Represents s i a (s.heap.child1 a)) h.2 m.5 in
    let down : leftmost_child s q.t ≡ 0 = ground (arith, m.0, no_left, no_right) in
    let worse : ltb (sub64 (chunksize s q.t) nb) q.rsize ≡ false = ground (arith, z) in
    rw (go, worse, down) (search_leftmost-null rounds nb (record q { t = 0 }) s refl)
search_leftmost-zero (suc rounds) (suc w) lo i up nb (node a n ring leaf r) s q h m z fuel =
    let go : (q.t == 0) ≡ false = ground (arith, m.0, m.1.nonnull) in
    let down : leftmost_child s q.t ≡ s.heap.child1 a = ground (arith, m.0, m.4) in
    let worse : ltb (sub64 (chunksize s q.t) nb) q.rsize ≡ false = ground (arith, z) in
    rw (go, worse, down)
      (search_leftmost-zero rounds w (lo + span w) i a nb r s (record q { t = s.heap.child1 a }) h.4
        m.5 z (omega arith))
search_leftmost-zero (suc rounds) (suc w) lo i up nb (node a n ring (node b k rb l1 l2) r) s q h m z
      fuel =
    let go : (q.t == 0) ≡ false = ground (arith, m.0, m.1.nonnull) in
    let down : leftmost_child s q.t ≡ s.heap.child0 a = ground (arith, m.0, m.4.0, m.4.1.nonnull) in
    let worse : ltb (sub64 (chunksize s q.t) nb) q.rsize ≡ false = ground (arith, z) in
    rw (go, worse, down)
      (search_leftmost-zero rounds w lo i a nb (node b k rb l1 l2) s
        (record q { t = s.heap.child0 a }) h.3 m.4 z (omega arith))
