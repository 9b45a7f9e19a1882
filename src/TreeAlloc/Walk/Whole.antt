-- ===== src/TreeAlloc/Walk/Whole.antt =====
-- The whole walk, by induction on the trie.
use dlmalloc_rs.Prelude.{
  ℕ, suc, ◌+◌, ◌-◌, ◌*◌, ◌/◌, ◌%◌, ◌^◌, ◌≤◌, ◌<◌, ◌≡◌, ◌≢◌, ◌∙◌, ap, refl, sym, subst, Bool, true,
  false, List, arith, ltb, ◌==◌, not, ◌&&◌, if◌then◌else◌, Bool-cases, inl, inr,
}
use dlmalloc_rs.Size.{sub64}
use dlmalloc_rs.State.{State, done, child}
use dlmalloc_rs.Head.{chunksize}
use dlmalloc_rs.TreeBin.Trie.{
  Trie, leaf, node, Each, Each-mono, here, left, right, span, IsTrie, IsTrie-range, Represents,
}
use dlmalloc_rs.TreeAlloc.{Search, improve, search_bin}
use dlmalloc_rs.TreeAlloc.Walk.{Walked, SetAside}
use dlmalloc_rs.TreeAlloc.Walk.Steps.{walk, Walked-step, Covered-mono}

-- The walk stops at a chunk of exactly the request's size.
abbrev pub is_exact : (s : State) (nb : ℕ) → Search → Bool
is_exact s nb q = ltb (sub64 (chunksize s q.t) nb) q.rsize && sub64 (chunksize s q.t) nb == 0

abbrev pub aside : (s : State) (rst t t' : ℕ) → ℕ
aside s rst t t' =
    if not (s.heap.child1 t == 0) && not (s.heap.child1 t == t') then s.heap.child1 t else rst

search_bin-exact :
    (rounds nb bits rst : ℕ) (q : Search) (s : State)
    → is_exact s nb q ≡ true
    → search_bin (suc rounds) nb bits rst q s ≡ done (improve s nb q) s
unfolding search_bin
search_bin-exact rounds nb bits rst q s e = rw e refl

search_bin-walk :
    (rounds nb bits rst : ℕ) (q : Search) (s : State)
    → is_exact s nb q ≡ false
    → search_bin (suc rounds) nb bits rst q s
      ≡ walk rounds nb
          (bits * 2 % 2 ^ 64)
          (aside s rst q.t (child s q.t (bits / 2 ^ 63 % 2)))
          (record (improve s nb q) { t = child s q.t (bits / 2 ^ 63 % 2) })
          s
unfolding search_bin
search_bin-walk rounds nb bits rst q s e = rw e refl

exact_size :
    (s : State) (nb n : ℕ) (q : Search)
    → chunksize s q.t ≡ n
    → 0 < n
    → n < 2 ^ 64
    → nb < 2 ^ 64
    → is_exact s nb q ≡ true
    → (n ≡ nb) × ((improve s nb q).v ≡ q.t) × ((improve s nb q).rsize ≡ 0) × (0 < q.rsize)
unfolding sub64
exact_size s nb n q size pos word small e = ground arith

same_place :
    (s : State) (nb : ℕ) (q : Search) → improve s nb q ≡ record (improve s nb q) { t = q.t }
same_place s nb q = elim (Bool-cases (ltb (sub64 (chunksize s q.t) nb) q.rsize)) [
  | inl better ↦ rw better refl
  | inr worse ↦ rw worse refl
]

-- What a walk needs to know of the sizes and of the request.
abbrev pub Words : Trie → Type 0
Words t = Each (λ a n. (0 < n) × (n < 2 ^ 64)) t

module _ (s : State) (i nb : ℕ) (small : nb < 2 ^ 64) where
  -- The result of a walk from `q` through `t`, with `rest` set aside at `rst`.
  abbrev pub Result : (rounds bits rst : ℕ) (q : Search) (t rest : Trie) → Type 0
  Result rounds bits rst q t rest =
      (r : Search) × (walk rounds nb bits rst q s ≡ done r s) × Walked s i nb q r t rest

  pub exact_result :
      (rounds bits rst w lo up bound : ℕ) (q : Search) (rest : Trie) (a n : ℕ) (ring : List ℕ)
      (l r : Trie)
      → Represents s i up q.t (node a n ring l r)
      → IsTrie w lo (node a n ring l r)
      → w < 64
      → Words (node a n ring l r)
      → SetAside s i rst bound rest
      → is_exact s nb q ≡ true
      → Result (suc rounds) bits rst q (node a n ring l r) rest
  exact_result rounds bits rst w lo up bound q rest a n ring l r m h depth words rs hit =
      let go : (q.t == 0) ≡ false = ground (arith, m.0, m.1.nonnull) in
      let e =
        exact_size s nb n q (subst (λ x. chunksize s x ≡ n) (sym m.0) m.1.size) words.0.0 words.0.1
          small hit in
      let best = improve s nb q in
      (
        record best { t = q.t },
        rw go
            (search_bin-exact rounds nb bits rst q s hit ∙ ap (λ x. done x s) (same_place s nb q)),
        record {
          trie = node a n ring l r;
          up = up;
          w = w;
          lo = lo;
          shape = m;
          ordered = h;
          depth = depth;
          candidates = inl e.2;
          inside = λ b k x. inl x;
          no_worse = omega (arith, e.2);
          source = inr (a, n, here, omega (arith, e.0), e.1 ∙ m.0, omega (arith, e.0, e.2));
          covers = Each-mono _ _ (node a n ring l r) (λ b k x y. inl (omega (arith, e.2))) words;
          covers_rest = Each-mono _ _ rest (λ b k x y. inl (omega (arith, e.2))) rs.above;
        },
      )

  -- A subtree of larger sizes is not the one on the left.
  differ :
      (w lo a : ℕ) (l r : Trie)
      → IsTrie w lo l
      → IsTrie w (lo + span w) r
      → Represents s i a (s.heap.child0 a) l
      → Represents s i a (s.heap.child1 a) r
      → s.heap.child1 a ≢ 0
      → s.heap.child1 a ≢ s.heap.child0 a
  differ w lo a leaf r hl hr ml mr some = λ e. some (e ∙ ml)
  differ w lo a (node b k rb l1 l2) leaf hl hr ml mr some = λ e. some mr
  differ w lo a (node b k rb l1 l2) (node c j rc r1 r2) hl hr ml mr some = λ e.
      let same : c ≡ b = sym mr.0 ∙ e ∙ ml.0 in
      let sizes : j ≡ k = sym mr.1.size ∙ ap (chunksize s) same ∙ ml.1.size in
      omega (
        arith,
        sizes,
        (IsTrie-range w lo (node b k rb l1 l2) hl).0,
        (IsTrie-range w (lo + span w) (node c j rc r1 r2) hr).0,
      )

  -- The step of a walk from a node that is no exact fit, to the child that the request's bit says.
  pub to_child :
      (rounds bits bit rst up : ℕ) (q : Search) (a n : ℕ) (ring : List ℕ) (l r : Trie)
      → Represents s i up q.t (node a n ring l r)
      → is_exact s nb q ≡ false
      → bits / 2 ^ 63 % 2 ≡ bit
      → walk (suc rounds) nb bits rst q s
        ≡ walk rounds nb
            (bits * 2 % 2 ^ 64)
            (aside s rst a (child s a bit))
            (record (improve s nb q) { t = child s a bit })
            s
  to_child rounds bits bit rst up q a n ring l r m hit top =
      let go : (q.t == 0) ≡ false = ground (arith, m.0, m.1.nonnull) in
      rw go (
        search_bin-walk rounds nb bits rst q s hit
        ∙ ap
            (λ b.
              walk rounds nb (bits * 2 % 2 ^ 64) (aside s rst q.t (child s q.t b))
                (record (improve s nb q) { t = child s q.t b }) s)
            top
        ∙ ap
            (λ p.
              walk rounds nb (bits * 2 % 2 ^ 64) (aside s rst p (child s p bit))
                (record (improve s nb q) { t = child s p bit }) s)
            m.0)

  -- Left, with nothing on the right to set aside.
  pub left_alone :
      (rounds bits rst up : ℕ) (q : Search) (a n : ℕ) (ring : List ℕ) (l rest : Trie)
      → Represents s i up q.t (node a n ring l leaf)
      → Words (node a n ring l leaf)
      → q.rsize ≤ 2 ^ 64 - nb
      → is_exact s nb q ≡ false
      → bits / 2 ^ 63 % 2 ≡ 0
      → Result rounds
          (bits * 2 % 2 ^ 64)
          rst
          (record (improve s nb q) { t = s.heap.child0 a })
          l
          rest
      → Result (suc rounds) bits rst q (node a n ring l leaf) rest
  left_alone rounds bits rst up q a n ring l rest m words start hit bit (out, e, W) =
      let same : aside s rst a (s.heap.child0 a) ≡ rst = ground (arith, m.5) in
      (
        out,
        to_child rounds bits 0 rst up q a n ring l leaf m hit bit
            ∙ ap
                (λ x.
                  walk rounds nb (bits * 2 % 2 ^ 64) x
                    (record (improve s nb q) { t = s.heap.child0 a }) s)
                same
            ∙ e,
        Walked-step s i nb a n (s.heap.child0 a) ring l leaf l rest rest q out m.0 m.1.size
            words.0.0 words.0.1 small start W (λ b k x. left x) (λ b k x. inr x) W.covers tt
            W.covers_rest,
      )

  -- Left, with the subtree on the right set aside.
  pub left_aside :
      (rounds bits rst up w lo : ℕ) (q : Search) (a n b0 k0 : ℕ) (ring ring0 : List ℕ)
      (l r1 r2 rest : Trie)
      → Represents s i up q.t (node a n ring l (node b0 k0 ring0 r1 r2))
      → IsTrie (suc w) lo (node a n ring l (node b0 k0 ring0 r1 r2))
      → Words (node a n ring l (node b0 k0 ring0 r1 r2))
      → q.rsize ≤ 2 ^ 64 - nb
      → is_exact s nb q ≡ false
      → bits / 2 ^ 63 % 2 ≡ 0
      → nb ≤ lo + span w
      → Each (λ b k. k0 ≤ k) rest
      → Result rounds
          (bits * 2 % 2 ^ 64)
          (s.heap.child1 a)
          (record (improve s nb q) { t = s.heap.child0 a })
          l
          (node b0 k0 ring0 r1 r2)
      → Result (suc rounds) bits rst q (node a n ring l (node b0 k0 ring0 r1 r2)) rest
  left_aside rounds bits rst up w lo q a n b0 k0 ring ring0 l r1 r2 rest m h words start hit bit low
        larger (out, e, W) =
      let r = node b0 k0 ring0 r1 r2 in
      let some : s.heap.child1 a ≢ 0 = ground (arith, m.5.0, m.5.1.nonnull) in
      let other = differ w lo a l r h.3 h.4 m.4 m.5 some in
      let same : aside s rst a (s.heap.child0 a) ≡ s.heap.child1 a = ground (arith, some, other) in
      let enough = (IsTrie-range w (lo + span w) r h.4).0.0 in
      (
        out,
        to_child rounds bits 0 rst up q a n ring l r m hit bit
            ∙ ap
                (λ x.
                  walk rounds nb (bits * 2 % 2 ^ 64) x
                    (record (improve s nb q) { t = s.heap.child0 a }) s)
                same
            ∙ e,
        Walked-step s i nb a n (s.heap.child0 a) ring l r l rest r q out m.0 m.1.size words.0.0
            words.0.1 small start W (λ b k x. left x) (λ b k x. inl (right x)) W.covers
            W.covers_rest
            (Each-mono _ _ rest
              (λ b k le.
                Covered-mono nb out.rsize k0 k W.trie (omega (arith, low, enough)) le
                  W.covers_rest.0)
              larger),
      )

  -- Right: the left subtree is too small.
  pub go_right :
      (rounds bits rst up w lo : ℕ) (q : Search) (a n : ℕ) (ring : List ℕ) (l r rest : Trie)
      → Represents s i up q.t (node a n ring l r)
      → IsTrie (suc w) lo (node a n ring l r)
      → Words (node a n ring l r)
      → q.rsize ≤ 2 ^ 64 - nb
      → is_exact s nb q ≡ false
      → bits / 2 ^ 63 % 2 ≡ 1
      → lo + span w ≤ nb
      → Result rounds
          (bits * 2 % 2 ^ 64)
          rst
          (record (improve s nb q) { t = s.heap.child1 a })
          r
          rest
      → Result (suc rounds) bits rst q (node a n ring l r) rest
  go_right rounds bits rst up w lo q a n ring l r rest m h words start hit bit high (out, e, W) =
      let same : aside s rst a (s.heap.child1 a) ≡ rst = ground arith in
      (
        out,
        to_child rounds bits 1 rst up q a n ring l r m hit bit
            ∙ ap
                (λ x.
                  walk rounds nb (bits * 2 % 2 ^ 64) x
                    (record (improve s nb q) { t = s.heap.child1 a }) s)
                same
            ∙ e,
        Walked-step s i nb a n (s.heap.child1 a) ring l r r rest rest q out m.0 m.1.size words.0.0
            words.0.1 small start W (λ b k x. right x) (λ b k x. inr x)
            (Each-mono _ _ l (λ b k x y. absurd (omega (arith, x, y, high)))
              (IsTrie-range w lo l h.3))
            W.covers W.covers_rest,
      )
