-- ===== src/TreeAlloc/Walk/Found.antt =====
-- The walk through a whole trie, by induction on the trie.
use dlmalloc_rs.Prelude.{
  ℕ, zero, suc, ◌+◌, ◌-◌, ◌*◌, ◌/◌, ◌%◌, ◌^◌, ◌≤◌, ◌<◌, ◌≡◌, ◌∙◌, ap, refl, sym, subst, false, List,
  arith, ltb, Bool-cases, inl, inr,
}
use dlmalloc_rs.State.{State, child}
use dlmalloc_rs.Head.{chunksize}
use dlmalloc_rs.TreeBin.Trie.{
  Trie, leaf, node, Each-mono, Each-both, span, IsTrie, IsTrie-range, Represents,
}
use dlmalloc_rs.TreeAlloc.{Search, improve}
use dlmalloc_rs.TreeAlloc.Walk.{SetAside, improve_any}
use dlmalloc_rs.TreeBin.Digits.{Bits, low-Bits, high-Bits}
use dlmalloc_rs.TreeAlloc.Walk.Steps.{walk, walk-leaf, Walked-step, SetAside-mono}
use dlmalloc_rs.TreeAlloc.Walk.Whole.{
  is_exact, aside, Words, Result, exact_result, to_child, left_alone, left_aside, go_right,
}

module _ (s : State) (i nb : ℕ) (small : nb < 2 ^ 64) where
  -- A node with no subtrees.
  bottom :
      (rounds bits rst up bound : ℕ) (q : Search) (rest : Trie) (a n : ℕ) (ring : List ℕ)
      → Represents s i up q.t (node a n ring leaf leaf)
      → Words (node a n ring leaf leaf)
      → q.rsize ≤ 2 ^ 64 - nb
      → nb < bound
      → SetAside s i rst bound rest
      → is_exact s nb q ≡ false
      → Result s i nb small (suc rounds) bits rst q (node a n ring leaf leaf) rest
  bottom rounds bits rst up bound q rest a n ring m words start below rs hit =
      let bit = bits / 2 ^ 63 % 2 in
      let none : child s a bit ≡ 0 = ground (arith, m.4, m.5) in
      let same : aside s rst a (child s a bit) ≡ rst = ground (arith, m.5) in
      let next : Search = record (improve s nb q) { t = child s a bit } in
      let over = walk-leaf s i nb rounds (bits * 2 % 2 ^ 64) rst bound next rest none below rs in
      (
        over.0,
        to_child s i nb small rounds bits bit rst up q a n ring leaf leaf m hit refl
            ∙ ap (λ x. walk rounds nb (bits * 2 % 2 ^ 64) x next s) same
            ∙ over.1,
        Walked-step s i nb a n (child s a bit) ring leaf leaf leaf rest rest q over.0 m.0 m.1.size
            words.0.0 words.0.1 small start over.2 (λ b k x. elim x [ ]) (λ b k x. inr x) tt tt
            over.2.covers_rest,
      )

  right_aside :
      (a w lo : ℕ) (r : Trie)
      → IsTrie w (lo + span w) r
      → Represents s i a (s.heap.child1 a) r
      → Words r
      → w < 64
      → SetAside s i (s.heap.child1 a) (lo + span w) r
  right_aside a w lo r h m words depth = record {
    up = a;
    w = w;
    lo = lo + span w;
    shape = m;
    ordered = h;
    depth = depth;
    above =
        Each-mono _ _ r (λ b k x. (x.0.0, x.1.1))
          (Each-both _ _ r (IsTrie-range w (lo + span w) r h) words);
  }

  smaller :
      (n : ℕ) (q : Search) (t' : ℕ)
      → chunksize s q.t ≡ n
      → 0 < n
      → n < 2 ^ 64
      → q.rsize ≤ 2 ^ 64 - nb
      → (record (improve s nb q) { t = t' }).rsize ≤ 2 ^ 64 - nb
  smaller n q t' size pos word start =
      omega (arith, (improve_any s nb n q size pos word small start).0)

  pub walk-Walked :
      (rounds w lo up bits rst : ℕ) (q : Search) (t rest : Trie)
      → IsTrie w lo t
      → Represents s i up q.t t
      → Words t
      → Bits w lo nb bits
      → lo ≤ nb
      → nb < lo + span w
      → w < rounds
      → w < 64
      → q.rsize ≤ 2 ^ 64 - nb
      → SetAside s i rst (lo + span w) rest
      → Result s i nb small rounds bits rst q t rest
  walk-Walked rounds w lo up bits rst q leaf rest h m words bt from to fuel depth start rs =
      walk-leaf s i nb rounds bits rst (lo + span w) q rest m to rs
  walk-Walked zero w lo up bits rst q (node a n ring l r) rest h m words bt from to fuel depth start
        rs =
      absurd (omega arith)
  walk-Walked (suc rounds) zero lo up bits rst q (node a n ring leaf leaf) rest h m words bt from to
        fuel depth start rs =
      elim (Bool-cases (is_exact s nb q)) [
        | inl hit ↦
            exact_result s i nb small rounds bits rst zero lo up (lo + 16) q rest a n ring leaf leaf
              m h depth words rs hit
        | inr hit ↦ bottom rounds bits rst up (lo + 16) q rest a n ring m words start to rs hit
      ]
  walk-Walked (suc rounds) zero lo up bits rst q (node a n ring (node b k rb l1 l2) r) rest h m
        words bt from to fuel depth start rs =
      absurd (cc)
  walk-Walked (suc rounds) zero lo up bits rst q (node a n ring leaf (node b k rb r1 r2)) rest h m
        words bt from to fuel depth start rs =
      absurd (cc)
  walk-Walked (suc rounds) (suc w) lo up bits rst q (node a n ring l leaf) rest h m words bt from to
        fuel depth start rs =
      let size = subst (λ x. chunksize s x ≡ n) (sym m.0) m.1.size in
      let less = λ (t' : ℕ). smaller n q t' size words.0.0 words.0.1 start in
      let bits' = bits * 2 % 2 ^ 64 in
      elim (Bool-cases (is_exact s nb q)) [
        | inl hit ↦
            exact_result s i nb small rounds bits rst (suc w) lo up (lo + span (suc w)) q rest a n
              ring l leaf m h depth words rs hit
        | inr hit ↦ elim (Bool-cases (ltb nb (lo + span w))) [
          | inl low ↦
              let step = low-Bits w lo nb bits bt from (ground arith) in
              left_alone s i nb small rounds bits rst up q a n ring l rest m words start hit step.0
                (walk-Walked rounds w lo a bits' rst
                  (record (improve s nb q) { t = s.heap.child0 a }) l rest h.3 m.4 words.1 step.1
                  from (ground arith) (omega arith) (omega arith) (less (s.heap.child0 a))
                  (SetAside-mono s i rst (lo + span (suc w)) (lo + span w) rest (omega arith) rs))
          | inr high ↦
              let step = high-Bits w lo nb bits bt (ground arith) to in
              go_right s i nb small rounds bits rst up w lo q a n ring l leaf rest m h words start
                hit step.0 (ground arith)
                (walk-Walked rounds w (lo + span w) a bits' rst
                  (record (improve s nb q) { t = s.heap.child1 a }) leaf rest h.4 m.5 tt step.1
                  (ground arith) (omega arith) (omega arith) (omega arith) (less (s.heap.child1 a))
                  (SetAside-mono s i rst (lo + span (suc w)) (lo + span w + span w) rest
                    (omega arith) rs))
        ]
      ]
  walk-Walked (suc rounds) (suc w) lo up bits rst q (node a n ring l (node b0 k0 ring0 r1 r2)) rest
        h m words bt from to fuel depth start rs =
      let r = node b0 k0 ring0 r1 r2 in
      let size = subst (λ x. chunksize s x ≡ n) (sym m.0) m.1.size in
      let less = λ (t' : ℕ). smaller n q t' size words.0.0 words.0.1 start in
      let bits' = bits * 2 % 2 ^ 64 in
      elim (Bool-cases (is_exact s nb q)) [
        | inl hit ↦
            exact_result s i nb small rounds bits rst (suc w) lo up (lo + span (suc w)) q rest a n
              ring l r m h depth words rs hit
        | inr hit ↦ elim (Bool-cases (ltb nb (lo + span w))) [
          | inl low ↦
              let step = low-Bits w lo nb bits bt from (ground arith) in
              let top = (IsTrie-range w (lo + span w) r h.4).0.1 in
              left_aside s i nb small rounds bits rst up w lo q a n b0 k0 ring ring0 l r1 r2 rest m
                h words start hit step.0 (ground arith)
                (Each-mono _ _ rest (λ b k x. omega (arith, x.0, top)) rs.above)
                (walk-Walked rounds w lo a bits' (s.heap.child1 a)
                  (record (improve s nb q) { t = s.heap.child0 a }) l r h.3 m.4 words.1 step.1 from
                  (ground arith) (omega arith) (omega arith) (less (s.heap.child0 a))
                  (right_aside a w lo r h.4 m.5 words.2 (omega arith)))
          | inr high ↦
              let step = high-Bits w lo nb bits bt (ground arith) to in
              go_right s i nb small rounds bits rst up w lo q a n ring l r rest m h words start hit
                step.0 (ground arith)
                (walk-Walked rounds w (lo + span w) a bits' rst
                  (record (improve s nb q) { t = s.heap.child1 a }) r rest h.4 m.5 words.2 step.1
                  (ground arith) (omega arith) (omega arith) (omega arith) (less (s.heap.child1 a))
                  (SetAside-mono s i rst (lo + span (suc w)) (lo + span w + span w) rest
                    (omega arith) rs))
        ]
      ]
