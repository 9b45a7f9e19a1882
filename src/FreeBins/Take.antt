-- ===== src/FreeBins/Take.antt =====
-- `tmalloc_small` as a whole: the search, the removal of the chunk from its tree, its heads, and the
-- remainder as the designated victim.
use dlmalloc_rs.Prelude.{
  ℕ, ◌+◌, ◌-◌, ◌*◌, ◌%◌, ◌≤◌, ◌<◌, ◌≡◌, ◌≢◌, ◌∙◌, ◌⊎◌, refl, ap, subst, Bool, true, false, not,
  ◌&&◌, ◌==◌, ltb, if◌then◌else◌, Bool-cases, inl, inr, List, arith,
}
use dlmalloc_rs.Size.{chunk2mem, min_chunk_size}
use dlmalloc_rs.State.{State, MallocState, Run, done, ok_address}
use dlmalloc_rs.Head.{chunksize, cinuse, ok_next, set_inuse_and_pinuse}
use dlmalloc_rs.SmallBin.Stacks.{Leaves, leaves}
use dlmalloc_rs.TreeBin.Trie.{Trie, leaf, node, HasNode, here, left, right, Each, Each-HasNode}
use dlmalloc_rs.TreeBin.Separate.{EveryChunk, Avoids, EveryChunk-mono}
use dlmalloc_rs.TreeBin.Change.{set_trie}
use dlmalloc_rs.TreeBin.Unlink.Leaf.{Represents-low}
use dlmalloc_rs.TreeBin.Unlink.Whole.{holds-Without}
use dlmalloc_rs.TreeAlloc.{split_small}
use dlmalloc_rs.Checks.Trees.{holds}
use dlmalloc_rs.FreeBins.{FreeBins}
use dlmalloc_rs.FreeBins.Victim.{
  IsVictim, with_victim, OnlyVictim, replace_dv-FreeBins, IsVictim-moved, with_victim-same,
}
use dlmalloc_rs.FreeBins.Large.{TakenOut, EveryChunk-set_trie}
use dlmalloc_rs.FreeBins.Heads.{
  set_inuse_and_pinuse_lem, FreeBins-set_inuse_and_pinuse, split_heads, split_heads_lem,
  FreeBins-split_heads, set_inuse_and_pinuse_state, split_heads_state,
}

-- No chunk of the trees begins inside another one.
abbrev pub IsLaidOut : (ℕ → Trie) → Type 0
IsLaidOut tries =
    (i j : ℕ)
    → i < 32
    → j < 32
    → Each (λ a n. EveryChunk (λ y. (y ≤ a) ⊎ (a + n ≤ y)) (tries j)) (tries i)

-- The remainder is too small for a chunk, so the whole chunk is handed out.
abbrev pub is_whole : (n nb : ℕ) → Bool
is_whole n nb = ltb (n - nb) min_chunk_size

-- The chunk of `n` bytes at `a` has been taken from bin `i` for a request of `nb` bytes; the bin's
-- trie is now `after`.
pub record IsTaken (s t : State) (stacks : ℕ → List ℕ) (tries : ℕ → Trie) (nb i a n : ℕ)
    (after : Trie) : Type 0 where
  pub others : (y : ℕ) → holds y after ≡ (holds y (tries i) && not (y == a))
  pub bins :
      FreeBins t (if is_whole n nb then stacks else with_victim s stacks) (set_trie tries i after)
  pub size : chunksize t a ≡ (if is_whole n nb then n else nb)
  pub in_use : cinuse t a ≡ true
  pub dv : t.m.dv ≡ (if is_whole n nb then s.m.dv else a + nb)
  pub dvsize : t.m.dvsize ≡ (if is_whole n nb then s.m.dvsize else n - nb)

pub HasNode-holds : (a n : ℕ) (t : Trie) → HasNode a n t → holds a t ≡ true
HasNode-holds a n leaf m = elim m [ ]
HasNode-holds a n (node b k ring l r) here = ground arith
HasNode-holds a n (node b k ring l r) (left m) = ground (arith, HasNode-holds a n l m)
HasNode-holds a n (node b k ring l r) (right m) = ground (arith, HasNode-holds a n r m)

EveryChunk-HasNode : (P : ℕ → Type 0) (a n : ℕ) (t : Trie) → EveryChunk P t → HasNode a n t → P a
EveryChunk-HasNode P a n leaf h m = elim m [ ]
EveryChunk-HasNode P a n (node b k ring l r) h here = h.0
EveryChunk-HasNode P a n (node b k ring l r) h (left m) = EveryChunk-HasNode P a n l h.2 m
EveryChunk-HasNode P a n (node b k ring l r) h (right m) = EveryChunk-HasNode P a n r h.3 m

Leaves-done :
    (P : State → Type 0) (r : Run (Unit {0})) → Leaves P r → (t : State) × P t × (r ≡ done tt t)
Leaves-done P r (leaves {t} p) = (t, p, refl)

module _ (s : State) (stacks : ℕ → List ℕ) (tries : ℕ → Trie) (nb i a n : ℕ)
    (inv : FreeBins s stacks tries) (lt : i < 32) (among : HasNode a n (tries i)) (pos : 0 < nb)
    (aligned : nb % 16 ≡ 0) (fits : nb ≤ n) (T : TakenOut s stacks tries i a) where
  abbrev pub tries' : ℕ → Trie
  tries' = set_trie tries i T.trie

  -- The chunk itself is in no tree any more.
  pub off_tries : (j : ℕ) → j < 32 → Avoids a (tries' j)
  off_tries j h = elim (Bool-cases (i == j)) [
    | inl e ↦ rw e ((T.without.separate (inv.trees.separate i lt)).1.0)
    | inr e ↦ rw e (
        (T.without.member (λ y. Avoids y (tries j))
          (inv.trees.apart i j lt h (ground (arith, e)))).0)
  ]

  pub aligned_n : n % 16 ≡ 0
  aligned_n = (Each-HasNode _ (tries i) a n (inv.trees.sizes i lt) among).aligned

  pub others : (y : ℕ) → holds y T.trie ≡ (holds y (tries i) && not (y == a))
  others y = holds-Without a y (tries i) T.trie T.without (inv.trees.separate i lt)

  pub low : ok_address s a ≡ true
  low =
      let least =
        EveryChunk-HasNode (λ y. s.m.least_addr ≤ y) a n (tries i)
          (Represents-low s i (s.m.at + 600 + i * 8) (s.m.treebins i) (tries i)
            (inv.trees.each i lt))
          among in
      ground (arith, least)

  pub whole :
      is_whole n nb ≡ true
      → (t : State) × (split_small a nb (n - nb) s ≡ done (chunk2mem a) t)
        × IsTaken s t stacks tries nb i a n T.trie
  unfolding split_small ok_next
  whole small =
      let t = set_inuse_and_pinuse a (n - nb + nb) T.after in
      let own =
        set_inuse_and_pinuse_lem a (n - nb + nb) T.after (omega arith)
          (omega (arith, aligned_n, fits)) in
      let same =
        set_inuse_and_pinuse_state a (n - nb + nb) T.after ∙ ap (λ (z : State). z.m) T.only in
      let next : ltb a (a + nb) ≡ true = ground (arith, pos) in
      (
        t,
        rw (low, next, T.steps, small) refl,
        record {
          others = others;
          bins = rw small (
              FreeBins-set_inuse_and_pinuse a (n - nb + nb) T.after stacks tries' T.bins off_tries);
          size = rw small (own.0 ∙ omega (arith, fits));
          in_use = own.1;
          dv = rw small (ap (λ (z : MallocState). z.dv) same);
          dvsize = rw small (ap (λ (z : MallocState). z.dvsize) same);
        },
      )

  module _ (laid : IsLaidOut tries) (more : is_whole n nb ≡ false) where
    -- Nor does the remainder begin where a chunk of a tree does.
    pub off_rest : (j : ℕ) → j < 32 → Avoids (a + nb) (tries' j)
    off_rest j h = EveryChunk-set_trie _ tries i a T.trie T.without j (
        EveryChunk-mono _ _ (tries j)
          (λ y side e. elim side [
            | inl before ↦ omega (arith, before, e, pos)
            | inr behind ↦ ground (arith, behind, e, more, fits)
          ])
          (Each-HasNode _ (tries i) a n (laid i j lt h) among))

    abbrev pub split : State
    split = split_heads a nb (n - nb) T.after

    pub same : split.m ≡ record (s.m) { treemap = T.after.m.treemap; treebins = T.after.m.treebins }
    same = split_heads_state a nb (n - nb) T.after ∙ ap (λ (z : State). z.m) T.only

    same_dv : split.m.dv ≡ s.m.dv
    same_dv = ap (λ (z : MallocState). z.dv) same

    same_dvsize : split.m.dvsize ≡ s.m.dvsize
    same_dvsize = ap (λ (z : MallocState). z.dvsize) same

    module _ (victim : s.m.dvsize ≢ 0 → IsVictim s stacks tries) where
      split-IsVictim : split.m.dvsize ≢ 0 → IsVictim split stacks tries'
      split-IsVictim some =
          let v = victim (λ e. some (same_dvsize ∙ e)) in
          IsVictim-moved s split stacks tries tries' same_dv same_dvsize
            (ap (λ (z : MallocState). z.at) same) (ap (λ (z : MallocState). z.least_addr) same)
            (λ j h. EveryChunk-set_trie _ tries i a T.trie T.without j (v.off j h)) v

      kept_head :
          (t : State)
          → OnlyVictim split t
          → (chunksize t a ≡ chunksize split a) × (cinuse t a ≡ cinuse split a)
      unfolding chunksize cinuse
      kept_head t only =
          (ap (λ (z : State). chunksize z a) only, ap (λ (z : State). cinuse z a) only)

      pub in_two :
          (t : State) × (split_small a nb (n - nb) s ≡ done (chunk2mem a) t)
          × IsTaken s t stacks tries nb i a n T.trie
      unfolding split_small ok_next
      in_two =
          let bins =
            FreeBins-split_heads a nb (n - nb) T.after stacks tries' T.bins
              (λ j h. (off_tries j h, off_rest j h)) in
          let run =
            Leaves-done _ _
              (replace_dv-FreeBins split stacks tries' (a + nb) (n - nb) bins split-IsVictim) in
          let t = run.0 in
          let own = split_heads_lem a nb (n - nb) T.after pos (omega (arith, aligned)) in
          let head = kept_head t run.1.1 in
          let next : ltb a (a + nb) ≡ true = ground (arith, pos) in
          (
            t,
            rw (low, next, T.steps, more, run.2) refl,
            record {
              others = others;
              bins = rw more (
                  subst (λ st. FreeBins t st tries')
                    (with_victim-same s split stacks same_dv same_dvsize) run.1.0);
              size = rw more (head.0 ∙ own.0);
              in_use = head.1 ∙ own.1;
              dv = rw more run.1.2;
              dvsize = rw more run.1.3;
            },
          )
