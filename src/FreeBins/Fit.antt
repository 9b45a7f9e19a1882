-- ===== src/FreeBins/Fit.antt =====
-- `split_large`: the removal of a chunk from its tree, its heads, and the remainder in the bin for its
-- size.
use dlmalloc_rs.Prelude.{
  ℕ, ◌+◌, ◌-◌, ◌%◌, ◌≤◌, ◌<◌, ◌≡◌, ◌≢◌, ◌∙◌, ◌⊎◌, refl, ap, true, false, not, ◌&&◌, ◌==◌, ltb,
  if◌then◌else◌, Bool-cases, inl, inr, List, ◌∷◌, arith, All,
}
use dlmalloc_rs.Size.{chunk2mem}
use dlmalloc_rs.State.{State, MallocState, done, smallbin_at}
use dlmalloc_rs.Head.{chunksize, cinuse, ok_next, set_inuse_and_pinuse}
use dlmalloc_rs.TreeBin.Trie.{Trie, HasNode, Each, Each-HasNode}
use dlmalloc_rs.TreeBin.Separate.{All-map}
use dlmalloc_rs.TreeBin.Change.{set_trie}
use dlmalloc_rs.TreeAlloc.{split_large}
use dlmalloc_rs.Checks.Trees.{holds}
use dlmalloc_rs.FreeBins.{FreeBins}
use dlmalloc_rs.FreeBins.Insert.{IsLoose, Put, OnlyBins, insert_chunk-IsPut}
use dlmalloc_rs.FreeBins.Large.{TakenOut}
use dlmalloc_rs.FreeBins.Heads.{
  set_inuse_and_pinuse_lem, set_inuse_and_pinuse_state, FreeBins-set_inuse_and_pinuse, split_heads,
  split_heads_lem, FreeBins-split_heads, chunksize-remainder,
}
use dlmalloc_rs.FreeBins.Take.{
  IsLaidOut, is_whole, off_tries, off_rest, others, low, aligned_n, same,
}

-- No chunk of a small bin and no small bin lies inside a chunk of a tree.
abbrev pub IsClear : State → (ℕ → List ℕ) → (ℕ → Trie) → Type 0
IsClear s stacks tries =
    (i k : ℕ)
    → i < 32
    → k < 32
    → Each (λ a n. All (λ y. (y ≤ a) ⊎ (a + n ≤ y)) (smallbin_at s k ∷ stacks k)) (tries i)

-- The stacks and tries with what a chunk of `n` bytes at `a` leaves behind a request of `nb` bytes:
-- nothing, or a chunk in the bin for its size.
pub data Rest (stacks : ℕ → List ℕ) (tries : ℕ → Trie) (nb a n : ℕ)
    : (ℕ → List ℕ) → (ℕ → Trie) → Type 0 where
  nothing : is_whole n nb ≡ true → Rest stacks tries nb a n stacks tries
  binned :
      {stacks' : ℕ → List ℕ} {tries' : ℕ → Trie}
      → is_whole n nb ≡ false
      → Put stacks tries (a + nb) (n - nb) stacks' tries'
      → Rest stacks tries nb a n stacks' tries'

-- The chunk of `n` bytes at `a` has been taken from bin `i` for a request of `nb` bytes, and what it
-- leaves is in a bin again.
pub record IsServed (s t : State) (stacks : ℕ → List ℕ) (tries : ℕ → Trie) (nb i a n : ℕ)
    : Type 0 where
  pub trie : Trie
  pub others : (y : ℕ) → holds y trie ≡ (holds y (tries i) && not (y == a))
  pub stacks_after : ℕ → List ℕ
  pub tries_after : ℕ → Trie
  pub rest : Rest stacks (set_trie tries i trie) nb a n stacks_after tries_after
  pub bins : FreeBins t stacks_after tries_after
  pub size : chunksize t a ≡ (if is_whole n nb then n else nb)
  pub in_use : cinuse t a ≡ true
  pub dv : t.m.dv ≡ s.m.dv
  pub dvsize : t.m.dvsize ≡ s.m.dvsize

module _ (s : State) (stacks : ℕ → List ℕ) (tries : ℕ → Trie) (nb i a n : ℕ)
    (inv : FreeBins s stacks tries) (lt : i < 32) (among : HasNode a n (tries i)) (pos : 0 < nb)
    (aligned : nb % 16 ≡ 0) (fits : nb ≤ n) (T : TakenOut s stacks tries i a) where
  whole-IsServed :
      is_whole n nb ≡ true
      → (t : State) × (split_large a nb (n - nb) s ≡ done (chunk2mem a) t)
        × IsServed s t stacks tries nb i a n
  unfolding split_large ok_next
  whole-IsServed small =
      let t = set_inuse_and_pinuse a (n - nb + nb) T.after in
      let own =
        set_inuse_and_pinuse_lem a (n - nb + nb) T.after (omega arith) (
          omega (arith, aligned_n s stacks tries nb i a n inv lt among pos aligned fits T, fits)) in
      let kept =
        set_inuse_and_pinuse_state a (n - nb + nb) T.after ∙ ap (λ (z : State). z.m) T.only in
      let next : ltb a (a + nb) ≡ true = ground (arith, pos) in
      (
        t,
        rw (low s stacks tries nb i a n inv lt among pos aligned fits T, next, T.steps, small) refl,
        record {
          trie = T.trie;
          others = others s stacks tries nb i a n inv lt among pos aligned fits T;
          stacks_after = stacks;
          tries_after = set_trie tries i T.trie;
          rest = nothing small;
          bins =
              FreeBins-set_inuse_and_pinuse a (n - nb + nb) T.after stacks (set_trie tries i T.trie)
                T.bins (off_tries s stacks tries nb i a n inv lt among pos aligned fits T);
          size = rw small (own.0 ∙ omega (arith, fits));
          in_use = own.1;
          dv = ap (λ (z : MallocState). z.dv) kept;
          dvsize = ap (λ (z : MallocState). z.dvsize) kept;
        },
      )

  module _ (laid : IsLaidOut tries) (clear : IsClear s stacks tries)
      (more : is_whole n nb ≡ false) where
    abbrev halves : State
    halves = split_heads a nb (n - nb) T.after

    halves_state :
        halves.m ≡ record (s.m) { treemap = T.after.m.treemap; treebins = T.after.m.treebins }
    halves_state = same s stacks tries nb i a n inv lt among pos aligned fits T laid more

    -- The remainder begins where no chunk of a small bin does.
    clear_rest : (k : ℕ) → k < 32 → All (λ y. a + nb ≢ y) (smallbin_at s k ∷ stacks k)
    clear_rest k h =
        All-map _ _ (smallbin_at s k ∷ stacks k)
          (λ y side e. elim side [
            | inl before ↦ omega (arith, before, e, pos)
            | inr behind ↦ ground (arith, behind, e, more, fits)
          ])
          (Each-HasNode _ (tries i) a n (clear i k lt h) among)

    rest-IsLoose : IsLoose halves stacks (set_trie tries i T.trie) (a + nb) (n - nb)
    rest-IsLoose =
        let whole = Each-HasNode _ (tries i) a n (inv.trees.sizes i lt) among in
        let at : halves.m.at ≡ s.m.at = ap (λ (z : MallocState). z.at) halves_state in
        let least : halves.m.least_addr ≡ s.m.least_addr =
          ap (λ (z : MallocState). z.least_addr) halves_state in
        let reachable = low s stacks tries nb i a n inv lt among pos aligned fits T in
        record {
          nonnull = omega (arith, pos);
          size =
              chunksize-remainder a nb (n - nb) T.after
                (omega (arith, whole.aligned, aligned, fits));
          aligned = omega (arith, whole.aligned, aligned, fits);
          word = omega (arith, whole.word);
          new = record {
            low = ground (arith, reachable, least);
            off_bins = λ k h e. (clear_rest k h).0 (omega (arith, e, at));
            off_chunks = λ k h. (clear_rest k h).1;
          };
          off = off_rest s stacks tries nb i a n inv lt among pos aligned fits T laid more;
        }

    kept_head :
        (t : State)
        → OnlyBins halves t
        → (chunksize t a ≡ chunksize halves a) × (cinuse t a ≡ cinuse halves a)
    unfolding chunksize cinuse
    kept_head t only = (ap (λ (z : State). chunksize z a) only, ap (λ (z : State). cinuse z a) only)

    split-IsServed :
        (t : State) × (split_large a nb (n - nb) s ≡ done (chunk2mem a) t)
        × IsServed s t stacks tries nb i a n
    unfolding split_large ok_next
    split-IsServed =
        let bins =
          FreeBins-split_heads a nb (n - nb) T.after stacks (set_trie tries i T.trie) T.bins (λ j h.
            (
              off_tries s stacks tries nb i a n inv lt among pos aligned fits T j h,
              off_rest s stacks tries nb i a n inv lt among pos aligned fits T laid more j h,
            )) in
        let P =
          insert_chunk-IsPut halves stacks (set_trie tries i T.trie) (a + nb) (n - nb) bins
            rest-IsLoose in
        let own = split_heads_lem a nb (n - nb) T.after pos (omega (arith, aligned)) in
        let head = kept_head P.after P.only in
        let next : ltb a (a + nb) ≡ true = ground (arith, pos) in
        (
          P.after,
          rw
              (
                low s stacks tries nb i a n inv lt among pos aligned fits T,
                next,
                T.steps,
                more,
                P.steps,
              )
              refl,
          record {
            trie = T.trie;
            others = others s stacks tries nb i a n inv lt among pos aligned fits T;
            stacks_after = P.stacks_after;
            tries_after = P.tries_after;
            rest = binned more P.put;
            bins = P.bins;
            size = rw more (head.0 ∙ own.0);
            in_use = head.1 ∙ own.1;
            dv = ap (λ (z : State). z.m.dv) P.only ∙ ap (λ (z : MallocState). z.dv) halves_state;
            dvsize =
                ap (λ (z : State). z.m.dvsize) P.only
                ∙ ap (λ (z : MallocState). z.dvsize) halves_state;
          },
        )

  pub split_large-IsServed :
      IsLaidOut tries
      → IsClear s stacks tries
      → (t : State) × (split_large a nb (n - nb) s ≡ done (chunk2mem a) t)
        × IsServed s t stacks tries nb i a n
  split_large-IsServed laid clear = elim (Bool-cases (is_whole n nb)) [
    | inl small ↦ whole-IsServed small
    | inr more ↦ split-IsServed laid clear more
  ]
