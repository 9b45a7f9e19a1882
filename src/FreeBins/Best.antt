-- ===== src/FreeBins/Best.antt =====
-- `tmalloc_large` keeps the small bins and the tree bins in order.
use dlmalloc_rs.Prelude.{
  ℕ, ◌-◌, ◌%◌, ◌^◌, ◌≤◌, ◌<◌, ◌≡◌, ◌∙◌, ◌⊎◌, refl, true, false, ltb, if◌then◌else◌, Bool-cases, inl,
  inr, List, arith,
}
use dlmalloc_rs.Size.{chunk2mem, sub64}
use dlmalloc_rs.State.{State, done}
use dlmalloc_rs.TreeBin.Trie.{Trie, Each}
use dlmalloc_rs.TreeAlloc.{split_large, tmalloc_large}
use dlmalloc_rs.TreeAlloc.Large.{IsBestFit}
use dlmalloc_rs.TreeAlloc.Large.Fit.{tmalloc_large-IsBestFit}
use dlmalloc_rs.FreeBins.{FreeBins}
use dlmalloc_rs.FreeBins.Large.{unlink_large_chunk-FreeBins}
use dlmalloc_rs.FreeBins.Take.{IsLaidOut, HasNode-holds}
use dlmalloc_rs.FreeBins.Fit.{IsClear, IsServed, split_large-IsServed}

-- The comparison with the designated victim's remainder.
by_remainder :
    (s : State) (stacks : ℕ → List ℕ) (tries : ℕ → Trie) (nb i a n : ℕ)
    → FreeBins s stacks tries
    → nb % 16 ≡ 0
    → 256 ≤ nb
    → IsLaidOut tries
    → IsClear s stacks tries
    → IsBestFit tries nb i a n
    → tmalloc_large nb s
      ≡ (if ltb (n - nb) (sub64 s.m.dvsize nb) then split_large a nb (n - nb) s else done 0 s)
    → ((ltb (n - nb) (sub64 s.m.dvsize nb) ≡ true)
        × (t : State) × (tmalloc_large nb s ≡ done (chunk2mem a) t)
        × IsServed s t stacks tries nb i a n)
      ⊎ ((ltb (n - nb) (sub64 s.m.dvsize nb) ≡ false) × (tmalloc_large nb s ≡ done 0 s))
by_remainder s stacks tries nb i a n inv aligned large laid clear best run =
    elim (Bool-cases (ltb (n - nb) (sub64 s.m.dvsize nb))) [
      | inl better ↦
          let T =
            unlink_large_chunk-FreeBins s stacks tries i a inv best.bin
              (HasNode-holds a n (tries i) best.among) in
          let served =
            split_large-IsServed s stacks tries nb i a n inv best.bin best.among
              (omega (arith, large)) aligned best.enough T laid clear in
          inl (better, served.0, run ∙ rw better served.1, served.2)
      | inr keep ↦ inr (keep, run ∙ rw keep refl)
    ]

-- When the small bins hold the stacks `stacks` and the tree bins the tries `tries`, no chunk of a bin
-- and no small bin lies inside a chunk of a tree, and the request is a multiple of 16 from 256 on and
-- below 2 ^ 64, `tmalloc_large` returns. If some chunk of a tree is large enough, it looks at one of
-- the least size among all that are. If that one's remainder is less than the designated victim's
-- (both modulo 2 ^ 64), it returns the chunk's memory: the chunk is in use and exactly it has left its
-- trie; a remainder that is too small for a chunk stays with it, and any other is in the bin for its
-- size; the victim is as before and all the bins are in order again. Else, and if no chunk is large
-- enough, it returns 0 and changes nothing.
pub tmalloc_large-IsServed :
    (s : State) (stacks : ℕ → List ℕ) (tries : ℕ → Trie) (nb : ℕ)
    → FreeBins s stacks tries
    → nb % 16 ≡ 0
    → 256 ≤ nb
    → nb < 2 ^ 64
    → IsLaidOut tries
    → IsClear s stacks tries
    → ((i a n : ℕ) × IsBestFit tries nb i a n
        × (((ltb (n - nb) (sub64 s.m.dvsize nb) ≡ true)
              × (t : State) × (tmalloc_large nb s ≡ done (chunk2mem a) t)
              × IsServed s t stacks tries nb i a n)
            ⊎ ((ltb (n - nb) (sub64 s.m.dvsize nb) ≡ false) × (tmalloc_large nb s ≡ done 0 s))))
      ⊎ (((j : ℕ) → j < 32 → Each (λ b k. k < nb) (tries j)) × (tmalloc_large nb s ≡ done 0 s))
tmalloc_large-IsServed s stacks tries nb inv aligned large word laid clear =
    elim (tmalloc_large-IsBestFit s tries nb inv.trees aligned large word) [
      | inr none ↦ inr none
      | inl (i, a, n, best, run) ↦ inl (
        i,
        a,
        n,
        best,
        by_remainder s stacks tries nb i a n inv aligned large laid clear best run,
      )
    ]
