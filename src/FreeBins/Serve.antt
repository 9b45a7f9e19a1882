-- ===== src/FreeBins/Serve.antt =====
-- `tmalloc_small` keeps the small bins and the tree bins in order.
use dlmalloc_rs.Prelude.{ℕ, ◌%◌, ◌≤◌, ◌<◌, ◌≡◌, ◌≢◌, ◌∙◌, Bool-cases, inl, inr, List, arith}
use dlmalloc_rs.Size.{chunk2mem}
use dlmalloc_rs.State.{State, done}
use dlmalloc_rs.TreeBin.Trie.{Trie, Each-HasNode}
use dlmalloc_rs.TreeAlloc.{tmalloc_small}
use dlmalloc_rs.TreeAlloc.Small.{IsLeast, tmalloc_small-IsLeast}
use dlmalloc_rs.FreeBins.{FreeBins}
use dlmalloc_rs.FreeBins.Victim.{IsVictim}
use dlmalloc_rs.FreeBins.Large.{unlink_large_chunk-FreeBins}
use dlmalloc_rs.FreeBins.Take.{IsLaidOut, IsTaken, is_whole, HasNode-holds, whole, in_two}

-- When the small bins hold the stacks `stacks` and the tree bins the tries `tries`, not all of them
-- empty, no chunk of a tree begins inside another one, the request is a positive multiple of 16 up
-- to 256, and the designated victim, if there is one, is a small chunk that is in no bin,
-- `tmalloc_small` returns the memory of a chunk of the least size of all the trees. The chunk is in
-- use and exactly it has left its bin's trie. If the remainder would be smaller than a chunk, it has
-- its whole size, and the stacks and the victim are as before; else it has the request's size, the
-- remainder behind it is the new victim, and an old one is on top of the stack for its size. All the
-- bins are in order again.
pub tmalloc_small-FreeBins :
    (s : State) (stacks : ℕ → List ℕ) (tries : ℕ → Trie) (nb : ℕ)
    → FreeBins s stacks tries
    → s.m.treemap ≢ 0
    → 0 < nb
    → nb ≤ 256
    → nb % 16 ≡ 0
    → IsLaidOut tries
    → (s.m.dvsize ≢ 0 → IsVictim s stacks tries)
    → (i a n : ℕ) × IsLeast tries i a n
      × (t : State) × (after : Trie) × (tmalloc_small nb s ≡ done (chunk2mem a) t)
      × IsTaken s t stacks tries nb i a n after
tmalloc_small-FreeBins s stacks tries nb inv some pos small aligned laid victim =
    let found = tmalloc_small-IsLeast s tries nb inv.trees some small in
    let i = found.0 in
    let a = found.1 in
    let n = found.2 in
    let L = found.3 in
    let large = (Each-HasNode _ (tries i) a n (inv.trees.sizes i L.bin) L.among).large in
    let fits : nb ≤ n = omega (arith, small, large) in
    let T =
      unlink_large_chunk-FreeBins s stacks tries i a inv L.bin
        (HasNode-holds a n (tries i) L.among) in
    elim (Bool-cases (is_whole n nb)) [
      | inl all ↦
          let run = whole s stacks tries nb i a n inv L.bin L.among pos aligned fits T all in
          (i, a, n, L, run.0, T.trie, found.4 ∙ run.1, run.2)
      | inr more ↦
          let run =
            in_two s stacks tries nb i a n inv L.bin L.among pos aligned fits T laid more victim in
          (i, a, n, L, run.0, T.trie, found.4 ∙ run.1, run.2)
    ]
