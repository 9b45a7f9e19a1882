-- ===== src/Checks/Debug.antt =====
-- The debugging checks of bins and of the whole state: `do_check_tree`, `do_check_treebin`,
-- `do_check_smallbin`, `traverse_and_check` and `do_check_malloc_state` of src/dlmalloc.c. The loops
-- get a number of rounds, which one that does not come back to its start uses up.
use dlmalloc_rs.Prelude.{
  ℕ, zero, suc, ◌+◌, ◌-◌, ◌/◌, Bool, not, ◌&&◌, ◌||◌, ◌==◌, ltb, leb, none, some, List, [], ◌∷◌,
  if◌then◌else◌,
}
use dlmalloc_rs.Size.{
  add64, small_index, min_large_size, min_chunk_size, nsmallbins, ntreebins, align_as_chunk,
  top_foot_size,
}
use dlmalloc_rs.TreeIndex.{compute_tree_index, minsize_for_tree_index}
use dlmalloc_rs.State.{
  State, Segment, Cmd, done, aborted, out_of_fuel, pure, ask, ◌>>=◌, ◌>>◌, child, smallbin_at,
  treebin_at,
}
use dlmalloc_rs.Head.{is_inuse, pinuse, next_pinuse, chunksize, next_chunk, fencepost_head}
use dlmalloc_rs.Segments.{segments, segment_holds, is_initialized}
use dlmalloc_rs.SmallBin.{smallmap_is_marked}
use dlmalloc_rs.TreeBin.{treemap_is_marked}
use dlmalloc_rs.Checks.{bin_find}
use dlmalloc_rs.Checks.Chunks.{
  assert, do_check_any_chunk, do_check_top_chunk, do_check_inuse_chunk, do_check_free_chunk,
}

-- What `do_check_tree` looks at before its loop: the size belongs to the bin.
unfoldable pub check_tree_size : (t : ℕ) → Cmd (Unit {0})
check_tree_size t = do
  size ← ask (λ s. chunksize s t)
  let idx = compute_tree_index size
  assert (λ s. s.heap.index t == idx)
  assert (λ s. leb min_large_size size)
  assert (λ s. leb (minsize_for_tree_index idx) size)
  assert (λ s. idx == ntreebins - 1 || ltb size (minsize_for_tree_index (idx + 1)))

-- A node of the ring of `t`.
unfoldable pub check_ring_node : (t u : ℕ) → Cmd (Unit {0})
unfolding do_check_any_chunk
check_ring_node t u = do
  do_check_any_chunk u
  assert (λ s. s.heap.index u == s.heap.index t)
  assert (λ s. chunksize s u == chunksize s t)
  assert (λ s. not (is_inuse s u))
  assert (λ s. not (next_pinuse s u))
  assert (λ s. s.heap.bk (s.heap.fd u) == u)
  assert (λ s. s.heap.fd (s.heap.bk u) == u)

-- The address of a root pointer is told apart from a chunk's by the bins' own addresses.
abbrev pub leads_to : State → (up u : ℕ) → Bool
leads_to s up u =
    (s.heap.child0 up == u || s.heap.child1 up == u)
    || (up == treebin_at s (s.heap.index u) && s.m.treebins (s.heap.index u) == u)

-- The loop of `do_check_tree` for the tree at `t`, at the node `u`; `head` is the node with a parent
-- met so far. A child starts the loop of its own tree.
unfoldable pub check_ring : (rounds t u head : ℕ) → Cmd (Unit {0})
unfolding check_ring_node check_tree_size
check_ring zero t u head = λ s. out_of_fuel
check_ring (suc rounds) t u head =
    let subtree = λ (side : ℕ). ask (λ s. child s u side) >>= (λ c.
      let below = check_ring rounds c c 0 in
      if not (c == 0)
      then (assert (λ s. s.heap.parent c == u)
          >> assert (λ s. not (c == u))
          >> check_tree_size c
          >> below)
      else pure tt) in
    let on = λ (head' : ℕ). ask (λ s. s.heap.fd u) >>= (λ next.
      let rest = check_ring rounds t next head' in
      if not (next == t) then rest else assert (λ s. not (head' == 0))) in
    check_ring_node t u >> ask (λ s. s.heap.parent u) >>= (λ up.
      if up == 0
      then (assert (λ s. s.heap.child0 u == 0) >> assert (λ s. s.heap.child1 u == 0) >> on head)
      else (assert (λ s. head == 0)
          >> assert (λ s. not (up == u))
          >> assert (λ s. leads_to s up u)
          >> subtree 0
          >> subtree 1
          >> assert (λ s.
            (s.heap.child0 u == 0 || s.heap.child1 u == 0)
            || ltb (chunksize s (s.heap.child0 u)) (chunksize s (s.heap.child1 u)))
          >> on u))

unfoldable pub do_check_tree : (rounds t : ℕ) → Cmd (Unit {0})
unfolding check_tree_size check_ring
do_check_tree rounds t = check_tree_size t >> check_ring rounds t t 0

unfoldable pub do_check_treebin : (rounds i : ℕ) → Cmd (Unit {0})
unfolding do_check_tree
do_check_treebin rounds i = do
  t ← ask (λ s. s.m.treebins i)
  empty ← ask (λ s. not (treemap_is_marked s i))
  if t == 0 then assert (λ s. empty) else pure tt
  if not empty then do_check_tree rounds t else pure tt

-- From `p` along the `bk` links to the bin at `b`.
unfoldable pub check_smallbin_from : (rounds i b p : ℕ) → Cmd (Unit {0})
unfolding do_check_free_chunk do_check_inuse_chunk
check_smallbin_from zero i b p = λ s. out_of_fuel
check_smallbin_from (suc rounds) i b p = ask (λ s. s.heap.bk p) >>= (λ before.
    let rest = check_smallbin_from rounds i b before in
    if not (p == b)
    then (do_check_free_chunk p
        >> assert (λ s. small_index (chunksize s p) == i)
        >> assert (λ s. s.heap.bk p == b || chunksize s (s.heap.bk p) == chunksize s p)
        >> ask (λ s. not (s.heap.head (next_chunk s p) == fencepost_head))
        >>= (λ inside.
            ask (λ s. next_chunk s p) >>= (λ q. if inside then do_check_inuse_chunk q else pure tt))
        >> rest)
    else pure tt)

unfoldable pub do_check_smallbin : (rounds i : ℕ) → Cmd (Unit {0})
unfolding check_smallbin_from
do_check_smallbin rounds i = do
  b ← ask (λ s. smallbin_at s i)
  p ← ask (λ s. s.heap.bk (smallbin_at s i))
  empty ← ask (λ s. not (smallmap_is_marked s i))
  if p == b then assert (λ s. empty) else pure tt
  if not empty then check_smallbin_from rounds i b p else pure tt

-- `bin_find` as a step of a check.
abbrev pub assert_in_bin : (rounds q : ℕ) → (expected : Bool → Bool) → Cmd (Unit {0})
assert_in_bin rounds q expected s = elim (bin_find rounds q s) [
  | none ↦ out_of_fuel
  | some found ↦ if expected found then done tt s else aborted
]

-- A chunk that the traversal comes to behind `lastq`.
unfoldable pub check_traversed : (rounds q lastq : ℕ) → Cmd (Unit {0})
unfolding do_check_inuse_chunk do_check_free_chunk
check_traversed rounds q lastq = do
  used ← ask (λ s. is_inuse s q)
  victim ← ask (λ s. q == s.m.dv)
  if used
      then (assert_in_bin rounds q (λ found. not found) >> do_check_inuse_chunk q)
      else ((if victim then pure tt else assert_in_bin rounds q (λ found. found))
          >> assert (λ s. lastq == 0 || is_inuse s lastq)
          >> do_check_free_chunk q)

unfoldable pub traverse_from : (left rounds : ℕ) → Segment → (q lastq sum : ℕ) → Cmd ℕ
unfolding check_traversed
traverse_from zero rounds g q lastq sum = λ s. out_of_fuel
traverse_from (suc left) rounds g q lastq sum =
    ask (λ s. segment_holds g q && (not (q == s.m.top) && not (s.heap.head q == fencepost_head)))
    >>= (λ on. ask (λ s. next_chunk s q) >>= (λ next.
        ask (λ s. add64 sum (chunksize s q)) >>= (λ sum'.
          let rest = traverse_from left rounds g next q sum' in
          if on then check_traversed rounds q lastq >> rest else pure sum)))

-- A segment of `size` bytes has at most one chunk every 16 bytes; one more round ends the loop.
unfoldable pub traverse_segments : (rounds : ℕ) → List Segment → (sum : ℕ) → Cmd ℕ
unfolding traverse_from
traverse_segments rounds [] sum = pure sum
traverse_segments rounds (g ∷ gs) sum =
    let first = align_as_chunk g.base in
    assert (λ s. pinuse s first)
    >> traverse_from (g.size / 16 + 2) rounds g first 0 sum
    >>= (λ sum'. traverse_segments rounds gs sum')

unfoldable pub traverse_and_check : (rounds : ℕ) → Cmd ℕ
unfolding traverse_segments
traverse_and_check rounds = do
  started ← ask is_initialized
  gs ← ask segments
  sum ← ask (λ s. add64 s.m.topsize top_foot_size)
  if started then traverse_segments rounds gs sum else pure 0

-- A check of the bins from `count - left` on.
abbrev pub check_each : (left count : ℕ) → (ℕ → Cmd (Unit {0})) → Cmd (Unit {0})
check_each zero count check = pure tt
check_each (suc left) count check = check (count - suc left) >> check_each left count check

unfoldable pub do_check_malloc_state : (rounds : ℕ) → Cmd (Unit {0})
unfolding do_check_smallbin do_check_treebin do_check_any_chunk do_check_top_chunk
    traverse_and_check
do_check_malloc_state rounds = do
  check_each nsmallbins nsmallbins (do_check_smallbin rounds)
  check_each ntreebins ntreebins (do_check_treebin rounds)
  dv ← ask (λ s. s.m.dv)
  dvsize ← ask (λ s. s.m.dvsize)
  if not (dvsize == 0)
      then (do_check_any_chunk dv
          >> assert (λ s. dvsize == chunksize s dv)
          >> assert (λ s. leb min_chunk_size dvsize)
          >> assert_in_bin rounds dv (λ found. not found))
      else pure tt
  top ← ask (λ s. s.m.top)
  if not (top == 0)
      then (do_check_top_chunk top
          >> assert (λ s. ltb 0 s.m.topsize)
          >> assert_in_bin rounds top (λ found. not found))
      else pure tt
  total ← traverse_and_check rounds
  assert (λ s. leb total s.m.footprint)
  assert (λ s. leb s.m.footprint s.m.max_footprint)
