-- ===== src/TreeAlloc.antt =====
-- Allocation from the tree bins: `tmalloc_large` and `tmalloc_small` of src/dlmalloc.c.
pub mod Leftmost
pub mod Walk
pub mod Small
pub mod Next
pub mod Large
use Prim.Native.Nat.{bit_and}
use dlmalloc_rs.Prelude.{ℕ, zero, suc, ◌+◌, ◌*◌, ◌/◌, ◌%◌, ◌^◌, not, ◌&&◌, ◌==◌, ltb, if◌then◌else◌}
use dlmalloc_rs.Size.{sub64, chunk2mem, min_chunk_size}
use dlmalloc_rs.BinMap.{idx2bit, left_bits, least_bit, compute_bit2idx}
use dlmalloc_rs.TreeIndex.{compute_tree_index, leftshift_for_tree_index}
use dlmalloc_rs.State.{
  State, Cmd, done, aborted, out_of_fuel, put, pure, ask, ◌>>=◌, ◌>>◌, child, leftmost_child,
  ok_address,
}
use dlmalloc_rs.Head.{
  chunksize, set_inuse_and_pinuse, set_size_and_pinuse_of_inuse_chunk,
  set_size_and_pinuse_of_free_chunk, ok_next,
}
use dlmalloc_rs.SmallBin.{replace_dv}
use dlmalloc_rs.TreeBin.{tree_rounds, unlink_large_chunk, insert_chunk}

-- The variables of the search: the next node, the best one so far with its remainder.
pub record Search : Type 0 where
  pub t : ℕ
  pub v : ℕ
  pub rsize : ℕ

-- The remainder of `t` if it is better than the best so far.
abbrev pub improve : State → (nb : ℕ) → Search → Search
improve s nb q =
    let trem = sub64 (chunksize s q.t) nb in
    if ltb trem q.rsize then record q { v = q.t; rsize = trem } else q

-- The walk along the request's own size; `rst` is the deepest right subtree not taken.
unfoldable pub search_bin : ℕ → (nb sizebits rst : ℕ) → Search → Cmd Search
search_bin zero nb sizebits rst q s = out_of_fuel
search_bin (suc rounds) nb sizebits rst q s =
    let trem = sub64 (chunksize s q.t) nb in
    let best = improve s nb q in
    let rt = s.heap.child1 q.t in
    let t' = child s q.t (sizebits / 2 ^ 63 % 2) in
    let rst' = if not (rt == 0) && not (rt == t') then rt else rst in
    let rest = search_bin rounds nb (sizebits * 2 % 2 ^ 64) rst' (record best { t = t' }) s in
    if ltb trem q.rsize && trem == 0
    then done best s
    else if t' == 0
    then done (record best { t = rst' }) s
    else rest

-- The smallest chunk along the leftmost branch.
unfoldable pub search_leftmost : ℕ → (nb : ℕ) → Search → Cmd Search
search_leftmost zero nb q s = if q.t == 0 then done q s else out_of_fuel
search_leftmost (suc rounds) nb q s =
    let rest = search_leftmost rounds nb (record (improve s nb q) { t = leftmost_child s q.t }) s in
    if q.t == 0 then done q s else rest

-- The root of the next nonempty tree bin above `idx`, or 0.
unfoldable pub next_treebin : State → (idx : ℕ) → ℕ
next_treebin s idx =
    let leftbits = bit_and (left_bits (idx2bit idx)) s.m.treemap in
    if not (leftbits == 0) then s.m.treebins (compute_bit2idx (least_bit leftbits)) else 0

-- The chunk `v` leaves its tree; its end is split off if it is large enough.
unfoldable pub split_large : (v nb rsize : ℕ) → Cmd ℕ
split_large v nb rsize s =
    if ok_address s v && ok_next v (v + nb)
    then (unlink_large_chunk v
          >> (if ltb rsize min_chunk_size
              then put (set_inuse_and_pinuse v (rsize + nb))
              else put (set_size_and_pinuse_of_inuse_chunk v nb)
                >> put (set_size_and_pinuse_of_free_chunk (v + nb) rsize)
                >> insert_chunk (v + nb) rsize)
          >> pure (chunk2mem v))
        s
    else aborted

unfoldable pub tmalloc_large : ℕ → Cmd ℕ
unfolding search_bin search_leftmost next_treebin split_large
tmalloc_large nb = do
  let idx = compute_tree_index nb
  root ← ask (λ s. s.m.treebins idx)
  let start : Search = record { t = root; v = 0; rsize = sub64 0 nb }
  found ←
      if not (root == 0)
      then search_bin tree_rounds nb (nb * 2 ^ leftshift_for_tree_index idx % 2 ^ 64) 0 start
      else pure start
  next ← ask (λ s. if found.t == 0 && found.v == 0 then next_treebin s idx else found.t)
  best ← search_leftmost tree_rounds nb (record found { t = next })
  dv_rest ← ask (λ s. sub64 s.m.dvsize nb)
  if not (best.v == 0) && ltb best.rsize dv_rest then split_large best.v nb best.rsize else pure 0

-- As `split_large`, with the remainder as the new dv.
unfoldable pub split_small : (v nb rsize : ℕ) → Cmd ℕ
split_small v nb rsize s =
    if ok_address s v && ok_next v (v + nb)
    then (unlink_large_chunk v
          >> (if ltb rsize min_chunk_size
              then put (set_inuse_and_pinuse v (rsize + nb))
              else put (set_size_and_pinuse_of_inuse_chunk v nb)
                >> put (set_size_and_pinuse_of_free_chunk (v + nb) rsize)
                >> replace_dv (v + nb) rsize)
          >> pure (chunk2mem v))
        s
    else aborted

unfoldable pub tmalloc_small : ℕ → Cmd ℕ
unfolding search_leftmost split_small
tmalloc_small nb = do
  root ← ask (λ s. s.m.treebins (compute_bit2idx (least_bit s.m.treemap)))
  rsize ← ask (λ s. sub64 (chunksize s root) nb)
  second ← ask (λ s. leftmost_child s root)
  best ← search_leftmost tree_rounds nb (record { t = second; v = root; rsize = rsize })
  split_small best.v nb best.rsize
