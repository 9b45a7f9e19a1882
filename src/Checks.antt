-- ===== src/Checks.antt =====
-- The debugging checks of src/dlmalloc.c; here `bin_find`: whether a chunk is in the bin for its size.
-- The circles of chunks get a number of rounds, after which the search has no result.
pub mod Chunks
pub mod Debug
pub mod Find
pub mod Trees
use dlmalloc_rs.Prelude.{
  ℕ, zero, suc, ◌*◌, ◌/◌, ◌%◌, ◌^◌, Bool, true, false, not, ◌&&◌, ◌==◌, Option, none, some,
  if◌then◌else◌,
}
use dlmalloc_rs.Size.{is_small, small_index}
use dlmalloc_rs.TreeIndex.{compute_tree_index, leftshift_for_tree_index}
use dlmalloc_rs.State.{State, child, smallbin_at}
use dlmalloc_rs.Head.{chunksize}
use dlmalloc_rs.SmallBin.{smallmap_is_marked}
use dlmalloc_rs.TreeBin.{treemap_is_marked}

-- From `p` along the `fd` links until they lead to `b`.
unfoldable pub circle_has : (rounds x b p : ℕ) → State → Option Bool
circle_has zero x b p s = none
circle_has (suc rounds) x b p s =
    let rest = circle_has rounds x b (s.heap.fd p) s in
    if p == x then some true else if not (s.heap.fd p == b) then rest else some false

-- The node for `size` on its path down from `t`, or 0.
unfoldable pub node_for : (rounds size t sizebits : ℕ) → State → Option ℕ
node_for zero size t sizebits s = none
node_for (suc rounds) size t sizebits s =
    let rest = node_for rounds size (child s t (sizebits / 2 ^ 63 % 2)) (sizebits * 2 % 2 ^ 64) s in
    if not (t == 0) && not (chunksize s t == size) then rest else some t

abbrev pub ring_has : (rounds x : ℕ) → State → Option ℕ → Option Bool
ring_has rounds x s none = none
ring_has rounds x s (some t) = if not (t == 0) then circle_has rounds x t t s else some false

unfoldable pub bin_find : (rounds x : ℕ) → State → Option Bool
unfolding circle_has node_for
bin_find rounds x s =
    let size = chunksize s x in
    let sidx = small_index size in
    let tidx = compute_tree_index size in
    if is_small size
    then (if smallmap_is_marked s sidx
        then circle_has rounds x (smallbin_at s sidx) (smallbin_at s sidx) s
        else some false)
    else if treemap_is_marked s tidx
    then ring_has rounds x s
        (node_for 64 size (s.m.treebins tidx) (size * 2 ^ leftshift_for_tree_index tidx % 2 ^ 64) s)
    else some false
