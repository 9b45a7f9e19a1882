-- ===== src/TreeBin.antt =====
-- Tree bins: bitwise digital trees of large free chunks (src/dlmalloc.c, `insert_large_chunk`,
-- `unlink_large_chunk`, and the relays `insert_chunk` and `unlink_chunk`).
-- A pointer to a child field is a pair of a node and 0 or 1. A tree's nodes on one path differ in
-- successive bits of their sizes, so 64 rounds are enough for each walk down a tree.
pub mod Trie
pub mod Separate
pub mod Bins
pub mod Digits
pub mod Change
pub mod Insert
pub mod Unlink
use dlmalloc_rs.Prelude.{ℕ, zero, suc, ◌*◌, ◌/◌, ◌%◌, ◌^◌, Bool, not, ◌&&◌, ◌==◌, if◌then◌else◌}
use dlmalloc_rs.Size.{is_small}
use dlmalloc_rs.BinMap.{mark_bit, clear_bit, bit_is_marked}
use dlmalloc_rs.TreeIndex.{compute_tree_index, leftshift_for_tree_index}
use dlmalloc_rs.State.{
  State, Cmd, done, aborted, out_of_fuel, abort, put, pure, ask, ◌>>=◌, ◌>>◌, set_fd, set_bk,
  set_parent, set_index, child, set_child, child_addr, treebin_at, set_treebin, ok_address,
}
use dlmalloc_rs.Head.{chunksize}
use dlmalloc_rs.SmallBin.{insert_small_chunk, unlink_small_chunk}

abbrev pub tree_rounds : ℕ
tree_rounds = 64

unfoldable pub mark_treemap : ℕ → State → State
mark_treemap i s = record s { m = record (s.m) { treemap = mark_bit s.m.treemap i } }

unfoldable pub clear_treemap : ℕ → State → State
clear_treemap i s = record s { m = record (s.m) { treemap = clear_bit s.m.treemap i } }

unfoldable pub treemap_is_marked : State → ℕ → Bool
treemap_is_marked s i = bit_is_marked s.m.treemap i

-- `X->fd = X->bk = X`
abbrev pub link_self : ℕ → State → State
link_self x s = set_fd x x (set_bk x x s)

-- The walk of `insert_large_chunk` from node `t`, with the size's bits from the walk's depth on.
unfoldable pub insert_below : ℕ → (x size t k : ℕ) → Cmd (Unit {0})
insert_below zero x size t k s = out_of_fuel
insert_below (suc rounds) x size t k s =
    let side = k / 2 ^ 63 % 2 in
    let c = child s t side in
    let rest = insert_below rounds x size c (k * 2 % 2 ^ 64) s in
    if not (chunksize s t == size)
    then (if not (c == 0)
        then rest
        else if ok_address s (child_addr t side)
        then done tt (link_self x (set_parent x t (set_child t side x s)))
        else aborted)
    else let f = s.heap.fd t in
      if ok_address s t && ok_address s f
      then done tt (set_parent x 0 (set_bk x t (set_fd x f (set_fd t x (set_bk f x s)))))
      else aborted

unfoldable pub insert_large_chunk : ℕ → ℕ → Cmd (Unit {0})
insert_large_chunk x size s =
    let i = compute_tree_index size in
    let s1 = set_child x 0 0 (set_child x 1 0 (set_index x i s)) in
    if not (treemap_is_marked s1 i)
    then done tt (link_self x (set_parent x (treebin_at s i) (set_treebin i x (mark_treemap i s1))))
    else insert_below tree_rounds x size (s1.m.treebins i)
        (size * 2 ^ leftshift_for_tree_index i % 2 ^ 64) s1

-- The leaf that the walk by right children before left ones ends at, from `r`, which field
-- `side` of `node` points to.
unfoldable pub rightmost_leaf : ℕ → (node side r : ℕ) → Cmd (ℕ × ℕ × ℕ)
rightmost_leaf zero node side r s = out_of_fuel
rightmost_leaf (suc rounds) node side r s =
    let right = rightmost_leaf rounds r 1 (s.heap.child1 r) s in
    let left = rightmost_leaf rounds r 0 (s.heap.child0 r) s in
    if not (s.heap.child1 r == 0)
    then right
    else if not (s.heap.child0 r == 0)
    then left
    else done (node, side, r) s

unfoldable pub take_leaf : (node side r : ℕ) → Cmd ℕ
take_leaf node side r = do
  (n, d, leaf) ← rightmost_leaf tree_rounds node side r
  ok ← ask (λ s. ok_address s (child_addr n d))
  if ok then put (set_child n d 0) else abort
  pure leaf

-- Steps 1 and 2: the chunk that takes the place of `x`, or 0.
unfoldable pub take_replacement : ℕ → Cmd ℕ
unfolding take_leaf
take_replacement x s =
    let f = s.heap.fd x in
    let r = s.heap.bk x in
    if not (r == x)
    then (if ok_address s f && (s.heap.bk f == x && s.heap.fd r == x)
        then done r (set_fd r f (set_bk f r s))
        else aborted)
    else if not (s.heap.child1 x == 0)
    then take_leaf x 1 (s.heap.child1 x) s
    else if not (s.heap.child0 x == 0)
    then take_leaf x 0 (s.heap.child0 x) s
    else done 0 s

-- Step 3: the link from above to `x` now leads to `r`.
unfoldable pub relink_parent : (x xp r : ℕ) → Cmd (Unit {0})
unfolding clear_treemap
relink_parent x xp r s =
    let i = s.heap.index x in
    if x == s.m.treebins i
    then (let s1 = set_treebin i r s in if r == 0 then done tt (clear_treemap i s1) else done tt s1)
    else if ok_address s xp
    then (if s.heap.child0 xp == x
        then done tt (set_child xp 0 r s)
        else done tt (set_child xp 1 r s))
    else aborted

-- A child of `x` goes to `r`.
unfoldable pub move_child : (side x r : ℕ) → Cmd (Unit {0})
move_child side x r s =
    let c = child s x side in
    if not (c == 0)
    then (if ok_address s c then done tt (set_parent c r (set_child r side c s)) else aborted)
    else done tt s

unfoldable pub adopt : (x xp r : ℕ) → Cmd (Unit {0})
unfolding move_child
adopt x xp r = do
  ok ← ask (λ s. ok_address s r)
  if ok then put (set_parent r xp) else abort
  move_child 0 x r
  move_child 1 x r

unfoldable pub unlink_large_chunk : ℕ → Cmd (Unit {0})
unfolding take_replacement relink_parent adopt
unlink_large_chunk x = do
  xp ← ask (λ s. s.heap.parent x)
  r ← take_replacement x
  if not (xp == 0)
      then relink_parent x xp r >> (if not (r == 0) then adopt x xp r else pure tt)
      else pure tt

-- Relay to small or large bins.
unfoldable pub insert_chunk : ℕ → ℕ → Cmd (Unit {0})
insert_chunk p size = if is_small size then insert_small_chunk p size else insert_large_chunk p size

unfoldable pub unlink_chunk : ℕ → ℕ → Cmd (Unit {0})
unlink_chunk p size = if is_small size then unlink_small_chunk p size else unlink_large_chunk p
