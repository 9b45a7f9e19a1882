-- ===== src/TreeIndex.antt =====
-- The bin of a large chunk (src/dlmalloc.c, `compute_tree_index` in its portable definition and
-- the three macros on a tree bin's index).
pub mod Range
pub mod Bounds
use Prim.Native.Nat.{bit_and, bit_or}
use dlmalloc_rs.Prelude.{ℕ, ◌+◌, ◌-◌, ◌*◌, ◌/◌, ◌%◌, ◌^◌, ltb, ◌==◌, if◌then◌else◌}
use dlmalloc_rs.Size.{ntreebins, treebin_shift}

-- `K` of the macro: the logarithm of X for 0 < X <= 0xFFFF. `Y` is an unsigned int.
unfoldable pub tree_shift : ℕ → ℕ
tree_shift x =
    let y0 = x % 2 ^ 32 in
    let n0 = bit_and ((y0 + 2 ^ 32 - 0x100) % 2 ^ 32 / 2 ^ 16) 8 in
    let y1 = y0 * 2 ^ n0 % 2 ^ 32 in
    let k1 = bit_and ((y1 + 2 ^ 32 - 0x1000) % 2 ^ 32 / 2 ^ 16) 4 in
    let n1 = n0 + k1 in
    let y2 = y1 * 2 ^ k1 % 2 ^ 32 in
    let k2 = bit_and ((y2 + 2 ^ 32 - 0x4000) % 2 ^ 32 / 2 ^ 16) 2 in
    let n2 = n1 + k2 in let y3 = y2 * 2 ^ k2 % 2 ^ 32 in (14 + 2 ^ 32 - n2 + y3 / 2 ^ 15) % 2 ^ 32

unfoldable pub compute_tree_index : ℕ → ℕ
compute_tree_index s =
    let x = s / 2 ^ treebin_shift in
    if x == 0
    then 0
    else if ltb 0xFFFF x
    then ntreebins - 1
    else let k = tree_shift x in k * 2 + s / 2 ^ (k + (treebin_shift - 1)) % 2

unfoldable pub bit_for_tree_index : ℕ → ℕ
bit_for_tree_index i = if i == ntreebins - 1 then 64 - 1 else i / 2 + treebin_shift - 2

unfoldable pub leftshift_for_tree_index : ℕ → ℕ
leftshift_for_tree_index i = if i == ntreebins - 1 then 0 else 64 - 1 - (i / 2 + treebin_shift - 2)

unfoldable pub minsize_for_tree_index : ℕ → ℕ
minsize_for_tree_index i =
    bit_or (2 ^ (i / 2 + treebin_shift)) (i % 2 * 2 ^ (i / 2 + treebin_shift - 1))
