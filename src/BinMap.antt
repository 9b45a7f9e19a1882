-- ===== src/BinMap.antt =====
-- Operations on bin maps (src/dlmalloc.c, "Operations on bin maps"): 32-bit words.
pub mod Laws
pub mod First
use Prim.Native.Nat.{bit_and, bit_or}
use dlmalloc_rs.Prelude.{ℕ, ◌+◌, ◌-◌, ◌*◌, ◌/◌, ◌%◌, ◌^◌, Bool, not, ◌==◌}

unfoldable pub idx2bit : ℕ → ℕ
idx2bit i = 2 ^ i % 2 ^ 32

-- `map |= idx2bit(i)`, `map &= ~idx2bit(i)` and `map & idx2bit(i)`, for either map.
unfoldable pub mark_bit : ℕ → ℕ → ℕ
unfolding idx2bit
mark_bit map i = bit_or map (idx2bit i)

unfoldable pub clear_bit : ℕ → ℕ → ℕ
unfolding idx2bit
clear_bit map i = bit_and map (2 ^ 32 - 1 - idx2bit i)

unfoldable pub bit_is_marked : ℕ → ℕ → Bool
unfolding idx2bit
bit_is_marked map i = not (bit_and map (idx2bit i) == 0)

unfoldable pub least_bit : ℕ → ℕ
least_bit x = bit_and x ((2 ^ 32 - x) % 2 ^ 32)

unfoldable pub left_bits : ℕ → ℕ
left_bits x = bit_or (x * 2 % 2 ^ 32) ((2 ^ 32 - x * 2 % 2 ^ 32) % 2 ^ 32)

unfoldable pub same_or_left_bits : ℕ → ℕ
same_or_left_bits x = bit_or x ((2 ^ 32 - x) % 2 ^ 32)

-- The portable definition, with no compiler built-in.
unfoldable pub compute_bit2idx : ℕ → ℕ
compute_bit2idx x =
    let y0 = (x + 2 ^ 32 - 1) % 2 ^ 32 in
    let k0 = bit_and (y0 / 2 ^ 12) 16 in
    let y1 = y0 / 2 ^ k0 in
    let k1 = bit_and (y1 / 2 ^ 5) 8 in
    let y2 = y1 / 2 ^ k1 in
    let k2 = bit_and (y2 / 2 ^ 2) 4 in
    let y3 = y2 / 2 ^ k2 in
    let k3 = bit_and (y3 / 2 ^ 1) 2 in
    let y4 = y3 / 2 ^ k3 in
    let k4 = bit_and y4 1 in let y5 = y4 / 2 ^ k4 in (k0 + k1 + k2 + k3 + k4 + y5) % 2 ^ 32
