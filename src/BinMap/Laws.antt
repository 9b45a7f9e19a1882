-- ===== src/BinMap/Laws.antt =====
-- What the bin map operations do, bit by bit.
use Prim.Native.Nat.{bit_and}
use native.Mathlib.Nat.{pow-suc, one-le-pow}
use dlmalloc_rs.Prelude.{
  ℕ, zero, suc, ◌-◌, ◌*◌, ◌/◌, ◌^◌, ◌<◌, ◌≡◌, ap, not, ◌&&◌, ◌||◌, arith, ◌==◌, if◌then◌else◌,
}
use dlmalloc_rs.Word.{
  bit_and_step, bit_and-zero, bit_at, bit_at-le, bit_at-bit_and, bit_at-bit_or, bit_at-pow,
  bit_at-not, bit_and-le, bit_or-lt,
}
use dlmalloc_rs.BinMap.{idx2bit, mark_bit, clear_bit, bit_is_marked}

pow_lt-two_pow : (w i : ℕ) → i < w → 2 ^ i < 2 ^ w
pow_lt-two_pow zero i h = absurd (omega arith)
pow_lt-two_pow (suc w) zero h = omega (arith, pow-suc 2 w, one-le-pow w 2)
pow_lt-two_pow (suc w) (suc i) h =
    omega (arith, pow-suc 2 w, pow-suc 2 i, pow_lt-two_pow w i (omega arith))

pub idx2bit-pow : (i : ℕ) → i < 32 → idx2bit i ≡ 2 ^ i
unfolding idx2bit
idx2bit-pow i h = grind (arith, pow_lt-two_pow 32 i h)

bit_and-pow : (m i : ℕ) → bit_and m (2 ^ i) ≡ bit_at m i * 2 ^ i
unfolding bit_at
bit_and-pow m zero = omega (arith, bit_and_step m 1, bit_and-zero (m / 2))
bit_and-pow m (suc i) = ground (
  arith,
  bit_and_step m (2 ^ suc i),
  pow-suc 2 i,
  bit_and-pow (m / 2) i,
  ap (λ (t : ℕ). bit_at (m / 2) i * t) (pow-suc 2 i),
)

-- The test of a map's bit, by the binary digit.
pub bit_is_marked-bit_at : (m i : ℕ) → i < 32 → bit_is_marked m i ≡ (bit_at m i == 1)
unfolding bit_is_marked
bit_is_marked-bit_at m i h =
    ground (arith, idx2bit-pow i h, bit_and-pow m i, bit_at-le m i, one-le-pow i 2)

pub bit_at-mark_bit :
    (m i j : ℕ) → i < 32 → bit_at (mark_bit m i) j ≡ (if i == j then 1 else bit_at m j)
unfolding mark_bit
bit_at-mark_bit m i j h =
    ground (arith, idx2bit-pow i h, bit_at-bit_or m (2 ^ i) j, bit_at-pow i j, bit_at-le m j)

pub bit_at-clear_bit :
    (m i j : ℕ) → i < 32 → j < 32 → bit_at (clear_bit m i) j ≡ (if i == j then 0 else bit_at m j)
unfolding clear_bit
bit_at-clear_bit m i j h k = ground (
  arith,
  idx2bit-pow i h,
  bit_at-bit_and m (2 ^ 32 - 1 - 2 ^ i) j,
  bit_at-not 32 (2 ^ i) j (pow_lt-two_pow 32 i h) k,
  bit_at-pow i j,
  bit_at-le m j,
)

-- For `i` and `j` below 32, bit `j` is marked after bit `i` was marked exactly if `j` is `i` or was
-- marked before.
pub bit_is_marked-mark_bit :
    (m i j : ℕ) → i < 32 → j < 32 → bit_is_marked (mark_bit m i) j ≡ (i == j || bit_is_marked m j)
bit_is_marked-mark_bit m i j h k = ground (
  arith,
  bit_is_marked-bit_at (mark_bit m i) j k,
  bit_is_marked-bit_at m j k,
  bit_at-mark_bit m i j h,
)

-- For `i` and `j` below 32, bit `j` is marked after bit `i` was cleared exactly if `j` is not `i`
-- and was marked before.
pub bit_is_marked-clear_bit :
    (m i j : ℕ)
    → i < 32
    → j < 32
    → bit_is_marked (clear_bit m i) j ≡ (not (i == j) && bit_is_marked m j)
bit_is_marked-clear_bit m i j h k = ground (
  arith,
  bit_is_marked-bit_at (clear_bit m i) j k,
  bit_is_marked-bit_at m j k,
  bit_at-clear_bit m i j h k,
)

-- Both operations stay within 32 bits.
pub mark_bit-lt : (m i : ℕ) → m < 2 ^ 32 → i < 32 → mark_bit m i < 2 ^ 32
unfolding mark_bit
mark_bit-lt m i h k = rw (idx2bit-pow i k) (bit_or-lt 32 m (2 ^ i) h (pow_lt-two_pow 32 i k))

pub clear_bit-lt : (m i : ℕ) → m < 2 ^ 32 → clear_bit m i < 2 ^ 32
unfolding clear_bit
clear_bit-lt m i h = omega (arith, bit_and-le 32 m (2 ^ 32 - 1 - idx2bit i) h)
