-- ===== src/BinMap/First.antt =====
-- The searches in a bin map: the least set bit, and the set bits to the left of an index.
use Prim.Native.Nat.{bit_and}
use native.Mathlib.Nat.{pow-suc}
use dlmalloc_rs.Prelude.{
  passes_up_to, passes_up_to_lem, ℕ, zero, suc, ◌+◌, ◌-◌, ◌/◌, ◌%◌, ◌^◌, ◌<◌, ◌≡◌, refl, ap, ◌∙◌,
  inl, inr, true, arith, Bool-cases, ltb, ◌==◌, ==_iff, if◌then◌else◌,
}
use dlmalloc_rs.Word.{bit_and_step, bit_at, bit_at-le, bit_at-bit_and, bit_at-left}
use dlmalloc_rs.BinMap.{idx2bit, least_bit, left_bits, compute_bit2idx}

-- The least set bit within `w` bits, as a plain recursion.
unfoldable pub lowest : ℕ → ℕ → ℕ
lowest zero m = 0
lowest (suc w) m = if m % 2 == 1 then 0 else suc (lowest w (m / 2))

-- A number and its complement have no bit in common.
bit_and-not : (w a : ℕ) → a < 2 ^ w → bit_and a (2 ^ w - 1 - a) ≡ 0
bit_and-not zero a h = let e : a ≡ 0 = omega arith in rw e refl
bit_and-not (suc w) a h =
    let half : bit_and (a / 2) ((2 ^ suc w - 1 - a) / 2) ≡ 0 =
      ap (λ n. bit_and (a / 2) n) (omega (arith, pow-suc 2 w))
      ∙ bit_and-not w (a / 2) (omega (arith, pow-suc 2 w)) in
    omega (arith, bit_and_step a (2 ^ suc w - 1 - a), pow-suc 2 w, half)

-- `x & -x` in `w` bits.
bit_and-neg : (w x : ℕ) → 0 < x → x < 2 ^ w → bit_and x (2 ^ w - x) ≡ 2 ^ lowest w x
unfolding lowest
bit_and-neg zero x pos h = absurd (omega arith)
bit_and-neg (suc w) x pos h = elim (Bool-cases (x % 2 == 1)) [
  | inl odd ↦ rw odd (
      let rest : bit_and (x / 2) ((2 ^ suc w - x) / 2) ≡ 0 =
        ap (λ n. bit_and (x / 2) n) (ground (arith, pow-suc 2 w))
        ∙ bit_and-not w (x / 2) (omega (arith, pow-suc 2 w)) in
      ground (arith, bit_and_step x (2 ^ suc w - x), pow-suc 2 w, rest))
  | inr even ↦ rw even (
      let rest : bit_and (x / 2) ((2 ^ suc w - x) / 2) ≡ 2 ^ lowest w (x / 2) =
        ap (λ n. bit_and (x / 2) n) (ground (arith, pow-suc 2 w))
        ∙ bit_and-neg w (x / 2) (ground arith) (omega (arith, pow-suc 2 w)) in
      ground
        (arith, bit_and_step x (2 ^ suc w - x), pow-suc 2 w, rest, pow-suc 2 (lowest w (x / 2))))
]

lowest_bit : (w x : ℕ) → 0 < x → x < 2 ^ w → (lowest w x < w) × (bit_at x (lowest w x) ≡ 1)
unfolding lowest bit_at
lowest_bit zero x pos h = absurd (omega arith)
lowest_bit (suc w) x pos h = elim (Bool-cases (x % 2 == 1)) [
  | inl odd ↦ rw odd (omega arith, ground arith)
  | inr even ↦
      let rest = lowest_bit w (x / 2) (ground arith) (omega (arith, pow-suc 2 w)) in
      rw even (omega (arith, rest), rest.1)
]

lowest_below : (w x j : ℕ) → j < lowest w x → bit_at x j ≡ 0
unfolding lowest bit_at
lowest_below zero x j h = absurd (omega arith)
lowest_below (suc w) x zero h = ground arith
lowest_below (suc w) x (suc j) h = ground (arith, lowest_below w (x / 2) j)

idx_table : passes_up_to (λ i. compute_bit2idx (2 ^ i) == i) 32 ≡ true
unfolding passes_up_to compute_bit2idx
idx_table = refl

left_table : passes_up_to (λ i. left_bits (idx2bit i) == 2 ^ 32 - 2 ^ (i + 1)) 32 ≡ true
unfolding passes_up_to left_bits idx2bit
left_table = refl

-- `compute_bit2idx` is the logarithm of each single bit.
pub compute_bit2idx-pow : (i : ℕ) → i < 32 → compute_bit2idx (2 ^ i) ≡ i
compute_bit2idx-pow i h = (==_iff _ i).0 (passes_up_to_lem _ 32 i h idx_table)

pub left_bits-idx2bit : (i : ℕ) → i < 32 → left_bits (idx2bit i) ≡ 2 ^ 32 - 2 ^ suc i
left_bits-idx2bit i h =
    (==_iff _ _).0 (passes_up_to_lem _ 32 i h left_table) ∙ ap (λ n. 2 ^ 32 - 2 ^ n) (omega arith)

-- The index that `compute_bit2idx(least_bit(x))` yields for a nonzero 32-bit map is that of its
-- least set bit: the bit is set and every bit below is clear.
pub least_bit_index :
    (x : ℕ)
    → 0 < x
    → x < 2 ^ 32
    → (compute_bit2idx (least_bit x) < 32)
      × (bit_at x (compute_bit2idx (least_bit x)) ≡ 1)
      × ((j : ℕ) → j < compute_bit2idx (least_bit x) → bit_at x j ≡ 0)
unfolding least_bit
least_bit_index x pos h =
    let isolated : bit_and x ((2 ^ 32 - x) % 2 ^ 32) ≡ 2 ^ lowest 32 x =
      ap (λ n. bit_and x n) (omega arith) ∙ bit_and-neg 32 x pos h in
    let found = lowest_bit 32 x pos h in
    let index : compute_bit2idx (bit_and x ((2 ^ 32 - x) % 2 ^ 32)) ≡ lowest 32 x =
      ap compute_bit2idx isolated ∙ compute_bit2idx-pow (lowest 32 x) found.0 in
    rw index (found.0, found.1, lowest_below 32 x)

-- For `i` and `j` below 32, bit `j` of `left_bits(idx2bit(i)) & map` is bit `j` of the map if
-- `i < j`, and 0 otherwise.
pub bit_at-left_bits :
    (map i j : ℕ)
    → i < 32
    → j < 32
    → bit_at (bit_and (left_bits (idx2bit i)) map) j ≡ (if ltb i j then bit_at map j else 0)
bit_at-left_bits map i j h k = ground (
  arith,
  left_bits-idx2bit i h,
  bit_at-bit_and (2 ^ 32 - 2 ^ suc i) map j,
  bit_at-left 32 (suc i) j k h,
  bit_at-le map j,
)
