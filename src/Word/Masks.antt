-- ===== src/Word/Masks.antt =====
-- `&` and `|` with the masks that the code uses, as arithmetic.
use Prim.Native.Nat.{bit_and, bit_or}
use native.Mathlib.Nat.{
  pow-suc, one-le-pow, div-add-mod, add-mul-mod_self_left, mod-eq_of_lt, mod-lt,
}
use dlmalloc_rs.Prelude.{
  ℕ, zero, suc, ◌+◌, ◌-◌, ◌*◌, ◌/◌, ◌%◌, ◌^◌, ◌≤◌, ◌<◌, ◌≡◌, refl, ap, ◌∙◌, arith,
}
use dlmalloc_rs.Word.Step.{bit_or_step, bit_and_step}

-- Induction by halves: each number comes down to 0.
by_halves : (P : ℕ → Type 0) → P 0 → ((a : ℕ) → P (a / 2) → P a) → (bound a : ℕ) → a ≤ bound → P a
by_halves P base step bound zero h = base
by_halves P base step zero (suc a) h = absurd (omega arith)
by_halves P base step (suc bound) (suc a) h =
    step (suc a) (by_halves P base step bound (suc a / 2) (omega arith))

pub bit_or-zero : (a : ℕ) → bit_or a 0 ≡ a
bit_or-zero a =
    by_halves (λ x. bit_or x 0 ≡ x) refl (λ x half. omega (arith, bit_or_step x 0, half)) a a
      (omega arith)

pub bit_and-zero : (a : ℕ) → bit_and a 0 ≡ 0
bit_and-zero a =
    by_halves (λ x. bit_and x 0 ≡ 0) refl (λ x half. omega (arith, bit_and_step x 0, half)) a a
      (omega arith)

-- The remainder by `2 ^ (k + 1)`, by its lowest digit.
mod-two-pow-suc : (k a : ℕ) → a % 2 ^ suc k ≡ a / 2 % 2 ^ k * 2 + a % 2
mod-two-pow-suc k a =
    let q = a / 2 / 2 ^ k in
    let r = a / 2 % 2 ^ k in
    let bound : r < 2 ^ k = mod-lt (a / 2) (omega (arith, one-le-pow k 2)) in
    let split : a ≡ r * 2 + a % 2 + 2 ^ suc k * q =
      omega (arith, div-add-mod (a / 2) (2 ^ k), ap (λ (t : ℕ). t * q) (pow-suc 2 k)) in
    ap (λ n. n % 2 ^ suc k) split
    ∙ add-mul-mod_self_left (r * 2 + a % 2) (2 ^ suc k) q
    ∙ mod-eq_of_lt (omega (arith, pow-suc 2 k))

-- A mask of `k` ones is the remainder by `2 ^ k`.
pub bit_and_ones : (k a : ℕ) → bit_and a (2 ^ k - 1) ≡ a % 2 ^ k
bit_and_ones zero a = omega (arith, bit_and-zero a)
bit_and_ones (suc k) a = ground (
  arith,
  bit_and_step a (2 ^ suc k - 1),
  pow-suc 2 k,
  one-le-pow k 2,
  mod-two-pow-suc k a,
  bit_and_ones k (a / 2),
)

-- The flag bits of a `head` word: `& 1`, `& 2`, `& 3`, `& 7`, and `& ~7`, `| 1`.
pub bit_and_flags :
    (x : ℕ)
    → (bit_and x 1 ≡ x % 2)
      × (bit_and x 3 ≡ x % 4)
      × (bit_and x 7 ≡ x % 8)
      × (bit_and x 2 ≡ x / 2 % 2 * 2)
bit_and_flags x = (
  bit_and_ones 1 x,
  bit_and_ones 2 x,
  bit_and_ones 3 x,
  omega (arith, bit_and_step x 2, bit_and_ones 1 (x / 2)),
)

pub bit_and_not_flags : (x : ℕ) → x < 2 ^ 64 → bit_and x (2 ^ 64 - 1 - 7) ≡ x / 8 * 8
bit_and_not_flags x h = omega (
  arith,
  bit_and_step x (2 ^ 64 - 8),
  bit_and_step (x / 2) (2 ^ 63 - 4),
  bit_and_step (x / 2 / 2) (2 ^ 62 - 2),
  bit_and_ones 61 (x / 2 / 2 / 2),
)

pub bit_or_flag : (x : ℕ) → bit_or x 1 ≡ x / 2 * 2 + 1
bit_or_flag x = omega (arith, bit_or_step x 1, bit_or-zero (x / 2))
