-- ===== src/Word/Step.antt =====
-- `&` and `|` by their lowest binary digit. The native operations stand for `digits`, a
-- recursion with fuel; these equations have no fuel in them.
use Prim.Native.Nat.{min, max, digits, bit_and, bit_or, bit_and-bitwise, bit_or-bitwise}
use dlmalloc_rs.Prelude.{ℕ, zero, suc, ◌+◌, ◌*◌, ◌/◌, ◌%◌, ◌≤◌, ◌≡◌, refl, arith}

module _ (on_zero : ℕ → ℕ) (on_digit : ℕ → ℕ → ℕ) where
  abbrev run : ℕ → ℕ → ℕ → ℕ
  run fuel a b = digits on_zero on_digit fuel a b

  -- Any fuel from `a` on gives the result of fuel `a`.
  run-enough : (fuel a b : ℕ) → a ≤ fuel → (more : ℕ) → fuel ≤ more → run more a b ≡ run fuel a b
  run-enough fuel zero b enough zero h = elim fuel as (λ k. run 0 0 b ≡ run k 0 b) [
    | zero ↦ refl
    | suc k ↦ refl
  ]
  run-enough zero zero b enough (suc more) h = refl
  run-enough (suc fuel) zero b enough (suc more) h = refl
  run-enough zero (suc a) b enough more h = absurd (omega arith)
  run-enough (suc fuel) (suc a) b enough zero h = absurd (omega arith)
  run-enough (suc fuel) (suc a) b enough (suc more) h =
      omega (arith, run-enough fuel (suc a / 2) (b / 2) (omega arith) more (omega arith))

pub bit_and_step : (x y : ℕ) → bit_and x y ≡ min (x % 2) (y % 2) + 2 * bit_and (x / 2) (y / 2)
bit_and_step zero y = omega (arith, bit_and-bitwise 0 y, bit_and-bitwise 0 (y / 2))
bit_and_step (suc x) y =
    let half = suc x / 2 in
    omega (
      arith,
      bit_and-bitwise (suc x) y,
      bit_and-bitwise half (y / 2),
      run-enough (λ _. zero) min half half (y / 2) (omega arith) x (omega arith),
    )

pub bit_or_step : (x y : ℕ) → bit_or x y ≡ max (x % 2) (y % 2) + 2 * bit_or (x / 2) (y / 2)
bit_or_step zero y = omega (arith, bit_or-bitwise 0 y, bit_or-bitwise 0 (y / 2))
bit_or_step (suc x) y =
    let half = suc x / 2 in
    omega (
      arith,
      bit_or-bitwise (suc x) y,
      bit_or-bitwise half (y / 2),
      run-enough (λ z. z) max half half (y / 2) (omega arith) x (omega arith),
    )
