-- ===== src/Prelude/Tables.antt =====
-- Tests over a range, by evaluation.
use Prim.Native.Nat.{ℕ, zero, suc, ◌<◌}
use mathlib.Core.Path.{◌≡◌, ap}
use mathlib.Core.Logic.{inl, inr}
use mathlib.Core.Bool.{Bool, true, ◌&&◌}
use native.Mathlib.Omega.{arith}
use dlmalloc_rs.Prelude.Tests.{◌==◌, ==_iff, Bool-cases}

-- A test that holds of 0, ..., n - 1, found by evaluation.
unfoldable pub passes_up_to : (test : ℕ → Bool) → ℕ → Bool
passes_up_to test zero = true
passes_up_to test (suc n) = passes_up_to test n && test n

pub passes_up_to_lem :
    (test : ℕ → Bool) (n i : ℕ) → i < n → passes_up_to test n ≡ true → test i ≡ true
unfolding passes_up_to
passes_up_to_lem test zero i below h = absurd (omega arith)
passes_up_to_lem test (suc n) i below h = elim (Bool-cases (i == n)) [
  | inl last ↦ ground (arith, last, ap test ((==_iff i n).0 last))
  | inr earlier ↦ ground (arith, earlier, passes_up_to_lem test n i)
]
