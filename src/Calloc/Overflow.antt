-- ===== src/Calloc/Overflow.antt =====
-- `dlcalloc` asks for the exact product, or for more than can be allocated if it overflows.
use Prim.Native.Nat.{bit_and, bit_or}
use native.Mathlib.Nat.{div-mul-le_self, mul-div_cancel_left, mul-le-mul_right}
use dlmalloc_rs.Prelude.{
  ℕ, zero, suc, ap, ltb→lt, ◌-◌, ◌*◌, ◌/◌, ◌%◌, ◌^◌, ◌≤◌, ◌<◌, ◌≡◌, true, false, arith, Bool-cases,
  inl, inr, ◌==◌, ltb, if◌then◌else◌,
}
use dlmalloc_rs.Word.{
  bit_at, bit_at-le, bit_at-zero, bit_at-above, bit_at-bit_and, bit_at-bit_or, bit_at-left,
  lt_of_bit_at,
}
use dlmalloc_rs.Size.{max_size_t}
use dlmalloc_rs.Calloc.{calloc_request}

-- The division test alone finds every overflow.
division_test : (n e : ℕ) → 0 < n → e < 2 ^ 64 → (n * e % 2 ^ 64 / n ≡ e) → n * e < 2 ^ 64
division_test n e pos h eq =
    omega (arith, div-mul-le_self (n * e % 2 ^ 64) n, ap (λ (t : ℕ). t * n) eq)

high-Bits : (x j : ℕ) → 16 ≤ j → j < 64 → bit_at (bit_and x (2 ^ 64 - 1 - 0xffff)) j ≡ bit_at x j
high-Bits x j h k = ground (
  arith,
  bit_at-bit_and x (2 ^ 64 - 2 ^ 16) j,
  bit_at-left 64 16 j k (omega arith),
  bit_at-le x j,
)

-- The shortcut, which skips the division, is taken only for factors below 2 ^ 16.
shortcut :
    (n e : ℕ)
    → n < 2 ^ 64
    → e < 2 ^ 64
    → bit_and (bit_or n e) (2 ^ 64 - 1 - 0xffff) ≡ 0
    → (n < 2 ^ 16) × (e < 2 ^ 16)
shortcut n e hn he z =
    let clear : (j : ℕ) → 16 ≤ j → (bit_at n j ≡ 0) × (bit_at e j ≡ 0) = λ j h.
      elim (Bool-cases (ltb j 64)) [
        | inl low ↦ ground (
          arith,
          high-Bits (bit_or n e) j h (ltb→lt j 64 low),
          ap (λ m. bit_at m j) z,
          bit_at-zero j,
          bit_at-bit_or n e j,
        )
        | inr high ↦ (bit_at-above 64 n j hn (ground arith), bit_at-above 64 e j he (ground arith))
      ] in
    (lt_of_bit_at 64 16 n hn (λ j h. (clear j h).0), lt_of_bit_at 64 16 e he (λ j h. (clear j h).1))

too_small : (n e : ℕ) → (n < 2 ^ 16) × (e < 2 ^ 16) → 2 ^ 64 ≤ n * e → ⊥
too_small n e small large =
    let rows : n * e ≤ 2 ^ 16 * e = mul-le-mul_right e (omega arith) in omega arith

no_fit : (q : ℕ) → q < 2 ^ 64 → 2 ^ 64 ≤ q → ⊥
no_fit q h k = omega arith

-- For every two 64-bit arguments the request is the true product if that fits 64 bits, and the
-- largest word otherwise.
pub calloc_request_exact :
    (n e : ℕ)
    → n < 2 ^ 64
    → e < 2 ^ 64
    → calloc_request n e ≡ (if ltb (n * e) (2 ^ 64) then n * e else max_size_t)
unfolding calloc_request
calloc_request_exact zero e hn he = let none : 0 * e ≡ 0 = omega arith in rw none
calloc_request_exact (suc n) e hn he =
    let q = suc n * e in
    let mask = bit_and (bit_or (suc n) e) (2 ^ 64 - 1 - 0xffff) in
    let some_elements : (suc n == 0) ≡ false = ground arith in
    elim (Bool-cases (ltb q (2 ^ 64))) [
      | inl fits ↦
          let small : q % 2 ^ 64 ≡ q = ground arith in
          let divides : (q / suc n == e) ≡ true =
            ground (arith, mul-div_cancel_left e {n = suc n} (omega arith)) in
          rw (some_elements, fits, small, divides) (ground arith)
      | inr wraps ↦
          let flagged : (mask == 0) ≡ false = elim (Bool-cases (mask == 0)) [
            | inl z ↦
                absurd
                  (too_small (suc n) e (shortcut (suc n) e hn he (ground arith)) (ground arith))
            | inr nz ↦ nz
          ] in
          let differs : (q % 2 ^ 64 / suc n == e) ≡ false =
            elim (Bool-cases (q % 2 ^ 64 / suc n == e)) [
              | inl eq ↦ absurd (
                  no_fit q (division_test (suc n) e (omega arith) he (ground arith)) (ground arith))
              | inr ne ↦ ne
            ] in
          rw (some_elements, wraps, flagged, differs)
    ]
