-- ===== src/Memalign/Alignment.antt =====
-- The rounding of alignments, and the request of `dlpvalloc`.
use Prim.Native.Nat.{bit_and}
use native.Mathlib.Nat.{pow-suc, div-mul-le_self, lt-div-mul-add, mul-mod_left}
use dlmalloc_rs.Prelude.{
  ℕ, zero, suc, ◌+◌, ◌*◌, ◌/◌, ◌%◌, ◌^◌, ◌≤◌, ◌<◌, ◌≡◌, refl, ap, ◌∙◌, subst, true, false, arith,
  ◌⊎◌, ◌-◌, ltb→lt, Bool-cases, inl, inr, ◌==◌, ltb, if◌then◌else◌,
}
use dlmalloc_rs.Word.{bit_and_step}
use dlmalloc_rs.Size.{add64, sub64}
use dlmalloc_rs.State.{State, Run, done, out_of_fuel}
use dlmalloc_rs.Memalign.{double_until, round_alignment, pvalloc_request}

-- `r` returns, without a change of state, the least of the powers 2 ^ 5, ..., 2 ^ 63 from `a` on.
pub record RoundsTo (s : State) (a : ℕ) (r : Run ℕ) : Type 0 where
  pub exponent : ℕ
  pub returns : r ≡ done (2 ^ exponent) s
  pub at_most : exponent ≤ 63
  pub enough : a ≤ 2 ^ exponent
  pub least : (k : ℕ) → 5 ≤ k → a ≤ 2 ^ k → 2 ^ exponent ≤ 2 ^ k

-- Exponents in the order of their powers.
pow_mono : (i k : ℕ) → 2 ^ i ≤ 2 ^ (i + k)
pow_mono i zero = ap_le (omega arith)
  where
    ap_le : i ≡ i + zero → 2 ^ i ≤ 2 ^ (i + zero)
    ap_le e = subst (λ n. 2 ^ i ≤ 2 ^ n) e (omega arith)
pow_mono i (suc k) = subst (λ n. 2 ^ i ≤ 2 ^ n) (omega arith) (step (i + k) (pow_mono i k))
  where
    step : (n : ℕ) → 2 ^ i ≤ 2 ^ n → 2 ^ i ≤ 2 ^ suc n
    step n h = omega (arith, pow-suc 2 n)

pow-le : (i k : ℕ) → i ≤ k → 2 ^ i ≤ 2 ^ k
pow-le i k h = subst (λ n. 2 ^ i ≤ 2 ^ n) (omega arith) (pow_mono i (k - i))

pow-suc-le : (i k : ℕ) → 2 ^ i < 2 ^ k → 2 ^ suc i ≤ 2 ^ k
pow-suc-le i k h = elim (Bool-cases (ltb i k)) [
  | inl below ↦ pow-le (suc i) k (ltb→lt i k below)
  | inr above ↦ absurd (omega (arith, pow-le k i (ground arith)))
]

double_until-RoundsTo :
    (rounds i a : ℕ) (s : State)
    → 63 < i + rounds
    → i ≤ 63
    → a ≤ 2 ^ 63
    → ((k : ℕ) → 5 ≤ k → a ≤ 2 ^ k → 2 ^ i ≤ 2 ^ k)
    → RoundsTo s a (double_until rounds (2 ^ i) a s)
unfolding double_until
double_until-RoundsTo zero i a s fuel top fits least = absurd (omega arith)
double_until-RoundsTo (suc rounds) i a s fuel top fits least = elim (Bool-cases (ltb (2 ^ i) a)) [
  | inl below ↦
      let lt : 2 ^ i < a = ltb→lt (2 ^ i) a below in
      let room : i < 63 = elim (Bool-cases (ltb i 63)) [
        | inl l ↦ ltb→lt i 63 l
        | inr g ↦ absurd (omega (arith, pow-le 63 i (ground arith)))
      ] in
      let next : 2 ^ i * 2 % 2 ^ 64 ≡ 2 ^ suc i = omega (arith, pow-suc 2 i) in
      rw (below, next)
        (double_until-RoundsTo rounds (suc i) a s (omega arith) room fits
          (λ k h le. pow-suc-le i k (omega arith)))
  | inr done_here ↦
      rw done_here (record {
        exponent = i;
        returns = refl;
        at_most = top;
        enough = ground arith;
        least = least;
      })
]

bit_and_self : (w a : ℕ) → a < 2 ^ w → bit_and a a ≡ a
bit_and_self zero a h = let none : a ≡ 0 = omega arith in rw none
bit_and_self (suc w) a h =
    omega (arith, bit_and_step a a, bit_and_self w (a / 2) (omega (arith, pow-suc 2 w)))

-- The test for a power of two.
power_of_two :
    (w a : ℕ) → 0 < a → a < 2 ^ w → bit_and a (a - 1) ≡ 0 → (j : ℕ) × (a ≡ 2 ^ j) × (j < w)
power_of_two zero a pos h z = absurd (omega arith)
power_of_two (suc w) a pos h z = elim (Bool-cases (a % 2 == 1)) [
  | inl odd ↦
      let same : (a - 1) / 2 ≡ a / 2 = ground arith in
      let whole : bit_and (a / 2) ((a - 1) / 2) ≡ a / 2 =
        ap (bit_and (a / 2)) same ∙ bit_and_self w (a / 2) (omega (arith, pow-suc 2 w)) in
      (0, ground (arith, bit_and_step a (a - 1), whole), omega arith)
  | inr even ↦
      let same : (a - 1) / 2 ≡ a / 2 - 1 = ground arith in
      let rest : bit_and (a / 2) (a / 2 - 1) ≡ 0 =
        ground (arith, bit_and_step a (a - 1), ap (bit_and (a / 2)) same) in
      let half = power_of_two w (a / 2) (ground arith) (omega (arith, pow-suc 2 w)) rest in
      (suc half.0, ground (arith, half.1, pow-suc 2 half.0), omega (arith, half.2))
]

-- For an alignment up to 2 ^ 63 the rounding ends within 64 rounds, with the least power of two that
-- is at least the alignment and MIN_CHUNK_SIZE, and no change of the state.
pub round_alignment-RoundsTo :
    (alignment : ℕ) (s : State)
    → alignment ≤ 2 ^ 63
    → RoundsTo s (if ltb alignment 32 then 32 else alignment) (round_alignment 64 alignment s)
unfolding round_alignment
round_alignment-RoundsTo alignment s h =
    let a = if ltb alignment 32 then 32 else alignment in
    let large : 32 ≤ a = ground arith in
    let small : a ≤ 2 ^ 63 = ground arith in
    elim (Bool-cases (bit_and a (a - 1) == 0)) [
      | inl power ↦
          let j = power_of_two 64 a (omega arith) (omega arith) (ground arith) in
          rw power (record {
            exponent = j.0;
            returns = ap (λ n. done n s) j.1;
            at_most = omega (arith, j.2);
            enough = omega (arith, j.1);
            least = λ k g le. omega (arith, j.1);
          })
      | inr other ↦ rw other (
          double_until-RoundsTo 64 5 a s (omega arith) (omega arith) small (λ k g le. pow-le 5 k g))
    ]

-- A value of the loop's variable: a power of two, or 0 once it has been shifted out.
IsShifted : ℕ → Type 0
IsShifted a = (a ≡ 0) ⊎ ((i : ℕ) × (a ≡ 2 ^ i) × (i ≤ 63))

IsShifted-le : (a : ℕ) → IsShifted a → a ≤ 2 ^ 63
unfolding IsShifted
IsShifted-le a (inl z) = omega arith
IsShifted-le a (inr (i, e, h)) = omega (arith, pow-le i 63 h)

IsShifted-next : (a : ℕ) → IsShifted a → IsShifted (a * 2 % 2 ^ 64)
unfolding IsShifted
IsShifted-next a (inl z) = inl (omega arith)
IsShifted-next a (inr (i, e, h)) = elim (Bool-cases (ltb i 63)) [
  | inl below ↦
      let le = pow-le (suc i) 63 (ltb→lt i 63 below) in
      inr (suc i, omega (arith, pow-suc 2 i, le), ltb→lt i 63 below)
  | inr last ↦
      let top : i ≡ 63 = ground arith in
      let e' : a ≡ 2 ^ 63 = e ∙ ap (λ n. 2 ^ n) top in inl (omega arith)
]

double_until-loops :
    (rounds a alignment : ℕ) (s : State)
    → 2 ^ 63 < alignment
    → IsShifted a
    → double_until rounds a alignment s ≡ out_of_fuel
unfolding double_until
double_until-loops zero a alignment s h shifted = refl
double_until-loops (suc rounds) a alignment s h shifted =
    let below : ltb a alignment ≡ true = ground (arith, IsShifted-le a shifted) in
    rw below (double_until-loops rounds (a * 2 % 2 ^ 64) alignment s h (IsShifted-next a shifted))

-- For every 64-bit alignment above 2 ^ 63 the rounding never ends: no number of rounds is enough.
pub round_alignment-loops :
    (rounds alignment : ℕ) (s : State)
    → 2 ^ 63 < alignment
    → alignment < 2 ^ 64
    → round_alignment rounds alignment s ≡ out_of_fuel
unfolding round_alignment IsShifted
round_alignment-loops rounds alignment s h w =
    let large : ltb alignment 32 ≡ false = ground arith in
    let other : (bit_and alignment (alignment - 1) == 0) ≡ false =
      elim (Bool-cases (bit_and alignment (alignment - 1) == 0)) [
        | inl power ↦
            let j = power_of_two 64 alignment (omega arith) w (ground arith) in
            absurd (omega (arith, j.1, pow-le j.0 63 (omega (arith, j.2))))
        | inr ne ↦ ne
      ] in
    rw (large, other) (double_until-loops rounds 32 alignment s h (inr (5, refl, omega arith)))

-- For a positive page size, `dlpvalloc` rounds a request up by less than a page, to a multiple of
-- the page size, if the request and a page together fit 64 bits.
pub pvalloc_request_rounds :
    (pagesz bytes : ℕ)
    → 0 < pagesz
    → bytes + pagesz < 2 ^ 64
    → (bytes ≤ pvalloc_request pagesz bytes)
      × (pvalloc_request pagesz bytes < bytes + pagesz)
      × (pvalloc_request pagesz bytes % pagesz ≡ 0)
unfolding pvalloc_request add64 sub64
pvalloc_request_rounds pagesz bytes pos h =
    let exact : ((bytes + pagesz) % 2 ^ 64 + 2 ^ 64 - 1) % 2 ^ 64 ≡ bytes + pagesz - 1 =
      omega arith in
    rw exact (
      omega (arith, lt-div-mul-add {a = bytes + pagesz - 1} pos),
      omega (arith, div-mul-le_self (bytes + pagesz - 1) pagesz),
      mul-mod_left ((bytes + pagesz - 1) / pagesz) pagesz,
    )

-- If the request and a positive page size add up to more than 2 ^ 64, the rounding of `dlpvalloc`
-- wraps around and it asks for 0 bytes.
pub pvalloc_request_wraps :
    (pagesz bytes : ℕ)
    → 0 < pagesz
    → pagesz < 2 ^ 64
    → bytes < 2 ^ 64
    → 2 ^ 64 < bytes + pagesz
    → pvalloc_request pagesz bytes ≡ 0
unfolding pvalloc_request add64 sub64
pvalloc_request_wraps pagesz bytes pos small hb h =
    let wrapped : ((bytes + pagesz) % 2 ^ 64 + 2 ^ 64 - 1) % 2 ^ 64 ≡ bytes + pagesz - 2 ^ 64 - 1 =
      omega arith in
    rw wrapped (grind arith)
