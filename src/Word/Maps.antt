-- ===== src/Word/Maps.antt =====
-- Bit maps by their binary digits: `bit_at m i` is bit `i` of `m`.
use Prim.Native.Nat.{min, max, bit_and, bit_or, bit_and-bitwise}
use native.Mathlib.Nat.{pow-suc, one-le-pow}
use dlmalloc_rs.Prelude.{
  ℕ, zero, suc, ◌-◌, ◌/◌, ◌%◌, ◌^◌, ◌≤◌, ◌<◌, ◌≡◌, refl, sym, ap, ◌∙◌, arith, ltb, ◌==◌,
  if◌then◌else◌,
}
use dlmalloc_rs.Word.Step.{bit_or_step, bit_and_step}

unfoldable pub bit_at : ℕ → ℕ → ℕ
bit_at m zero = m % 2
bit_at m (suc i) = bit_at (m / 2) i

pub bit_at-le : (m i : ℕ) → bit_at m i ≤ 1
unfolding bit_at
bit_at-le m zero = omega arith
bit_at-le m (suc i) = bit_at-le (m / 2) i

pub bit_at-zero : (i : ℕ) → bit_at 0 i ≡ 0
unfolding bit_at
bit_at-zero zero = refl
bit_at-zero (suc i) = bit_at-zero i

pub bit_at-bit_and : (a b i : ℕ) → bit_at (bit_and a b) i ≡ min (bit_at a i) (bit_at b i)
unfolding bit_at
bit_at-bit_and a b zero = omega (arith, bit_and_step a b)
bit_at-bit_and a b (suc i) =
    ap (λ n. bit_at n i) (omega (arith, bit_and_step a b)) ∙ bit_at-bit_and (a / 2) (b / 2) i

pub bit_at-bit_or : (a b i : ℕ) → bit_at (bit_or a b) i ≡ max (bit_at a i) (bit_at b i)
unfolding bit_at
bit_at-bit_or a b zero = omega (arith, bit_or_step a b)
bit_at-bit_or a b (suc i) =
    ap (λ n. bit_at n i) (omega (arith, bit_or_step a b)) ∙ bit_at-bit_or (a / 2) (b / 2) i

half-pow : (i : ℕ) → 2 ^ suc i / 2 ≡ 2 ^ i
half-pow i = omega (arith, pow-suc 2 i)

pub bit_at-pow : (i j : ℕ) → bit_at (2 ^ i) j ≡ (if i == j then 1 else 0)
unfolding bit_at
bit_at-pow zero zero = refl
bit_at-pow zero (suc j) = bit_at-zero j ∙ ground arith
bit_at-pow (suc i) zero = ground (arith, pow-suc 2 i)
bit_at-pow (suc i) (suc j) = ap (λ n. bit_at n j) (half-pow i) ∙ bit_at-pow i j ∙ ground arith

-- Digits from `w` on of a number below `2 ^ w`.
pub bit_at-above : (w m j : ℕ) → m < 2 ^ w → w ≤ j → bit_at m j ≡ 0
unfolding bit_at
bit_at-above zero m j h le = ap (λ n. bit_at n j) (omega arith) ∙ bit_at-zero j
bit_at-above (suc w) m zero h le = absurd (omega arith)
bit_at-above (suc w) m (suc j) h le =
    bit_at-above w (m / 2) j (omega (arith, pow-suc 2 w)) (omega arith)

-- The complement in `w` bits.
pub bit_at-not : (w b j : ℕ) → b < 2 ^ w → j < w → bit_at (2 ^ w - 1 - b) j ≡ 1 - bit_at b j
unfolding bit_at
bit_at-not zero b j h lt = absurd (omega arith)
bit_at-not (suc w) b zero h lt = omega (arith, pow-suc 2 w)
bit_at-not (suc w) b (suc j) h lt =
    ap (λ n. bit_at n j) (omega (arith, pow-suc 2 w))
    ∙ bit_at-not w (b / 2) j (omega (arith, pow-suc 2 w)) (omega arith)

-- The mask with the digits from `i` on.
pub bit_at-left :
    (w i j : ℕ) → j < w → i ≤ w → bit_at (2 ^ w - 2 ^ i) j ≡ (if ltb j i then 0 else 1)
unfolding bit_at
bit_at-left zero i j lt le = absurd (omega arith)
bit_at-left (suc w) zero zero lt le = ground (arith, pow-suc 2 w, one-le-pow w 2)
bit_at-left (suc w) zero (suc j) lt le =
    ap (λ n. bit_at n j) (omega (arith, pow-suc 2 w))
    ∙ bit_at-left w zero j (omega arith) (omega arith)
    ∙ ground arith
bit_at-left (suc w) (suc i) zero lt le = ground (arith, pow-suc 2 w, pow-suc 2 i)
bit_at-left (suc w) (suc i) (suc j) lt le =
    ap (λ n. bit_at n j) (omega (arith, pow-suc 2 w, pow-suc 2 i))
    ∙ bit_at-left w i j (omega arith) (omega arith)
    ∙ ground arith

-- A number below `2 ^ w` is given by its digits.
pub bit_at_ext : (w m n : ℕ) → m < 2 ^ w → n < 2 ^ w → ((j : ℕ) → bit_at m j ≡ bit_at n j) → m ≡ n
unfolding bit_at
bit_at_ext zero m n hm hn same = omega arith
bit_at_ext (suc w) m n hm hn same = omega (
  arith,
  same 0,
  bit_at_ext w (m / 2) (n / 2) (omega (arith, pow-suc 2 w)) (omega (arith, pow-suc 2 w))
      (λ j. same (suc j)),
)

pub bit_or-lt : (w a b : ℕ) → a < 2 ^ w → b < 2 ^ w → bit_or a b < 2 ^ w
bit_or-lt zero a b ha hb =
    let e : a ≡ 0 = omega arith in let f : b ≡ 0 = omega arith in rw (e, f) (omega arith)
bit_or-lt (suc w) a b ha hb = omega (
  arith,
  bit_or_step a b,
  pow-suc 2 w,
  bit_or-lt w (a / 2) (b / 2) (omega (arith, pow-suc 2 w)) (omega (arith, pow-suc 2 w)),
)

pub bit_and-le : (w a b : ℕ) → a < 2 ^ w → bit_and a b ≤ a
bit_and-le zero a b ha = let e : a ≡ 0 = omega arith in rw e (omega (arith, bit_and-bitwise 0 b))
bit_and-le (suc w) a b ha =
    omega (arith, bit_and_step a b, bit_and-le w (a / 2) (b / 2) (omega (arith, pow-suc 2 w)))

-- A number with no digits from `k` on is below `2 ^ k`.
pub lt_of_bit_at : (w k n : ℕ) → n < 2 ^ w → ((j : ℕ) → k ≤ j → bit_at n j ≡ 0) → n < 2 ^ k
unfolding bit_at
lt_of_bit_at w zero n h none = omega (
  arith,
  bit_at_ext w n 0 h (omega (arith, one-le-pow w 2))
      (λ j. none j (omega arith) ∙ sym (bit_at-zero j)),
)
lt_of_bit_at zero (suc k) n h none = omega (arith, pow-suc 2 k, one-le-pow k 2)
lt_of_bit_at (suc w) (suc k) n h none = omega (
  arith,
  pow-suc 2 k,
  lt_of_bit_at w k (n / 2) (omega (arith, pow-suc 2 w)) (λ j le. none (suc j) (omega arith)),
)
