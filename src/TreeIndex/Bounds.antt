-- ===== src/TreeIndex/Bounds.antt =====
-- The sizes of one tree bin are those from its `minsize_for_tree_index` up to the next bin's.
use native.Mathlib.Nat.{pow-suc, one-le-pow, le-div_iff_mul-le, div-lt_iff_lt-mul}
use native.Mathlib.Numerals.{towards_suc}
use dlmalloc_rs.Prelude.{
  passes_up_to, passes_up_to_lem, ℕ, ◌+◌, ◌*◌, ◌/◌, ◌%◌, ◌^◌, ◌≤◌, ◌<◌, ◌≡◌, true, false, ◌&&◌, ◌⊎◌,
  inl, inr, refl, arith, Bool-cases, ltb, ◌==◌,
}
use dlmalloc_rs.TreeIndex.{compute_tree_index, tree_shift, minsize_for_tree_index}
use dlmalloc_rs.TreeIndex.Range.{tree_shift_log}

-- The bit below the leading one says in which half of its power of two a size lies.
size_half :
    (m s : ℕ)
    → 0 < m
    → m * 2 ≤ s
    → s < m * 4
    → ((s / m % 2 ≡ 0) × (s < m * 3)) ⊎ ((s / m % 2 ≡ 1) × (m * 3 ≤ s))
size_half m s pos lo hi =
    let at_least : 2 ≤ s / m = (le-div_iff_mul-le pos).1 (omega arith) in
    let below : s / m < 4 = (div-lt_iff_lt-mul pos).1 (omega arith) in
    elim (Bool-cases (ltb s (m * 3))) [
      | inl low ↦
          let q : s / m < 3 = (div-lt_iff_lt-mul pos).1 (ground arith) in
          inl (omega arith, ground arith)
      | inr high ↦
          let q : 3 ≤ s / m = (le-div_iff_mul-le pos).1 (ground arith) in
          inr (omega arith, ground arith)
    ]

minsize_table :
    passes_up_to
      (λ k.
        minsize_for_tree_index (k * 2) == 2 ^ (k + 7) * 2
        && minsize_for_tree_index (k * 2 + 1) == 2 ^ (k + 7) * 3
        && (minsize_for_tree_index (k * 2 + 2) == 2 ^ (k + 7) * 4))
      16
    ≡ true
unfolding passes_up_to minsize_for_tree_index
minsize_table = refl

minsize_halves :
    (k : ℕ)
    → k < 16
    → (minsize_for_tree_index (k * 2) ≡ 2 ^ (k + 7) * 2)
      × (minsize_for_tree_index (k * 2 + 1) ≡ 2 ^ (k + 7) * 3)
      × (minsize_for_tree_index (k * 2 + 2) ≡ 2 ^ (k + 7) * 4)
minsize_halves k h = ground (arith, passes_up_to_lem _ 16 k h minsize_table)

shift_pow : (k : ℕ) → 2 ^ (k + 7) ≡ 2 ^ k * 128
shift_pow k = simp towards_suc (omega arith)

mid_index :
    (s : ℕ)
    → 256 ≤ s
    → s < 2 ^ 24
    → let k = tree_shift (s / 256) in compute_tree_index s ≡ k * 2 + s / 2 ^ (k + 7) % 2
unfolding compute_tree_index
mid_index s lo hi =
    let first : (s / 256 == 0) ≡ false = ground arith in
    let second : ltb 0xFFFF (s / 256) ≡ false = ground arith in rw (first, second)

-- Both halves of the range of a power of two.
half_index :
    (k b s : ℕ)
    → k < 16
    → ((b ≡ 0) × (2 ^ (k + 7) * 2 ≤ s) × (s < 2 ^ (k + 7) * 3))
      ⊎ ((b ≡ 1) × (2 ^ (k + 7) * 3 ≤ s) × (s < 2 ^ (k + 7) * 4))
    → (k * 2 + b < 32)
      × (minsize_for_tree_index (k * 2 + b) ≤ s)
      × (s < minsize_for_tree_index (k * 2 + b + 1))
half_index k b s h (inl (zero_b, lo, hi)) =
    let table = minsize_halves k h in
    let e : k * 2 + b ≡ k * 2 = omega arith in rw e (omega arith, rw (table.0) lo, rw (table.1) hi)
half_index k b s h (inr (one_b, lo, hi)) =
    let table = minsize_halves k h in
    let e : k * 2 + b ≡ k * 2 + 1 = omega arith in
    let f : k * 2 + 1 + 1 ≡ k * 2 + 2 = omega arith in
    rw e (omega arith, rw (table.1) lo, rw (f, table.2) hi)

-- A size from 256 on, and below 2 ^ 24, goes to one of the 32 bins; it is at least that bin's
-- minimum size and below the next bin's.
pub compute_tree_index_range :
    (s : ℕ)
    → 256 ≤ s
    → s < 2 ^ 24
    → (compute_tree_index s < 32)
      × (minsize_for_tree_index (compute_tree_index s) ≤ s)
      × (s < minsize_for_tree_index (compute_tree_index s + 1))
compute_tree_index_range s lo hi =
    let k = tree_shift (s / 256) in
    let log = tree_shift_log (s / 256) (omega arith) (omega arith) in
    let pos : 0 < 2 ^ k = one-le-pow k 2 (omega arith) in
    let least : 2 ^ (k + 7) * 2 ≤ s = omega (arith, shift_pow k, log) in
    let most : s < 2 ^ (k + 7) * 4 = omega (arith, shift_pow k, log, pow-suc 2 k) in
    let halves = size_half (2 ^ (k + 7)) s (omega (arith, shift_pow k)) least most in
    rw (mid_index s lo hi) (
      half_index k (s / 2 ^ (k + 7) % 2) s log.0
        (elim halves [ inl h ↦ inl (h.0, least, h.1) | inr h ↦ inr (h.0, h.1, most) ]))

-- Sizes of 2 ^ 24 and more all go to the last bin.
pub compute_tree_index_last : (s : ℕ) → 2 ^ 24 ≤ s → compute_tree_index s ≡ 31
unfolding compute_tree_index
compute_tree_index_last s h = ground arith
