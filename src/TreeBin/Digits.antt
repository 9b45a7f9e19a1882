-- ===== src/TreeBin/Digits.antt =====
-- The digits of a size that lead down a tree: the range of sizes of a bin, the bits that the bin
-- leaves undecided, and one step down.
use native.Mathlib.Nat.{
  mul_comm, mul_assoc, mul_right_comm, zero-mul, mul-add, add-mul, mul-lt-mul_of_pos_right,
  one-le-pow,
}
use dlmalloc_rs.Prelude.{
  ℕ, zero, suc, ◌+◌, ◌-◌, ◌*◌, ◌/◌, ◌%◌, ◌^◌, ◌≤◌, ◌<◌, ◌≡◌, ◌∙◌, ◌⊎◌, refl, ap, sym, subst, Bool,
  true, arith, ltb, ◌==◌, ◌&&◌, ◌||◌, Bool-cases, inl, inr, passes_up_to, passes_up_to_lem,
}
use dlmalloc_rs.TreeIndex.{compute_tree_index, minsize_for_tree_index, leftshift_for_tree_index}
use dlmalloc_rs.TreeIndex.Bounds.{compute_tree_index_range, compute_tree_index_last}
use dlmalloc_rs.TreeBin.Trie.{span}
use dlmalloc_rs.TreeBin.Bins.{undecided, base}

-- The bits of the size `nb` that a trie has not decided, at the top of a word.
abbrev pub Bits : (w lo nb bits : ℕ) → Type 0
Bits w lo nb bits = (m : ℕ) × (m * span w ≡ 2 ^ 64) × (bits ≡ (nb - lo) * m)

pos_of_mul : (m n : ℕ) → 0 < m * n → 0 < m
pos_of_mul zero n h = absurd (omega (arith, zero-mul n))
pos_of_mul (suc m) n h = omega arith

half_word : (m S : ℕ) → m * (S + S) ≡ 2 ^ 64 → (m * S ≡ 2 ^ 63) × (0 < m) × (m * 2 * S ≡ 2 ^ 64)
half_word m S top =
    let half : m * S ≡ 2 ^ 63 = omega (arith, top, mul-add m S S) in
    (half, pos_of_mul m S (omega (arith, half)), omega (arith, half, mul_right_comm m 2 S))

pub low-Bits :
    (w lo nb bits : ℕ)
    → Bits (suc w) lo nb bits
    → lo ≤ nb
    → nb < lo + span w
    → (bits / 2 ^ 63 % 2 ≡ 0) × Bits w lo nb (bits * 2 % 2 ^ 64)
low-Bits w lo nb bits (m, top, e) from to =
    let half = half_word m (span w) top in
    let below : (nb - lo) * m < span w * m =
      mul-lt-mul_of_pos_right (omega (arith, from, to)) half.1 in
    let small : bits < 2 ^ 63 = omega (arith, below, half.0, mul_comm (span w) m, e) in
    (omega (arith, small), (m * 2, half.2, omega (arith, small, e, mul_assoc (nb - lo) m 2)))

pub high-Bits :
    (w lo nb bits : ℕ)
    → Bits (suc w) lo nb bits
    → lo + span w ≤ nb
    → nb < lo + span (suc w)
    → (bits / 2 ^ 63 % 2 ≡ 1) × Bits w (lo + span w) nb (bits * 2 % 2 ^ 64)
high-Bits w lo nb bits (m, top, e) from to =
    let half = half_word m (span w) top in
    let d = nb - (lo + span w) in
    let parts : bits ≡ d * m + span w * m =
      e ∙ ap (λ (x : ℕ). x * m) (omega (arith, from)) ∙ add-mul d (span w) m in
    let below : d * m < span w * m = mul-lt-mul_of_pos_right (omega (arith, from, to)) half.1 in
    let small : d * m < 2 ^ 63 = omega (arith, below, half.0, mul_comm (span w) m) in
    let whole : span w * m ≡ 2 ^ 63 = omega (arith, half.0, mul_comm (span w) m) in
    (
      omega (arith, parts, small, whole),
      (m * 2, half.2, omega (arith, parts, small, whole, mul_assoc d m 2)),
    )

abbrev root_row : ℕ → Bool
root_row i =
    2 ^ leftshift_for_tree_index i * span (undecided i) == 2 ^ 64
    && base i * 2 ^ leftshift_for_tree_index i % 2 ^ 64 == 0
    && (i == 31
        || (base i == minsize_for_tree_index i
            && base i + span (undecided i) == minsize_for_tree_index (i + 1)))

root_table : passes_up_to root_row 32 ≡ true
unfolding passes_up_to base leftshift_for_tree_index minsize_for_tree_index
root_table = refl

root_facts :
    (i : ℕ)
    → i < 32
    → (2 ^ leftshift_for_tree_index i * span (undecided i) ≡ 2 ^ 64)
      × (base i * 2 ^ leftshift_for_tree_index i % 2 ^ 64 ≡ 0)
      × ((i ≡ 31)
          ⊎ ((base i ≡ minsize_for_tree_index i)
              × (base i + span (undecided i) ≡ minsize_for_tree_index (i + 1))))
root_facts i h =
    let row = passes_up_to_lem root_row 32 i h root_table in
    elim (Bool-cases (i == 31)) [
      | inl last ↦ (ground (arith, row), ground (arith, row), inl (ground (arith, last)))
      | inr other ↦ (
        ground (arith, row),
        ground (arith, row),
        inr (ground (arith, row, other), ground (arith, row, other)),
      )
    ]

base_table : passes_up_to (λ i. base i % 16 == 0) 32 ≡ true
unfolding passes_up_to base minsize_for_tree_index
base_table = refl

pub base_aligned : (i : ℕ) → i < 32 → base i % 16 ≡ 0
base_aligned i h = ground (arith, passes_up_to_lem _ 32 i h base_table)

pub undecided_lt : (i : ℕ) → i < 32 → undecided i < 64
undecided_lt i h = ground arith

pub index_lt : (nb : ℕ) → 256 ≤ nb → compute_tree_index nb < 32
index_lt nb large = elim (Bool-cases (ltb nb (2 ^ 24))) [
  | inl below ↦ (compute_tree_index_range nb large (ground arith)).0
  | inr huge ↦ omega (arith, compute_tree_index_last nb (ground arith))
]

last_bin : (base 31 ≡ 0) × (span (undecided 31) ≡ 2 ^ 64)
unfolding base
last_bin = (refl, refl)

range_last : (nb i : ℕ) → nb < 2 ^ 64 → i ≡ 31 → (base i ≤ nb) × (nb < base i + span (undecided i))
range_last nb i word last =
    subst (λ k. (base k ≤ nb) × (nb < base k + span (undecided k))) (sym last)
      (omega (arith, last_bin), omega (arith, last_bin, word))

pub root_range :
    (nb i : ℕ)
    → 256 ≤ nb
    → nb < 2 ^ 64
    → compute_tree_index nb ≡ i
    → (base i ≤ nb) × (nb < base i + span (undecided i))
root_range nb i large word e =
    let lt = subst (λ k. k < 32) e (index_lt nb large) in
    elim ((root_facts i lt).2) [
      | inl last ↦ range_last nb i word last
      | inr (low, top) ↦ elim (Bool-cases (ltb nb (2 ^ 24))) [
        | inl below ↦
            let range =
              subst (λ k. (minsize_for_tree_index k ≤ nb) × (nb < minsize_for_tree_index (k + 1))) e
                (
                  (compute_tree_index_range nb large (ground arith)).1,
                  (compute_tree_index_range nb large (ground arith)).2,
                ) in
            (omega (arith, low, range), omega (arith, top, range))
        | inr huge ↦ range_last nb i word (sym e ∙ compute_tree_index_last nb (ground arith))
      ]
    ]

pub root-Bits :
    (nb i : ℕ)
    → 256 ≤ nb
    → nb < 2 ^ 64
    → compute_tree_index nb ≡ i
    → Bits (undecided i) (base i) nb (nb * 2 ^ leftshift_for_tree_index i % 2 ^ 64)
root-Bits nb i large word e =
    let lt = subst (λ k. k < 32) e (index_lt nb large) in
    let facts = root_facts i lt in
    let range = root_range nb i large word e in
    let m = 2 ^ leftshift_for_tree_index i in
    let d = nb - base i in
    let whole : nb ≡ base i + d = omega (arith, range) in
    let parts : nb * m ≡ base i * m + d * m = ap (λ (x : ℕ). x * m) whole ∙ add-mul (base i) d m in
    let pos : 0 < m = one-le-pow (leftshift_for_tree_index i) 2 (omega arith) in
    let below : d * m < span (undecided i) * m =
      mul-lt-mul_of_pos_right (omega (arith, range)) pos in
    (m, facts.0, omega (arith, parts, below, facts.0, facts.1, mul_comm (span (undecided i)) m))
