-- ===== src/TreeIndex/Range.antt =====
-- Each tree bin holds one range of sizes.
use Prim.Native.Nat.{bit_and}
use dlmalloc_rs.Prelude.{
  ℕ, suc, ◌+◌, ◌-◌, ◌*◌, ◌/◌, ◌%◌, ◌^◌, ◌≤◌, ◌<◌, ◌≡◌, arith, ltb, if◌then◌else◌,
}
use dlmalloc_rs.Word.{bit_and_step, bit_and_ones}
use dlmalloc_rs.TreeIndex.{tree_shift}

bit_and-8 : (x : ℕ) → bit_and x 8 ≡ x / 8 % 2 * 8
bit_and-8 x = omega (
  arith,
  bit_and_step x 8,
  bit_and_step (x / 2) 4,
  bit_and_step (x / 2 / 2) 2,
  bit_and_ones 1 (x / 2 / 2 / 2),
)

bit_and-4 : (x : ℕ) → bit_and x 4 ≡ x / 4 % 2 * 4
bit_and-4 x = omega (arith, bit_and_step x 4, bit_and_step (x / 2) 2, bit_and_ones 1 (x / 2 / 2))

bit_and-2 : (x : ℕ) → bit_and x 2 ≡ x / 2 % 2 * 2
bit_and-2 x = omega (arith, bit_and_step x 2, bit_and_ones 1 (x / 2))

-- One stage: the borrow of `y - c` shows in the bits from 16 on.
stage8 :
    (y : ℕ)
    → y < 2 ^ 16
    → bit_and ((y + 2 ^ 32 - 0x100) % 2 ^ 32 / 2 ^ 16) 8 ≡ (if ltb y 0x100 then 8 else 0)
stage8 y h = ground (arith, bit_and-8 ((y + 2 ^ 32 - 0x100) % 2 ^ 32 / 2 ^ 16))

stage4 :
    (y : ℕ)
    → y < 2 ^ 16
    → bit_and ((y + 2 ^ 32 - 0x1000) % 2 ^ 32 / 2 ^ 16) 4 ≡ (if ltb y 0x1000 then 4 else 0)
stage4 y h = ground (arith, bit_and-4 ((y + 2 ^ 32 - 0x1000) % 2 ^ 32 / 2 ^ 16))

stage2 :
    (y : ℕ)
    → y < 2 ^ 16
    → bit_and ((y + 2 ^ 32 - 0x4000) % 2 ^ 32 / 2 ^ 16) 2 ≡ (if ltb y 0x4000 then 2 else 0)
stage2 y h = ground (arith, bit_and-2 ((y + 2 ^ 32 - 0x4000) % 2 ^ 32 / 2 ^ 16))

-- The shifts by the stages' results, once each is known.
after8 : ℕ → ℕ
after8 x = if ltb x 0x100 then x * 2 ^ 8 else x

after4 : ℕ → ℕ
after4 y = if ltb y 0x1000 then y * 2 ^ 4 else y

after2 : ℕ → ℕ
after2 y = if ltb y 0x4000 then y * 2 ^ 2 else y

log_of : ℕ → ℕ
log_of x =
    14
    - ((if ltb x 0x100 then 8 else 0)
        + (if ltb (after8 x) 0x1000 then 4 else 0)
        + (if ltb (after4 (after8 x)) 0x4000 then 2 else 0))
    + after2 (after4 (after8 x)) / 2 ^ 15

after8-lt : (x : ℕ) → 0 < x → x < 2 ^ 16 → (after8 x < 2 ^ 16) × (0x100 ≤ after8 x)
unfolding after8
after8-lt x p h = ground arith

after4-lt : (y : ℕ) → 0x100 ≤ y → y < 2 ^ 16 → (after4 y < 2 ^ 16) × (0x1000 ≤ after4 y)
unfolding after4
after4-lt y p h = ground arith

after2-lt : (y : ℕ) → 0x1000 ≤ y → y < 2 ^ 16 → (after2 y < 2 ^ 16) × (0x4000 ≤ after2 y)
unfolding after2
after2-lt y p h = ground arith

-- The shifts themselves, by the stages' results.
shift8 : (x : ℕ) → x < 2 ^ 16 → x * 2 ^ (if ltb x 0x100 then 8 else 0) % 2 ^ 32 ≡ after8 x
unfolding after8
shift8 x h = ground arith

shift4 : (y : ℕ) → y < 2 ^ 16 → y * 2 ^ (if ltb y 0x1000 then 4 else 0) % 2 ^ 32 ≡ after4 y
unfolding after4
shift4 y h = ground arith

shift2 : (y : ℕ) → y < 2 ^ 16 → y * 2 ^ (if ltb y 0x4000 then 2 else 0) % 2 ^ 32 ≡ after2 y
unfolding after2
shift2 y h = ground arith

tree_shift-eq : (x : ℕ) → 0 < x → x < 2 ^ 16 → tree_shift x ≡ log_of x
unfolding tree_shift log_of
tree_shift-eq x p h =
    let small : x % 2 ^ 32 ≡ x = omega arith in
    let b8 = after8-lt x p h in
    let b4 = after4-lt (after8 x) b8.1 b8.0 in
    let b2 = after2-lt (after4 (after8 x)) b4.1 b4.0 in
    rw (small, stage8 x h, shift8 x h, stage4 (after8 x) b8.0, shift4 (after8 x) b8.0)
      (rw (stage2 (after4 (after8 x)) b4.0, shift2 (after4 (after8 x)) b4.0) (ground (arith, b2)))

-- The logarithm of a number below 2 ^ 16, as a ladder of tests.
ladder : ℕ → ℕ
ladder x =
    if ltb x 2
    then 0
    else (if ltb x 4
        then 1
        else (if ltb x 8
            then 2
            else (if ltb x 16
                then 3
                else (if ltb x 32
                    then 4
                    else (if ltb x 64
                        then 5
                        else (if ltb x 128
                            then 6
                            else (if ltb x 256
                                then 7
                                else (if ltb x 512
                                    then 8
                                    else (if ltb x 1024
                                        then 9
                                        else (if ltb x 2048
                                            then 10
                                            else (if ltb x 4096
                                                then 11
                                                else (if ltb x 8192
                                                    then 12
                                                    else (if ltb x 16384
                                                        then 13
                                                        else (if ltb x 32768
                                                            then 14
                                                            else (15)))))))))))))))

log_of-eq-ladder : (x : ℕ) → 0 < x → x < 2 ^ 16 → log_of x ≡ ladder x
unfolding log_of after8 after4 after2 ladder
log_of-eq-ladder x p h = ground arith

ladder_log :
    (x : ℕ) → 0 < x → x < 2 ^ 16 → (ladder x < 16) × (2 ^ ladder x ≤ x) × (x < 2 ^ suc (ladder x))
unfolding ladder
ladder_log x p h = ground arith

-- For `0 < x < 2 ^ 16`, where `compute_tree_index` uses it, `tree_shift x` is the binary logarithm
-- of `x`, and below 16.
pub tree_shift_log :
    (x : ℕ)
    → 0 < x
    → x < 2 ^ 16
    → (tree_shift x < 16) × (2 ^ tree_shift x ≤ x) × (x < 2 ^ suc (tree_shift x))
tree_shift_log x p h = rw (tree_shift-eq x p h, log_of-eq-ladder x p h) (ladder_log x p h)
