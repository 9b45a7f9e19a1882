-- ===== src/Head/Laws.antt =====
-- What the macros that set up heads do to the heads around them, and that their arithmetic is
-- the masks of the source.
use Prim.Native.Nat.{bit_and, bit_or}
use dlmalloc_rs.Prelude.{ℕ, ◌+◌, ◌-◌, ◌%◌, ◌^◌, ◌<◌, ◌≡◌, ◌≢◌, true, false, not, ◌==◌, arith}
use dlmalloc_rs.Word.{bit_and_flags, bit_and_not_flags, bit_or_flag}
use dlmalloc_rs.State.{State}
use dlmalloc_rs.Head.{
  c_bit, p_bit, inuse_bits, size_bits, with_pinuse, cinuse, pinuse, chunksize, set_inuse,
  set_free_with_pinuse, set_size_and_pinuse_of_free_chunk, set_foot, clear_pinuse, without_pinuse,
}

-- On every 64-bit word the arithmetic by which the model reads and marks heads agrees with the
-- source's masks: cinuse and pinuse test bits 2 and 1, is_inuse masks both, chunksize masks the
-- three flag bits out, and `| PINUSE_BIT` is `with_pinuse`.
pub head_masks :
    (w : ℕ)
    → w < 2 ^ 64
    → (c_bit w ≡ not (bit_and w 2 == 0))
      × (p_bit w ≡ not (bit_and w 1 == 0))
      × (inuse_bits w ≡ bit_and w 3)
      × (size_bits w ≡ bit_and w (2 ^ 64 - 1 - 7))
      × (with_pinuse w ≡ bit_or w 1)
unfolding c_bit p_bit inuse_bits size_bits with_pinuse
head_masks w h = (
  ground (arith, bit_and_flags w),
  ground (arith, bit_and_flags w),
  ground (arith, bit_and_flags w),
  ground (arith, bit_and_not_flags w h),
  ground (arith, bit_or_flag w),
)

-- For a positive multiple `n` of 8, `set_inuse` gives chunk `p` the size `n` and its own bit and
-- keeps its bit for the chunk before; in the head at `p + n` it sets that bit and keeps the rest;
-- it changes no other head.
pub set_inuse_lem :
    (p n q : ℕ) (s : State)
    → 0 < n
    → n % 8 ≡ 0
    → (chunksize (set_inuse p n s) p ≡ n)
      × (cinuse (set_inuse p n s) p ≡ true)
      × (pinuse (set_inuse p n s) p ≡ pinuse s p)
      × (pinuse (set_inuse p n s) (p + n) ≡ true)
      × (cinuse (set_inuse p n s) (p + n) ≡ cinuse s (p + n))
      × (chunksize (set_inuse p n s) (p + n) ≡ chunksize s (p + n))
      × (q ≢ p → q ≢ p + n → (set_inuse p n s).heap.head q ≡ s.heap.head q)
unfolding set_inuse cinuse pinuse chunksize c_bit p_bit size_bits with_pinuse
set_inuse_lem p n q s pos h = (
  ground arith,
  ground arith,
  ground arith,
  ground arith,
  ground arith,
  ground arith,
  ground arith,
)

-- For a positive multiple `n` of 8, `set_free_with_pinuse` gives chunk `p` the size `n`, marks it free
-- behind a chunk in use and writes its foot; in the head at `p + n` it clears the bit for the chunk
-- before and keeps the rest; it changes no other head and no other foot.
pub set_free_with_pinuse_lem :
    (p n : ℕ) (s : State)
    → 0 < n
    → n % 8 ≡ 0
    → (let t = set_free_with_pinuse p n (p + n) s in
        (chunksize t p ≡ n)
        × (cinuse t p ≡ false)
        × (pinuse t p ≡ true)
        × (t.heap.prev_foot (p + n) ≡ n)
        × (pinuse t (p + n) ≡ false)
        × (cinuse t (p + n) ≡ cinuse s (p + n))
        × (chunksize t (p + n) ≡ chunksize s (p + n))
        × ((q : ℕ) → q ≢ p → q ≢ p + n → t.heap.head q ≡ s.heap.head q)
        × ((q : ℕ) → q ≢ p + n → t.heap.prev_foot q ≡ s.heap.prev_foot q))
unfolding set_free_with_pinuse set_size_and_pinuse_of_free_chunk set_foot clear_pinuse cinuse pinuse
    chunksize c_bit p_bit size_bits with_pinuse without_pinuse
set_free_with_pinuse_lem p n s pos h = (
  ground arith,
  ground arith,
  ground arith,
  ground arith,
  ground arith,
  ground arith,
  ground arith,
  λ q a b. ground (arith, a, b),
  λ q b. ground (arith, b),
)
