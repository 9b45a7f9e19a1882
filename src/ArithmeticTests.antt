-- ===== src/ArithmeticTests.antt =====
-- Concrete inputs for the theorems on sizes, bins' indices, maps, heads, limits and alignments.
use Prim.Native.Nat.{bit_and}
use dlmalloc_rs.Prelude.{
  ℕ, suc, ◌+◌, ◌-◌, ◌*◌, ◌%◌, ◌^◌, ◌≤◌, ◌<◌, ◌≡◌, ◌≢◌, refl, true, not, arith, ◌==◌, ◌&&◌,
  if◌then◌else◌, ltb, ◌⊎◌, ◌↔◌,
}
use dlmalloc_rs.Word.{bit_at}
use dlmalloc_rs.Size.{
  max_size_t, min_chunk_size, chunk_overhead, chunk2mem, request2size, align_as_chunk, is_small,
  small_index, small_index2size,
}
use dlmalloc_rs.Size.Laws.{request2size_least, align_as_chunk_least, small_index_roundtrip}
use dlmalloc_rs.BinMap.{idx2bit, clear_bit, bit_is_marked, left_bits, least_bit, compute_bit2idx}
use dlmalloc_rs.BinMap.Laws.{bit_is_marked-clear_bit}
use dlmalloc_rs.BinMap.First.{least_bit_index, bit_at-left_bits}
use dlmalloc_rs.TreeIndex.{tree_shift, compute_tree_index, minsize_for_tree_index}
use dlmalloc_rs.TreeIndex.Range.{tree_shift_log}
use dlmalloc_rs.TreeIndex.Bounds.{compute_tree_index_range}
use dlmalloc_rs.State.{State, done, out_of_fuel}
use dlmalloc_rs.Head.{cinuse, pinuse, chunksize, set_inuse}
use dlmalloc_rs.Head.Laws.{set_inuse_lem}
use dlmalloc_rs.SysAlloc.{within_limit}
use dlmalloc_rs.Calloc.{calloc_request}
use dlmalloc_rs.Calloc.Overflow.{calloc_request_exact}
use dlmalloc_rs.Footprint.{dlmalloc_set_footprint_limit, dlmalloc_footprint_limit}
use dlmalloc_rs.Footprint.Limit.{within_limit_iff, set_footprint_limit_zero}
use dlmalloc_rs.Memalign.{round_alignment, pvalloc_request}
use dlmalloc_rs.Memalign.Alignment.{
  RoundsTo, round_alignment-RoundsTo, round_alignment-loops, pvalloc_request_rounds,
  pvalloc_request_wraps,
}
use dlmalloc_rs.Tests.{initial}

compute_tree_index_range_example :
    (compute_tree_index 1000 < 32)
    × (minsize_for_tree_index (compute_tree_index 1000) ≤ 1000)
    × (1000 < minsize_for_tree_index (compute_tree_index 1000 + 1))
compute_tree_index_range_example = compute_tree_index_range 1000 (ground arith) (ground arith)

tree_shift_log_example : (tree_shift 5 < 16) × (2 ^ tree_shift 5 ≤ 5) × (5 < 2 ^ suc (tree_shift 5))
tree_shift_log_example = tree_shift_log 5 (ground arith) (ground arith)

request2size_least_example :
    (request2size 100 % 16 ≡ 0)
    × (min_chunk_size ≤ request2size 100)
    × (100 + chunk_overhead ≤ request2size 100)
    × ((s : ℕ) → s % 16 ≡ 0 → min_chunk_size ≤ s → 100 + chunk_overhead ≤ s → request2size 100 ≤ s)
request2size_least_example = request2size_least 100 (ground arith)

align_as_chunk_least_example :
    (chunk2mem (align_as_chunk 1001) % 16 ≡ 0)
    × (1001 ≤ align_as_chunk 1001)
    × (align_as_chunk 1001 < 1001 + 16)
align_as_chunk_least_example = align_as_chunk_least 1001 (ground arith)

small_index_roundtrip_example :
    (is_small 48 ≡ true)
    ↔ ((48 < 256) × (small_index2size (small_index 48) ≡ 48) × (small_index 48 < 32))
small_index_roundtrip_example = small_index_roundtrip 48 refl

least_bit_index_example :
    (compute_bit2idx (least_bit 40) < 32)
    × (bit_at 40 (compute_bit2idx (least_bit 40)) ≡ 1)
    × ((j : ℕ) → j < compute_bit2idx (least_bit 40) → bit_at 40 j ≡ 0)
least_bit_index_example = least_bit_index 40 (ground arith) (ground arith)

bit_at-left_bits_example :
    bit_at (bit_and (left_bits (idx2bit 3)) 40) 5 ≡ (if ltb 3 5 then bit_at 40 5 else 0)
bit_at-left_bits_example = bit_at-left_bits 40 3 5 (ground arith) (ground arith)

bit_is_marked-clear_bit_example :
    bit_is_marked (clear_bit 40 5) 3 ≡ (not (5 == 3) && bit_is_marked 40 3)
bit_is_marked-clear_bit_example = bit_is_marked-clear_bit 40 5 3 (ground arith) (ground arith)

abbrev elsewhere : ℕ
elsewhere = 16384

set_inuse_lem_example :
    (chunksize (set_inuse 8192 48 initial) 8192 ≡ 48)
    × (cinuse (set_inuse 8192 48 initial) 8192 ≡ true)
    × (pinuse (set_inuse 8192 48 initial) 8192 ≡ pinuse initial 8192)
    × (pinuse (set_inuse 8192 48 initial) (8192 + 48) ≡ true)
    × (cinuse (set_inuse 8192 48 initial) (8192 + 48) ≡ cinuse initial (8192 + 48))
    × (chunksize (set_inuse 8192 48 initial) (8192 + 48) ≡ chunksize initial (8192 + 48))
    × (elsewhere ≢ 8192
        → elsewhere ≢ 8192 + 48
        → (set_inuse 8192 48 initial).heap.head elsewhere ≡ initial.heap.head elsewhere)
set_inuse_lem_example = set_inuse_lem 8192 48 elsewhere initial (ground arith) refl

calloc_request_exact_example :
    calloc_request (2 ^ 40) (2 ^ 30)
    ≡ (if ltb (2 ^ 40 * 2 ^ 30) (2 ^ 64) then 2 ^ 40 * 2 ^ 30 else max_size_t)
calloc_request_exact_example = calloc_request_exact (2 ^ 40) (2 ^ 30) (ground arith) (ground arith)

within_limit_iff_example : (within_limit initial 65536 ≡ true) ↔ (
    (initial.m.footprint_limit ≡ 0)
    ⊎ ((0 < 65536)
        × (initial.m.footprint + 65536 < 2 ^ 64)
        × (initial.m.footprint + 65536 ≤ initial.m.footprint_limit)))
within_limit_iff_example = within_limit_iff initial 65536 (ground arith) (ground arith)

set_footprint_limit_zero_example :
    (t : State) × (dlmalloc_set_footprint_limit 0 initial ≡ done 0 t)
    × (within_limit t 65536 ≡ true)
    × (dlmalloc_footprint_limit t ≡ done max_size_t t)
set_footprint_limit_zero_example =
    set_footprint_limit_zero initial 65536 (ground arith) (ground arith)

round_alignment-RoundsTo_example :
    RoundsTo initial (if ltb 100 32 then 32 else 100) (round_alignment 64 100 initial)
round_alignment-RoundsTo_example = round_alignment-RoundsTo 100 initial (ground arith)

round_alignment-loops_example : round_alignment 1000 (2 ^ 63 + 1) initial ≡ out_of_fuel
round_alignment-loops_example =
    round_alignment-loops 1000 (2 ^ 63 + 1) initial (ground arith) (ground arith)

pvalloc_request_rounds_example :
    (5000 ≤ pvalloc_request 4096 5000)
    × (pvalloc_request 4096 5000 < 5000 + 4096)
    × (pvalloc_request 4096 5000 % 4096 ≡ 0)
pvalloc_request_rounds_example = pvalloc_request_rounds 4096 5000 (ground arith) (ground arith)

pvalloc_request_wraps_example : pvalloc_request 4096 (2 ^ 64 - 1) ≡ 0
pvalloc_request_wraps_example =
    pvalloc_request_wraps 4096 (2 ^ 64 - 1) (ground arith) (ground arith) (ground arith)
      (ground arith)
