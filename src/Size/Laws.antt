-- ===== src/Size/Laws.antt =====
-- What the size macros guarantee.
use dlmalloc_rs.Prelude.{ℕ, ◌+◌, ◌-◌, ◌%◌, ◌^◌, ◌≤◌, ◌<◌, ◌≡◌, ◌↔◌, true, arith}
use dlmalloc_rs.Size.{
  max_request, min_chunk_size, chunk_overhead, chunk2mem, mem2chunk, align_as_chunk, request2size,
  is_small, small_index, small_index2size,
}

-- For each request below MAX_REQUEST, `request2size` is the least multiple of the alignment that
-- is at least MIN_CHUNK_SIZE and holds the request and a chunk's overhead.
pub request2size_least :
    (req : ℕ)
    → req < max_request
    → (request2size req % 16 ≡ 0)
      × (min_chunk_size ≤ request2size req)
      × (req + chunk_overhead ≤ request2size req)
      × ((s : ℕ)
          → s % 16 ≡ 0
          → min_chunk_size ≤ s
          → req + chunk_overhead ≤ s
          → request2size req ≤ s)
unfolding request2size
request2size_least req h = (ground arith, ground arith, ground arith, λ s a b c. ground arith)

-- For an address at least 64 below 2 ^ 64, `align_as_chunk` moves it up by less than the alignment,
-- to an address at which a chunk's memory is aligned.
pub align_as_chunk_least :
    (a : ℕ)
    → a < 2 ^ 64 - 64
    → (chunk2mem (align_as_chunk a) % 16 ≡ 0) × (a ≤ align_as_chunk a) × (align_as_chunk a < a + 16)
unfolding align_as_chunk
align_as_chunk_least a h = (ground arith, ground arith, ground arith)

-- On every 64-bit address `mem2chunk` undoes `chunk2mem`, across the wrap too.
pub mem2chunk-chunk2mem : (p : ℕ) → p < 2 ^ 64 → mem2chunk (chunk2mem p) ≡ p
unfolding mem2chunk chunk2mem
mem2chunk-chunk2mem p h = omega arith

-- A multiple of the alignment is small exactly if it is below 256, the index of its bin is below 32
-- and that index determines it.
pub small_index_roundtrip :
    (s : ℕ)
    → s % 16 ≡ 0
    → (is_small s ≡ true)
      ↔ ((s < 256) × (small_index2size (small_index s) ≡ s) × (small_index s < 32))
unfolding is_small small_index small_index2size
small_index_roundtrip s h = (λ p. (ground arith, ground arith, ground arith), λ p. ground arith)
