-- ===== src/Size.antt =====
-- Chunk sizes and alignment: src/dlmalloc.c, "size_t and alignment properties" and "Chunks sizes
-- and alignments". A `size_t` has 8 bytes, MALLOC_ALIGNMENT is 16, and FOOTERS is 0. Masks by
-- CHUNK_ALIGN_MASK are written as remainders by 16 (Word.Masks has the laws).
pub mod Laws
use dlmalloc_rs.Prelude.{ℕ, ◌+◌, ◌-◌, ◌*◌, ◌/◌, ◌%◌, ◌^◌, Bool, ltb, ◌==◌, if◌then◌else◌}

-- size_t arithmetic wraps.
unfoldable pub add64 : ℕ → ℕ → ℕ
add64 a b = (a + b) % 2 ^ 64

unfoldable pub sub64 : ℕ → ℕ → ℕ
sub64 a b = (a + 2 ^ 64 - b) % 2 ^ 64

abbrev pub max_size_t : ℕ
max_size_t = 2 ^ 64 - 1

abbrev pub half_max_size_t : ℕ
half_max_size_t = max_size_t / 2

abbrev pub malloc_alignment : ℕ
malloc_alignment = 16

abbrev pub chunk_align_mask : ℕ
chunk_align_mask = malloc_alignment - 1

abbrev pub two_size_t_sizes : ℕ
two_size_t_sizes = 16

abbrev pub four_size_t_sizes : ℕ
four_size_t_sizes = 32

abbrev pub six_size_t_sizes : ℕ
six_size_t_sizes = 48

unfoldable pub is_aligned : ℕ → Bool
is_aligned a = a % 16 == 0

unfoldable pub align_offset : ℕ → ℕ
align_offset a = if a % 16 == 0 then 0 else (malloc_alignment - a % 16) % 16

abbrev pub chunk_overhead : ℕ
chunk_overhead = 8

abbrev pub mmap_chunk_overhead : ℕ
mmap_chunk_overhead = two_size_t_sizes

abbrev pub mmap_foot_pad : ℕ
mmap_foot_pad = four_size_t_sizes

abbrev pub mchunk_size : ℕ
mchunk_size = 32

abbrev pub min_chunk_size : ℕ
min_chunk_size = (mchunk_size + chunk_align_mask) / 16 * 16

unfoldable pub chunk2mem : ℕ → ℕ
unfolding add64
chunk2mem p = add64 p two_size_t_sizes

unfoldable pub mem2chunk : ℕ → ℕ
unfolding sub64
mem2chunk mem = sub64 mem two_size_t_sizes

unfoldable pub align_as_chunk : ℕ → ℕ
unfolding add64 chunk2mem align_offset
align_as_chunk a = add64 a (align_offset (chunk2mem a))

-- (-MIN_CHUNK_SIZE) << 2
abbrev pub max_request : ℕ
max_request = (2 ^ 64 - min_chunk_size) * 4 % 2 ^ 64

abbrev pub min_request : ℕ
min_request = min_chunk_size - chunk_overhead - 1

unfoldable pub pad_request : ℕ → ℕ
unfolding add64
pad_request req = add64 (add64 req chunk_overhead) chunk_align_mask / 16 * 16

unfoldable pub request2size : ℕ → ℕ
unfolding pad_request
request2size req = if ltb req min_request then min_chunk_size else pad_request req

-- Bins: widths and sizes.
abbrev pub nsmallbins : ℕ
nsmallbins = 32

abbrev pub ntreebins : ℕ
ntreebins = 32

abbrev pub smallbin_shift : ℕ
smallbin_shift = 3

abbrev pub treebin_shift : ℕ
treebin_shift = 8

abbrev pub min_large_size : ℕ
min_large_size = 2 ^ treebin_shift

abbrev pub max_small_size : ℕ
max_small_size = min_large_size - 1

abbrev pub max_small_request : ℕ
max_small_request = max_small_size - chunk_align_mask - chunk_overhead

unfoldable pub is_small : ℕ → Bool
is_small s = ltb (s / 2 ^ smallbin_shift) nsmallbins

unfoldable pub small_index : ℕ → ℕ
small_index s = s / 2 ^ smallbin_shift % 2 ^ 32

unfoldable pub small_index2size : ℕ → ℕ
small_index2size i = i * 2 ^ smallbin_shift

-- sizeof(struct malloc_segment) is 32, so the padding at the end of a segment is 80.
unfoldable pub top_foot_size : ℕ
unfolding align_offset chunk2mem pad_request
top_foot_size = align_offset (chunk2mem 0) + pad_request 32 + min_chunk_size

abbrev pub sys_alloc_padding : ℕ
sys_alloc_padding = top_foot_size + malloc_alignment
