-- ===== src/BlockTests.antt =====
-- Concrete inputs for the theorems on blocks and small bins.
use dlmalloc_rs.Statistics.{Mallinfo, Stats, internal_mallinfo, internal_malloc_stats}
use dlmalloc_rs.Statistics.Layout.{Piece, IsPiece, IsLaid, IsCovered, sum_of, sum_all}
use dlmalloc_rs.Statistics.Agreement.{IsAccount, stats-mallinfo}
use dlmalloc_rs.Segments.{segments}
use dlmalloc_rs.Prelude.{List, inl, inr}
use dlmalloc_rs.Prelude.{false, ◌^◌, ◌≤◌, ◌-◌, ℕ, ◌+◌, ◌*◌, ◌<◌, ◌≡◌, refl, true, [], ◌∷◌, arith}
use dlmalloc_rs.Size.{
  mem2chunk, sub64, chunk2mem, small_index, pad_request, add64, align_as_chunk, align_offset,
}
use dlmalloc_rs.State.{State, done, smallbin_at, write}
use dlmalloc_rs.Head.{is_mmapped, with_inuse_bits, inuse_bits, size_bits, is_inuse, chunksize}
use dlmalloc_rs.SmallBin.{insert_small_chunk, unlink_small_chunk, unlink_first_small_chunk}
use dlmalloc_rs.SmallBin.Stacks.{SmallBins, Leaves, OnlySmall, update}
use dlmalloc_rs.SmallBin.Insert.{insert_small_chunk-SmallBins}
use dlmalloc_rs.SmallBin.Remove.{unlink_small_chunk-SmallBins, unlink_first_small_chunk-SmallBins}
use dlmalloc_rs.Malloc.{request_size, dlmalloc}
use dlmalloc_rs.Free.{dlfree}
use dlmalloc_rs.Malloc.Failure.{dlmalloc-refuses}
use dlmalloc_rs.Calloc.{dlcalloc}
use dlmalloc_rs.Calloc.Clear.{IsClear, dlcalloc-IsClear}
use dlmalloc_rs.TopChunk.Disjoint.{dlmalloc-disjoint}
use dlmalloc_rs.SmallBlocks.{Taken, dlmalloc-Taken}
use dlmalloc_rs.SmallBlocks.Free.{IsFreed, dlfree-SmallBins, dlmalloc-dlfree}
use dlmalloc_rs.TopChunk.{dlmalloc-cut, OnlyTop, cut, dlfree-dlmalloc}
use dlmalloc_rs.Tests.{
  no_memory, initial, empty_bins, one_free, one_bin, no_chunks, IsNew-chunk, one_chunk, only_top,
  small_block,
}

fits_block : request_size 40 ≡ chunksize one_free 8192
unfolding request_size pad_request add64 chunksize size_bits
fits_block = refl

fits_top : request_size 100 < initial.m.topsize
unfolding request_size pad_request add64
fits_top = ground arith

bin_of_40 : one_bin (small_index (request_size 40)) ≡ 12288 ∷ []
unfolding request_size pad_request add64 small_index
bin_of_40 = refl

bin_of_48 : one_bin (small_index 48) ≡ 12288 ∷ []
unfolding small_index
bin_of_48 = refl

index_of_48 : small_index 48 < 32
unfolding small_index
index_of_48 = ground arith

dlmalloc-dlfree_example :
    (t u : State) × (dlfree no_memory (chunk2mem 8192) one_free ≡ done tt t)
    × (dlmalloc no_memory 40 t ≡ done (chunk2mem 8192) u)
    × Taken u one_bin 8192 (chunksize one_free 8192)
dlmalloc-dlfree_example =
    dlmalloc-dlfree no_memory one_free one_bin 8192 40 one_chunk small_block (ground arith)
      fits_block

dlfree-dlmalloc_example :
    (t u : State) × (dlmalloc no_memory 100 initial ≡ done (chunk2mem 16384) t)
    × (chunksize t 16384 ≡ request_size 100)
    × (is_inuse t 16384 ≡ true)
    × (dlfree no_memory (chunk2mem 16384) t ≡ done tt u)
    × (u.m ≡ initial.m)
    × (u.heap.head 16384 ≡ 4097)
dlfree-dlmalloc_example = dlfree-dlmalloc no_memory initial 100 only_top fits_top

insert_small_chunk-SmallBins_example :
    Leaves
      (λ t. SmallBins t (update empty_bins (small_index 48) (12288 ∷ [])) × OnlySmall initial t)
      (insert_small_chunk 12288 48 initial)
insert_small_chunk-SmallBins_example =
    insert_small_chunk-SmallBins initial empty_bins 12288 48 no_chunks index_of_48 IsNew-chunk

unlink_small_chunk-SmallBins_example :
    Leaves
      (λ t. SmallBins t (update one_bin (small_index 48) []) × OnlySmall one_free t)
      (unlink_small_chunk 12288 48 one_free)
unlink_small_chunk-SmallBins_example =
    unlink_small_chunk-SmallBins one_free one_bin 12288 48 [] [] one_chunk index_of_48 bin_of_48

unlink_first_small_chunk-SmallBins_example :
    Leaves
      (λ t. SmallBins t (update one_bin 6 []) × OnlySmall one_free t)
      (unlink_first_small_chunk (smallbin_at one_free 6) 12288 6 one_free)
unlink_first_small_chunk-SmallBins_example =
    unlink_first_small_chunk-SmallBins one_free one_bin 12288 6 [] one_chunk (ground arith) refl

dlfree-SmallBins_example :
    (t : State) × (dlfree no_memory (chunk2mem 8192) one_free ≡ done tt t)
    × IsFreed one_free one_bin 8192 (chunksize one_free 8192) t
dlfree-SmallBins_example = dlfree-SmallBins no_memory one_free one_bin 8192 one_chunk small_block

dlmalloc-Taken_example :
    (t : State) × (dlmalloc no_memory 40 one_free ≡ done (chunk2mem 12288) t)
    × Taken t (update one_bin (small_index (request_size 40)) []) 12288 (request_size 40)
dlmalloc-Taken_example =
    dlmalloc-Taken no_memory one_free one_bin 40 12288 [] one_chunk (ground arith) bin_of_40

fits_twice : request_size 100 + request_size 200 < initial.m.topsize
unfolding request_size pad_request add64
fits_twice = ground arith

dlmalloc-disjoint_example :
    (t u : State) × (p q : ℕ) × (dlmalloc no_memory 100 initial ≡ done p t)
    × (dlmalloc no_memory 200 t ≡ done q u)
    × (16384 < p)
    × (p + 100 + 8 ≤ q)
    × (q + 200 ≤ 16384 + 4096)
    × OnlyTop u
dlmalloc-disjoint_example = dlmalloc-disjoint no_memory initial 100 200 only_top fits_twice

dlmalloc-refuses_example : dlmalloc no_memory (2 ^ 64 - 1) initial ≡ done 0 initial
dlmalloc-refuses_example =
    dlmalloc-refuses no_memory initial (2 ^ 64 - 1) (ground arith) (ground arith) (ground arith)
      (ground arith)

fits_elements : request_size (3 * 8) < initial.m.topsize
unfolding request_size pad_request add64
fits_elements = ground arith

three_elements : dlmalloc no_memory (3 * 8) initial ≡ done 16400 (cut initial (request_size 24))
unfolding chunk2mem add64
three_elements = dlmalloc-cut no_memory initial 24 only_top fits_elements

not_mapped : is_mmapped (cut initial (request_size 24)) (mem2chunk 16400) ≡ false
unfolding is_mmapped inuse_bits mem2chunk sub64 request_size pad_request add64 with_inuse_bits
not_mapped = refl

dlcalloc-IsClear_example :
    (u : State) × (dlcalloc no_memory 3 8 initial ≡ done 16400 u)
    × IsClear u 16400 (3 * 8)
    × ((a : ℕ) → a < 16400 → u.heap.payload a ≡ 0)
    × ((a : ℕ) → 16400 + 3 * 8 ≤ a → u.heap.payload a ≡ 0)
    × (u ≡ record (cut initial (request_size 24)) {
      heap = record ((cut initial (request_size 24)).heap) { payload = u.heap.payload };
    })
dlcalloc-IsClear_example =
    dlcalloc-IsClear no_memory initial (cut initial (request_size 24)) 3 8 16400 (ground arith)
      (ground arith) (ground arith) three_elements (ground arith) not_mapped

-- The first block in use, and all up to top free.
abbrev one_hole : State
one_hole = record initial {
  heap = record (initial.heap) { head = write initial.heap.head 8240 8145 };
}

abbrev its_pieces : List (List Piece)
its_pieces = (record { size = 48; free = false } ∷ record { size = 8144; free = true } ∷ []) ∷ []

one_hole-IsCovered : IsCovered one_hole (segments one_hole) its_pieces
unfolding IsCovered IsLaid align_as_chunk align_offset chunk2mem add64 is_inuse inuse_bits chunksize
    size_bits
one_hole-IsCovered =
    let first : IsPiece one_hole one_hole.m.seg 8192 (record { size = 48; free = false }) = record {
      from = ground arith;
      to = ground arith;
      not_top = λ e. omega (arith, e);
      not_fence = λ e. omega (arith, e);
      sized = refl;
      least = ground arith;
      used = refl;
    } in
    let last : IsPiece one_hole one_hole.m.seg 8240 (record { size = 8144; free = true }) = record {
      from = ground arith;
      to = ground arith;
      not_top = λ e. omega (arith, e);
      not_fence = λ e. omega (arith, e);
      sized = refl;
      least = ground arith;
      used = refl;
    } in
    ((first, (last, inr (inl refl))), tt)

pieces_fit : 4096 + 80 + sum_all (λ p. p.size) its_pieces ≤ 16384
unfolding sum_all sum_of
pieces_fit = ground arith

stats-mallinfo_example :
    (i : Mallinfo) × (r : Stats) × (internal_mallinfo no_memory one_hole ≡ done i one_hole)
    × (internal_malloc_stats no_memory one_hole ≡ done r one_hole)
    × IsAccount one_hole its_pieces i r
stats-mallinfo_example =
    stats-mallinfo no_memory one_hole its_pieces (λ e. omega (arith, e)) (λ e. omega (arith, e))
      one_hole-IsCovered pieces_fit (ground arith)
