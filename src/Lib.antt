-- ===== src/Lib.antt =====
-- dlmalloc: a model of the C allocator src/dlmalloc.c, with theorems on it.
--
-- The program is Doug Lea's malloc. Memory from the system comes in segments, which are cut into
-- chunks; a chunk's head word holds its size and two bits, for itself and the chunk before it in
-- memory. Free chunks are kept in 32 small bins (circular lists, one for each size), in 32 tree bins
-- (bitwise tries by size, with rings of equal sizes), as the designated victim dv (the last
-- remainder) or as top (the chunk that borders on the end of the segment most recently extended).
-- malloc looks at its small bin, the larger ones, dv, the trees and top, in an order that depends on
-- the size, and then asks the system; free merges a chunk with its free neighbours and puts it away
-- again.
--
-- Files, by the part of src/dlmalloc.c that they model; a definition has the name of the macro or
-- function, in lower case, and a function's parts have names of their own:
--   Prelude, Word     Boolean tests, lists, and machine words: masks and shifts as arithmetic
--   Size              sizes, alignment, requests, bin widths
--   BinMap            the 32-bit maps: mark, clear, least_bit, left_bits, compute_bit2idx
--   TreeIndex         compute_tree_index and its companions
--   State             malloc_chunk, malloc_tree_chunk, malloc_segment, malloc_state, malloc_params
--   Head              reading and writing of head and foot words
--   SmallBin          insert_small_chunk, unlink_small_chunk, unlink_first_small_chunk, replace_dv,
--                     init_bins
--   TreeBin           insert_large_chunk, unlink_large_chunk, insert_chunk, unlink_chunk
--   Os                the calls of sbrk, mmap, munmap and mremap
--   Segments          flags, alignment to pages, segment_holding, has_segment_link, init_top
--   SysAlloc, Grow    init_mparams, mmap_alloc, mmap_resize, prepend_alloc, add_segment, sys_alloc
--   Release           release_unused_segments, sys_trim
--   Free              dlfree, dispose_chunk
--   TreeAlloc         tmalloc_large, tmalloc_small
--   Malloc, Calloc    dlmalloc, dlcalloc
--   Realloc           try_realloc_chunk, dlrealloc, dlrealloc_in_place
--   Memalign          internal_memalign, dlmemalign, dlposix_memalign, dlvalloc, dlpvalloc
--   Independent       ialloc, internal_bulk_free, internal_inspect_all and their exported forms
--   Mspace            init_user_mstate, create_mspace, create_mspace_with_base, destroy_mspace, and in
--                     Mspace/Clones mspace_malloc, mspace_free and the other near-clones
--   Checks            bin_find, the do_check functions, traverse_and_check
--   Statistics        mallinfo and malloc_stats
--   Footprint         footprints and their limit, change_mparam, dlmalloc_usable_size, dlmalloc_trim
-- Theorems are in the modules below these, and in SmallBlocks (blocks that pass through the small bins)
-- and TopChunk (blocks cut off top and joined to it). TreeBin/Trie has the trees as data and what it
-- means that memory holds one, TreeBin/Bins the invariant of the 32 tree bins, TreeBin/Insert and
-- TreeAlloc/Walk the walks down a tree, TreeBin/Unlink what taking a chunk out leaves of it, and
-- FreeBins the invariant of all the bins together; Statistics/Layout describes the chunks of the
-- segments as lists, without the loops that count them. BlockTests, TreeTests, SpaceTests and
-- ArithmeticTests apply the theorems to concrete inputs, at the states of Tests.
--
-- The state is passed explicitly. An operation is a function from the state to a run, which returns
-- a value and a state, is aborted (ABORT, which CORRUPTION_ERROR_ACTION and USAGE_ERROR_ACTION are),
-- or runs out of the rounds given to a loop. Memory is kept by field: for each of prev_foot, head,
-- fd, bk, child, parent and index there is a map from addresses of chunks to words, since the code
-- reaches them only through these fields; the user's bytes are apart. So a model's chunk does not
-- lose its links when the user writes to its memory, which the code never relies on for a block in
-- use; and memset and memcpy write to the user's bytes only, so that a block that overlaps heads or
-- links cannot be told apart by what they write. memset(m, 0, msize) in init_user_mstate is a new
-- record for the state; the words of the heap at its addresses stay, but init_bins and init_top
-- write all those that are read. Words are natural numbers, with the wrap-around of size_t (2 ^ 64)
-- and binmap_t (2 ^ 32) written out. A sum of a pointer and an offset is not wrapped, as C gives a
-- meaning only to those that stay in an object. The segments' list is the first segment with the
-- list of the older ones; the array of small bins is the links of the addresses 72 + 16 i bytes into
-- the state, kept in the maps fd and bk, so that an equation of two records malloc_state says
-- nothing of the small bins' links.
--
-- The state's malloc_state is the one that an operation gets: _gm_ for the global routines, the
-- space for the mspace routines. A new space takes its place.
--
-- The configuration is that of a 64-bit Linux build with the file's defaults: MALLOC_ALIGNMENT 16,
-- no locks, no footers, RTCHECK on, PROCEED_ON_ERROR off, DEBUG off (the checks that run with it on
-- are modelled by themselves), MMAP_CLEARS, HAVE_MMAP, HAVE_MREMAP, HAVE_MORECORE and
-- MORECORE_CONTIGUOUS on, and the portable variants of compute_tree_index and compute_bit2idx. The
-- operating system is a parameter, a record of functions whose answers may depend on how many calls
-- there were; nothing is assumed of the answers. Page size and granularity are powers of two, which
-- init_mparams checks, so that masks with them are written as division.
--
-- Rounds: a walk down a tree gets 64, one for each bit of a size, since each step down a well-formed
-- tree takes one more bit; the loop of internal_memalign gets 64, as the doubled variable has 64
-- bits. The fenceposts of add_segment get one round for each byte up to the old end, the traversals
-- of internal_inspect_all, mallinfo, malloc_stats and traverse_and_check one for each 16 bytes of
-- the segment (a chunk has at least 32), with two more to see the end, and bulk free one for each
-- pointer; a walk that does not end shows as a run that is out of rounds. The circles that bin_find
-- and the do_check functions go around may be broken, so these get their number of rounds as an
-- argument. The other loops run over lists.
--
-- Not modelled: several mspaces at a time, locks, footers, recovery after errors, errno, and the
-- system calls' wrappers of other platforms; the port to Rust (src/dlmalloc.rs) with its platforms
-- and tests.
mod Prelude
pub mod Word
pub mod Size
pub mod BinMap
pub mod TreeIndex
pub mod State
pub mod Head
pub mod SmallBin
pub mod TreeBin
pub mod Os
pub mod Segments
pub mod SysAlloc
pub mod Grow
pub mod Release
pub mod Free
pub mod TreeAlloc
pub mod Malloc
pub mod Calloc
pub mod Realloc
pub mod Memalign
pub mod Independent
pub mod Footprint
pub mod Mspace
pub mod Checks
pub mod Statistics
pub mod TopChunk
pub mod SmallBlocks
pub mod FreeBins
mod Tests
mod BlockTests
mod TreeTests
mod SpaceTests
mod ArithmeticTests
