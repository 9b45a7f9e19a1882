-- ===== src/Mspace.antt =====
-- Allocation from a space of the caller's (src/dlmalloc.c, "user mspaces"). The state's `m` is the
-- space that the operations work on; a new space takes its place. Without footers `ok_magic` is true,
-- and without locks `set_lock` changes nothing.
pub mod Clones
pub mod Create
pub mod Space
use Prim.Native.Nat.{bit_or}
use dlmalloc_rs.Prelude.{
  ℕ, ◌+◌, ◌*◌, ◌%◌, Bool, true, false, not, ◌&&◌, ◌||◌, ◌==◌, List, [], ◌∷◌, Option, none, some,
  ltb, leb, if◌then◌else◌,
}
use Prim.Native.Nat.{min}
use dlmalloc_rs.Size.{
  add64, sub64, chunk2mem, mem2chunk, pad_request, align_as_chunk, top_foot_size, max_request,
  max_size_t, max_small_request, request2size,
}
use dlmalloc_rs.State.{
  State, MallocState, Segment, Cmd, done, aborted, abort, put, pure, ask, ◌>>=◌, ◌>>◌, set_head,
  ok_address,
}
use dlmalloc_rs.Head.{is_inuse, chunksize, next_chunk, calloc_must_clear, overhead_for}
use dlmalloc_rs.SmallBin.{init_bins}
use dlmalloc_rs.Os.{Os, mfail, call_mmap, call_munmap}
use dlmalloc_rs.Segments.{
  use_mmap_bit, extern_bit, is_mmapped_segment, is_extern_segment, use_mmap, enable_mmap,
  disable_mmap, disable_contiguous, granularity_align, init_top, segments,
}
use dlmalloc_rs.SysAlloc.{max_release_check_rate, ensure_initialization}
use dlmalloc_rs.Release.{sys_trim}
use dlmalloc_rs.Free.{consolidate_backward, free_forward}
use dlmalloc_rs.Malloc.{request_size, malloc_small, malloc_large, malloc_rest}
use dlmalloc_rs.Calloc.{fill, copy, calloc_request}
use dlmalloc_rs.Realloc.{try_realloc_chunk}
use dlmalloc_rs.Independent.{internal_bulk_free, Inspected, internal_inspect_all}
use dlmalloc_rs.Footprint.{Param, change_mparam}

abbrev pub ok_magic : State → Bool
ok_magic s = true

-- `sizeof(struct malloc_state)`; the first segment's record lies 888 bytes into it.
abbrev pub malloc_state_size : ℕ
malloc_state_size = 936

-- The fields after memset and the assignments, for a state at `m`.
abbrev pub fresh_mstate : (m tbase tsize : ℕ) → State → MallocState
fresh_mstate m tbase tsize s = record {
  at = m;
  smallmap = 0;
  treemap = 0;
  dvsize = 0;
  topsize = 0;
  least_addr = tbase;
  dv = 0;
  top = 0;
  trim_check = 0;
  release_checks = max_release_check_rate;
  magic = s.mparams.magic;
  treebins = λ i. 0;
  footprint = tsize;
  max_footprint = tsize;
  footprint_limit = 0;
  mflags = s.mparams.default_mflags;
  seg = record { at = m + 888; base = tbase; size = tsize; sflags = 0 };
  older = [];
}

unfoldable pub init_user_mstate : (tbase tsize : ℕ) → State → State
init_user_mstate tbase tsize s =
    let msize = pad_request malloc_state_size in
    let msp = align_as_chunk tbase in
    let m = chunk2mem msp in
    let s1 = set_head msp (bit_or msize 3) (record s { m = fresh_mstate m tbase tsize s }) in
    let s2 = init_bins (disable_contiguous s1) in
    let mn = next_chunk s2 (mem2chunk m) in
    init_top mn (sub64 (sub64 (tbase + tsize) mn) top_foot_size) s2

abbrev pub set_sflags : ℕ → State → State
set_sflags flags s = record s { m = record (s.m) { seg = record (s.m.seg) { sflags = flags } } }

unfoldable pub mspace_track_large_chunks : (enable : Bool) → Cmd ℕ
mspace_track_large_chunks enable s =
    done (if not (use_mmap s) then 1 else 0) (if not enable then enable_mmap s else disable_mmap s)

module _ (os : Os) where
  -- The space's segment is of the system's memory, rounded up to the granularity.
  unfoldable pub create_mspace : (capacity : ℕ) → Cmd ℕ
  create_mspace capacity = do
    ensure_initialization os
    page ← ask (λ s. s.mparams.page_size)
    let msize = pad_request malloc_state_size
    let rs = add64 (add64 capacity top_foot_size) msize
    tsize ← ask (λ s. granularity_align s (if capacity == 0 then s.mparams.granularity else rs))
    if ltb capacity (sub64 0 (msize + top_foot_size + page))
        then call_mmap os tsize >>= (λ tbase.
          if not (tbase == mfail)
          then put (init_user_mstate tbase tsize)
            >> put (set_sflags use_mmap_bit)
            >> ask (λ s. s.m.at)
          else pure 0)
        else pure 0

  -- The space is in memory of the caller's.
  unfoldable pub create_mspace_with_base : (base capacity : ℕ) → Cmd ℕ
  create_mspace_with_base base capacity = do
    ensure_initialization os
    page ← ask (λ s. s.mparams.page_size)
    let msize = pad_request malloc_state_size
    if ltb (msize + top_foot_size) capacity && ltb capacity (sub64 0 (msize + top_foot_size + page))
        then put (init_user_mstate base capacity)
          >> put (set_sflags extern_bit)
          >> ask (λ s. s.m.at)
        else pure 0

  unfoldable pub unmap_segments : List Segment → Cmd ℕ
  unmap_segments [] = pure 0
  unmap_segments (sp ∷ rest) = do
    gone ←
        if is_mmapped_segment sp && not (is_extern_segment sp)
        then call_munmap os sp.base sp.size >>= (λ r. pure (r == 0))
        else pure false
    freed ← unmap_segments rest
    pure (if gone then add64 freed sp.size else freed)

  unfoldable pub destroy_mspace : Cmd ℕ
  unfolding unmap_segments
  destroy_mspace s = if ok_magic s then unmap_segments (segments s) s else aborted
