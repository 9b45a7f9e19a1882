-- ===== src/Mspace/Clones.antt =====
-- The routines on spaces that correspond to global ones (src/dlmalloc.c, "mspace versions of
-- routines"): near-clones, put together from the same parts.
use dlmalloc_rs.Prelude.{
  ℕ, ◌+◌, Bool, true, false, not, ◌&&◌, ◌||◌, ◌==◌, List, Option, none, some, leb, if◌then◌else◌,
}
use Prim.Native.Nat.{min}
use dlmalloc_rs.Size.{
  sub64, chunk2mem, mem2chunk, max_request, max_size_t, max_small_request, request2size,
  malloc_alignment,
}
use dlmalloc_rs.State.{Cmd, done, aborted, abort, put, pure, ask, ◌>>=◌, ◌>>◌, ok_address}
use dlmalloc_rs.Head.{is_inuse, chunksize, calloc_must_clear, overhead_for}
use dlmalloc_rs.Os.{Os}
use dlmalloc_rs.Segments.{granularity_align}
use dlmalloc_rs.Release.{sys_trim}
use dlmalloc_rs.Free.{consolidate_backward, free_forward}
use dlmalloc_rs.Malloc.{request_size, malloc_small, malloc_large, malloc_rest}
use dlmalloc_rs.Calloc.{fill, copy, calloc_request}
use dlmalloc_rs.Realloc.{try_realloc_chunk}
use dlmalloc_rs.Memalign.{internal_memalign}
use dlmalloc_rs.Independent.{ialloc, internal_bulk_free, Inspected, internal_inspect_all}
use dlmalloc_rs.Footprint.{Param, change_mparam}
use dlmalloc_rs.Mspace.{ok_magic}

unfoldable pub mspace_usable_size : (mem : ℕ) → Cmd ℕ
mspace_usable_size mem s =
    let p = mem2chunk mem in
    done (if not (mem == 0) && is_inuse s p then sub64 (chunksize s p) (overhead_for s p) else 0) s

unfoldable pub mspace_footprint : Cmd ℕ
mspace_footprint s = if ok_magic s then done s.m.footprint s else aborted

unfoldable pub mspace_max_footprint : Cmd ℕ
mspace_max_footprint s = if ok_magic s then done s.m.max_footprint s else aborted

unfoldable pub mspace_footprint_limit : Cmd ℕ
mspace_footprint_limit s =
    if ok_magic s
    then done (if s.m.footprint_limit == 0 then max_size_t else s.m.footprint_limit) s
    else aborted

-- `result` after the first `if` is overwritten by the second one.
unfoldable pub mspace_set_footprint_limit : (bytes : ℕ) → Cmd ℕ
mspace_set_footprint_limit bytes s =
    let result = if bytes == max_size_t then 0 else granularity_align s bytes in
    if ok_magic s
    then done result (record s { m = record (s.m) { footprint_limit = result } })
    else aborted

unfoldable pub mspace_inspect_all : Cmd (List Inspected)
mspace_inspect_all s = if ok_magic s then internal_inspect_all s else aborted

module _ (os : Os) where
  unfoldable pub mspace_malloc : (bytes : ℕ) → Cmd ℕ
  unfolding request_size malloc_small malloc_large malloc_rest
  mspace_malloc bytes s =
      let nb = request_size bytes in
      let look : Cmd (Option ℕ) =
        if leb bytes max_small_request
        then malloc_small nb
        else if leb max_request bytes
        then pure none
        else malloc_large nb in
      if ok_magic s
      then (look >>= elim [ none ↦ malloc_rest os nb | some mem ↦ pure mem ]) s
      else aborted

  unfoldable pub mspace_free : (mem : ℕ) → Cmd (Unit {0})
  unfolding consolidate_backward free_forward
  mspace_free mem s =
      let p = mem2chunk mem in
      let psize = chunksize s p in
      let next = p + psize in
      if mem == 0
      then done tt s
      else if not (ok_magic s)
      then aborted
      else if ok_address s p && is_inuse s p
      then (consolidate_backward os p psize next
            >>= elim [ none ↦ pure tt | some (q, total) ↦ free_forward os q total next ])
          s
      else aborted

  -- `internal_malloc` of a space other than the global one is `mspace_malloc`.
  unfoldable pub mspace_calloc : (n_elements elem_size : ℕ) → Cmd ℕ
  unfolding calloc_request fill mspace_malloc
  mspace_calloc n_elements elem_size = do
    fine ← ask ok_magic
    let req = calloc_request n_elements elem_size
    mem ← if fine then mspace_malloc req else abort
    must_clear ← ask (λ s. calloc_must_clear s (mem2chunk mem))
    (if not (mem == 0) && must_clear then put (fill mem 0 req) else pure tt)
    pure mem

  unfoldable pub mspace_move_chunk : (oldp oldmem bytes : ℕ) → Cmd ℕ
  unfolding mspace_malloc mspace_free copy
  mspace_move_chunk oldp oldmem bytes = do
    mem ← mspace_malloc bytes
    oc ← ask (λ s. sub64 (chunksize s oldp) (overhead_for s oldp))
    if not (mem == 0)
        then put (copy mem oldmem (min oc bytes)) >> mspace_free oldmem >> pure mem
        else pure 0

  unfoldable pub mspace_realloc : (oldmem bytes : ℕ) → Cmd ℕ
  unfolding mspace_malloc try_realloc_chunk mspace_move_chunk
  mspace_realloc oldmem bytes =
      if oldmem == 0
      then mspace_malloc bytes
      else if leb max_request bytes
      then pure 0
      else try_realloc_chunk os (mem2chunk oldmem) (request2size bytes) 1 >>= (λ newp.
        if not (newp == 0)
        then pure (chunk2mem newp)
        else mspace_move_chunk (mem2chunk oldmem) oldmem bytes)

  unfoldable pub mspace_realloc_in_place : (oldmem bytes : ℕ) → Cmd ℕ
  unfolding try_realloc_chunk
  mspace_realloc_in_place oldmem bytes =
      if oldmem == 0 || leb max_request bytes
      then pure 0
      else try_realloc_chunk os (mem2chunk oldmem) (request2size bytes) 0
        >>= (λ newp. pure (if newp == mem2chunk oldmem then oldmem else 0))

  unfoldable pub mspace_bulk_free : (nelem : ℕ) → List ℕ → Cmd ℕ
  unfolding internal_bulk_free
  mspace_bulk_free nelem array = internal_bulk_free os nelem array

  unfoldable pub mspace_trim : (pad : ℕ) → Cmd Bool
  unfolding sys_trim
  mspace_trim pad s = if ok_magic s then sys_trim os pad s else aborted

  unfoldable pub mspace_mallopt : (param : Param) (value : ℕ) → Cmd Bool
  unfolding change_mparam
  mspace_mallopt param value = change_mparam os param value

  -- `internal_memalign` and `ialloc` allocate by `internal_malloc`, which is `mspace_malloc` here; with
  -- `ok_magic` true that does the same as `dlmalloc`.
  unfoldable pub mspace_memalign : (alignment bytes : ℕ) → Cmd ℕ
  unfolding mspace_malloc internal_memalign
  mspace_memalign alignment bytes s =
      if not (ok_magic s)
      then aborted
      else if leb alignment malloc_alignment
      then mspace_malloc bytes s
      else internal_memalign os alignment bytes s

  unfoldable pub mspace_independent_calloc : (n_elements elem_size chunks : ℕ) → Cmd (ℕ × List ℕ)
  unfolding ialloc
  mspace_independent_calloc n_elements elem_size chunks s =
      if ok_magic s then ialloc os n_elements (λ _. elem_size) true true chunks s else aborted

  unfoldable pub mspace_independent_comalloc :
      (n_elements : ℕ) (sizes : ℕ → ℕ) (chunks : ℕ) → Cmd (ℕ × List ℕ)
  unfolding ialloc
  mspace_independent_comalloc n_elements sizes chunks s =
      if ok_magic s then ialloc os n_elements sizes false false chunks s else aborted
