-- ===== src/Realloc.antt =====
-- `try_realloc_chunk`, `dlrealloc` and `dlrealloc_in_place` of src/dlmalloc.c.
use dlmalloc_rs.Prelude.{ℕ, ◌+◌, not, ◌&&◌, ◌||◌, ◌==◌, ltb, leb, if◌then◌else◌}
use Prim.Native.Nat.{min}
use dlmalloc_rs.Size.{add64, sub64, chunk2mem, mem2chunk, min_chunk_size, max_request, request2size}
use dlmalloc_rs.State.{Cmd, done, aborted, put, pure, ask, ◌>>=◌, ◌>>◌, set_head, ok_address}
use dlmalloc_rs.Head.{
  cinuse, pinuse, is_inuse, is_mmapped, chunksize, with_pinuse, clear_pinuse, overhead_for,
  set_inuse, set_size_and_pinuse_of_free_chunk, ok_next,
}
use dlmalloc_rs.TreeBin.{unlink_chunk}
use dlmalloc_rs.Os.{Os}
use dlmalloc_rs.SysAlloc.{mmap_resize}
use dlmalloc_rs.Release.{clear_dv}
use dlmalloc_rs.Free.{dispose_chunk, dlfree}
use dlmalloc_rs.Malloc.{dlmalloc}
use dlmalloc_rs.Calloc.{copy}

-- Extend into top; 0 if it is too small.
unfoldable pub extend_top : (p oldsize nb : ℕ) → Cmd ℕ
extend_top p oldsize nb s =
    let newsize = add64 oldsize s.m.topsize in
    let newtopsize = sub64 newsize nb in
    if ltb nb newsize
    then done p (
        let s1 = set_head (p + nb) (with_pinuse newtopsize) (set_inuse p nb s) in
        record s1 { m = record (s1.m) { top = p + nb; topsize = newtopsize } })
    else done 0 s

-- Extend into dv.
unfoldable pub extend_dv : (p oldsize nb : ℕ) → Cmd ℕ
unfolding clear_dv
extend_dv p oldsize nb s =
    let newsize = add64 oldsize s.m.dvsize in
    let dsize = sub64 newsize nb in
    let r = p + nb in
    if leb nb newsize
    then done p (
        if leb min_chunk_size dsize
        then (let s1 =
              clear_pinuse (r + dsize)
                (set_size_and_pinuse_of_free_chunk r dsize (set_inuse p nb s)) in
            record s1 { m = record (s1.m) { dvsize = dsize; dv = r } })
        else clear_dv (set_inuse p newsize s))
    else done 0 s

module _ (os : Os) where
  -- `p` keeps `nb` bytes, and the rest is given back.
  unfoldable pub split_off : (p nb rsize : ℕ) → Cmd (Unit {0})
  split_off p nb rsize =
      put (set_inuse p nb) >> put (set_inuse (p + nb) rsize) >> dispose_chunk os (p + nb) rsize

  -- Extend into the free chunk behind.
  unfoldable pub extend_next : (p oldsize nb next : ℕ) → Cmd ℕ
  unfolding split_off
  extend_next p oldsize nb next s =
      let nextsize = chunksize s next in
      let newsize = add64 oldsize nextsize in
      let rsize = sub64 newsize nb in
      if leb nb newsize
      then (unlink_chunk next nextsize
            >> (if ltb rsize min_chunk_size
                then put (set_inuse p newsize)
                else split_off p nb rsize)
            >> pure p)
          s
      else done 0 s

  unfoldable pub try_realloc_chunk : (p nb can_move : ℕ) → Cmd ℕ
  unfolding split_off extend_top extend_dv extend_next
  try_realloc_chunk p nb can_move s =
      let oldsize = chunksize s p in
      let next = p + oldsize in
      let rsize = sub64 oldsize nb in
      if (ok_address s p && is_inuse s p) && (ok_next p next && pinuse s next)
      then (if is_mmapped s p
          then mmap_resize os p nb can_move s
          else if leb nb oldsize
          then ((if leb min_chunk_size rsize then split_off p nb rsize else pure tt) >> pure p) s
          else if next == s.m.top
          then extend_top p oldsize nb s
          else if next == s.m.dv
          then extend_dv p oldsize nb s
          else if not (cinuse s next)
          then extend_next p oldsize nb next s
          else done 0 s)
      else aborted

  -- A move: allocate, copy what fits, free.
  unfoldable pub move_chunk : (oldp oldmem bytes : ℕ) → Cmd ℕ
  move_chunk oldp oldmem bytes = do
    mem ← dlmalloc os bytes
    oc ← ask (λ s. sub64 (chunksize s oldp) (overhead_for s oldp))
    if not (mem == 0)
        then put (copy mem oldmem (min oc bytes)) >> dlfree os oldmem >> pure mem
        else pure 0

  unfoldable pub dlrealloc : (oldmem bytes : ℕ) → Cmd ℕ
  unfolding try_realloc_chunk move_chunk
  dlrealloc oldmem bytes =
      if oldmem == 0
      then dlmalloc os bytes
      else if leb max_request bytes
      then pure 0
      else try_realloc_chunk (mem2chunk oldmem) (request2size bytes) 1 >>= (λ newp.
        if not (newp == 0)
        then pure (chunk2mem newp)
        else move_chunk (mem2chunk oldmem) oldmem bytes)

  unfoldable pub dlrealloc_in_place : (oldmem bytes : ℕ) → Cmd ℕ
  unfolding try_realloc_chunk
  dlrealloc_in_place oldmem bytes =
      if oldmem == 0 || leb max_request bytes
      then pure 0
      else try_realloc_chunk (mem2chunk oldmem) (request2size bytes) 0
        >>= (λ newp. pure (if newp == mem2chunk oldmem then oldmem else 0))
