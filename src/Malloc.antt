-- ===== src/Malloc.antt =====
-- `dlmalloc` of src/dlmalloc.c, without locks: its small request and large request parts, then the
-- designated victim, the top chunk and the system, in the order of the code.
pub mod Failure
use Prim.Native.Nat.{bit_and}
use dlmalloc_rs.Prelude.{
  ℕ, ◌+◌, ◌-◌, ◌*◌, ◌/◌, ◌%◌, ◌^◌, not, ◌==◌, Option, none, some, ltb, leb, if◌then◌else◌,
}
use dlmalloc_rs.Size.{
  sub64, chunk2mem, min_chunk_size, max_request, min_request, max_size_t, max_small_request,
  pad_request, small_index, small_index2size,
}
use dlmalloc_rs.BinMap.{idx2bit, left_bits, least_bit, compute_bit2idx}
use dlmalloc_rs.State.{Cmd, done, put, pure, ask, ◌>>=◌, ◌>>◌, smallbin_at}
use dlmalloc_rs.Head.{
  set_inuse_and_pinuse, set_size_and_pinuse_of_inuse_chunk, set_size_and_pinuse_of_free_chunk,
}
use dlmalloc_rs.SmallBin.{unlink_first_small_chunk, replace_dv}
use dlmalloc_rs.TreeAlloc.{tmalloc_large, tmalloc_small}
use dlmalloc_rs.Os.{Os}
use dlmalloc_rs.SysAlloc.{split_top}
use dlmalloc_rs.Grow.{sys_alloc}

-- A remainderless fit: the first chunk of bin `idx`.
unfoldable pub take_exact : (idx : ℕ) → Cmd ℕ
take_exact idx = do
  b ← ask (λ s. smallbin_at s idx)
  p ← ask (λ s. s.heap.fd (smallbin_at s idx))
  unlink_first_small_chunk b p idx
  put (set_inuse_and_pinuse p (small_index2size idx))
  pure (chunk2mem p)

-- The first chunk of the next nonempty small bin; its remainder becomes dv.
unfoldable pub take_larger : (nb i : ℕ) → Cmd ℕ
take_larger nb i = do
  b ← ask (λ s. smallbin_at s i)
  p ← ask (λ s. s.heap.fd (smallbin_at s i))
  unlink_first_small_chunk b p i
  let rsize = sub64 (small_index2size i) nb
  (if ltb rsize min_chunk_size
      then put (set_inuse_and_pinuse p (small_index2size i))
      else put (set_size_and_pinuse_of_inuse_chunk p nb)
        >> put (set_size_and_pinuse_of_free_chunk (p + nb) rsize)
        >> replace_dv (p + nb) rsize)
  pure (chunk2mem p)

-- `none` leads on to dv and top.
unfoldable pub malloc_small : (nb : ℕ) → Cmd (Option ℕ)
unfolding take_exact take_larger
malloc_small nb s =
    let idx = small_index nb in
    let smallbits = s.m.smallmap / 2 ^ idx in
    let leftbits = bit_and (smallbits * 2 ^ idx % 2 ^ 32) (left_bits (idx2bit idx)) in
    if not (bit_and smallbits 3 == 0)
    then (take_exact (idx + (1 - smallbits % 2)) >>= (λ mem. pure (some mem))) s
    else if ltb s.m.dvsize nb
    then (if not (smallbits == 0)
        then (take_larger nb (compute_bit2idx (least_bit leftbits)) >>= (λ mem. pure (some mem))) s
        else if not (s.m.treemap == 0)
        then (tmalloc_small nb >>= (λ mem. pure (if not (mem == 0) then some mem else none))) s
        else done none s)
    else done none s

unfoldable pub malloc_large : (nb : ℕ) → Cmd (Option ℕ)
malloc_large nb s =
    if not (s.m.treemap == 0)
    then (tmalloc_large nb >>= (λ mem. pure (if not (mem == 0) then some mem else none))) s
    else done none s

-- From the designated victim.
unfoldable pub use_dv : (nb : ℕ) → Cmd ℕ
use_dv nb s =
    let rsize = sub64 s.m.dvsize nb in
    let p = s.m.dv in
    let dvs = s.m.dvsize in
    done (chunk2mem p) (
      if leb min_chunk_size rsize
      then set_size_and_pinuse_of_inuse_chunk p nb (
          set_size_and_pinuse_of_free_chunk (p + nb) rsize
            (record s { m = record (s.m) { dv = p + nb; dvsize = rsize } }))
      else set_inuse_and_pinuse p dvs (record s { m = record (s.m) { dvsize = 0; dv = 0 } }))

-- The padded size of a request: MAX_SIZE_T, which forces failure, for one that is too large.
unfoldable pub request_size : ℕ → ℕ
request_size bytes =
    if leb bytes max_small_request
    then (if ltb bytes min_request then min_chunk_size else pad_request bytes)
    else if leb max_request bytes
    then max_size_t
    else pad_request bytes

module _ (os : Os) where
  unfoldable pub malloc_rest : (nb : ℕ) → Cmd ℕ
  unfolding use_dv split_top
  malloc_rest nb s =
      if leb nb s.m.dvsize
      then use_dv nb s
      else if ltb nb s.m.topsize
      then split_top nb s
      else sys_alloc os nb s

  unfoldable pub dlmalloc : ℕ → Cmd ℕ
  unfolding request_size malloc_small malloc_large malloc_rest
  dlmalloc bytes = do
    let nb = request_size bytes
    found ←
        if leb bytes max_small_request
        then malloc_small nb
        else if leb max_request bytes
        then pure none
        else malloc_large nb
    elim found [ none ↦ malloc_rest nb | some mem ↦ pure mem ]
