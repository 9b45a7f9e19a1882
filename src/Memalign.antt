-- ===== src/Memalign.antt =====
-- `internal_memalign`, `dlmemalign`, `dlposix_memalign`, `dlvalloc` and `dlpvalloc` of src/dlmalloc.c.
pub mod Alignment
use Prim.Native.Nat.{bit_and}
use dlmalloc_rs.Prelude.{
  ℕ, zero, suc, ◌+◌, ◌-◌, ◌*◌, ◌/◌, ◌%◌, ◌^◌, Bool, not, ◌&&◌, ◌||◌, ◌==◌, Option, none, some, ltb,
  leb, if◌then◌else◌,
}
use dlmalloc_rs.Size.{
  add64, sub64, chunk2mem, mem2chunk, malloc_alignment, min_chunk_size, chunk_overhead, max_request,
  request2size,
}
use dlmalloc_rs.State.{
  State, Cmd, done, aborted, out_of_fuel, put, pure, ask, ◌>>=◌, ◌>>◌, set_head, set_prev_foot,
}
use dlmalloc_rs.Head.{is_mmapped, chunksize, set_inuse}
use dlmalloc_rs.Os.{Os}
use dlmalloc_rs.SysAlloc.{ensure_initialization}
use dlmalloc_rs.Free.{dispose_chunk}
use dlmalloc_rs.Malloc.{dlmalloc}

-- `while (a < alignment) a <<= 1`
unfoldable pub double_until : (rounds a alignment : ℕ) → Cmd ℕ
double_until zero a alignment s = out_of_fuel
double_until (suc rounds) a alignment s =
    let rest = double_until rounds (a * 2 % 2 ^ 64) alignment s in
    if ltb a alignment then rest else done a s

-- The alignment that is used: at least MIN_CHUNK_SIZE, and a power of two.
unfoldable pub round_alignment : (rounds alignment : ℕ) → Cmd ℕ
unfolding double_until
round_alignment rounds alignment s =
    let a = if ltb alignment min_chunk_size then min_chunk_size else alignment in
    if not (bit_and a (a - 1) == 0)
    then double_until rounds (malloc_alignment * 2) a s
    else done a s

-- The spot in the chunk `p` for a block aligned by `alignment`, a power of two.
unfoldable pub aligned_spot : (p mem alignment : ℕ) → ℕ
aligned_spot p mem alignment =
    let br = mem2chunk (sub64 (add64 mem alignment) 1 / alignment * alignment) in
    if leb min_chunk_size (sub64 br p) then br else add64 br alignment

module _ (os : Os) where
  -- The leading space is given back, or, in a mapped chunk, kept as an offset.
  unfoldable pub drop_leader : (p pos : ℕ) → Cmd (Unit {0})
  drop_leader p pos s =
      let leadsize = sub64 pos p in
      let newsize = sub64 (chunksize s p) leadsize in
      if is_mmapped s p
      then done tt
          (set_head pos newsize (set_prev_foot pos (add64 (s.heap.prev_foot p) leadsize) s))
      else (put (set_inuse pos newsize)
            >> put (set_inuse p leadsize)
            >> dispose_chunk os p leadsize)
          s

  -- Spare room at the end is given back.
  unfoldable pub drop_trailer : (p nb : ℕ) → Cmd (Unit {0})
  drop_trailer p nb s =
      let size = chunksize s p in
      let rest = sub64 size nb in
      if not (is_mmapped s p) && ltb (add64 nb min_chunk_size) size
      then (put (set_inuse p nb) >> put (set_inuse (p + nb) rest) >> dispose_chunk os (p + nb) rest)
          s
      else done tt s

  -- 64 rounds double 32 past every 64-bit word.
  unfoldable pub internal_memalign : (alignment bytes : ℕ) → Cmd ℕ
  unfolding round_alignment aligned_spot drop_leader drop_trailer
  internal_memalign alignment bytes = do
    align ← round_alignment 64 alignment
    let nb = request2size bytes
    if leb (sub64 max_request align) bytes
        then pure 0
        else dlmalloc os (sub64 (add64 (add64 nb align) min_chunk_size) chunk_overhead) >>= (λ mem.
          if mem == 0
          then pure 0
          else let p = mem2chunk mem in
            let p' = if not (mem % align == 0) then aligned_spot p mem align else p in
            (if not (mem % align == 0) then drop_leader p p' else pure tt)
            >> drop_trailer p' nb
            >> pure (chunk2mem p'))

  unfoldable pub dlmemalign : (alignment bytes : ℕ) → Cmd ℕ
  unfolding internal_memalign
  dlmemalign alignment bytes =
      if leb alignment malloc_alignment
      then dlmalloc os bytes
      else internal_memalign alignment bytes

  unfoldable pub dlvalloc : (bytes : ℕ) → Cmd ℕ
  unfolding dlmemalign
  dlvalloc bytes = do
    ensure_initialization os
    pagesz ← ask (λ s. s.mparams.page_size)
    dlmemalign pagesz bytes

-- The size that `dlpvalloc` asks for, at a page size that is a power of two.
unfoldable pub pvalloc_request : (pagesz bytes : ℕ) → ℕ
pvalloc_request pagesz bytes = sub64 (add64 bytes pagesz) 1 / pagesz * pagesz

module _ (os : Os) where
  unfoldable pub dlpvalloc : (bytes : ℕ) → Cmd ℕ
  unfolding dlmemalign pvalloc_request
  dlpvalloc bytes = do
    ensure_initialization os
    pagesz ← ask (λ s. s.mparams.page_size)
    dlmemalign os pagesz (pvalloc_request pagesz bytes)

-- What `dlposix_memalign` returns: 0 with the block, EINVAL or ENOMEM.
pub data PosixResult : Type 0 where
  allocated : ℕ → PosixResult
  einval : PosixResult
  enomem : PosixResult

abbrev pub posix_result : ℕ → PosixResult
posix_result mem = if mem == 0 then enomem else allocated mem

module _ (os : Os) where
  unfoldable pub dlposix_memalign : (alignment bytes : ℕ) → Cmd PosixResult
  unfolding internal_memalign
  dlposix_memalign alignment bytes =
      let d = alignment / 8 in
      let r = alignment % 8 in
      if alignment == malloc_alignment
      then dlmalloc os bytes >>= (λ mem. pure (posix_result mem))
      else if not (r == 0) || (d == 0 || not (bit_and d (d - 1) == 0))
      then pure einval
      else if leb bytes (sub64 max_request alignment)
      then internal_memalign os (if ltb alignment min_chunk_size then min_chunk_size else alignment)
          bytes
        >>= (λ mem. pure (posix_result mem))
      else pure enomem
