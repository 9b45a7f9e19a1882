-- ===== src/Checks/Chunks.antt =====
-- The debugging checks of single chunks in src/dlmalloc.c: `do_check_any_chunk` and its like. An
-- `assert` that fails aborts.
use dlmalloc_rs.Prelude.{
  ℕ, ◌+◌, ◌*◌, ◌/◌, ◌%◌, Bool, true, false, not, ◌&&◌, ◌||◌, ◌==◌, ltb, leb, Option, none, some,
  if◌then◌else◌,
}
use dlmalloc_rs.Size.{
  add64, sub64, chunk2mem, mem2chunk, is_aligned, is_small, min_chunk_size, mmap_foot_pad,
  top_foot_size,
}
use dlmalloc_rs.State.{State, Segment, Cmd, done, aborted, pure, ask, ◌>>=◌, ◌>>◌, ok_address}
use dlmalloc_rs.Head.{
  is_inuse, is_mmapped, pinuse, next_pinuse, chunksize, next_chunk, prev_chunk, fencepost_head,
  chunk_plus_offset,
}
use dlmalloc_rs.Segments.{segment_holding, use_mmap}

abbrev pub assert : (State → Bool) → Cmd (Unit {0})
assert test s = if test s then done tt s else aborted

-- `p->head & ~INUSE_BITS`, which keeps the third-lowest bit.
abbrev pub size_and_flag : State → (p : ℕ) → ℕ
size_and_flag s p = s.heap.head p / 4 * 4

unfoldable pub do_check_any_chunk : (p : ℕ) → Cmd (Unit {0})
do_check_any_chunk p = do
  assert (λ s. is_aligned (chunk2mem p) || s.heap.head p == fencepost_head)
  assert (λ s. ok_address s p)

abbrev pub has_segment : Option Segment → Bool
has_segment none = false
has_segment (some g) = true

-- Top ends where its segment does, but for the foot.
abbrev pub reaches_end : (p sz : ℕ) → Option Segment → Bool
reaches_end p sz none = false
reaches_end p sz (some g) = sz == sub64 (sub64 (g.base + g.size) p) top_foot_size

unfoldable pub do_check_top_chunk : (p : ℕ) → Cmd (Unit {0})
do_check_top_chunk p = do
  assert (λ s. has_segment (segment_holding s p))
  assert (λ s. is_aligned (chunk2mem p) || s.heap.head p == fencepost_head)
  assert (λ s. ok_address s p)
  assert (λ s. size_and_flag s p == s.m.topsize)
  assert (λ s. ltb 0 (size_and_flag s p))
  assert (λ s. reaches_end p (size_and_flag s p) (segment_holding s p))
  assert (λ s. pinuse s p)
  assert (λ s. not (pinuse s (chunk_plus_offset p (size_and_flag s p))))

-- `len` is the size of the mapping around the chunk.
unfoldable pub do_check_mmapped_chunk : (p : ℕ) → Cmd (Unit {0})
do_check_mmapped_chunk p = do
  assert (λ s. is_mmapped s p)
  assert use_mmap
  assert (λ s. is_aligned (chunk2mem p) || s.heap.head p == fencepost_head)
  assert (λ s. ok_address s p)
  assert (λ s. not (is_small (chunksize s p)))
  assert (λ s.
      let len = add64 (add64 (chunksize s p) (s.heap.prev_foot p)) mmap_foot_pad in
      len % s.mparams.page_size == 0)
  assert (λ s. s.heap.head (chunk_plus_offset p (chunksize s p)) == fencepost_head)
  assert (λ s. s.heap.head (chunk_plus_offset p (chunksize s p + 8)) == 0)

unfoldable pub do_check_inuse_chunk : (p : ℕ) → Cmd (Unit {0})
unfolding do_check_any_chunk do_check_mmapped_chunk
do_check_inuse_chunk p = do
  do_check_any_chunk p
  assert (λ s. is_inuse s p)
  assert (λ s. next_pinuse s p)
  assert (λ s. is_mmapped s p || (pinuse s p || next_chunk s (prev_chunk s p) == p))
  mapped ← ask (λ s. is_mmapped s p)
  if mapped then do_check_mmapped_chunk p else pure tt

-- A free chunk that is neither dv nor top: one for a bin, or a marker, of 8 bytes.
abbrev pub check_binned_chunk : (p : ℕ) → Cmd (Unit {0})
check_binned_chunk p = do
  size ← ask (λ s. chunksize s p)
  if leb min_chunk_size size
      then (assert (λ s. size % 16 == 0)
          >> assert (λ s. is_aligned (chunk2mem p))
          >> assert (λ s. s.heap.prev_foot (chunk_plus_offset p size) == size)
          >> assert (λ s. pinuse s p)
          >> assert
              (λ s. chunk_plus_offset p size == s.m.top || is_inuse s (chunk_plus_offset p size))
          >> assert (λ s. s.heap.bk (s.heap.fd p) == p)
          >> assert (λ s. s.heap.fd (s.heap.bk p) == p))
      else assert (λ s. size == 8)

unfoldable pub do_check_free_chunk : (p : ℕ) → Cmd (Unit {0})
unfolding do_check_any_chunk
do_check_free_chunk p = do
  do_check_any_chunk p
  assert (λ s. not (is_inuse s p))
  assert (λ s. not (next_pinuse s p))
  assert (λ s. not (is_mmapped s p))
  binned ← ask (λ s. not (p == s.m.dv) && not (p == s.m.top))
  if binned then check_binned_chunk p else pure tt

unfoldable pub do_check_malloced_chunk : (mem size : ℕ) → Cmd (Unit {0})
unfolding do_check_inuse_chunk
do_check_malloced_chunk mem size =
    let p = mem2chunk mem in
    if not (mem == 0)
    then (do_check_inuse_chunk p
        >> assert (λ s. size_and_flag s p % 16 == 0)
        >> assert (λ s. leb min_chunk_size (size_and_flag s p))
        >> assert (λ s. leb size (size_and_flag s p))
        >> assert (λ s. is_mmapped s p || ltb (size_and_flag s p) (add64 size min_chunk_size)))
    else pure tt
