-- ===== src/SysAlloc.antt =====
-- Memory from the system: `init_mparams`, `mmap_alloc`, `mmap_resize` and the three ways in which
-- `sys_alloc` of src/dlmalloc.c asks for memory, with HAVE_MMAP, HAVE_MORECORE and MORECORE_CONTIGUOUS as on Linux, no
-- locks, and the single global state. errno is not modelled.
use dlmalloc_rs.Prelude.{
  ℕ, ◌+◌, ◌-◌, ◌*◌, ◌/◌, ◌%◌, ◌^◌, Bool, not, ◌&&◌, ◌||◌, ◌==◌, none, some, ltb, leb, if◌then◌else◌,
}
use Prim.Native.Nat.{min, bit_and, bit_or, bit_xor}
use dlmalloc_rs.Size.{
  add64, sub64, six_size_t_sizes, chunk_align_mask, mmap_foot_pad, chunk2mem, align_offset,
  half_max_size_t, top_foot_size, sys_alloc_padding, is_small,
}
use dlmalloc_rs.State.{
  State, Cmd, done, aborted, put, pure, ask, ◌>>=◌, ◌>>◌, set_head, set_prev_foot,
}
use dlmalloc_rs.Head.{chunksize, fencepost_head, with_pinuse, set_size_and_pinuse_of_inuse_chunk}
use dlmalloc_rs.Os.{Os, mfail, call_morecore, call_direct_mmap, call_mremap}
use dlmalloc_rs.Segments.{
  use_mmap_bit, use_lock_bit, disable_contiguous, page_align, granularity_align, mmap_align,
  is_page_aligned, segment_holding,
}

abbrev pub max_release_check_rate : ℕ
max_release_check_rate = 4095

-- `m->footprint += n`, and the maximum.
unfoldable pub add_footprint : ℕ → State → State
add_footprint n s =
    let f = add64 s.m.footprint n in
    record s {
      m = record (s.m) {
        footprint = f;
        max_footprint = if ltb s.m.max_footprint f then f else s.m.max_footprint;
      };
    }

unfoldable pub lower_least_addr : ℕ → State → State
lower_least_addr a s =
    if s.m.least_addr == 0 || ltb a s.m.least_addr
    then record s { m = record (s.m) { least_addr = a } }
    else s

-- Whether `n` more bytes are within the footprint limit.
unfoldable pub within_limit : State → ℕ → Bool
within_limit s n =
    let fp = add64 s.m.footprint n in
    s.m.footprint_limit == 0 || not (leb fp s.m.footprint || ltb s.m.footprint_limit fp)

-- The head of a mapped chunk and its two trailing words.
unfoldable pub mmapped_heads : (p psize : ℕ) → State → State
mmapped_heads p psize s =
    set_head (p + (psize + 8)) 0 (set_head (p + psize) fencepost_head (set_head p psize s))

-- The allocation from the top chunk with which `sys_alloc` and `dlmalloc` end.
unfoldable pub split_top : ℕ → Cmd ℕ
split_top nb s =
    let rsize = sub64 s.m.topsize nb in
    let p = s.m.top in
    let r = p + nb in
    done (chunk2mem p) (
      set_size_and_pinuse_of_inuse_chunk p nb (
        set_head r (with_pinuse rsize)
          (record s { m = record (s.m) { topsize = rsize; top = r } })))

-- What `mmap_alloc` writes into the region of `mmsize` bytes at `mm`.
unfoldable pub place_mapped : (mm mmsize : ℕ) → State → State
unfolding mmapped_heads lower_least_addr add_footprint
place_mapped mm mmsize s =
    let offset = align_offset (chunk2mem mm) in
    let psize = sub64 (sub64 mmsize offset) mmap_foot_pad in
    let p = mm + offset in
    add_footprint mmsize (lower_least_addr mm (mmapped_heads p psize (set_prev_foot p offset s)))

-- mremap keeps the contents of the pages, the old size's or the new one's, whichever is less.
abbrev moved : (from to n : ℕ) → (ℕ → ℕ) → ℕ → ℕ
moved from to n f a = if leb to a && ltb a (to + n) then f (a - to + from) else f a

unfoldable pub move_pages : (from to n : ℕ) → State → State
move_pages from to n s = record s {
  heap = record {
    prev_foot = moved from to n s.heap.prev_foot;
    head = moved from to n s.heap.head;
    fd = moved from to n s.heap.fd;
    bk = moved from to n s.heap.bk;
    child0 = moved from to n s.heap.child0;
    child1 = moved from to n s.heap.child1;
    parent = moved from to n s.heap.parent;
    index = moved from to n s.heap.index;
    payload = moved from to n s.heap.payload;
  };
}

-- What `mmap_resize` writes after a successful mremap.
unfoldable pub place_resized : (cp offset oldmmsize newmmsize : ℕ) → State → State
unfolding mmapped_heads add_footprint
place_resized cp offset oldmmsize newmmsize s =
    let s1 = mmapped_heads (cp + offset) (sub64 (sub64 newmmsize offset) mmap_foot_pad) s in
    add_footprint (sub64 newmmsize oldmmsize)
      (if ltb cp s.m.least_addr then record s1 { m = record (s1.m) { least_addr = cp } } else s1)

module _ (os : Os) where
  -- Constants: DEFAULT_MMAP_THRESHOLD 256K, DEFAULT_TRIM_THRESHOLD 2M; the granularity is the page
  -- size.
  unfoldable pub init_mparams : Cmd (Unit {0})
  init_mparams s =
      if s.mparams.magic == 0
      then (let psize = os.page_size in
          if not (bit_and psize (psize - 1) == 0)
          then aborted
          else let flags = use_lock_bit + use_mmap_bit in
            done tt (record s {
              mparams = record {
                magic = bit_or (bit_xor os.time 0x55555555) 8 / 8 * 8;
                page_size = psize;
                granularity = psize;
                mmap_threshold = 256 * 1024;
                trim_threshold = 2 * 1024 * 1024;
                default_mflags = flags;
              };
              m = record (s.m) { mflags = flags };
            }))
      else done tt s

  unfoldable pub ensure_initialization : Cmd (Unit {0})
  ensure_initialization s = if not (s.mparams.magic == 0) then done tt s else init_mparams s

  unfoldable pub mmap_alloc : ℕ → Cmd ℕ
  unfolding within_limit place_mapped
  mmap_alloc nb = do
    mmsize ← ask (λ s. mmap_align s (add64 nb (six_size_t_sizes + chunk_align_mask)))
    allowed ← ask (λ s. within_limit s mmsize)
    if allowed && ltb nb mmsize
        then call_direct_mmap os mmsize >>= (λ mm.
          if mm == mfail
          then pure 0
          else put (place_mapped mm mmsize) >> pure (chunk2mem (mm + align_offset (chunk2mem mm))))
        else pure 0

  unfoldable pub mmap_resize : (oldp nb flags : ℕ) → Cmd ℕ
  unfolding place_resized
  mmap_resize oldp nb flags = do
    oldsize ← ask (λ s. chunksize s oldp)
    big ← ask (λ s.
        leb (add64 nb 8) oldsize && leb (sub64 oldsize nb) (s.mparams.granularity * 2 % 2 ^ 64))
    offset ← ask (λ s. s.heap.prev_foot oldp)
    newmmsize ← ask (λ s. mmap_align s (add64 nb (six_size_t_sizes + chunk_align_mask)))
    let oldmmsize = add64 (add64 oldsize offset) mmap_foot_pad
    if is_small nb
        then pure 0
        else if big
        then pure oldp
        else call_mremap os (sub64 oldp offset) oldmmsize newmmsize flags >>= (λ cp.
          if cp == mfail
          then pure 0
          else put (move_pages (sub64 oldp offset) cp (min oldmmsize newmmsize))
            >> put (place_resized cp offset oldmmsize newmmsize)
            >> pure (cp + offset))

  -- The first call of sbrk, or one after recovery: (tbase, br, ssize).
  unfoldable pub morecore_first : (nb asize : ℕ) → Cmd (ℕ × ℕ × ℕ)
  unfolding within_limit
  morecore_first nb asize = do
    base ← call_morecore os 0
    ssize ← ask (λ s.
        if base == mfail || is_page_aligned s base
        then asize
        else add64 asize (sub64 (page_align s base) base))
    allowed ← ask (λ s. ltb nb ssize && (ltb ssize half_max_size_t && within_limit s ssize))
    if not (base == mfail) && allowed
        then call_morecore os ssize
          >>= (λ br. pure ((if br == base then base else mfail), br, ssize))
        else pure (mfail, mfail, ssize)

  -- An extension of the segment that holds top and ends at `end`.
  unfoldable pub morecore_extend : (nb end : ℕ) → Cmd (ℕ × ℕ × ℕ)
  morecore_extend nb end = do
    ssize ← ask (λ s. granularity_align s (add64 (sub64 nb s.m.topsize) sys_alloc_padding))
    if ltb ssize half_max_size_t
        then call_morecore os ssize >>= (λ br. pure ((if br == end then br else mfail), br, ssize))
        else pure (mfail, mfail, ssize)

  -- After a partial failure: extend the space at `br`, or give it back. The result is (br, ssize).
  unfoldable pub morecore_rest : (nb br ssize : ℕ) → Cmd (ℕ × ℕ)
  morecore_rest nb br ssize = do
    let want = add64 nb sys_alloc_padding
    esize ← ask (λ s. granularity_align s (sub64 want ssize))
    if not (br == mfail)
          && (ltb ssize half_max_size_t && (ltb ssize want && ltb esize half_max_size_t))
        then call_morecore os esize >>= (λ end.
          if not (end == mfail)
          then pure (br, add64 ssize esize)
          else call_morecore os (sub64 0 ssize) >>= (λ _. pure (mfail, ssize)))
        else pure (br, ssize)

  -- Way 1 of `sys_alloc`: (tbase, tsize).
  unfoldable pub alloc_contiguous : (nb asize : ℕ) → Cmd (ℕ × ℕ)
  unfolding morecore_first morecore_extend morecore_rest
  alloc_contiguous nb asize = do
    held ← ask (λ s. if s.m.top == 0 then none else segment_holding s s.m.top)
    (tbase, br, ssize) ← elim held [
      | none ↦ morecore_first nb asize
      | some ss ↦ morecore_extend nb (ss.base + ss.size)
    ]
    if not (tbase == mfail)
        then pure (tbase, ssize)
        else morecore_rest nb br ssize >>= (λ (br', ssize').
          if not (br' == mfail)
          then pure (br', ssize')
          else put disable_contiguous >> pure (mfail, 0))

  -- Way 3.
  unfoldable pub alloc_noncontiguous : (nb asize : ℕ) → Cmd (ℕ × ℕ)
  alloc_noncontiguous nb asize =
      if ltb asize half_max_size_t
      then (do
        br ← call_morecore os asize
        end ← call_morecore os 0
        let ssize = sub64 end br
        if not (br == mfail)
              && (not (end == mfail) && (ltb br end && ltb (add64 nb top_foot_size) ssize))
            then pure (br, ssize)
            else pure (mfail, 0))
      else pure (mfail, 0)
