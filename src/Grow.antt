-- ===== src/Grow.antt =====
-- `prepend_alloc`, `add_segment` and `sys_alloc` of src/dlmalloc.c.
use dlmalloc_rs.Prelude.{
  ℕ, zero, suc, ◌+◌, ◌-◌, ◌%◌, Bool, not, ◌&&◌, ◌||◌, ◌==◌, List, [], ◌∷◌, Option, none, some, ltb,
  leb, if◌then◌else◌,
}
use dlmalloc_rs.Size.{
  add64, sub64, four_size_t_sizes, chunk_align_mask, chunk2mem, align_offset, align_as_chunk,
  pad_request, min_chunk_size, top_foot_size, sys_alloc_padding,
}
use dlmalloc_rs.State.{State, Segment, Cmd, done, abort, put, pure, ask, ◌>>=◌, ◌>>◌, set_head}
use dlmalloc_rs.Head.{
  is_inuse, chunksize, fencepost_head, with_pinuse, set_size_and_pinuse_of_inuse_chunk,
  set_size_and_pinuse_of_free_chunk, set_free_with_pinuse,
}
use dlmalloc_rs.SmallBin.{init_bins}
use dlmalloc_rs.TreeBin.{insert_chunk, unlink_chunk}
use dlmalloc_rs.Os.{Os, mfail, call_mmap}
use dlmalloc_rs.Segments.{
  use_mmap_bit, is_extern_segment, is_initialized, use_mmap, use_noncontiguous, granularity_align,
  segment_holds, segments, segment_holding, update_segment, init_top,
}
use dlmalloc_rs.SysAlloc.{
  max_release_check_rate, add_footprint, lower_least_addr, within_limit, split_top,
  ensure_initialization, mmap_alloc, alloc_contiguous, alloc_noncontiguous,
}

-- The remainder `q` is merged with the first chunk of the old base: top, dv, a free or a used chunk.
unfoldable pub merge_remainder : (q qsize oldfirst : ℕ) → Cmd (Unit {0})
merge_remainder q qsize oldfirst s =
    if oldfirst == s.m.top
    then (let tsize = add64 s.m.topsize qsize in
        done tt (
          set_head q (with_pinuse tsize)
            (record s { m = record (s.m) { topsize = tsize; top = q } })))
    else if oldfirst == s.m.dv
    then (let dsize = add64 s.m.dvsize qsize in
        done tt (
          set_size_and_pinuse_of_free_chunk q dsize
            (record s { m = record (s.m) { dvsize = dsize; dv = q } })))
    else if not (is_inuse s oldfirst)
    then (let nsize = chunksize s oldfirst in
        let total = add64 qsize nsize in
        (unlink_chunk oldfirst nsize
            >> put (set_free_with_pinuse q total (oldfirst + nsize))
            >> insert_chunk q total)
          s)
    else (put (set_free_with_pinuse q qsize oldfirst) >> insert_chunk q qsize) s

unfoldable pub prepend_alloc : (newbase oldbase nb : ℕ) → Cmd ℕ
unfolding merge_remainder
prepend_alloc newbase oldbase nb = do
  let p = align_as_chunk newbase
  let oldfirst = align_as_chunk oldbase
  let psize = sub64 oldfirst p
  let q = p + nb
  put (set_size_and_pinuse_of_inuse_chunk p nb)
  merge_remainder q (sub64 psize nb) oldfirst
  pure (chunk2mem p)

-- Fenceposts from `p` up to the old end of the segment, one every 8 bytes.
unfoldable pub fenceposts : (rounds p old_end : ℕ) → State → State
fenceposts zero p old_end s = s
fenceposts (suc rounds) p old_end s =
    let s1 = set_head p fencepost_head s in
    let rest = fenceposts rounds (p + 8) old_end s1 in if ltb (p + 8 + 8) old_end then rest else s1

-- The old record of the first segment is pushed to `ss`, and the new region takes its place.
unfoldable pub push_segment : (ss tbase tsize mmapped : ℕ) → State → State
push_segment ss tbase tsize mmapped s = record s {
  m = record (s.m) {
    seg = record (s.m.seg) { base = tbase; size = tsize; sflags = mmapped };
    older = record (s.m.seg) { at = ss } ∷ s.m.older;
  };
}

-- Whatever of the old top lies before the record becomes an ordinary free chunk.
unfoldable pub bin_old_top : (old_top csp : ℕ) → Cmd (Unit {0})
bin_old_top old_top csp =
    if not (csp == old_top)
    then put (set_free_with_pinuse old_top (csp - old_top) csp)
      >> insert_chunk old_top (csp - old_top)
    else pure tt

-- With no segment that holds the top chunk the code reads through a null pointer: `aborted`.
unfoldable pub add_segment : (tbase tsize mmapped : ℕ) → Cmd (Unit {0})
unfolding push_segment fenceposts bin_old_top
add_segment tbase tsize mmapped = do
  old_top ← ask (λ s. s.m.top)
  held ← ask (λ s. segment_holding s old_top)
  elim held [
    | none ↦ abort
    | some oldsp ↦
        let old_end = oldsp.base + oldsp.size in
        let ssize = pad_request 32 in
        let rawsp = sub64 old_end (ssize + four_size_t_sizes + chunk_align_mask) in
        let asp = rawsp + align_offset (chunk2mem rawsp) in
        let csp = if ltb asp (old_top + min_chunk_size) then old_top else asp in
        let tnext = csp + ssize in
        put (init_top tbase (sub64 tsize top_foot_size))
        >> put (set_size_and_pinuse_of_inuse_chunk csp ssize)
        >> put (push_segment (chunk2mem csp) tbase tsize mmapped)
        >> put (fenceposts (old_end - tnext + 1) tnext old_end)
        >> bin_old_top old_top csp
  ]

-- The first segment that ends, or begins, at an address.
unfoldable pub ending_at : ℕ → List Segment → Option Segment
ending_at a [] = none
ending_at a (g ∷ gs) = if a == g.base + g.size then some g else ending_at a gs

unfoldable pub beginning_at : ℕ → List Segment → Option Segment
beginning_at a [] = none
beginning_at a (g ∷ gs) = if g.base == a then some g else beginning_at a gs

unfoldable pub same_kind : Segment → ℕ → Bool
same_kind g mmap_flag = not (is_extern_segment g) && g.sflags % 2 == mmap_flag

unfoldable pub allocate_top : ℕ → Cmd ℕ
unfolding split_top
allocate_top nb s = if ltb nb s.m.topsize then split_top nb s else done 0 s

-- First-time initialization of the global state.
unfoldable pub initialize : (tbase tsize mmap_flag : ℕ) → State → State
unfolding lower_least_addr
initialize tbase tsize mmap_flag s =
    let s1 = lower_least_addr tbase s in
    let s2 = record s1 {
      m = record (s1.m) {
        seg = record (s1.m.seg) { base = tbase; size = tsize; sflags = mmap_flag };
        magic = s1.mparams.magic;
        release_checks = max_release_check_rate;
      };
    } in
    init_top tbase (sub64 tsize top_foot_size) (init_bins s2)

-- The new space neither extends the top's segment: it is put before one, or becomes a new one.
unfoldable pub attach : (tbase tsize mmap_flag nb : ℕ) → Cmd ℕ
unfolding same_kind
attach tbase tsize mmap_flag nb = do
  put (λ s.
      if ltb tbase s.m.least_addr then record s { m = record (s.m) { least_addr = tbase } } else s)
  found ← ask (λ s. beginning_at (tbase + tsize) (segments s))
  elim found [
    | none ↦ add_segment tbase tsize mmap_flag >> allocate_top nb
    | some sp ↦
        if same_kind sp mmap_flag
        then put (update_segment sp.at (λ g. record g { base = tbase; size = add64 g.size tsize }))
          >> prepend_alloc tbase sp.base nb
        else add_segment tbase tsize mmap_flag >> allocate_top nb
  ]

-- Merge with an existing segment, or add one.
unfoldable pub merge_space : (tbase tsize mmap_flag nb : ℕ) → Cmd ℕ
unfolding attach
merge_space tbase tsize mmap_flag nb = do
  found ← ask (λ s. ending_at tbase (segments s))
  top ← ask (λ s. s.m.top)
  elim found [
    | none ↦ attach tbase tsize mmap_flag nb
    | some sp ↦
        if same_kind sp mmap_flag && segment_holds sp top
        then put (update_segment sp.at (λ g. record g { size = add64 g.size tsize }))
          >> put (λ s. init_top s.m.top (add64 s.m.topsize tsize) s)
          >> allocate_top nb
        else attach tbase tsize mmap_flag nb
  ]

unfoldable pub use_space : (tbase tsize mmap_flag nb : ℕ) → Cmd ℕ
unfolding initialize merge_space
use_space tbase tsize mmap_flag nb = do
  put (add_footprint tsize)
  ready ← ask is_initialized
  if not ready
      then put (initialize tbase tsize mmap_flag) >> allocate_top nb
      else merge_space tbase tsize mmap_flag nb

module _ (os : Os) where
  -- The three ways to get memory, in the order of preference: (tbase, tsize, mmap_flag).
  unfoldable pub obtain : (nb asize : ℕ) → Cmd (ℕ × ℕ × ℕ)
  obtain nb asize = do
    apart ← ask use_noncontiguous
    (tbase, tsize) ← if not apart then alloc_contiguous os nb asize else pure (mfail, 0)
    if not (tbase == mfail)
        then pure (tbase, tsize, 0)
        else call_mmap os asize >>= (λ mp.
          if not (mp == mfail)
          then pure (mp, asize, use_mmap_bit)
          else alloc_noncontiguous os nb asize >>= (λ (br, ssize). pure (br, ssize, 0)))

  unfoldable pub grow : ℕ → Cmd ℕ
  unfolding obtain
  grow nb = do
    asize ← ask (λ s. granularity_align s (add64 nb sys_alloc_padding))
    allowed ← ask (λ s. within_limit s asize)
    if leb asize nb || not allowed
        then pure 0
        else obtain nb asize >>= (λ (tbase, tsize, flag).
          if not (tbase == mfail) then use_space tbase tsize flag nb else pure 0)

  unfoldable pub sys_alloc : ℕ → Cmd ℕ
  unfolding grow
  sys_alloc nb = do
    ensure_initialization os
    direct ← ask (λ s. use_mmap s && (leb s.mparams.mmap_threshold nb && not (s.m.topsize == 0)))
    mem ← if direct then mmap_alloc os nb else pure 0
    if not (mem == 0) then pure mem else grow nb
