-- ===== src/Independent.antt =====
-- `ialloc`, `internal_bulk_free` and `internal_inspect_all` of src/dlmalloc.c with their exported
-- forms. The pointer arrays that these read and write are lists here: `ialloc` returns the array's
-- address with its contents, and bulk free takes the contents and returns what it leaves there.
use dlmalloc_rs.Prelude.{
  ℕ, zero, suc, ◌+◌, ◌-◌, ◌*◌, ◌/◌, ◌%◌, ◌^◌, Bool, true, false, not, ◌&&◌, ◌==◌, List, [], ◌∷◌,
  ◌++◌, ltb, if◌then◌else◌,
}
use dlmalloc_rs.Size.{
  add64, sub64, chunk2mem, mem2chunk, align_as_chunk, chunk_overhead, request2size, is_small,
}
use dlmalloc_rs.State.{
  State, Segment, Cmd, done, aborted, out_of_fuel, and_then, put, pure, ask, ◌>>=◌, ◌>>◌,
  ok_address,
}
use dlmalloc_rs.Head.{
  is_inuse, chunksize, next_chunk, fencepost_head, set_inuse, set_size_and_pinuse_of_inuse_chunk,
}
use dlmalloc_rs.Os.{Os}
use dlmalloc_rs.Segments.{
  use_mmap, enable_mmap, disable_mmap, segment_holds, segments, is_initialized, should_trim,
}
use dlmalloc_rs.SysAlloc.{ensure_initialization}
use dlmalloc_rs.Release.{sys_trim}
use dlmalloc_rs.Free.{dispose_chunk}
use dlmalloc_rs.Malloc.{dlmalloc}
use dlmalloc_rs.Calloc.{fill}

-- The sum of the padded sizes of elements i, i + 1, ..., of which `left` are left.
unfoldable pub total_size : (sizes : ℕ → ℕ) → (left i acc : ℕ) → ℕ
total_size sizes zero i acc = acc
total_size sizes (suc left) i acc =
    total_size sizes left (i + 1) (add64 acc (request2size (sizes i)))

-- The chunk at `p` is cut into elements; the last one absorbs the rest. `left` more follow `i`.
unfoldable pub split_elements :
    (element_size : ℕ) (sizes : ℕ → ℕ) (left i p remainder : ℕ) → Cmd (List ℕ)
split_elements element_size sizes zero i p remainder =
    put (set_size_and_pinuse_of_inuse_chunk p remainder) >> pure (chunk2mem p ∷ [])
split_elements element_size sizes (suc left) i p remainder =
    let size = if not (element_size == 0) then element_size else request2size (sizes i) in
    put (set_size_and_pinuse_of_inuse_chunk p size)
    >> (split_elements element_size sizes left (i + 1) (p + size) (sub64 remainder size)
        >>= (λ rest. pure (chunk2mem p ∷ rest)))

module _ (os : Os) where
  -- The aggregate chunk, with direct mapping switched off for the call.
  unfoldable pub alloc_unmapped : (bytes : ℕ) → Cmd ℕ
  alloc_unmapped bytes = do
    was_enabled ← ask use_mmap
    put disable_mmap
    mem ← dlmalloc os bytes
    (if was_enabled then put enable_mmap else pure tt)
    pure mem

  -- `same` and `clear` are the two bits of `opts`; `chunks` is the caller's array or 0.
  unfoldable pub ialloc :
      (n_elements : ℕ) (sizes : ℕ → ℕ) (same clear : Bool) (chunks : ℕ) → Cmd (ℕ × List ℕ)
  unfolding alloc_unmapped split_elements total_size
  ialloc n_elements sizes same clear chunks = do
    ensure_initialization os
    let array_size = if chunks == 0 then request2size (n_elements * 8 % 2 ^ 64) else 0
    let element_size = if same then request2size (sizes 0) else 0
    let contents_size =
        if same then n_elements * element_size % 2 ^ 64 else total_size sizes n_elements 0 0
    let size = add64 contents_size array_size
    if n_elements == 0
        then (if chunks == 0 then dlmalloc os 0 >>= (λ mem. pure (mem, [])) else pure (chunks, []))
        else alloc_unmapped (sub64 size chunk_overhead) >>= (λ mem.
          if mem == 0
          then pure (0, [])
          else let p = mem2chunk mem in
            ask (λ s. chunksize s p) >>= (λ whole.
              (if clear then put (fill mem 0 (sub64 (sub64 whole 8) array_size)) else pure tt)
              >> (if chunks == 0
                  then put (
                      set_size_and_pinuse_of_inuse_chunk (p + contents_size)
                        (sub64 whole contents_size))
                  else pure tt)
              >> (split_elements element_size sizes (n_elements - 1) 0 p
                    (if chunks == 0 then contents_size else whole)
                  >>= (λ elements. pure (
                    (if chunks == 0 then chunk2mem (p + contents_size) else chunks),
                    elements,
                  )))))

  unfoldable pub dlindependent_calloc : (n_elements elem_size chunks : ℕ) → Cmd (ℕ × List ℕ)
  unfolding ialloc
  dlindependent_calloc n_elements elem_size chunks =
      ialloc n_elements (λ _. elem_size) true true chunks

  unfoldable pub dlindependent_comalloc :
      (n_elements : ℕ) (sizes : ℕ → ℕ) (chunks : ℕ) → Cmd (ℕ × List ℕ)
  unfolding ialloc
  dlindependent_comalloc n_elements sizes chunks = ialloc n_elements sizes false false chunks

  -- The pointer `mem`, with the pointers behind it in the array: adjacent chunks are first joined.
  unfoldable pub bulk_free_step : (mem : ℕ) (rest : List ℕ) → Cmd (List ℕ)
  bulk_free_step mem [] s =
      let p = mem2chunk mem in
      if ok_address s p && is_inuse s p
      then (dispose_chunk os p (chunksize s p) >> pure []) s
      else aborted
  bulk_free_step mem (b ∷ rest) s =
      let p = mem2chunk mem in
      let psize = chunksize s p in
      let next = next_chunk s p in
      if ok_address s p && is_inuse s p
      then (if b == chunk2mem next
          then done (chunk2mem p ∷ rest) (set_inuse p (add64 (chunksize s next) psize) s)
          else (dispose_chunk os p psize >> pure (b ∷ rest)) s)
      else aborted

  -- Each round takes one pointer; `rounds` is the array's length.
  unfoldable pub bulk_free_from : (rounds : ℕ) → List ℕ → Cmd (Unit {0})
  unfolding bulk_free_step
  bulk_free_from zero array = pure tt
  bulk_free_from (suc rounds) [] = pure tt
  bulk_free_from (suc rounds) (mem ∷ rest) =
      (if not (mem == 0) then bulk_free_step mem rest else pure rest)
      >>= (λ left. bulk_free_from rounds left)

  unfoldable pub internal_bulk_free : (nelem : ℕ) → List ℕ → Cmd ℕ
  unfolding bulk_free_from
  internal_bulk_free nelem array = do
    bulk_free_from nelem array
    trim ← ask (λ s. should_trim s s.m.topsize)
    (if trim then sys_trim os 0 >>= (λ _. pure tt) else pure tt)
    pure 0

-- What the handler of `internal_inspect_all` is called with.
pub record Inspected : Type 0 where
  pub start : ℕ
  pub end : ℕ
  pub used_bytes : ℕ

-- One chunk: 32 and 64 bytes are the sizes of the two chunk structures.
unfoldable pub inspect_chunk : State → ℕ → List Inspected
inspect_chunk s q =
    let next = next_chunk s q in
    let sz = chunksize s q in
    let used = if is_inuse s q then sub64 sz chunk_overhead else 0 in
    let start = if is_inuse s q then chunk2mem q else if is_small sz then q + 32 else q + 64 in
    if ltb start next then record { start = start; end = next; used_bytes = used } ∷ [] else []

unfoldable pub inspect_from : (rounds : ℕ) → Segment → (q : ℕ) → Cmd (List Inspected)
unfolding inspect_chunk
inspect_from zero g q s = out_of_fuel
inspect_from (suc rounds) g q s =
    let here = inspect_chunk s q in
    let rest = inspect_from rounds g (next_chunk s q) s in
    if segment_holds g q && not (s.heap.head q == fencepost_head)
    then (if q == s.m.top then done here s else and_then rest (λ later. pure (here ++ later)))
    else done [] s

-- A segment of `size` bytes has at most one chunk every 16 bytes; one more round ends the loop.
unfoldable pub inspect_segments : List Segment → Cmd (List Inspected)
unfolding inspect_from
inspect_segments [] = pure []
inspect_segments (g ∷ gs) =
    inspect_from (g.size / 16 + 2) g (align_as_chunk g.base)
    >>= (λ here. inspect_segments gs >>= (λ later. pure (here ++ later)))

unfoldable pub internal_inspect_all : Cmd (List Inspected)
unfolding inspect_segments
internal_inspect_all s =
    let all = inspect_segments (segments s) s in if is_initialized s then all else done [] s
