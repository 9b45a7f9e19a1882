-- ===== src/Free.antt =====
-- `dlfree` and `dispose_chunk` of src/dlmalloc.c. The two share their steps: consolidation with the
-- chunk before, with the chunk behind, and the binning of what results.
use dlmalloc_rs.Prelude.{ℕ, ◌+◌, not, ◌&&◌, ◌==◌, Option, none, some, if◌then◌else◌}
use dlmalloc_rs.Size.{add64, sub64, mem2chunk, mmap_foot_pad, is_small}
use dlmalloc_rs.State.{Cmd, done, aborted, put, pure, ask, ◌>>=◌, ◌>>◌, set_head, ok_address}
use dlmalloc_rs.Head.{
  cinuse, pinuse, inuse_bits, is_inuse, is_mmapped, chunksize, with_pinuse, chunk_minus_offset,
  set_size_and_pinuse_of_free_chunk, set_free_with_pinuse, ok_next,
}
use dlmalloc_rs.SmallBin.{insert_small_chunk}
use dlmalloc_rs.TreeBin.{insert_large_chunk, insert_chunk, unlink_chunk}
use dlmalloc_rs.Os.{Os, call_munmap}
use dlmalloc_rs.Segments.{should_trim}
use dlmalloc_rs.Release.{clear_dv, sub_footprint, release_unused_segments, sys_trim}

-- What is left to do after the consolidation: put a chunk into a bin, look whether to trim a top
-- of some size, or nothing.
pub data Next : Type 0 where
  to_bin : (p psize : ℕ) → Next
  grown_top : (tsize : ℕ) → Next
  settled : Next

-- Consolidation with the chunk behind, `next`.
unfoldable pub consolidate_forward : (p psize next : ℕ) → Cmd Next
consolidate_forward p psize next s =
    if not (cinuse s next)
    then (if next == s.m.top
        then (let tsize = add64 s.m.topsize psize in
            let s1 =
              set_head p (with_pinuse tsize)
                (record s { m = record (s.m) { topsize = tsize; top = p } }) in
            done (grown_top tsize) (if p == s.m.dv then clear_dv s1 else s1))
        else if next == s.m.dv
        then (let dsize = add64 s.m.dvsize psize in
            done settled (
              set_size_and_pinuse_of_free_chunk p dsize
                (record s { m = record (s.m) { dvsize = dsize; dv = p } })))
        else let nsize = chunksize s next in
          let total = add64 psize nsize in
          (unlink_chunk next nsize >> put (set_size_and_pinuse_of_free_chunk p total) >> (λ t.
              if p == t.m.dv
              then done settled (record t { m = record (t.m) { dvsize = total } })
              else done (to_bin p total) t))
            s)
    else done (to_bin p psize) (set_free_with_pinuse p psize next s)

unfoldable pub dispose_forward : (p psize next : ℕ) → Cmd (Unit {0})
dispose_forward p psize next s =
    if ok_address s next
    then (consolidate_forward p psize next >>= elim [
      | to_bin q total ↦ insert_chunk q total
      | grown_top tsize ↦ pure tt
      | settled ↦ pure tt
    ])
        s
    else aborted

module _ (os : Os) where
  -- The end of a directly mapped chunk.
  unfoldable pub unmap_chunk : (p psize prevsize : ℕ) → Cmd (Unit {0})
  unmap_chunk p psize prevsize = do
    let size = add64 psize (add64 prevsize mmap_foot_pad)
    r ← call_munmap os (sub64 p prevsize) size
    if r == 0 then put (sub_footprint size) else pure tt

  -- Consolidation with the chunk before `p`: what is left, or `none` if all is done.
  unfoldable pub consolidate_backward : (p psize next : ℕ) → Cmd (Option (ℕ × ℕ))
  unfolding unmap_chunk
  consolidate_backward p psize next s =
      let prevsize = s.heap.prev_foot p in
      let prev = chunk_minus_offset p prevsize in
      let total = add64 psize prevsize in
      if pinuse s p
      then done (some (p, psize)) s
      else if is_mmapped s p
      then (unmap_chunk p psize prevsize >> pure none) s
      else if ok_address s prev
      then (if not (prev == s.m.dv)
          then (unlink_chunk prev prevsize >> pure (some (prev, total))) s
          else if inuse_bits (s.heap.head next) == 3
          then done none (
              set_free_with_pinuse prev total next
                (record s { m = record (s.m) { dvsize = total } }))
          else done (some (prev, total)) s)
      else aborted

  unfoldable pub dispose_chunk : (p psize : ℕ) → Cmd (Unit {0})
  unfolding consolidate_backward dispose_forward
  dispose_chunk p psize =
      consolidate_backward p psize (p + psize)
      >>= elim [ none ↦ pure tt | some (q, total) ↦ dispose_forward q total (p + psize) ]

  -- A large chunk goes to its tree; now and then unused segments are released.
  unfoldable pub bin_freed : (p psize : ℕ) → Cmd (Unit {0})
  bin_freed p psize =
      if is_small psize
      then insert_small_chunk p psize
      else insert_large_chunk p psize
        >> put (λ s. record s { m = record (s.m) { release_checks = sub64 s.m.release_checks 1 } })
        >> (ask (λ s. s.m.release_checks)
            >>= (λ n. if n == 0 then release_unused_segments os >>= (λ _. pure tt) else pure tt))

  unfoldable pub free_forward : (p psize next : ℕ) → Cmd (Unit {0})
  unfolding bin_freed
  free_forward p psize next s =
      if ok_next p next && pinuse s next
      then (consolidate_forward p psize next >>= elim [
        | to_bin q total ↦ bin_freed q total
        | grown_top tsize ↦
            ask (λ t. should_trim t tsize)
            >>= (λ trim. if trim then sys_trim os 0 >>= (λ _. pure tt) else pure tt)
        | settled ↦ pure tt
      ])
          s
      else aborted

  unfoldable pub dlfree : ℕ → Cmd (Unit {0})
  unfolding consolidate_backward free_forward
  dlfree mem s =
      if mem == 0
      then done tt s
      else let p = mem2chunk mem in
        let psize = chunksize s p in
        let next = p + psize in
        if ok_address s p && is_inuse s p
        then (consolidate_backward p psize next
              >>= elim [ none ↦ pure tt | some (q, total) ↦ free_forward q total next ])
            s
        else aborted
