-- ===== src/Release.antt =====
-- Memory back to the system: `release_unused_segments` and `sys_trim` of src/dlmalloc.c, with
-- NO_SEGMENT_TRAVERSAL off.
use dlmalloc_rs.Prelude.{
  ℕ, ◌+◌, ◌-◌, ◌*◌, ◌/◌, Bool, true, false, not, ◌&&◌, ◌==◌, List, [], ◌∷◌, none, some, ltb, leb,
  if◌then◌else◌,
}
use dlmalloc_rs.Size.{
  add64, sub64, align_as_chunk, max_request, max_size_t, half_max_size_t, top_foot_size,
}
use dlmalloc_rs.State.{State, Segment, Cmd, abort, put, pure, ask, ◌>>=◌, ◌>>◌}
use dlmalloc_rs.Head.{is_inuse, chunksize}
use dlmalloc_rs.TreeBin.{insert_large_chunk, unlink_large_chunk}
use dlmalloc_rs.Os.{Os, mfail, call_morecore, call_munmap, call_mremap}
use dlmalloc_rs.Segments.{
  is_mmapped_segment, is_extern_segment, is_initialized, segment_holding, has_segment_link,
  update_segment, init_top,
}
use dlmalloc_rs.SysAlloc.{max_release_check_rate, ensure_initialization}

-- `m->dv = 0; m->dvsize = 0`
unfoldable pub clear_dv : State → State
clear_dv s = record s { m = record (s.m) { dv = 0; dvsize = 0 } }

unfoldable pub sub_footprint : ℕ → State → State
sub_footprint n s = record s { m = record (s.m) { footprint = sub64 s.m.footprint n } }

-- Whether the segment's first chunk is free and holds all of it.
unfoldable pub is_unused : State → Segment → Bool
is_unused s sp =
    let p = align_as_chunk sp.base in
    (is_mmapped_segment sp && not (is_extern_segment sp))
    && (not (is_inuse s p) && leb (sub64 (sp.base + sp.size) top_foot_size) (p + chunksize s p))

unfoldable pub shrink_top : (sp : Segment) → (released : ℕ) → State → State
unfolding sub_footprint
shrink_top sp released s = init_top s.m.top (sub64 s.m.topsize released) (
    sub_footprint released
      (update_segment sp.at (λ g. record g { size = sub64 g.size released }) s))

module _ (os : Os) where
  -- The loop's body: whether the segment was unmapped.
  unfoldable pub release_segment : Segment → Cmd Bool
  unfolding is_unused clear_dv sub_footprint
  release_segment sp = do
    let p = align_as_chunk sp.base
    unused ← ask (λ s. is_unused s sp)
    psize ← ask (λ s. chunksize s p)
    is_dv ← ask (λ s. p == s.m.dv)
    if not unused
        then pure false
        else (if is_dv then put clear_dv else unlink_large_chunk p)
          >> (call_munmap os sp.base sp.size >>= (λ r.
              if r == 0
              then put (sub_footprint sp.size) >> pure true
              else insert_large_chunk p psize >> pure false))

  -- The segments kept, the bytes released, and the number of segments seen.
  unfoldable pub release_from : List Segment → Cmd (List Segment × ℕ × ℕ)
  unfolding release_segment
  release_from [] = pure ([], 0, 0)
  release_from (sp ∷ rest) = do
    gone ← release_segment sp
    (kept, released, nsegs) ← release_from rest
    pure (
      (if gone then kept else sp ∷ kept),
      (if gone then add64 sp.size released else released),
      nsegs + 1,
    )

  unfoldable pub release_unused_segments : Cmd ℕ
  unfolding release_from
  release_unused_segments = do
    older ← ask (λ s. s.m.older)
    (kept, released, nsegs) ← release_from older
    put (λ s. record s {
      m = record (s.m) {
        older = kept;
        release_checks = if ltb max_release_check_rate nsegs then nsegs else max_release_check_rate;
      };
    })
    pure released

  -- A mapped segment is shrunk by mremap, or its end is unmapped.
  unfoldable pub trim_mapped : (sp : Segment) → (extra : ℕ) → Cmd ℕ
  trim_mapped sp extra = do
    linked ← ask (λ s. has_segment_link s sp)
    let newsize = sub64 sp.size extra
    if leb extra sp.size && not linked
        then call_mremap os sp.base sp.size newsize 0 >>= (λ r.
          if not (r == mfail)
          then pure extra
          else call_munmap os (sp.base + newsize) extra
            >>= (λ u. pure (if u == 0 then extra else 0)))
        else pure 0

  -- Another one by sbrk, if its end is where the last call set it.
  unfoldable pub trim_morecore : (sp : Segment) → (extra unit : ℕ) → Cmd ℕ
  trim_morecore sp extra unit = do
    let amount = if leb half_max_size_t extra then half_max_size_t + 1 - unit else extra
    old_br ← call_morecore os 0
    if old_br == sp.base + sp.size
        then call_morecore os (sub64 0 amount) >>= (λ rel_br. call_morecore os 0 >>= (λ new_br.
          pure (if not (rel_br == mfail) && ltb new_br old_br then sub64 old_br new_br else 0)))
        else pure 0

  unfoldable pub trim_top : ℕ → Cmd ℕ
  unfolding trim_mapped trim_morecore shrink_top
  trim_top pad = do
    unit ← ask (λ s. s.mparams.granularity)
    topsize ← ask (λ s. s.m.topsize)
    let extra = (add64 (sub64 topsize pad) (unit - 1) / unit - 1) * unit
    held ← ask (λ s. segment_holding s s.m.top)
    elim held [
      | none ↦ abort
      | some sp ↦
          (if is_extern_segment sp
            then pure 0
            else if is_mmapped_segment sp
            then trim_mapped sp extra
            else trim_morecore sp extra unit)
          >>= (λ released.
              if released == 0 then pure 0 else put (shrink_top sp released) >> pure released)
    ]

  unfoldable pub sys_trim : ℕ → Cmd Bool
  unfolding trim_top release_unused_segments
  sys_trim pad = do
    ensure_initialization os
    ready ← ask is_initialized
    let room = add64 pad top_foot_size
    spare ← ask (λ s. ltb room s.m.topsize)
    if ltb pad max_request && ready
        then (if spare then trim_top room else pure 0) >>= (λ released.
            release_unused_segments >>= (λ more.
              let total = add64 released more in
              put (λ s.
                if total == 0 && ltb s.m.trim_check s.m.topsize
                then record s { m = record (s.m) { trim_check = max_size_t } }
                else s)
              >> pure (not (total == 0))))
        else pure false
