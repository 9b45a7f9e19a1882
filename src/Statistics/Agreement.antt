-- ===== src/Statistics/Agreement.antt =====
-- `internal_mallinfo` and `internal_malloc_stats` tell the same of the chunks that lie in the segments.
use dlmalloc_rs.Prelude.{◌+◌, ◌-◌, ◌%◌, ◌^◌, ◌≤◌, ◌<◌, ◌≡◌, ◌≢◌, refl, not, true, List, arith, ◌==◌}
use dlmalloc_rs.Size.{add64, sub64, top_foot_size}
use dlmalloc_rs.State.{State, done}
use dlmalloc_rs.Os.{Os}
use dlmalloc_rs.Segments.{segments, is_initialized}
use dlmalloc_rs.SysAlloc.{ensure_initialization}
use dlmalloc_rs.Mspace.Create.{top_foot}
use dlmalloc_rs.Statistics.{
  Tally, Mallinfo, mallinfo_from, mallinfo_of, internal_mallinfo, Stats, stats_of,
  internal_malloc_stats,
}
use dlmalloc_rs.Statistics.Layout.{Piece, IsCovered, free_size, free_count, sum_all}
use dlmalloc_rs.Statistics.Layout.{sum_all_free}
use dlmalloc_rs.Statistics.Loops.{plus, tally_segments-plus, used_segments-sub}

-- What `internal_mallinfo` and `internal_malloc_stats` tell of a state `s` whose segments hold the
-- chunks `pss` besides top.
pub record IsAccount (s : State) (pss : List (List Piece)) (i : Mallinfo) (r : Stats) : Type 0 where
  pub arena : i.arena ≡ s.m.topsize + 80 + sum_all (λ p. p.size) pss
  pub ordblks : i.ordblks ≡ 1 + sum_all free_count pss
  pub fordblks : i.fordblks ≡ s.m.topsize + 80 + sum_all free_size pss
  pub uordblks : i.uordblks + i.fordblks ≡ s.m.footprint
  pub hblkhd : i.hblkhd + i.arena ≡ s.m.footprint
  pub keepcost : i.keepcost ≡ s.m.topsize
  pub fp : (r.fp ≡ s.m.footprint) × (r.maxfp ≡ i.usmblks)
  pub used : r.used ≡ i.uordblks

-- When the parameters are initialized, the segments of an initialized state hold the chunks `pss` of
-- at least 16 bytes each up to top, a fencepost or their end, and these chunks, top and its foot of 80
-- bytes are no more than the footprint, which is below 2 ^ 64, then `internal_mallinfo` and
-- `internal_malloc_stats` both return and change nothing. The first tells the sum of these sizes
-- (arena), one more than the number of free chunks (ordblks), the bytes of top, its foot and the free
-- chunks (fordblks), and what the footprint has besides these (uordblks) and besides all the chunks
-- (hblkhd); the second prints the footprint and the same number of bytes in use.
pub stats-mallinfo :
    (os : Os) (s : State) (pss : List (List Piece))
    → s.mparams.magic ≢ 0
    → s.m.top ≢ 0
    → IsCovered s (segments s) pss
    → s.m.topsize + 80 + sum_all (λ p. p.size) pss ≤ s.m.footprint
    → s.m.footprint < 2 ^ 64
    → (i : Mallinfo) × (r : Stats) × (internal_mallinfo os s ≡ done i s)
      × (internal_malloc_stats os s ≡ done r s)
      × IsAccount s pss i r
unfolding internal_mallinfo internal_malloc_stats mallinfo_of stats_of is_initialized
    ensure_initialization add64 sub64
stats-mallinfo os s pss ready some covered fits word =
    let initialized : not (s.mparams.magic == 0) ≡ true = ground (arith, ready) in
    let started : not (s.m.top == 0) ≡ true = ground (arith, some) in
    let k = sum_all (λ (p : Piece). p.size) pss in
    let foot : (s.m.topsize + top_foot_size) % 2 ^ 64 ≡ s.m.topsize + 80 =
      omega (arith, top_foot, fits, word) in
    let mfree = s.m.topsize + 80 in
    let start : Tally = record { nfree = 1; mfree = mfree; sum = mfree } in
    let free = sum_all_free pss in
    let tally =
      tally_segments-plus s (segments s) start pss covered
        (omega arith, omega arith, omega (arith, fits, word)) in
    let used =
      used_segments-sub s (segments s) (s.m.footprint - mfree) pss covered
        (omega (arith, fits, free)) (omega (arith, word)) in
    let left : (s.m.footprint + 2 ^ 64 - mfree) % 2 ^ 64 ≡ s.m.footprint - mfree =
      omega (arith, fits, word) in
    let c = plus start (sum_all free_count pss) (sum_all free_size pss) k in
    (
      mallinfo_from s c,
      record {
        maxfp = s.m.max_footprint;
        fp = s.m.footprint;
        used = s.m.footprint - mfree - sum_all free_size pss;
      },
      rw (initialized, started, foot, tally) refl,
      rw (initialized, started, foot, left, used) refl,
      record {
        arena = refl;
        ordblks = refl;
        fordblks = refl;
        uordblks = omega (arith, fits, free, word);
        hblkhd = omega (arith, fits, word);
        keepcost = refl;
        fp = (refl, refl);
        used = omega (arith, fits, free, word);
      },
    )
