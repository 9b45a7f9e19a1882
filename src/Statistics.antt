-- ===== src/Statistics.antt =====
-- The statistics of src/dlmalloc.c: `internal_mallinfo`, `internal_malloc_stats` and their exported
-- forms. The lines that `internal_malloc_stats` prints are its three numbers.
pub mod Layout
pub mod Loops
pub mod Agreement
use dlmalloc_rs.Prelude.{
  ℕ, zero, suc, ◌+◌, ◌/◌, Bool, true, not, ◌&&◌, ◌==◌, List, [], ◌∷◌, if◌then◌else◌,
}
use dlmalloc_rs.Size.{add64, sub64, align_as_chunk, top_foot_size}
use dlmalloc_rs.State.{
  State, Segment, Cmd, done, aborted, out_of_fuel, and_then, pure, ask, ◌>>=◌, ◌>>◌,
}
use dlmalloc_rs.Head.{is_inuse, chunksize, next_chunk, fencepost_head}
use dlmalloc_rs.Os.{Os}
use dlmalloc_rs.Segments.{segment_holds, segments, is_initialized}
use dlmalloc_rs.SysAlloc.{ensure_initialization}
use dlmalloc_rs.Mspace.{ok_magic}

pub record Mallinfo : Type 0 where
  pub arena : ℕ
  pub ordblks : ℕ
  pub smblks : ℕ
  pub hblks : ℕ
  pub hblkhd : ℕ
  pub usmblks : ℕ
  pub fsmblks : ℕ
  pub uordblks : ℕ
  pub fordblks : ℕ
  pub keepcost : ℕ

abbrev pub no_mallinfo : Mallinfo
no_mallinfo = record {
  arena = 0;
  ordblks = 0;
  smblks = 0;
  hblks = 0;
  hblkhd = 0;
  usmblks = 0;
  fsmblks = 0;
  uordblks = 0;
  fordblks = 0;
  keepcost = 0;
}

-- The sums of `internal_mallinfo`.
pub record Tally : Type 0 where
  pub nfree : ℕ
  pub mfree : ℕ
  pub sum : ℕ

-- The condition of the loops over a segment's chunks.
abbrev pub goes_on : State → Segment → (q : ℕ) → Bool
goes_on s g q = segment_holds g q && (not (q == s.m.top) && not (s.heap.head q == fencepost_head))

abbrev pub tally_chunk : State → (q : ℕ) → Tally → Tally
tally_chunk s q c =
    let sz = chunksize s q in
    if not (is_inuse s q)
    then record { nfree = add64 c.nfree 1; mfree = add64 c.mfree sz; sum = add64 c.sum sz }
    else record c { sum = add64 c.sum sz }

unfoldable pub tally_from : (rounds : ℕ) → Segment → (q : ℕ) → Tally → Cmd Tally
tally_from zero g q c s = out_of_fuel
tally_from (suc rounds) g q c s =
    let rest = tally_from rounds g (next_chunk s q) (tally_chunk s q c) s in
    if goes_on s g q then rest else done c s

-- A segment of `size` bytes has at most one chunk every 16 bytes; one more round ends the loop.
unfoldable pub tally_segments : List Segment → Tally → Cmd Tally
unfolding tally_from
tally_segments [] c = pure c
tally_segments (g ∷ gs) c =
    tally_from (g.size / 16 + 2) g (align_as_chunk g.base) c >>= (λ c'. tally_segments gs c')

abbrev pub mallinfo_from : State → Tally → Mallinfo
mallinfo_from s c = record {
  arena = c.sum;
  ordblks = c.nfree;
  smblks = 0;
  hblks = 0;
  hblkhd = sub64 s.m.footprint c.sum;
  usmblks = s.m.max_footprint;
  fsmblks = 0;
  uordblks = sub64 s.m.footprint c.mfree;
  fordblks = c.mfree;
  keepcost = s.m.topsize;
}

unfoldable pub mallinfo_of : Cmd Mallinfo
unfolding tally_segments
mallinfo_of s =
    let mfree = add64 s.m.topsize top_foot_size in
    let start : Tally = record { nfree = 1; mfree = mfree; sum = mfree } in
    let told =
      and_then (tally_segments (segments s) start s) (λ c. ask (λ s'. mallinfo_from s' c)) in
    if is_initialized s then told else done no_mallinfo s

-- The numbers that `internal_malloc_stats` prints.
pub record Stats : Type 0 where
  pub maxfp : ℕ
  pub fp : ℕ
  pub used : ℕ

abbrev pub used_without : State → (q used : ℕ) → ℕ
used_without s q used = if not (is_inuse s q) then sub64 used (chunksize s q) else used

unfoldable pub used_from : (rounds : ℕ) → Segment → (q used : ℕ) → Cmd ℕ
used_from zero g q used s = out_of_fuel
used_from (suc rounds) g q used s =
    let rest = used_from rounds g (next_chunk s q) (used_without s q used) s in
    if goes_on s g q then rest else done used s

unfoldable pub used_segments : List Segment → (used : ℕ) → Cmd ℕ
unfolding used_from
used_segments [] used = pure used
used_segments (g ∷ gs) used =
    used_from (g.size / 16 + 2) g (align_as_chunk g.base) used >>= (λ used'. used_segments gs used')

unfoldable pub stats_of : Cmd Stats
unfolding used_segments
stats_of s =
    let used = sub64 s.m.footprint (add64 s.m.topsize top_foot_size) in
    let told = and_then (used_segments (segments s) used s) (λ used'.
      ask (λ s'. record { maxfp = s'.m.max_footprint; fp = s'.m.footprint; used = used' })) in
    if is_initialized s then told else done (record { maxfp = 0; fp = 0; used = 0 }) s

module _ (os : Os) where
  unfoldable pub internal_mallinfo : Cmd Mallinfo
  unfolding mallinfo_of
  internal_mallinfo = ensure_initialization os >> mallinfo_of

  unfoldable pub internal_malloc_stats : Cmd Stats
  unfolding stats_of
  internal_malloc_stats = ensure_initialization os >> stats_of

  unfoldable pub dlmallinfo : Cmd Mallinfo
  unfolding internal_mallinfo
  dlmallinfo = internal_mallinfo

  unfoldable pub dlmalloc_stats : Cmd Stats
  unfolding internal_malloc_stats
  dlmalloc_stats = internal_malloc_stats

  unfoldable pub mspace_mallinfo : Cmd Mallinfo
  unfolding internal_mallinfo
  mspace_mallinfo s = if not (ok_magic s) then aborted else internal_mallinfo s

  unfoldable pub mspace_malloc_stats : Cmd Stats
  unfolding internal_malloc_stats
  mspace_malloc_stats s = if ok_magic s then internal_malloc_stats s else aborted
