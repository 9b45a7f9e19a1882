-- ===== src/Footprint.antt =====
-- The exported functions on footprints, trimming, parameters and usable sizes (src/dlmalloc.c).
pub mod Limit
use Prim.Native.Nat.{bit_and}
use dlmalloc_rs.Prelude.{ℕ, ◌+◌, ◌-◌, Bool, true, false, not, ◌&&◌, ◌==◌, leb, if◌then◌else◌}
use dlmalloc_rs.Size.{sub64, max_size_t, mem2chunk}
use dlmalloc_rs.State.{State, Cmd, done, put, pure, ask, ◌>>=◌, ◌>>◌}
use dlmalloc_rs.Head.{is_inuse, chunksize, overhead_for}
use dlmalloc_rs.Os.{Os}
use dlmalloc_rs.Segments.{granularity_align}
use dlmalloc_rs.SysAlloc.{ensure_initialization}
use dlmalloc_rs.Release.{sys_trim}

unfoldable pub dlmalloc_footprint : Cmd ℕ
dlmalloc_footprint s = done s.m.footprint s

unfoldable pub dlmalloc_max_footprint : Cmd ℕ
dlmalloc_max_footprint s = done s.m.max_footprint s

unfoldable pub dlmalloc_footprint_limit : Cmd ℕ
dlmalloc_footprint_limit s =
    done (if s.m.footprint_limit == 0 then max_size_t else s.m.footprint_limit) s

-- `result` after the first `if` is overwritten by the second one.
unfoldable pub dlmalloc_set_footprint_limit : (bytes : ℕ) → Cmd ℕ
dlmalloc_set_footprint_limit bytes s =
    let result = if bytes == max_size_t then 0 else granularity_align s bytes in
    done result (record s { m = record (s.m) { footprint_limit = result } })

unfoldable pub dlmalloc_usable_size : (mem : ℕ) → Cmd ℕ
dlmalloc_usable_size mem s =
    let p = mem2chunk mem in
    done (if not (mem == 0) && is_inuse s p then sub64 (chunksize s p) (overhead_for s p) else 0) s

-- The parameters of mallopt, M_TRIM_THRESHOLD (-1), M_GRANULARITY (-2) and M_MMAP_THRESHOLD (-3).
pub data Param : Type 0 where
  trim_threshold granularity mmap_threshold unknown : Param

-- `value` is the argument after the conversion to size_t, where -1 is MAX_SIZE_T.
unfoldable pub set_param : (param : Param) (value : ℕ) → Cmd Bool
set_param Param.trim_threshold value s =
    done true (record s { mparams = record (s.mparams) { trim_threshold = value } })
set_param Param.granularity value s =
    if leb s.mparams.page_size value && bit_and value (sub64 value 1) == 0
    then done true (record s { mparams = record (s.mparams) { granularity = value } })
    else done false s
set_param Param.mmap_threshold value s =
    done true (record s { mparams = record (s.mparams) { mmap_threshold = value } })
set_param Param.unknown value s = done false s

module _ (os : Os) where
  unfoldable pub change_mparam : (param : Param) (value : ℕ) → Cmd Bool
  unfolding set_param
  change_mparam param value = ensure_initialization os >> set_param param value

  unfoldable pub dlmalloc_trim : (pad : ℕ) → Cmd Bool
  unfolding sys_trim
  dlmalloc_trim pad = ensure_initialization os >> sys_trim os pad
