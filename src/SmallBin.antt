-- ===== src/SmallBin.antt =====
-- Small bins: circular lists of free chunks of one size (src/dlmalloc.c, `insert_small_chunk`,
-- `unlink_small_chunk`, `unlink_first_small_chunk`, `replace_dv` and `init_bins`).
pub mod Ring
pub mod Stacks
pub mod Insert
pub mod Unlink
pub mod Remove
use dlmalloc_rs.Prelude.{ℕ, zero, suc, ◌-◌, Bool, ◌&&◌, ◌||◌, ◌==◌, if◌then◌else◌}
use dlmalloc_rs.Size.{small_index, nsmallbins}
use dlmalloc_rs.BinMap.{mark_bit, clear_bit, bit_is_marked}
use dlmalloc_rs.State.{
  State, Cmd, done, aborted, abort, put, pure, ask, ◌>>=◌, ◌>>◌, set_fd, set_bk, smallbin_at,
  ok_address,
}

unfoldable pub mark_smallmap : ℕ → State → State
mark_smallmap i s = record s { m = record (s.m) { smallmap = mark_bit s.m.smallmap i } }

unfoldable pub clear_smallmap : ℕ → State → State
clear_smallmap i s = record s { m = record (s.m) { smallmap = clear_bit s.m.smallmap i } }

unfoldable pub smallmap_is_marked : State → ℕ → Bool
smallmap_is_marked s i = bit_is_marked s.m.smallmap i

-- The four assignments that put `p` between the bin `b` and its former first chunk `f`.
abbrev pub link_first : ℕ → ℕ → ℕ → State → State
link_first b p f s = set_bk p b (set_fd p f (set_bk f p (set_fd b p s)))

-- `f->bk = b; b->fd = f`
abbrev pub link_over : ℕ → ℕ → State → State
link_over b f s = set_fd b f (set_bk f b s)

unfoldable pub insert_small_chunk : ℕ → ℕ → Cmd (Unit {0})
unfolding smallmap_is_marked mark_smallmap
insert_small_chunk p size s =
    let i = small_index size in
    let b = smallbin_at s i in
    if smallmap_is_marked s i
    then (if ok_address s (s.heap.fd b) then done tt (link_first b p (s.heap.fd b) s) else aborted)
    else done tt (link_first b p b (mark_smallmap i s))

unfoldable pub unlink_small_chunk : ℕ → ℕ → Cmd (Unit {0})
unfolding clear_smallmap
unlink_small_chunk p size s =
    let f = s.heap.fd p in
    let b = s.heap.bk p in
    let i = small_index size in
    if f == smallbin_at s i || (ok_address s f && s.heap.bk f == p)
    then (if b == f
        then done tt (clear_smallmap i s)
        else if b == smallbin_at s i || (ok_address s b && s.heap.fd b == p)
        then done tt (link_over b f s)
        else aborted)
    else aborted

unfoldable pub unlink_first_small_chunk : ℕ → ℕ → ℕ → Cmd (Unit {0})
unfolding clear_smallmap
unlink_first_small_chunk b p i s =
    let f = s.heap.fd p in
    if b == f
    then done tt (clear_smallmap i s)
    else if ok_address s f && s.heap.bk f == p
    then done tt (link_over b f s)
    else aborted

-- Used only when `dvsize` is known to be small.
unfoldable pub replace_dv : ℕ → ℕ → Cmd (Unit {0})
replace_dv p size = do
  dvs ← ask (λ s. s.m.dvsize)
  dv ← ask (λ s. s.m.dv)
  if dvs == 0 then pure tt else insert_small_chunk dv dvs
  put (λ s. record s { m = record (s.m) { dvsize = size; dv = p } })

-- The bins from `nsmallbins - left` on become empty circles.
unfoldable pub init_bins_from : ℕ → State → State
init_bins_from zero s = s
init_bins_from (suc left) s =
    let bin = smallbin_at s (nsmallbins - suc left) in
    init_bins_from left (set_fd bin bin (set_bk bin bin s))

unfoldable pub init_bins : State → State
unfolding init_bins_from
init_bins s = init_bins_from nsmallbins s
