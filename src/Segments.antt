-- ===== src/Segments.antt =====
-- Segments, the page and granularity sizes, `init_top` and the flags of a malloc_state
-- (src/dlmalloc.c, "system alloc setup" and "mspace management").
use Prim.Native.Nat.{bit_and}
use dlmalloc_rs.Prelude.{
  ℕ, ◌+◌, ◌-◌, ◌*◌, ◌/◌, ◌%◌, Bool, false, not, ◌&&◌, ◌||◌, ◌==◌, List, [], ◌∷◌, Option, none, some,
  ltb, leb, if◌then◌else◌,
}
use dlmalloc_rs.Size.{add64, sub64, chunk2mem, align_offset, top_foot_size}
use dlmalloc_rs.State.{State, Segment, set_head}
use dlmalloc_rs.Head.{with_pinuse}

abbrev pub use_mmap_bit : ℕ
use_mmap_bit = 1

-- Without locks.
abbrev pub use_lock_bit : ℕ
use_lock_bit = 0

abbrev pub use_noncontiguous_bit : ℕ
use_noncontiguous_bit = 4

abbrev pub extern_bit : ℕ
extern_bit = 8

unfoldable pub is_mmapped_segment : Segment → Bool
is_mmapped_segment g = g.sflags % 2 == 1

unfoldable pub is_extern_segment : Segment → Bool
is_extern_segment g = g.sflags / 8 % 2 == 1

unfoldable pub is_initialized : State → Bool
is_initialized s = not (s.m.top == 0)

unfoldable pub use_lock : State → Bool
use_lock s = not (bit_and s.m.mflags use_lock_bit == 0)

unfoldable pub use_mmap : State → Bool
use_mmap s = s.m.mflags % 2 == 1

unfoldable pub enable_mmap : State → State
enable_mmap s = record s { m = record (s.m) { mflags = s.m.mflags / 2 * 2 + 1 } }

unfoldable pub disable_mmap : State → State
disable_mmap s = record s { m = record (s.m) { mflags = s.m.mflags / 2 * 2 } }

unfoldable pub use_noncontiguous : State → Bool
use_noncontiguous s = s.m.mflags / 4 % 2 == 1

unfoldable pub disable_contiguous : State → State
disable_contiguous s = record s {
  m = record (s.m) { mflags = s.m.mflags / 8 * 8 + 4 + s.m.mflags % 4 };
}

-- `(S + (n - 1)) & ~(n - 1)` for a power of two `n`, which init_mparams and mallopt ensure.
unfoldable pub align_up : ℕ → ℕ → ℕ
align_up n size = add64 size (n - 1) / n * n

unfoldable pub page_align : State → ℕ → ℕ
page_align s size = align_up s.mparams.page_size size

unfoldable pub granularity_align : State → ℕ → ℕ
granularity_align s size = align_up s.mparams.granularity size

unfoldable pub mmap_align : State → ℕ → ℕ
mmap_align s size = page_align s size

unfoldable pub is_page_aligned : State → ℕ → Bool
is_page_aligned s a = a % s.mparams.page_size == 0

unfoldable pub is_granularity_aligned : State → ℕ → Bool
is_granularity_aligned s a = a % s.mparams.granularity == 0

unfoldable pub segment_holds : Segment → ℕ → Bool
segment_holds g a = leb g.base a && ltb a (g.base + g.size)

abbrev pub segments : State → List Segment
segments s = s.m.seg ∷ s.m.older

unfoldable pub holding : List Segment → ℕ → Option Segment
holding [] a = none
holding (g ∷ gs) a = if segment_holds g a then some g else holding gs a

unfoldable pub segment_holding : State → ℕ → Option Segment
segment_holding s a = holding (segments s) a

-- Whether a segment's record lies inside the segment `g`.
unfoldable pub link_within : Segment → List Segment → Bool
link_within g [] = false
link_within g (x ∷ xs) = (leb g.base x.at && ltb x.at (g.base + g.size)) || link_within g xs

unfoldable pub has_segment_link : State → Segment → Bool
has_segment_link s g = link_within g (segments s)

unfoldable pub should_trim : State → ℕ → Bool
should_trim s size = ltb s.m.trim_check size

-- An assignment to the segment whose record is at `a`.
unfoldable pub replace_segment : ℕ → (Segment → Segment) → List Segment → List Segment
replace_segment a f [] = []
replace_segment a f (g ∷ gs) = (if g.at == a then f g else g) ∷ replace_segment a f gs

unfoldable pub update_segment : ℕ → (Segment → Segment) → State → State
update_segment a f s = record s {
  m = record (s.m) {
    seg = if s.m.seg.at == a then f s.m.seg else s.m.seg;
    older = replace_segment a f s.m.older;
  };
}

unfoldable pub init_top : (p psize : ℕ) → State → State
init_top p psize s =
    let offset = align_offset (chunk2mem p) in
    let q = p + offset in
    let size = sub64 psize offset in
    set_head (q + size) top_foot_size (
      set_head q (with_pinuse size) (record s {
        m = record (s.m) { top = q; topsize = size; trim_check = s.mparams.trim_threshold };
      }))
