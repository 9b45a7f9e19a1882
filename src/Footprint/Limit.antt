-- ===== src/Footprint/Limit.antt =====
-- What the footprint limit admits, and what setting it does.
use dlmalloc_rs.Prelude.{
  ℕ, ◌+◌, ◌-◌, ◌*◌, ◌/◌, ◌%◌, ◌^◌, ◌≤◌, ◌<◌, ◌≡◌, ◌⊎◌, ◌↔◌, refl, true, arith,
}
use dlmalloc_rs.Size.{add64, max_size_t}
use dlmalloc_rs.State.{State, done}
use dlmalloc_rs.Segments.{granularity_align, align_up}
use dlmalloc_rs.SysAlloc.{within_limit}
use dlmalloc_rs.Footprint.{dlmalloc_set_footprint_limit, dlmalloc_footprint_limit}

-- With a 64-bit footprint, the check before each request to the system admits `n` bytes exactly
-- when there is no limit, or `n` is positive and the new footprint neither wraps around nor exceeds
-- the limit.
pub within_limit_iff :
    (s : State) (n : ℕ)
    → s.m.footprint < 2 ^ 64
    → n < 2 ^ 64
    → (within_limit s n ≡ true) ↔ (
        (s.m.footprint_limit ≡ 0)
        ⊎ ((0 < n) × (s.m.footprint + n < 2 ^ 64) × (s.m.footprint + n ≤ s.m.footprint_limit)))
unfolding within_limit add64
within_limit_iff s n hf hn = (λ h. ground arith, λ h. ground arith)

zero_aligned : (g : ℕ) → 0 < g → g < 2 ^ 64 → (0 + (g - 1)) % 2 ^ 64 / g * g ≡ 0
zero_aligned g pos small = grind arith

-- For every granularity from 1 to 2 ^ 64 - 1, setting the limit to 0 returns 0 and leaves no limit:
-- the check then admits every size, and the limit reads as the largest word.
pub set_footprint_limit_zero :
    (s : State) (n : ℕ)
    → 0 < s.mparams.granularity
    → s.mparams.granularity < 2 ^ 64
    → (t : State) × (dlmalloc_set_footprint_limit 0 s ≡ done 0 t)
      × (within_limit t n ≡ true)
      × (dlmalloc_footprint_limit t ≡ done max_size_t t)
unfolding dlmalloc_set_footprint_limit dlmalloc_footprint_limit within_limit granularity_align
    align_up add64
set_footprint_limit_zero s n pos small = (
  record s { m = record (s.m) { footprint_limit = 0 } },
  rw (zero_aligned s.mparams.granularity pos small),
  refl,
  refl,
)
