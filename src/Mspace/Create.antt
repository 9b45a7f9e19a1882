-- ===== src/Mspace/Create.antt =====
-- A new space in memory of the caller's: what its state is at first.
use dlmalloc_rs.Prelude.{
  ℕ, zero, suc, ◌+◌, ◌-◌, ◌%◌, ◌^◌, ◌≤◌, ◌<◌, ◌≡◌, ◌∙◌, refl, ap, [], arith, ◌*◌, ◌==◌, ==_iff,
  Bool-cases, inl, inr, subst, sym,
}
use dlmalloc_rs.Word.{bit_at-zero}
use dlmalloc_rs.BinMap.Laws.{bit_is_marked-bit_at}
use dlmalloc_rs.Size.{
  add64, sub64, chunk2mem, mem2chunk, pad_request, align_as_chunk, align_offset, top_foot_size,
}
use dlmalloc_rs.State.{State, MallocState, MallocParams, set_head, set_fd, set_bk, smallbin_at}
use dlmalloc_rs.Head.{chunksize, size_bits, next_chunk, with_pinuse}
use dlmalloc_rs.SmallBin.{init_bins, init_bins_from, smallmap_is_marked}
use dlmalloc_rs.SmallBin.Stacks.{SmallBins}
use dlmalloc_rs.TreeBin.{treemap_is_marked}
use dlmalloc_rs.TreeBin.Trie.{leaf}
use dlmalloc_rs.TreeBin.Bins
use dlmalloc_rs.TreeBin.Bins.{TreeBins, undecided}
use dlmalloc_rs.TreeBin.Insert.Down.{leaf-IsTrie}
use dlmalloc_rs.Segments.{disable_contiguous, init_top, extern_bit}
use dlmalloc_rs.TopChunk.{OnlyTop}
use dlmalloc_rs.Mspace.{init_user_mstate, malloc_state_size, fresh_mstate, set_sflags}

pub top_foot : top_foot_size ≡ 80
unfolding top_foot_size align_offset chunk2mem pad_request add64
top_foot = refl

-- `init_bins` writes only links.
init_bins_from-links :
    (left : ℕ) (s : State)
    → init_bins_from left s ≡ record s {
      heap = record (s.heap) {
        fd = (init_bins_from left s).heap.fd;
        bk = (init_bins_from left s).heap.bk;
      };
    }
unfolding init_bins_from
init_bins_from-links zero s = refl
init_bins_from-links (suc left) s = init_bins_from-links left _

-- Both links of the head of small bin `i` lead to itself.
abbrev pub IsCircle : (s t : State) (i : ℕ) → Type 0
IsCircle s t i =
    (t.heap.fd (smallbin_at s i) ≡ smallbin_at s i)
    × (t.heap.bk (smallbin_at s i) ≡ smallbin_at s i)

init_bins_from-below :
    (left : ℕ) (s : State) (q : ℕ)
    → q < smallbin_at s (32 - left)
    → left ≤ 32
    → ((init_bins_from left s).heap.fd q ≡ s.heap.fd q)
      × ((init_bins_from left s).heap.bk q ≡ s.heap.bk q)
unfolding init_bins_from
init_bins_from-below zero s q h few = (refl, refl)
init_bins_from-below (suc left) s q h few =
    let bin = smallbin_at s (32 - suc left) in
    let rest =
      init_bins_from-below left (set_fd bin bin (set_bk bin bin s)) q (omega (arith, h, few))
        (omega (arith, few)) in
    (ground (arith, rest.0, h), ground (arith, rest.1, h))

init_bins_from-IsCircle :
    (left : ℕ) (s : State) (i : ℕ)
    → left ≤ 32
    → 32 - left ≤ i
    → i < 32
    → IsCircle s (init_bins_from left s) i
unfolding init_bins_from
init_bins_from-IsCircle zero s i few from to = absurd (omega (arith, from, to))
init_bins_from-IsCircle (suc left) s i few from to =
    let bin = smallbin_at s (32 - suc left) in
    let s1 = set_fd bin bin (set_bk bin bin s) in
    elim (Bool-cases (32 - suc left == i)) [
      | inl this ↦
          let e = (==_iff (32 - suc left) i).0 this in
          let kept =
            init_bins_from-below left s1 (smallbin_at s i) (omega (arith, e, few, to))
              (omega (arith, few)) in
          (ground (arith, kept.0, e), ground (arith, kept.1, e))
      | inr later ↦
          init_bins_from-IsCircle left s1 i (omega (arith, few)) (ground (arith, later, from, few))
            to
    ]

-- The state after `init_top` at an aligned place.
abbrev topped : (p size : ℕ) → State → State
topped p size z = set_head (p + size) 80 (
    set_head p (with_pinuse size) (record z {
      m = record (z.m) { top = p; topsize = size; trim_check = z.mparams.trim_threshold };
    }))

init_top-topped :
    (p size : ℕ) (z : State)
    → align_offset (chunk2mem p) ≡ 0
    → size < 2 ^ 64
    → init_top p size z ≡ topped p size z
unfolding init_top sub64
init_top-topped p size z offset word =
    let foot : top_foot_size ≡ 80 = top_foot in
    let whole : (size + 2 ^ 64 - 0) % 2 ^ 64 ≡ size = omega arith in
    let place : p + 0 ≡ p = omega arith in rw (offset, place, whole, foot) refl

-- The fields of a new space in the `capacity` bytes from `base` on, whose first chunk is at `msp`.
pub record IsFresh (base capacity msp : ℕ) (t : State) : Type 0 where
  pub only_top : OnlyTop t
  pub small_bins : SmallBins t (λ i. [])
  pub circles : (i : ℕ) → i < 32 → IsCircle t t i
  pub tree_bins : TreeBins t (λ i. leaf)
  pub at : t.m.at ≡ msp + 16
  pub top : t.m.top ≡ msp + 944
  pub topsize : t.m.topsize ≡ base + capacity - (msp + 1024)
  pub footprint : t.m.footprint ≡ capacity

module _ (base capacity msp : ℕ) (s : State) (first : align_as_chunk base ≡ msp)
    (aligned : msp % 16 ≡ 0) (word : msp + 1024 < 2 ^ 64) where
  sizes_of :
      (chunk2mem msp ≡ msp + 16)
      × (mem2chunk (msp + 16) ≡ msp)
      × (pad_request malloc_state_size ≡ 944)
  unfolding chunk2mem mem2chunk pad_request add64 sub64
  sizes_of = (omega arith, omega arith, refl)

  -- The state before the bins are made, and after.
  abbrev blank : State
  blank =
      disable_contiguous
        (set_head msp 947 (record s { m = fresh_mstate (msp + 16) base capacity s }))

  abbrev binned : State
  binned = init_bins blank

  binned_m :
      (binned.m ≡ blank.m) × (binned.heap.head ≡ blank.heap.head) × (binned.mparams ≡ s.mparams)
  unfolding init_bins disable_contiguous
  binned_m =
      let e = init_bins_from-links 32 blank in
      (
        ap (λ (z : State). z.m) e,
        ap (λ (z : State). z.heap.head) e,
        ap (λ (z : State). z.mparams) e,
      )

  chunk_of_mstate : next_chunk binned msp ≡ msp + 944
  unfolding next_chunk chunksize size_bits disable_contiguous
  chunk_of_mstate = rw (binned_m.1) (ground arith)

  -- What is left for top, with the wrap-around of the code.
  abbrev pub left_over : ℕ
  left_over = sub64 (sub64 (base + capacity) (msp + 944)) 80

  init_user_mstate-init_top :
      init_user_mstate base capacity s ≡ init_top (msp + 944) left_over binned
  unfolding init_user_mstate
  init_user_mstate-init_top =
      rw (first, sizes_of.0, sizes_of.1, sizes_of.2, top_foot, chunk_of_mstate) refl

  top_offset : align_offset (chunk2mem (msp + 944)) ≡ 0
  unfolding align_offset chunk2mem add64
  top_offset = ground arith

  -- The new space, with the flag of its segment.
  abbrev pub fresh : (size : ℕ) → State
  fresh size = set_sflags extern_bit (topped (msp + 944) size binned)

  pub init_user_mstate-topped :
      set_sflags extern_bit (init_user_mstate base capacity s) ≡ fresh left_over
  unfolding sub64
  init_user_mstate-topped = ap (set_sflags extern_bit) (
      init_user_mstate-init_top
      ∙ init_top-topped (msp + 944) left_over binned top_offset (omega arith))

  pub fresh_at : (size : ℕ) → (fresh size).m.at ≡ msp + 16
  unfolding disable_contiguous
  fresh_at size = ap (λ (z : MallocState). z.at) (binned_m.0)

  module _ (room : msp + 1024 < base + capacity) (from : base ≤ msp)
      (even : (base + capacity) % 16 ≡ 0) (fits : base + capacity < 2 ^ 64 - 16)
      (no_trim : capacity ≤ s.mparams.trim_threshold) where
    abbrev pub size : ℕ
    size = base + capacity - (msp + 1024)

    pub left_over-size : left_over ≡ size
    unfolding sub64
    left_over-size = omega arith

    fresh-OnlyTop : OnlyTop (fresh size)
    unfolding disable_contiguous with_pinuse
    fresh-OnlyTop =
        let m_same = binned_m.0 in
        record {
          no_small = ap (λ (z : MallocState). z.smallmap) m_same;
          no_tree = ap (λ (z : MallocState). z.treemap) m_same;
          no_dv = ap (λ (z : MallocState). z.dvsize) m_same;
          dv_null = ap (λ (z : MallocState). z.dv) m_same;
          above = omega arith;
          aligned = omega arith;
          fits = omega arith;
          low = omega (arith, ap (λ (z : MallocState). z.least_addr) m_same);
          marked = ground arith;
          no_trim =
              omega (arith, no_trim, ap (λ (z : MallocParams). z.trim_threshold) (binned_m.2));
        }

    fresh-SmallBins : SmallBins (fresh size) (λ i. [])
    unfolding smallmap_is_marked disable_contiguous
    fresh-SmallBins =
        let none : binned.m.smallmap ≡ 0 = ap (λ (z : MallocState). z.smallmap) (binned_m.0) in
        record {
          each = λ i h.
              ground (arith, none, bit_is_marked-bit_at binned.m.smallmap i h, bit_at-zero i);
          distinct = λ i h. tt;
          apart = λ i j h k ne. tt;
          off_bins = λ i j h k. tt;
        }

    fresh-IsCircle : (i : ℕ) → i < 32 → IsCircle (fresh size) (fresh size) i
    unfolding init_bins
    fresh-IsCircle i h =
        subst
          (λ (a : ℕ).
            (binned.heap.fd (a + 72 + i * 16) ≡ a + 72 + i * 16)
            × (binned.heap.bk (a + 72 + i * 16) ≡ a + 72 + i * 16))
          (sym (ap (λ (z : MallocState). z.at) (binned_m.0)))
          (init_bins_from-IsCircle 32 blank i (omega arith) (omega arith) h)

    fresh-TreeBins : TreeBins (fresh size) (λ i. leaf)
    unfolding treemap_is_marked disable_contiguous
    fresh-TreeBins =
        let none : binned.m.treemap ≡ 0 = ap (λ (z : MallocState). z.treemap) (binned_m.0) in
        record {
          map = omega (arith, none);
          each = λ i h. ap (λ (z : MallocState). z.treebins i) (binned_m.0);
          ordered = λ i h. leaf-IsTrie (undecided i) (Bins.base i);
          sizes = λ i h. tt;
          marked =
              λ i h. ground (arith, none, bit_is_marked-bit_at binned.m.treemap i h, bit_at-zero i);
          separate = λ i h. tt;
          apart = λ i j h k ne. tt;
        }

    pub fresh-IsFresh : IsFresh base capacity msp (fresh size)
    unfolding disable_contiguous
    fresh-IsFresh = record {
      only_top = fresh-OnlyTop;
      small_bins = fresh-SmallBins;
      circles = fresh-IsCircle;
      tree_bins = fresh-TreeBins;
      at = fresh_at size;
      top = refl;
      topsize = refl;
      footprint = ap (λ (z : MallocState). z.footprint) (binned_m.0);
    }
