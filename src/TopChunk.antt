-- ===== src/TopChunk.antt =====
-- Blocks that border on the top chunk: `dlfree` joins such a block to top, and `dlmalloc` cuts blocks
-- off top while all bins are empty.
pub mod Disjoint
use native.Mathlib.Nat.{zero-div}
use dlmalloc_rs.Prelude.{
  ℕ, ◌+◌, ◌-◌, ◌/◌, ◌%◌, ◌^◌, ◌≤◌, ◌<◌, ◌≡◌, ◌≢◌, refl, ap, ◌∙◌, true, false, arith, ◌==◌, ltb, leb,
  Bool-cases, inl, inr, none, some, if◌then◌else◌,
}
use dlmalloc_rs.Size.{
  small_index, add64, sub64, chunk2mem, mem2chunk, pad_request, max_small_request, max_request,
}
use dlmalloc_rs.Size.Laws.{mem2chunk-chunk2mem}
use dlmalloc_rs.State.{State, done, pure, and_then, set_head}
use dlmalloc_rs.Head.{
  c_bit, p_bit, inuse_bits, size_bits, with_pinuse, with_inuse_bits, cinuse, pinuse, is_inuse,
  chunksize, ok_next, set_size_and_pinuse_of_inuse_chunk,
}
use dlmalloc_rs.Os.{Os}
use dlmalloc_rs.Segments.{should_trim}
use dlmalloc_rs.SysAlloc.{split_top}
use dlmalloc_rs.Malloc.{request_size, malloc_small, malloc_large, malloc_rest, dlmalloc}
use dlmalloc_rs.Free.{consolidate_forward, consolidate_backward, free_forward, dlfree}

-- A block in use at `p` that ends where top begins, behind another block in use; together with top
-- it is not large enough to be trimmed.
pub record BordersTop (s : State) (p : ℕ) : Type 0 where
  pub in_use : is_inuse s p ≡ true
  pub before_in_use : pinuse s p ≡ true
  pub nonempty : 0 < chunksize s p
  pub adjacent : p + chunksize s p ≡ s.m.top
  pub told : pinuse s s.m.top ≡ true
  pub top_free : cinuse s s.m.top ≡ false
  pub low : s.m.least_addr ≤ p
  pub fits : s.m.top + s.m.topsize < 2 ^ 64 - 16
  pub not_dv : p ≢ s.m.dv
  pub no_trim : s.m.topsize + chunksize s p ≤ s.m.trim_check

-- Top with the block joined to it.
abbrev pub joined : State → ℕ → State
joined s p =
    set_head p (with_pinuse (s.m.topsize + chunksize s p))
      (record s { m = record (s.m) { topsize = s.m.topsize + chunksize s p; top = p } })

module _ (os : Os) (s : State) (p : ℕ) (b : BordersTop s p) where
  joined_forward : free_forward os p (chunksize s p) s.m.top s ≡ done tt (joined s p)
  unfolding free_forward consolidate_forward add64 should_trim ok_next
  joined_forward =
      let next : ltb p s.m.top ≡ true = ground (arith, b.nonempty, b.adjacent) in
      let size : (s.m.topsize + chunksize s p) % 2 ^ 64 ≡ s.m.topsize + chunksize s p =
        omega (arith, b.fits, b.adjacent) in
      let dv : (p == s.m.dv) ≡ false = ground (arith, b.not_dv) in
      let trim : ltb s.m.trim_check (s.m.topsize + chunksize s p) ≡ false =
        ground (arith, b.no_trim) in
      let self : (s.m.top == s.m.top) ≡ true = ground arith in
      rw (next, b.told, b.top_free, self, size, dv, trim) refl

  not_null : (chunk2mem p == 0) ≡ false
  unfolding chunk2mem add64
  not_null = ground (arith, b.fits, b.adjacent)

-- Freeing a block in use that borders on top, behind a block in use and with no trimming due,
-- returns, and joins the block to top: top then begins at the block and has the sum of the sizes.
pub dlfree-joined :
    (os : Os) (s : State) (p : ℕ)
    → BordersTop s p
    → dlfree os (chunk2mem p) s ≡ done tt (joined s p)
unfolding dlfree consolidate_backward
dlfree-joined os s p b =
    let back : mem2chunk (chunk2mem p) ≡ p =
      mem2chunk-chunk2mem p (omega (arith, b.fits, b.adjacent)) in
    let low : leb s.m.least_addr p ≡ true = ground (arith, b.low) in
    rw (not_null os s p b, back, low, b.in_use, b.before_in_use)
      (ap (λ next. free_forward os p (chunksize s p) next s)
          (ap (λ q. q + chunksize s q) back ∙ b.adjacent)
        ∙ joined_forward os s p b)

-- No free chunk but top: the maps and dv are empty, and top is a well-formed chunk at or above
-- `least_addr`, not above the size at which it is trimmed.
pub record OnlyTop (s : State) : Type 0 where
  pub no_small : s.m.smallmap ≡ 0
  pub no_tree : s.m.treemap ≡ 0
  pub no_dv : s.m.dvsize ≡ 0
  pub dv_null : s.m.dv ≡ 0
  pub above : 0 < s.m.top
  pub aligned : s.m.topsize % 16 ≡ 0
  pub fits : s.m.top + s.m.topsize < 2 ^ 64 - 16
  pub low : s.m.least_addr ≤ s.m.top
  pub marked : s.heap.head s.m.top ≡ s.m.topsize + 1
  pub no_trim : s.m.topsize ≤ s.m.trim_check

-- Every request that is not refused is padded to a positive multiple of the alignment.
pub request_size_aligned :
    (bytes : ℕ)
    → request_size bytes < 2 ^ 64 - 16
    → (0 < request_size bytes) × (request_size bytes % 16 ≡ 0)
unfolding request_size pad_request add64
request_size_aligned bytes h = (ground arith, ground arith)

-- The state that `split_top` leaves.
abbrev pub cut : State → ℕ → State
cut s nb = set_head s.m.top (with_inuse_bits nb) (
    set_head (s.m.top + nb) (with_pinuse (sub64 s.m.topsize nb))
      (record s { m = record (s.m) { topsize = sub64 s.m.topsize nb; top = s.m.top + nb } }))

split_top-cut : (s : State) (nb : ℕ) → split_top nb s ≡ done (chunk2mem s.m.top) (cut s nb)
unfolding split_top set_size_and_pinuse_of_inuse_chunk
split_top-cut s nb = refl

module _ (os : Os) (s : State) (nb : ℕ) (t : OnlyTop s) (pos : 0 < nb) where
  no_small_chunk : malloc_small nb s ≡ done none s
  unfolding malloc_small
  no_small_chunk =
      let bits : 0 / 2 ^ small_index nb ≡ 0 = zero-div (2 ^ small_index nb) in
      let dv_small : ltb 0 nb ≡ true = ground (arith, pos) in
      rw (t.no_small, t.no_dv, t.no_tree, bits, dv_small) refl

  no_large_chunk : malloc_large nb s ≡ done none s
  unfolding malloc_large
  no_large_chunk = rw (t.no_tree) refl

  rest_cut : nb < s.m.topsize → malloc_rest os nb s ≡ done (chunk2mem s.m.top) (cut s nb)
  unfolding malloc_rest
  rest_cut fit =
      let no_dv : leb nb s.m.dvsize ≡ false = ground (arith, pos, t.no_dv) in
      let below : ltb nb s.m.topsize ≡ true = ground (arith, fit) in
      rw (no_dv, below) (split_top-cut s nb)

  nothing_found :
      (bytes : ℕ)
      → (if leb bytes max_small_request
            then malloc_small nb
            else if leb max_request bytes
            then pure none
            else malloc_large nb)
          s
        ≡ done none s
  nothing_found bytes = elim (Bool-cases (leb bytes max_small_request)) [
    | inl small ↦ rw small no_small_chunk
    | inr large ↦ elim (Bool-cases (leb max_request bytes)) [
      | inl refused ↦ rw (large, refused) refl
      | inr fine ↦ rw (large, fine) no_large_chunk
    ]
  ]

-- With no free chunk but top, each request that fits into top is cut off its low end.
pub dlmalloc-cut :
    (os : Os) (s : State) (bytes : ℕ)
    → OnlyTop s
    → request_size bytes < s.m.topsize
    → dlmalloc os bytes s ≡ done (chunk2mem s.m.top) (cut s (request_size bytes))
unfolding dlmalloc
dlmalloc-cut os s bytes t fit =
    let pos = (request_size_aligned bytes (omega (arith, fit, t.fits))).0 in
    let nb = request_size bytes in
    ap (λ r. and_then r (elim [ none ↦ malloc_rest os nb | some mem ↦ pure mem ]))
      (nothing_found os s nb t pos bytes)
    ∙ rest_cut os s nb t pos fit

module _ (s : State) (nb : ℕ) (t : OnlyTop s) (pos : 0 < nb) (al : nb % 16 ≡ 0)
    (fit : nb < s.m.topsize) where
  cut-chunksize : chunksize (cut s nb) s.m.top ≡ nb
  unfolding chunksize size_bits with_inuse_bits
  cut-chunksize = ground arith

  pub cut-BordersTop : BordersTop (cut s nb) s.m.top
  unfolding chunksize is_inuse pinuse cinuse c_bit p_bit inuse_bits size_bits with_pinuse
      with_inuse_bits sub64
  cut-BordersTop = record {
    in_use = ground arith;
    before_in_use = ground arith;
    nonempty = ground arith;
    adjacent = ground arith;
    told = ground arith;
    top_free = ground (arith, t.aligned, al, fit);
    low = t.low;
    fits = ground (arith, t.fits, fit);
    not_dv = ground (arith, t.dv_null, t.above);
    no_trim = ground (arith, t.fits, fit, t.no_trim);
  }

  cut-topsize : sub64 s.m.topsize nb + chunksize (cut s nb) s.m.top ≡ s.m.topsize
  unfolding sub64
  cut-topsize = ground (arith, cut-chunksize, t.fits, fit)

  joined-cut_state : (joined (cut s nb) s.m.top).m ≡ s.m
  joined-cut_state = ap (λ n. record (s.m) { topsize = n }) cut-topsize

  joined-cut_head : (joined (cut s nb) s.m.top).heap.head s.m.top ≡ s.heap.head s.m.top
  unfolding with_pinuse
  joined-cut_head =
      let top : (s.m.top == s.m.top) ≡ true = ground arith in
      rw (top, cut-topsize) (ground (arith, t.marked, t.aligned))

-- With no free chunk but a well-formed top, a request whose padded size is below top's returns the
-- start of top, as a chunk in use of the padded size; freeing it returns too, and gives back all of
-- malloc_state as it was, and top's head.
pub dlfree-dlmalloc :
    (os : Os) (s : State) (bytes : ℕ)
    → OnlyTop s
    → request_size bytes < s.m.topsize
    → (t u : State) × (dlmalloc os bytes s ≡ done (chunk2mem s.m.top) t)
      × (chunksize t s.m.top ≡ request_size bytes)
      × (is_inuse t s.m.top ≡ true)
      × (dlfree os (chunk2mem s.m.top) t ≡ done tt u)
      × (u.m ≡ s.m)
      × (u.heap.head s.m.top ≡ s.heap.head s.m.top)
dlfree-dlmalloc os s bytes t fit =
    let nb = request_size bytes in
    let size = request_size_aligned bytes (omega (arith, fit, t.fits)) in
    let b = cut-BordersTop s nb t size.0 size.1 fit in
    (
      cut s nb,
      joined (cut s nb) s.m.top,
      dlmalloc-cut os s bytes t fit,
      cut-chunksize s nb t size.0 size.1 fit,
      b.in_use,
      dlfree-joined os (cut s nb) s.m.top b,
      joined-cut_state s nb t size.0 size.1 fit,
      joined-cut_head s nb t size.0 size.1 fit,
    )
