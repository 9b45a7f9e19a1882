-- ===== src/Malloc/Failure.antt =====
-- `dlmalloc` of a size that no memory can have.
use native.Mathlib.Nat.{div-mul-le_self}
use dlmalloc_rs.Prelude.{
  ℕ, ◌+◌, ◌-◌, ◌%◌, ◌^◌, ◌≤◌, ◌<◌, ◌≡◌, ◌≢◌, refl, sym, subst, true, false, arith, not, ◌&&◌, ◌==◌,
  ltb, leb, Bool-cases, inl, inr,
}
use dlmalloc_rs.Size.{
  add64, max_request, max_size_t, six_size_t_sizes, chunk_align_mask, max_small_request,
  sys_alloc_padding,
}
use dlmalloc_rs.State.{State, done}
use dlmalloc_rs.Os.{Os}
use dlmalloc_rs.Segments.{align_up, mmap_align, page_align, granularity_align, use_mmap}
use dlmalloc_rs.SysAlloc.{ensure_initialization, within_limit, mmap_alloc}
use dlmalloc_rs.Grow.{grow, sys_alloc}
use dlmalloc_rs.Malloc.{request_size, malloc_rest, dlmalloc}

-- Alignment to pages stays within a word.
align_up-le : (n size : ℕ) → align_up n size ≤ max_size_t
unfolding align_up add64
align_up-le n size = omega (arith, div-mul-le_self ((size + (n - 1)) % 2 ^ 64) n)

request_size_refused : (bytes : ℕ) → max_request ≤ bytes → request_size bytes ≡ max_size_t
unfolding request_size
request_size_refused bytes h = ground (arith, h)

module _ (os : Os) (s : State) where
  no_map : mmap_alloc os max_size_t s ≡ done 0 s
  unfolding mmap_alloc mmap_align page_align
  no_map =
      let size =
        align_up s.mparams.page_size (add64 max_size_t (six_size_t_sizes + chunk_align_mask)) in
      let small : ltb max_size_t size ≡ false = ground (
        arith,
        align_up-le s.mparams.page_size (add64 max_size_t (six_size_t_sizes + chunk_align_mask)),
      ) in
      elim (Bool-cases (within_limit s size)) [
        | inl allowed ↦ rw (allowed, small) refl
        | inr beyond ↦ rw beyond refl
      ]

  no_growth : grow os max_size_t s ≡ done 0 s
  unfolding grow granularity_align
  no_growth =
      let size = align_up s.mparams.granularity (add64 max_size_t sys_alloc_padding) in
      let wrapped : leb size max_size_t ≡ true =
        ground (arith, align_up-le s.mparams.granularity (add64 max_size_t sys_alloc_padding)) in
      rw wrapped refl

  no_system : s.mparams.magic ≢ 0 → sys_alloc os max_size_t s ≡ done 0 s
  unfolding sys_alloc ensure_initialization
  no_system init =
      let set : (s.mparams.magic == 0) ≡ false = ground (arith, init) in
      elim (Bool-cases
        (use_mmap s && (leb s.mparams.mmap_threshold max_size_t && not (s.m.topsize == 0)))) [
          | inl direct ↦ rw (set, direct, no_map) no_growth
          | inr not_direct ↦ rw (set, not_direct) no_growth
        ]

  no_rest :
      s.mparams.magic ≢ 0
      → s.m.dvsize < max_size_t
      → s.m.topsize < max_size_t
      → malloc_rest os max_size_t s ≡ done 0 s
  unfolding malloc_rest
  no_rest init dv top =
      let no_dv : leb max_size_t s.m.dvsize ≡ false = ground (arith, dv) in
      let no_top : ltb max_size_t s.m.topsize ≡ false = ground (arith, top) in
      rw (no_dv, no_top) (no_system init)

-- With the parameters initialized and dv and top below the largest word, a request of MAX_REQUEST
-- bytes or more returns null, whatever the system offers, without a call to it and without any change.
pub dlmalloc-refuses :
    (os : Os) (s : State) (bytes : ℕ)
    → max_request ≤ bytes
    → s.mparams.magic ≢ 0
    → s.m.dvsize < max_size_t
    → s.m.topsize < max_size_t
    → dlmalloc os bytes s ≡ done 0 s
unfolding dlmalloc
dlmalloc-refuses os s bytes h init dv top =
    let large : leb bytes max_small_request ≡ false = ground (arith, h) in
    let refused : leb max_request bytes ≡ true = ground (arith, h) in
    rw (large, refused)
      (subst (λ n. malloc_rest os n s ≡ done 0 s) (sym (request_size_refused bytes h))
        (no_rest os s init dv top))
