-- ===== src/Mspace/Space.antt =====
-- `create_mspace_with_base`: a space that is ready for use, or one whose top has a size that wrapped
-- around.
use dlmalloc_rs.Prelude.{
  ℕ, ◌+◌, ◌-◌, ◌%◌, ◌^◌, ◌≤◌, ◌<◌, ◌≡◌, ◌≢◌, ◌∙◌, refl, ap, true, not, ◌&&◌, ◌==◌, arith, ltb,
}
use dlmalloc_rs.Size.{sub64, chunk2mem, pad_request, align_as_chunk, add64}
use dlmalloc_rs.Size.Laws.{align_as_chunk_least}
use dlmalloc_rs.State.{State, done}
use dlmalloc_rs.Os.{Os}
use dlmalloc_rs.Segments.{extern_bit}
use dlmalloc_rs.SysAlloc.{ensure_initialization}
use dlmalloc_rs.TopChunk.{OnlyTop, cut, dlmalloc-cut}
use dlmalloc_rs.Malloc.{request_size, dlmalloc}
use dlmalloc_rs.Mspace.Clones.{mspace_malloc}
use dlmalloc_rs.Mspace.{init_user_mstate, create_mspace_with_base, malloc_state_size, set_sflags}
use dlmalloc_rs.Mspace.Create.{
  IsFresh, fresh, left_over, init_user_mstate-topped, fresh_at, left_over-size, fresh-IsFresh,
  top_foot,
}

state_size : pad_request malloc_state_size ≡ 944
unfolding pad_request add64
state_size = refl

in_range :
    (capacity page : ℕ)
    → 1024 < capacity
    → capacity + 1024 + page < 2 ^ 64
    → (ltb 1024 capacity && ltb capacity (sub64 0 (1024 + page))) ≡ true
unfolding sub64
in_range capacity page large small = ground arith

wrapped_size :
    (p e : ℕ)
    → p + 944 ≤ e
    → e < p + 1024
    → e < 2 ^ 64
    → sub64 (sub64 e (p + 944)) 80 + (p + 1024) ≡ 2 ^ 64 + e
unfolding sub64
wrapped_size p e from to word = omega arith

create-steps :
    (os : Os) (s : State) (base capacity : ℕ)
    → s.mparams.magic ≢ 0
    → 1024 < capacity
    → capacity + 1024 + s.mparams.page_size < 2 ^ 64
    → (let t = set_sflags extern_bit (init_user_mstate base capacity s) in
        create_mspace_with_base os base capacity s ≡ done t.m.at t)
unfolding create_mspace_with_base ensure_initialization
create-steps os s base capacity ready large small =
    let initialized : not (s.mparams.magic == 0) ≡ true = ground (arith, ready) in
    rw (initialized, state_size, top_foot, in_range capacity s.mparams.page_size large small) refl

chunk_aligned : (p : ℕ) → p < 2 ^ 64 - 16 → chunk2mem p % 16 ≡ 0 → p % 16 ≡ 0
unfolding chunk2mem add64
chunk_aligned p h e = omega arith

-- With initialized parameters, a capacity above 1024 that leaves room for the alignment of `base`, the
-- space's own record and the foot of top (1024 bytes), and with 1024 and a page stays below 2 ^ 64,
-- memory that ends at a multiple of 16 at least 17 bytes before the end of the address space, and no
-- more than the size at which top is trimmed (trim_threshold), `create_mspace_with_base` returns the
-- address of a new state. There each of the 32 small bins is an empty circle, its two links leading to
-- itself, the small bins and the tree bins are well-formed and hold no chunk, and top, behind the
-- record, is a well-formed chunk that has all the rest.
pub create_mspace_with_base-IsFresh :
    (os : Os) (s : State) (base capacity : ℕ)
    → s.mparams.magic ≢ 0
    → capacity + 1024 + s.mparams.page_size < 2 ^ 64
    → base + capacity < 2 ^ 64 - 16
    → 1024 < capacity
    → (base + capacity) % 16 ≡ 0
    → align_as_chunk base + 1024 < base + capacity
    → capacity ≤ s.mparams.trim_threshold
    → (t : State) × (create_mspace_with_base os base capacity s ≡ done (align_as_chunk base + 16) t)
      × IsFresh base capacity (align_as_chunk base) t
create_mspace_with_base-IsFresh os s base capacity ready small fits large even room no_trim =
    let msp = align_as_chunk base in
    let place = align_as_chunk_least base (omega arith) in
    let aligned = chunk_aligned msp (omega (arith, room, fits)) place.0 in
    let word : msp + 1024 < 2 ^ 64 = omega (arith, room, fits) in
    let size = base + capacity - (msp + 1024) in
    let t = fresh base capacity msp s refl aligned word size in
    let built : set_sflags extern_bit (init_user_mstate base capacity s) ≡ t =
      init_user_mstate-topped base capacity msp s refl aligned word
      ∙ ap (fresh base capacity msp s refl aligned word)
          (left_over-size base capacity msp s refl aligned word room place.1 even fits no_trim) in
    (
      t,
      create-steps os s base capacity ready large small
          ∙ ap (λ (z : State). done z.m.at z) built
          ∙ ap (λ (x : ℕ). done x t) (fresh_at base capacity msp s refl aligned word size),
      fresh-IsFresh base capacity msp s refl aligned word room place.1 even fits no_trim,
    )

-- With initialized parameters, more than 1024 bytes of capacity, and a `base` whose alignment leaves
-- less room than the space's own record and the foot of top need, `create_mspace_with_base` does not
-- refuse: it returns a new state, and the size of its top is the difference modulo 2 ^ 64, more than
-- 2 ^ 64 - 16.
pub create_mspace_with_base-wraps :
    (os : Os) (s : State) (base capacity : ℕ)
    → s.mparams.magic ≢ 0
    → capacity + 1024 + s.mparams.page_size < 2 ^ 64
    → base + capacity < 2 ^ 64 - 16
    → 1024 < capacity
    → base + capacity < align_as_chunk base + 1024
    → (t : State) × (create_mspace_with_base os base capacity s ≡ done (align_as_chunk base + 16) t)
      × (t.m.topsize + (align_as_chunk base + 1024) ≡ 2 ^ 64 + (base + capacity))
      × (2 ^ 64 - 16 < t.m.topsize)
create_mspace_with_base-wraps os s base capacity ready small fits large short =
    let msp = align_as_chunk base in
    let place = align_as_chunk_least base (omega arith) in
    let aligned = chunk_aligned msp (omega (arith, place.2, fits)) place.0 in
    let word : msp + 1024 < 2 ^ 64 = omega (arith, place.2, fits, large) in
    let size = left_over base capacity msp s refl aligned word in
    let t = fresh base capacity msp s refl aligned word size in
    let built = init_user_mstate-topped base capacity msp s refl aligned word in
    let wrapped : size + (msp + 1024) ≡ 2 ^ 64 + (base + capacity) =
      wrapped_size msp (base + capacity) (omega (arith, place.2, large)) short
        (omega (arith, fits)) in
    (
      t,
      create-steps os s base capacity ready large small
          ∙ ap (λ (z : State). done z.m.at z) built
          ∙ ap (λ (x : ℕ). done x t) (fresh_at base capacity msp s refl aligned word size),
      wrapped,
      omega (arith, wrapped, place.2, large),
    )

-- With no free chunk but top, each request that fits is cut off its low end.
mspace_malloc-cut :
    (os : Os) (s : State) (bytes : ℕ)
    → OnlyTop s
    → request_size bytes < s.m.topsize
    → mspace_malloc os bytes s ≡ done (chunk2mem s.m.top) (cut s (request_size bytes))
unfolding mspace_malloc dlmalloc
mspace_malloc-cut os s bytes t fit = dlmalloc-cut os s bytes t fit

memory_at : (p : ℕ) → p + 1024 < 2 ^ 64 → chunk2mem (p + 944) ≡ p + 960
unfolding chunk2mem add64
memory_at p h = omega arith

-- Under the conditions of `create_mspace_with_base-IsFresh`, a request whose padded size is less than
-- what the memory has beyond the first 1024 bytes behind the aligned `base` is served from the new
-- space: `mspace_malloc` returns an aligned address, with the block inside the memory and behind the
-- space's own record, and the system is not called.
pub mspace_malloc-serves :
    (os : Os) (s : State) (base capacity bytes : ℕ)
    → s.mparams.magic ≢ 0
    → capacity + 1024 + s.mparams.page_size < 2 ^ 64
    → base + capacity < 2 ^ 64 - 16
    → 1024 < capacity
    → (base + capacity) % 16 ≡ 0
    → align_as_chunk base + 1024 < base + capacity
    → capacity ≤ s.mparams.trim_threshold
    → request_size bytes < base + capacity - (align_as_chunk base + 1024)
    → (t u : State) × (mem : ℕ) × (create_mspace_with_base os base capacity s
        ≡ done (align_as_chunk base + 16) t)
      × (mspace_malloc os bytes t ≡ done mem u)
      × (mem % 16 ≡ 0)
      × (t.m.at + 936 ≤ mem)
      × (mem + request_size bytes ≤ base + capacity)
      × (u.calls ≡ t.calls)
mspace_malloc-serves os s base capacity bytes ready small fits large even room no_trim fit =
    let space =
      create_mspace_with_base-IsFresh os s base capacity ready small fits large even room no_trim in
    let msp = align_as_chunk base in
    let t = space.0 in
    let new = space.2 in
    let nb = request_size bytes in
    let place = align_as_chunk_least base (omega (arith, fits, large)) in
    let aligned = chunk_aligned msp (omega (arith, room, fits)) place.0 in
    (
      t,
      cut t nb,
      msp + 960,
      space.1,
      mspace_malloc-cut os t bytes new.only_top (omega (arith, fit, new.topsize))
          ∙ ap (λ (x : ℕ). done x (cut t nb))
              (ap chunk2mem new.top ∙ memory_at msp (omega (arith, room, fits))),
      omega (arith, aligned),
      omega (arith, new.at),
      omega (arith, fit, room),
      refl,
    )
