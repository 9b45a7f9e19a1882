-- ===== src/SpaceTests.antt =====
-- Concrete inputs for the theorems on spaces.
use dlmalloc_rs.Prelude.{ℕ, ◌+◌, ◌-◌, ◌%◌, ◌^◌, ◌≤◌, ◌<◌, ◌≡◌, refl, arith}
use dlmalloc_rs.Size.{align_as_chunk, align_offset, chunk2mem, add64, pad_request}
use dlmalloc_rs.State.{State, done}
use dlmalloc_rs.Malloc.{request_size}
use dlmalloc_rs.Mspace.{create_mspace_with_base}
use dlmalloc_rs.Mspace.Clones.{mspace_malloc}
use dlmalloc_rs.Mspace.Create.{IsFresh}
use dlmalloc_rs.Mspace.Space.{
  create_mspace_with_base-IsFresh, create_mspace_with_base-wraps, mspace_malloc-serves,
}
use dlmalloc_rs.Tests.{initial, no_memory}

room_at_8 : align_as_chunk 65544 + 1024 < 65544 + 8184
unfolding align_as_chunk align_offset chunk2mem add64
room_at_8 = ground arith

no_room_at_1 : 65537 + 1030 < align_as_chunk 65537 + 1024
unfolding align_as_chunk align_offset chunk2mem add64
no_room_at_1 = ground arith

fits_in_space : request_size 100 < 65544 + 8184 - (align_as_chunk 65544 + 1024)
unfolding request_size pad_request align_as_chunk align_offset chunk2mem add64
fits_in_space = ground arith

create_mspace_with_base-IsFresh_example :
    (t : State) × (create_mspace_with_base no_memory 65544 8184 initial
      ≡ done (align_as_chunk 65544 + 16) t)
    × IsFresh 65544 8184 (align_as_chunk 65544) t
create_mspace_with_base-IsFresh_example =
    create_mspace_with_base-IsFresh no_memory initial 65544 8184 (λ e. omega (arith, e))
      (ground arith) (ground arith) (ground arith) refl room_at_8 (ground arith)

create_mspace_with_base-wraps_example :
    (t : State) × (create_mspace_with_base no_memory 65537 1030 initial
      ≡ done (align_as_chunk 65537 + 16) t)
    × (t.m.topsize + (align_as_chunk 65537 + 1024) ≡ 2 ^ 64 + (65537 + 1030))
    × (2 ^ 64 - 16 < t.m.topsize)
create_mspace_with_base-wraps_example =
    create_mspace_with_base-wraps no_memory initial 65537 1030 (λ e. omega (arith, e))
      (ground arith) (ground arith) (ground arith) no_room_at_1

mspace_malloc-serves_example :
    (t u : State) × (mem : ℕ) × (create_mspace_with_base no_memory 65544 8184 initial
      ≡ done (align_as_chunk 65544 + 16) t)
    × (mspace_malloc no_memory 100 t ≡ done mem u)
    × (mem % 16 ≡ 0)
    × (t.m.at + 936 ≤ mem)
    × (mem + request_size 100 ≤ 65544 + 8184)
    × (u.calls ≡ t.calls)
mspace_malloc-serves_example =
    mspace_malloc-serves no_memory initial 65544 8184 100 (λ e. omega (arith, e)) (ground arith)
      (ground arith) (ground arith) refl room_at_8 (ground arith) fits_in_space
