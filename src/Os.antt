-- ===== src/Os.antt =====
-- The operating system as the allocator sees it: sbrk (CALL_MORECORE), mmap, munmap and mremap.
-- They are not part of the program, so their answers are a parameter: each may depend on how many
-- calls were made before it. MFAIL is the largest word.
use dlmalloc_rs.Prelude.{ℕ, ◌+◌}
use dlmalloc_rs.Size.{max_size_t}
use dlmalloc_rs.State.{Cmd, done}

pub record Os : Type 0 where
  pub morecore : (call : ℕ) → (increment : ℕ) → ℕ
  pub mmap : (call : ℕ) → (length : ℕ) → ℕ
  pub direct_mmap : (call : ℕ) → (length : ℕ) → ℕ
  pub munmap : (call : ℕ) → (addr length : ℕ) → ℕ
  pub mremap : (call : ℕ) → (addr old_length new_length flags : ℕ) → ℕ
  pub page_size : ℕ
  pub time : ℕ

abbrev pub mfail : ℕ
mfail = max_size_t

module _ (os : Os) where
  abbrev pub call : (ℕ → ℕ) → Cmd ℕ
  call answer s = done (answer s.calls) (record s { calls = s.calls + 1 })

  abbrev pub call_morecore : ℕ → Cmd ℕ
  call_morecore n = call (λ c. os.morecore c n)

  abbrev pub call_mmap : ℕ → Cmd ℕ
  call_mmap n = call (λ c. os.mmap c n)

  abbrev pub call_direct_mmap : ℕ → Cmd ℕ
  call_direct_mmap n = call (λ c. os.direct_mmap c n)

  abbrev pub call_munmap : ℕ → ℕ → Cmd ℕ
  call_munmap a n = call (λ c. os.munmap c a n)

  abbrev pub call_mremap : ℕ → ℕ → ℕ → ℕ → Cmd ℕ
  call_mremap a old new flags = call (λ c. os.mremap c a old new flags)
