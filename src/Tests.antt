-- ===== src/Tests.antt =====
-- Concrete states for the tests: one with nothing but top free, and one with a chunk in a small bin.
use dlmalloc_rs.Prelude.{
  ℕ, ◌*◌, refl, List, [], ◌∷◌, arith, Bool-cases, inl, inr, ◌==◌, if◌then◌else◌,
}
use dlmalloc_rs.Word.{bit_at-zero}
use dlmalloc_rs.BinMap.{idx2bit, mark_bit}
use dlmalloc_rs.BinMap.Laws.{bit_is_marked-bit_at}
use dlmalloc_rs.State.{State, write}
use dlmalloc_rs.Head.{c_bit, p_bit, inuse_bits, size_bits, cinuse, pinuse, is_inuse, chunksize}
use dlmalloc_rs.SmallBin.{mark_smallmap, smallmap_is_marked}
use dlmalloc_rs.SmallBin.Stacks.{SmallBins, update}
use dlmalloc_rs.SmallBin.Insert.{IsNew, insert_empty}
use dlmalloc_rs.Os.{Os, mfail}
use dlmalloc_rs.SmallBlocks.Free.{IsSmallBlock}
use dlmalloc_rs.TopChunk.{OnlyTop}

-- A system that has nothing to give.
abbrev pub no_memory : Os
no_memory = record {
  morecore = λ c n. mfail;
  mmap = λ c n. mfail;
  direct_mmap = λ c n. mfail;
  munmap = λ c a n. mfail;
  mremap = λ c a old new flags. mfail;
  page_size = 4096;
  time = 0;
}

-- A block of 48 bytes in use at 8192 before one of 64, and top at 16384 with 4096 bytes.
abbrev pub heads : ℕ → ℕ
heads a = if a == 8192 then 51 else if a == 8240 then 67 else if a == 16384 then 4097 else 3

abbrev pub initial : State
initial = record {
  heap = record {
    prev_foot = λ a. 0;
    head = heads;
    fd = λ a. 0;
    bk = λ a. 0;
    child0 = λ a. 0;
    child1 = λ a. 0;
    parent = λ a. 0;
    index = λ a. 0;
    payload = λ a. 0;
  };
  m = record {
    at = 4096;
    smallmap = 0;
    treemap = 0;
    dvsize = 0;
    topsize = 4096;
    least_addr = 8192;
    dv = 0;
    top = 16384;
    trim_check = 2 * 1024 * 1024;
    release_checks = 4095;
    magic = 8;
    treebins = λ i. 0;
    footprint = 16384;
    max_footprint = 16384;
    footprint_limit = 0;
    mflags = 1;
    seg = record { at = 4960; base = 8192; size = 12288; sflags = 0 };
    older = [];
  };
  mparams = record {
    magic = 8;
    page_size = 4096;
    granularity = 4096;
    mmap_threshold = 256 * 1024;
    trim_threshold = 2 * 1024 * 1024;
    default_mflags = 1;
  };
  calls = 0;
}

abbrev pub empty_bins : ℕ → List ℕ
empty_bins i = []

-- The first chunk, at 12288, is in bin 6.
abbrev pub one_free : State
one_free = record initial {
  heap = record (initial.heap) {
    fd = write (write initial.heap.fd 4264 12288) 12288 4264;
    bk = write (write initial.heap.bk 4264 12288) 12288 4264;
  };
  m = record (initial.m) { smallmap = 64 };
}

abbrev pub one_bin : ℕ → List ℕ
one_bin = update empty_bins 6 (12288 ∷ [])

pub no_chunks : SmallBins initial empty_bins
unfolding smallmap_is_marked
no_chunks = record {
  each = λ i h. ground (arith, bit_is_marked-bit_at 0 i h, bit_at-zero i);
  distinct = λ i h. tt;
  apart = λ i j h k ne. tt;
  off_bins = λ i j h k. tt;
}

pub IsNew-chunk : IsNew initial empty_bins 12288
IsNew-chunk = record { low = ground arith; off_bins = λ j h. ground arith; off_chunks = λ j h. tt }

pub one_chunk : SmallBins one_free one_bin
unfolding mark_smallmap mark_bit idx2bit
one_chunk = insert_empty no_chunks 12288 6 (ground arith) IsNew-chunk refl

pub only_top : OnlyTop initial
only_top = record {
  no_small = refl;
  no_tree = refl;
  no_dv = refl;
  dv_null = refl;
  above = ground arith;
  aligned = refl;
  fits = ground arith;
  low = ground arith;
  marked = refl;
  no_trim = ground arith;
}

pub small_block : IsSmallBlock one_free one_bin 8192
unfolding is_inuse pinuse cinuse chunksize c_bit p_bit inuse_bits size_bits
small_block = record {
  in_use = refl;
  before_in_use = refl;
  nonempty = ground arith;
  small = ground arith;
  told = refl;
  next_in_use = refl;
  fits = ground arith;
  new = record {
    low = ground arith;
    off_bins = λ j h. ground arith;
    off_chunks =
        λ j h. elim (Bool-cases (6 == j)) [ inl e ↦ rw e (ground arith, tt) | inr n ↦ rw n tt ];
  };
}
