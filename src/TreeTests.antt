-- ===== src/TreeTests.antt =====
-- A concrete state with two chunks in a tree bin, and concrete inputs for the theorems on the trees.
use dlmalloc_rs.Prelude.{
  ℕ, All, ◌∷◌, some, length, ◌+◌, ◌≤◌, ◌&&◌, ◌≢◌, ◌-◌, ◌<◌, ◌≡◌, ◌⊎◌, refl, sym, subst, [], true,
  false, not, arith, Bool-cases, inl, inr, ◌==◌, ==_iff, if◌then◌else◌, ltb, passes_up_to,
  passes_up_to_lem,
}
use dlmalloc_rs.Size.{sub64}
use dlmalloc_rs.BinMap.{bit_is_marked, idx2bit}
use dlmalloc_rs.TreeIndex.{compute_tree_index, tree_shift, minsize_for_tree_index}
use dlmalloc_rs.State.{State, done, treebin_at, smallbin_at}
use dlmalloc_rs.Head.{chunksize, size_bits}
use dlmalloc_rs.TreeBin.{treemap_is_marked}
use dlmalloc_rs.TreeBin.Trie.{Trie, leaf, node, is_node, Each, IsTrie, Represents, IsTreeChunk}
use dlmalloc_rs.TreeBin.Separate.{IsSeparate, Avoids, EveryChunk}
use dlmalloc_rs.TreeBin.Bins.{base, undecided, BelongsTo, TreeBins}
use dlmalloc_rs.TreeAlloc.{tmalloc_small, tmalloc_large}
use dlmalloc_rs.TreeAlloc.Small.{IsLeast}
use dlmalloc_rs.TreeAlloc.Large.{IsBestFit}
use dlmalloc_rs.TreeBin.{insert_large_chunk}
use dlmalloc_rs.TreeBin.Insert.{Inserted}
use dlmalloc_rs.TreeBin.Insert.Whole.{IsNewLarge}
use dlmalloc_rs.TreeBin.Change.{set_trie}
use dlmalloc_rs.TreeBin.Insert.First.{OnlyTrees}
use dlmalloc_rs.TreeBin.Insert.Large.{insert_large_chunk-TreeBins}
use dlmalloc_rs.TreeBin.{unlink_large_chunk}
use dlmalloc_rs.TreeBin.Unlink.Whole.{unlink_large_chunk-TreeBins}
use dlmalloc_rs.SmallBin.{smallmap_is_marked}
use dlmalloc_rs.FreeBins.{FreeBins}
use dlmalloc_rs.FreeBins.Take.{IsLaidOut, IsTaken}
use dlmalloc_rs.FreeBins.Fit.{IsClear, IsServed}
use dlmalloc_rs.FreeBins.Best.{tmalloc_large-IsServed}
use dlmalloc_rs.FreeBins.Serve.{tmalloc_small-FreeBins}
use dlmalloc_rs.Size.{is_small, small_index, chunk2mem}
use dlmalloc_rs.Checks.{bin_find}
use dlmalloc_rs.Checks.Find.{has, bin_find-SmallBins}
use dlmalloc_rs.Checks.Trees.{holds, Rings, bin_find-TreeBins}
use dlmalloc_rs.Tests.{initial, one_free, one_bin, one_chunk, no_chunks, empty_bins}

-- A chunk of 512 bytes at 20480 with one of 640 at 24576 as its right child, in bin 2; one of 560
-- bytes at 28672 in no bin.
abbrev two_large : State
two_large = record initial {
  heap = record (initial.heap) {
    head = λ a.
        if a == 20480
        then 513
        else if a == 24576
        then 641
        else if a == 28672
        then 561
        else initial.heap.head a;
    fd = λ a. a;
    bk = λ a. a;
    child1 = λ a. if a == 20480 then 24576 else 0;
    parent = λ a. if a == 20480 then 4712 else if a == 24576 then 20480 else 0;
    index = λ a. 2;
  };
  m = record (initial.m) { treemap = 4; treebins = λ i. if i == 2 then 20480 else 0 };
}

abbrev large_tree : Trie
large_tree = node 20480 512 [] leaf (node 24576 640 [] leaf leaf)

abbrev tries : ℕ → Trie
tries i = if i == 2 then large_tree else leaf

size_512 : chunksize two_large 20480 ≡ 512
unfolding chunksize size_bits
size_512 = refl

size_640 : chunksize two_large 24576 ≡ 640
unfolding chunksize size_bits
size_640 = refl

BelongsTo-512 : BelongsTo 2 512
unfolding compute_tree_index tree_shift
BelongsTo-512 = record { aligned = refl; large = ground arith; word = ground arith; index = refl }

BelongsTo-640 : BelongsTo 2 640
unfolding compute_tree_index tree_shift
BelongsTo-640 = record { aligned = refl; large = ground arith; word = ground arith; index = refl }

base_2 : base 2 ≡ 512
unfolding base minsize_for_tree_index
base_2 = refl

marked_table :
    passes_up_to
      (λ i. if i == 2 then treemap_is_marked two_large i else not (treemap_is_marked two_large i))
      32
    ≡ true
unfolding passes_up_to treemap_is_marked bit_is_marked idx2bit
marked_table = refl

-- A property of all bins and their tries, by the bin with chunks and the empty ones.
by_bin :
    (P : ℕ → Trie → Type 0) (i : ℕ) → P 2 large_tree → ((i == 2) ≡ false → P i leaf) → P i (tries i)
by_bin P i full empty = elim (Bool-cases (i == 2)) [
  | inl here ↦ rw here (subst (λ k. P k large_tree) (sym ((==_iff i 2).0 here)) full)
  | inr elsewhere ↦ rw elsewhere (empty elsewhere)
]

root_chunk : IsTreeChunk two_large 2 4712 512 20480
root_chunk = record {
  nonnull = ground arith;
  low = ground arith;
  size = size_512;
  parent = refl;
  index = refl;
}

child_chunk : IsTreeChunk two_large 2 20480 640 24576
child_chunk = record {
  nonnull = ground arith;
  low = ground arith;
  size = size_640;
  parent = refl;
  index = refl;
}

two_large-TreeBins : TreeBins two_large tries
two_large-TreeBins = record {
  map = ground arith;
  each = λ i h.
      by_bin (λ k t. Represents two_large k (treebin_at two_large k) (two_large.m.treebins k) t) i
        (
          refl,
          root_chunk,
          (refl, refl),
          tt,
          refl,
          (refl, child_chunk, (refl, refl), tt, refl, refl),
        )
        (λ other. rw other refl);
  ordered = λ i h.
      by_bin (λ k t. IsTrie (undecided k) (base k) t) i (rw base_2 (omega arith)) (λ other. tt);
  sizes = λ i h.
      by_bin (λ k t. Each (λ a n. BelongsTo k n) t) i (BelongsTo-512, tt, (BelongsTo-640, tt, tt))
        (λ other. tt);
  marked = λ i h.
      by_bin (λ k t. treemap_is_marked two_large k ≡ is_node t) i
        (ground (arith, passes_up_to_lem _ 32 2 (ground arith) marked_table))
        (λ other. ground (arith, other, passes_up_to_lem _ 32 i h marked_table));
  separate = λ i h.
      by_bin (λ k t. IsSeparate t) i
        (
          (tt, tt),
          (tt, ((λ e. omega (arith, e)), tt, tt, tt)),
          tt,
          tt,
          tt,
          ((tt, tt), (tt, tt), tt, tt, tt, tt),
        )
        (λ other. tt);
  apart = λ i j h k ne. elim (Bool-cases (i == 2)) [
    | inl e ↦ elim (Bool-cases (j == 2)) [
      | inl f ↦ absurd (ne (ground (arith, e, f)))
      | inr f ↦ rw (e, f) (tt, tt, tt, (tt, tt, tt, tt))
    ]
    | inr e ↦ rw e tt
  ];
}

size_560 : chunksize two_large 28672 ≡ 560
unfolding chunksize size_bits
size_560 = refl

IsNewLarge-chunk : IsNewLarge two_large tries 28672 560
IsNewLarge-chunk = record {
  nonnull = ground arith;
  low = ground arith;
  size = size_560;
  aligned = refl;
  large = ground arith;
  word = ground arith;
  off = λ j h.
      by_bin (λ k t. Avoids 28672 t) j
        ((λ e. omega (arith, e)), tt, tt, ((λ e. omega (arith, e)), tt, tt, tt)) (λ other. tt);
}

insert_large_chunk-TreeBins_example :
    (t : State) × (after : Trie) × (insert_large_chunk 28672 560 two_large ≡ done tt t)
    × OnlyTrees two_large t
    × Inserted 28672 560 (tries (compute_tree_index 560)) after
    × TreeBins t (set_trie tries (compute_tree_index 560) after)
insert_large_chunk-TreeBins_example =
    insert_large_chunk-TreeBins two_large tries 28672 560 two_large-TreeBins IsNewLarge-chunk

index_of_8192 :
    (is_small (chunksize one_free 8192) ≡ true)
    × (small_index (chunksize one_free 8192) < 32)
    × (8192 ≢ smallbin_at one_free (small_index (chunksize one_free 8192)))
    × (length (one_bin (small_index (chunksize one_free 8192))) < 2)
unfolding is_small small_index chunksize size_bits
index_of_8192 = (refl, ground arith, (λ e. omega (arith, e)), ground arith)

short-Rings : Rings 1 (tries (compute_tree_index (chunksize two_large 24576)))
unfolding compute_tree_index tree_shift chunksize size_bits
short-Rings = (ground arith, tt, (ground arith, tt, tt))

bin_find-SmallBins_example :
    bin_find 2 8192 one_free ≡ some (has 8192 (one_bin (small_index (chunksize one_free 8192))))
bin_find-SmallBins_example =
    bin_find-SmallBins 2 8192 one_free one_bin one_chunk index_of_8192.0 index_of_8192.1
      index_of_8192.2 index_of_8192.3

bin_find-TreeBins_example :
    bin_find 1 24576 two_large
    ≡ some (holds 24576 (tries (compute_tree_index (chunksize two_large 24576))))
bin_find-TreeBins_example =
    bin_find-TreeBins 1 24576 two_large tries two_large-TreeBins (omega (arith, size_640))
      (omega (arith, size_640)) (omega (arith, size_640)) short-Rings

-- The root leaves, and its child takes its place.
unlink_large_chunk-TreeBins_example :
    (t : State) × (after : Trie) × (unlink_large_chunk 20480 two_large ≡ done tt t)
    × OnlyTrees two_large t
    × ((y : ℕ) → holds y after ≡ (holds y (tries 2) && not (y == 20480)))
    × TreeBins t (set_trie tries 2 after)
unlink_large_chunk-TreeBins_example =
    unlink_large_chunk-TreeBins two_large tries 2 20480 two_large-TreeBins (ground arith) refl

two_large-FreeBins : FreeBins two_large empty_bins tries
unfolding smallmap_is_marked
two_large-FreeBins = record {
  small = record {
    each = no_chunks.each;
    distinct = no_chunks.distinct;
    apart = no_chunks.apart;
    off_bins = no_chunks.off_bins;
  };
  trees = two_large-TreeBins;
  apart = λ i j h k.
      by_bin (λ b t. EveryChunk (λ y. Unit) t) j (tt, tt, tt, (tt, tt, tt, tt)) (λ other. tt);
  off_bins = λ i j h k.
      by_bin (λ b t. Avoids (smallbin_at two_large i) t) j
        ((λ e. omega (arith, e, h)), tt, tt, ((λ e. omega (arith, e, h)), tt, tt, tt))
        (λ other. tt);
}

two_large-IsLaidOut : IsLaidOut tries
two_large-IsLaidOut i j h k =
    by_bin (λ b t. Each (λ a n. EveryChunk (λ y. (y ≤ a) ⊎ (a + n ≤ y)) (tries j)) t) i
      (
        by_bin (λ b u. EveryChunk (λ y. (y ≤ 20480) ⊎ (20480 + 512 ≤ y)) u) j
            (inl (ground arith), tt, tt, (inr (ground arith), tt, tt, tt)) (λ other. tt),
        tt,
        (
          by_bin (λ b u. EveryChunk (λ y. (y ≤ 24576) ⊎ (24576 + 640 ≤ y)) u) j
              (inl (ground arith), tt, tt, (inl (ground arith), tt, tt, tt)) (λ other. tt),
          tt,
          tt,
        ),
      )
      (λ other. tt)

-- A request of 128 bytes: the chunk of 512 bytes is split.
tmalloc_small-FreeBins_example :
    (i a n : ℕ) × IsLeast tries i a n
    × (t : State) × (after : Trie) × (tmalloc_small 128 two_large ≡ done (chunk2mem a) t)
    × IsTaken two_large t empty_bins tries 128 i a n after
tmalloc_small-FreeBins_example =
    tmalloc_small-FreeBins two_large empty_bins tries 128 two_large-FreeBins (λ e. omega (arith, e))
      (ground arith) (ground arith) refl two_large-IsLaidOut (λ some. absurd (some refl))

two_large-IsClear : IsClear two_large empty_bins tries
two_large-IsClear i k h j =
    by_bin (λ b t. Each (λ a n. All (λ y. (y ≤ a) ⊎ (a + n ≤ y)) (smallbin_at two_large k ∷ [])) t)
      i ((inl (omega (arith, j)), tt), tt, ((inl (omega (arith, j)), tt), tt, tt)) (λ other. tt)

-- A request of 528 bytes: the chunk of 640 bytes is split, and its rest goes to a small bin.
tmalloc_large-IsServed_example :
    ((i a n : ℕ) × IsBestFit tries 528 i a n
      × (((ltb (n - 528) (sub64 0 528) ≡ true)
            × (t : State) × (tmalloc_large 528 two_large ≡ done (chunk2mem a) t)
            × IsServed two_large t empty_bins tries 528 i a n)
          ⊎ ((ltb (n - 528) (sub64 0 528) ≡ false)
              × (tmalloc_large 528 two_large ≡ done 0 two_large))))
    ⊎ (((j : ℕ) → j < 32 → Each (λ b k. k < 528) (tries j))
        × (tmalloc_large 528 two_large ≡ done 0 two_large))
tmalloc_large-IsServed_example =
    tmalloc_large-IsServed two_large empty_bins tries 528 two_large-FreeBins refl (ground arith)
      (ground arith) two_large-IsLaidOut two_large-IsClear
