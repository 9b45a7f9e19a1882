-- ===== src/FreeBins/Heads.antt =====
-- The heads that an allocation writes, and the sizes of the free chunks behind them.
use dlmalloc_rs.Prelude.{
  ℕ, ◌+◌, ◌%◌, ◌<◌, ◌≡◌, ◌≢◌, refl, sym, true, List, arith, ◌==◌, Bool-cases, inl, inr,
}
use dlmalloc_rs.State.{State}
use dlmalloc_rs.Head.{
  chunksize, size_bits, cinuse, c_bit, with_pinuse, with_inuse_bits, add_pinuse,
  set_inuse_and_pinuse, set_size_and_pinuse_of_inuse_chunk, set_size_and_pinuse_of_free_chunk,
  set_foot,
}
use dlmalloc_rs.TreeBin.Trie.{Trie}
use dlmalloc_rs.TreeBin.Separate.{Avoids, EveryChunk-mono, EveryChunk-both}
use dlmalloc_rs.FreeBins.{FreeBins}
use dlmalloc_rs.FreeBins.Frame.{FreeBins-with_heads}

size_bits-with_pinuse : (w : ℕ) → size_bits (with_pinuse w) ≡ size_bits w
unfolding size_bits with_pinuse
size_bits-with_pinuse w = omega arith

-- The chunk that is handed out has its size and is in use.
pub set_inuse_and_pinuse_lem :
    (v n : ℕ) (s : State)
    → 0 < n
    → n % 8 ≡ 0
    → (chunksize (set_inuse_and_pinuse v n s) v ≡ n)
      × (cinuse (set_inuse_and_pinuse v n s) v ≡ true)
unfolding chunksize cinuse set_inuse_and_pinuse add_pinuse size_bits c_bit with_inuse_bits
set_inuse_and_pinuse_lem v n s pos aligned = (ground arith, ground arith)

-- Every other chunk keeps its size.
chunksize-set_inuse_and_pinuse :
    (v n y : ℕ) (s : State) → y ≢ v → chunksize (set_inuse_and_pinuse v n s) y ≡ chunksize s y
unfolding chunksize set_inuse_and_pinuse add_pinuse
chunksize-set_inuse_and_pinuse v n y s ne = elim (Bool-cases (y == v + n)) [
  | inl e ↦ ground (arith, size_bits-with_pinuse (s.heap.head y))
  | inr e ↦ ground arith
]

pub FreeBins-set_inuse_and_pinuse :
    (v n : ℕ) (s : State) (stacks : ℕ → List ℕ) (tries : ℕ → Trie)
    → FreeBins s stacks tries
    → ((j : ℕ) → j < 32 → Avoids v (tries j))
    → FreeBins (set_inuse_and_pinuse v n s) stacks tries
unfolding set_inuse_and_pinuse add_pinuse
FreeBins-set_inuse_and_pinuse v n s stacks tries inv off =
    FreeBins-with_heads (set_inuse_and_pinuse v n s).heap.head s.heap.prev_foot s stacks tries inv
      (λ j h.
        EveryChunk-mono _ _ (tries j)
          (λ y ne. chunksize-set_inuse_and_pinuse v n y s (λ e. ne (sym e))) (off j h))

-- The heads and the foot of a chunk that is split in two.
abbrev pub split_heads : (v nb rsize : ℕ) → State → State
split_heads v nb rsize s =
    set_size_and_pinuse_of_free_chunk (v + nb) rsize (set_size_and_pinuse_of_inuse_chunk v nb s)

pub split_heads_lem :
    (v nb rsize : ℕ) (s : State)
    → 0 < nb
    → nb % 8 ≡ 0
    → (chunksize (split_heads v nb rsize s) v ≡ nb) × (cinuse (split_heads v nb rsize s) v ≡ true)
unfolding chunksize cinuse set_size_and_pinuse_of_free_chunk set_size_and_pinuse_of_inuse_chunk
    set_foot size_bits c_bit with_inuse_bits
split_heads_lem v nb rsize s pos aligned = (ground arith, ground arith)

-- So does the remainder.
pub chunksize-remainder :
    (v nb rsize : ℕ) (s : State)
    → rsize % 8 ≡ 0
    → chunksize (split_heads v nb rsize s) (v + nb) ≡ rsize
unfolding chunksize set_size_and_pinuse_of_free_chunk set_size_and_pinuse_of_inuse_chunk set_foot
    size_bits with_pinuse
chunksize-remainder v nb rsize s aligned = ground arith

chunksize-split_heads :
    (v nb rsize y : ℕ) (s : State)
    → y ≢ v
    → y ≢ v + nb
    → chunksize (split_heads v nb rsize s) y ≡ chunksize s y
unfolding chunksize set_size_and_pinuse_of_free_chunk set_size_and_pinuse_of_inuse_chunk set_foot
chunksize-split_heads v nb rsize y s ne ne_rest = ground arith

pub FreeBins-split_heads :
    (v nb rsize : ℕ) (s : State) (stacks : ℕ → List ℕ) (tries : ℕ → Trie)
    → FreeBins s stacks tries
    → ((j : ℕ) → j < 32 → Avoids v (tries j) × Avoids (v + nb) (tries j))
    → FreeBins (split_heads v nb rsize s) stacks tries
unfolding set_size_and_pinuse_of_free_chunk set_size_and_pinuse_of_inuse_chunk set_foot
FreeBins-split_heads v nb rsize s stacks tries inv off =
    let t = split_heads v nb rsize s in
    FreeBins-with_heads t.heap.head t.heap.prev_foot s stacks tries inv (λ j h.
      EveryChunk-mono _ _ (tries j)
        (λ y q. chunksize-split_heads v nb rsize y s (λ e. q.0 (sym e)) (λ e. q.1 (sym e)))
        (EveryChunk-both _ _ (tries j) (off j h).0 (off j h).1))

pub set_inuse_and_pinuse_state : (v n : ℕ) (s : State) → (set_inuse_and_pinuse v n s).m ≡ s.m
unfolding set_inuse_and_pinuse add_pinuse
set_inuse_and_pinuse_state v n s = refl

pub split_heads_state : (v nb rsize : ℕ) (s : State) → (split_heads v nb rsize s).m ≡ s.m
unfolding set_size_and_pinuse_of_free_chunk set_size_and_pinuse_of_inuse_chunk set_foot
split_heads_state v nb rsize s = refl
