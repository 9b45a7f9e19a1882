-- ===== src/SmallBlocks.antt =====
-- Small blocks from the small bins: `dlmalloc` of a size whose bin holds chunks.
pub mod Free
use Prim.Native.Nat.{bit_and}
use native.Mathlib.Nat.{div-div-eq-div-mul, pow-suc}
use mathlib.Core.Path.{fun_ext}
use dlmalloc_rs.Prelude.{
  ℕ, zero, suc, ◌+◌, ◌-◌, ◌/◌, ◌%◌, ◌*◌, ◌^◌, ◌≤◌, ◌<◌, ◌≡◌, refl, sym, Bool-cases, ==_iff, inl,
  inr, ap, if◌then◌else◌, none, some, ◌∙◌, subst, true, false, List, [], ◌∷◌, arith, ◌==◌, leb, ltb,
}
use dlmalloc_rs.Word.{bit_and_flags}
use dlmalloc_rs.Word.{bit_at}
use dlmalloc_rs.Size.{
  is_small, mem2chunk, chunk2mem, max_small_request, max_request, small_index, small_index2size,
  pad_request, add64,
}
use dlmalloc_rs.BinMap.{bit_is_marked}
use dlmalloc_rs.BinMap.Laws.{bit_is_marked-bit_at}
use dlmalloc_rs.State.{State, Run, done, pure, and_then, smallbin_at}
use dlmalloc_rs.Head.{
  ok_next, pinuse, cinuse, set_free_with_pinuse, chunksize, is_inuse, set_inuse_and_pinuse,
  with_inuse_bits, size_bits, inuse_bits, add_pinuse,
}
use dlmalloc_rs.SmallBin.{smallmap_is_marked, unlink_first_small_chunk, insert_small_chunk}
use dlmalloc_rs.SmallBin.Stacks.{IsBin, SmallBins, Leaves, leaves, OnlySmall, update}
use dlmalloc_rs.SmallBin.Remove.{unlink_first_small_chunk-SmallBins}
use dlmalloc_rs.SmallBin.Insert.{IsNew, insert_small_chunk-SmallBins}
use dlmalloc_rs.Size.Laws.{mem2chunk-chunk2mem}
use dlmalloc_rs.Free.{consolidate_forward, consolidate_backward, bin_freed, free_forward, dlfree}
use dlmalloc_rs.Os.{Os}
use dlmalloc_rs.Malloc.{malloc_large, malloc_rest, take_exact, malloc_small, request_size, dlmalloc}

bit_at-div : (m i : ℕ) → bit_at m i ≡ m / 2 ^ i % 2
unfolding bit_at
bit_at-div m zero = omega arith
bit_at-div m (suc i) =
    bit_at-div (m / 2) i
    ∙ ap (λ n. n % 2)
        (div-div-eq-div-mul m 2 (2 ^ i) ∙ ap (λ n. m / n) (omega (arith, pow-suc 2 i)))

request_size_small :
    (bytes : ℕ)
    → bytes ≤ max_small_request
    → (small_index (request_size bytes) < 32)
      × (small_index2size (small_index (request_size bytes)) ≡ request_size bytes)
      × (request_size bytes % 16 ≡ 0)
      × (0 < request_size bytes)
unfolding request_size pad_request add64 small_index small_index2size
request_size_small bytes h = (ground arith, ground arith, ground arith, ground arith)

pub small_index_lt : (n : ℕ) → n < 256 → small_index n < 32
unfolding small_index
small_index_lt n h = omega (arith, h)

pub chunk2mem_not_null : (p : ℕ) → p < 2 ^ 64 - 16 → (chunk2mem p == 0) ≡ false
unfolding chunk2mem add64
chunk2mem_not_null p h = ground (arith, h)

-- What `take_exact` leaves: a block in use at `p`, of size `n`, and the bins `bins`.
pub record Taken (t : State) (bins : ℕ → List ℕ) (p n : ℕ) : Type 0 where
  pub stacks : SmallBins t bins
  pub size : chunksize t p ≡ n
  pub in_use : is_inuse t p ≡ true

SmallBins-set_inuse_and_pinuse :
    (p n : ℕ) (t : State) (bins : ℕ → List ℕ)
    → SmallBins t bins
    → SmallBins (set_inuse_and_pinuse p n t) bins
unfolding set_inuse_and_pinuse add_pinuse smallmap_is_marked
SmallBins-set_inuse_and_pinuse p n t bins inv = record {
  each = inv.each;
  distinct = inv.distinct;
  apart = inv.apart;
  off_bins = inv.off_bins;
}

set_inuse_and_pinuse_lem :
    (p n : ℕ) (t : State)
    → n % 16 ≡ 0
    → 0 < n
    → (chunksize (set_inuse_and_pinuse p n t) p ≡ n)
      × (is_inuse (set_inuse_and_pinuse p n t) p ≡ true)
unfolding set_inuse_and_pinuse add_pinuse chunksize is_inuse size_bits inuse_bits with_inuse_bits
set_inuse_and_pinuse_lem p n t al pos = (ground arith, ground arith)

pub unlinked :
    {P : State → Type 0} {r : Run (Unit {0})} → Leaves P r → (t : State) × (r ≡ done tt t) × P t
unlinked (leaves {t = t} h) = (t, refl, h)

module _ (s : State) (bins : ℕ → List ℕ) (inv : SmallBins s bins) (p i : ℕ) (zs : List ℕ)
    (lt : i < 32) (e : bins i ≡ p ∷ zs) where
  first_of_bin : (smallmap_is_marked s i ≡ true) × (s.heap.fd (smallbin_at s i) ≡ p)
  first_of_bin = let b = subst (IsBin s i) e (inv.each i lt) in (b.0, b.1.0)

  exact_bits : ((bit_and (s.m.smallmap / 2 ^ i) 3 == 0) ≡ false) × (s.m.smallmap / 2 ^ i % 2 ≡ 1)
  unfolding smallmap_is_marked
  exact_bits =
      let odd : s.m.smallmap / 2 ^ i % 2 ≡ 1 = ground (
        arith,
        bit_is_marked-bit_at s.m.smallmap i lt,
        bit_at-div s.m.smallmap i,
        first_of_bin.0,
      ) in
      (ground (arith, bit_and_flags (s.m.smallmap / 2 ^ i)), odd)

  take_exact-Taken :
      small_index2size i % 16 ≡ 0
      → 0 < small_index2size i
      → (t : State) × (take_exact i s ≡ done (chunk2mem p) t)
        × Taken t (update bins i zs) p (small_index2size i)
  unfolding take_exact
  take_exact-Taken al pos =
      let l = unlinked (unlink_first_small_chunk-SmallBins s bins p i zs inv lt e) in
      let n = small_index2size i in
      let h = set_inuse_and_pinuse_lem p n l.0 al pos in
      (
        set_inuse_and_pinuse p n l.0,
        rw (first_of_bin.1, l.1) refl,
        record {
          stacks = SmallBins-set_inuse_and_pinuse p n l.0 (update bins i zs) l.2.0;
          size = h.0;
          in_use = h.1;
        },
      )

module _ (s : State) (bins : ℕ → List ℕ) (inv : SmallBins s bins) (p nb : ℕ) (zs : List ℕ)
    (lt : small_index nb < 32) (e : bins (small_index nb) ≡ p ∷ zs)
    (exact : small_index2size (small_index nb) ≡ nb) (al : nb % 16 ≡ 0) (pos : 0 < nb) where
  malloc_small-Taken :
      (t : State) × (malloc_small nb s ≡ done (some (chunk2mem p)) t)
      × Taken t (update bins (small_index nb) zs) p nb
  unfolding malloc_small
  malloc_small-Taken =
      let bits = exact_bits s bins inv p (small_index nb) zs lt e in
      let same : small_index nb + (1 - 1) ≡ small_index nb = omega arith in
      let l =
        take_exact-Taken s bins inv p (small_index nb) zs lt e
          (subst (λ n. n % 16 ≡ 0) (sym exact) al) (subst (λ n. 0 < n) (sym exact) pos) in
      (
        l.0,
        rw (bits.0, bits.1, same, l.1) refl,
        subst (Taken l.0 (update bins (small_index nb) zs) p) exact l.2,
      )

-- When the small bins hold the stacks `bins`, a request of at most MAX_SMALL_REQUEST bytes whose
-- stack is not empty returns the chunk on top of it: the block is in use and has the padded size, and
-- the small bins hold the stacks without that chunk.
pub dlmalloc-Taken :
    (os : Os) (s : State) (bins : ℕ → List ℕ) (bytes p : ℕ) (zs : List ℕ)
    → SmallBins s bins
    → bytes ≤ max_small_request
    → bins (small_index (request_size bytes)) ≡ p ∷ zs
    → (t : State) × (dlmalloc os bytes s ≡ done (chunk2mem p) t)
      × Taken t (update bins (small_index (request_size bytes)) zs) p (request_size bytes)
unfolding dlmalloc
dlmalloc-Taken os s bins bytes p zs inv h e =
    let nb = request_size bytes in
    let size = request_size_small bytes h in
    let small : leb bytes max_small_request ≡ true = ground (arith, h) in
    let l = malloc_small-Taken s bins inv p nb zs size.0 e size.1 size.2 size.3 in
    (
      l.0,
      ap
            (λ b.
              and_then
                ((if b
                    then malloc_small nb
                    else if leb max_request bytes
                    then pure none
                    else malloc_large nb)
                  s)
                (elim [ none ↦ malloc_rest os nb | some mem ↦ pure mem ]))
            small
          ∙ ap (λ r. and_then r (elim [ none ↦ malloc_rest os nb | some mem ↦ pure mem ])) l.1,
      l.2,
    )
