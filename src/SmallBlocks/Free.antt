-- ===== src/SmallBlocks/Free.antt =====
-- Small blocks back to the small bins: `dlfree` of a small block between blocks in use, and the
-- `dlmalloc` that follows it.
use mathlib.Core.Path.{fun_ext}
use dlmalloc_rs.Prelude.{
  ℕ, ◌+◌, ◌-◌, ◌/◌, ◌^◌, ◌≤◌, ◌<◌, ◌≡◌, refl, sym, Bool-cases, ==_iff, inl, inr, ap, ◌∙◌, subst,
  true, false, ◌≢◌, ◌%◌, List, ◌∷◌, arith, ◌==◌, leb, ltb,
}
use dlmalloc_rs.Size.{is_small, mem2chunk, chunk2mem, max_small_request, small_index}
use dlmalloc_rs.State.{State, done}
use dlmalloc_rs.Head.{
  ok_next, pinuse, cinuse, set_free_with_pinuse, chunksize, is_inuse, size_bits, clear_pinuse,
  set_size_and_pinuse_of_free_chunk, set_foot,
}
use dlmalloc_rs.Head.Laws.{set_free_with_pinuse_lem}
use dlmalloc_rs.SmallBin.{smallmap_is_marked, insert_small_chunk}
use dlmalloc_rs.SmallBin.Stacks.{SmallBins, Leaves, OnlySmall, update}
use dlmalloc_rs.SmallBin.Insert.{IsNew, insert_small_chunk-SmallBins}
use dlmalloc_rs.Size.Laws.{mem2chunk-chunk2mem}
use dlmalloc_rs.Free.{consolidate_forward, consolidate_backward, bin_freed, free_forward, dlfree}
use dlmalloc_rs.Os.{Os}
use dlmalloc_rs.Malloc.{request_size, dlmalloc}
use dlmalloc_rs.SmallBlocks.{unlinked, chunk2mem_not_null, small_index_lt, Taken, dlmalloc-Taken}

-- A small block in use at `p` between two blocks in use, new to the small bins.
pub record IsSmallBlock (s : State) (bins : ℕ → List ℕ) (p : ℕ) : Type 0 where
  pub in_use : is_inuse s p ≡ true
  pub before_in_use : pinuse s p ≡ true
  pub nonempty : 0 < chunksize s p
  pub small : chunksize s p < 256
  pub told : pinuse s (p + chunksize s p) ≡ true
  pub next_in_use : cinuse s (p + chunksize s p) ≡ true
  pub fits : p < 2 ^ 64 - 16
  pub new : IsNew s bins p

module _ (os : Os) (s : State) (bins : ℕ → List ℕ) (inv : SmallBins s bins) (p : ℕ)
    (b : IsSmallBlock s bins p) where
  abbrev freed : State
  freed = set_free_with_pinuse p (chunksize s p) (p + chunksize s p) s

  freed-SmallBins : SmallBins freed bins
  unfolding set_free_with_pinuse smallmap_is_marked
  freed-SmallBins = record {
    each = inv.each;
    distinct = inv.distinct;
    apart = inv.apart;
    off_bins = inv.off_bins;
  }

  freed-IsNew : IsNew freed bins p
  unfolding set_free_with_pinuse
  freed-IsNew = record { low = b.new.low; off_bins = b.new.off_bins; off_chunks = b.new.off_chunks }

  free_forward-insert :
      free_forward os p (chunksize s p) (p + chunksize s p) s
      ≡ insert_small_chunk p (chunksize s p) freed
  unfolding free_forward consolidate_forward bin_freed ok_next is_small
  free_forward-insert =
      let next : ltb p (p + chunksize s p) ≡ true = ground (arith, b.nonempty) in
      let small : ltb (chunksize s p / 8) 32 ≡ true = ground (arith, b.small) in
      rw (next, b.told, b.next_in_use, small) refl

  dlfree-insert : dlfree os (chunk2mem p) s ≡ insert_small_chunk p (chunksize s p) freed
  unfolding dlfree consolidate_backward
  dlfree-insert =
      let back : mem2chunk (chunk2mem p) ≡ p = mem2chunk-chunk2mem p (omega (arith, b.fits)) in
      let low : leb s.m.least_addr p ≡ true = ground (arith, b.new.low) in
      rw (chunk2mem_not_null p b.fits, back, low, b.in_use, b.before_in_use)
        (ap (λ q. free_forward os p (chunksize s p) (q + chunksize s q) s) back
          ∙ free_forward-insert)

dlfree-OnlySmall :
    (os : Os) (s : State) (bins : ℕ → List ℕ) (p : ℕ)
    → SmallBins s bins
    → IsSmallBlock s bins p
    → Leaves
        (λ t.
          SmallBins t
            (update bins (small_index (chunksize s p)) (p ∷ bins (small_index (chunksize s p))))
          × OnlySmall (set_free_with_pinuse p (chunksize s p) (p + chunksize s p) s) t)
        (dlfree os (chunk2mem p) s)
dlfree-OnlySmall os s bins p inv b = rw (dlfree-insert os s bins inv p b) (
    insert_small_chunk-SmallBins (freed os s bins inv p b) bins p (chunksize s p)
      (freed-SmallBins os s bins inv p b) (small_index_lt (chunksize s p) b.small)
      (freed-IsNew os s bins inv p b))

-- What a state `t` is after the small block at `p`, of `n` bytes, has been freed in the state `s`,
-- in which the small bins held the stacks `bins`.
pub record IsFreed (s : State) (bins : ℕ → List ℕ) (p n : ℕ) (t : State) : Type 0 where
  pub stacks : SmallBins t (update bins (small_index n) (p ∷ bins (small_index n)))
  pub size : chunksize t p ≡ n
  pub free : cinuse t p ≡ false
  pub before_in_use : pinuse t p ≡ true
  pub foot : t.heap.prev_foot (p + n) ≡ n
  pub told : pinuse t (p + n) ≡ false
  pub next_in_use : cinuse t (p + n) ≡ true
  pub next_size : chunksize t (p + n) ≡ chunksize s (p + n)
  pub heads : (q : ℕ) → q ≢ p → q ≢ p + n → t.heap.head q ≡ s.heap.head q
  pub feet : (q : ℕ) → q ≢ p + n → t.heap.prev_foot q ≡ s.heap.prev_foot q
  pub rest : t ≡ record s {
    heap = record (s.heap) {
      prev_foot = t.heap.prev_foot;
      head = t.heap.head;
      fd = t.heap.fd;
      bk = t.heap.bk;
    };
    m = record (s.m) { smallmap = t.m.smallmap };
  }

chunksize_mod_8 : (s : State) (p : ℕ) → chunksize s p % 8 ≡ 0
unfolding chunksize size_bits
chunksize_mod_8 s p = omega arith

IsFreed-of_OnlySmall :
    (s t : State) (bins : ℕ → List ℕ) (p n : ℕ)
    → SmallBins t (update bins (small_index n) (p ∷ bins (small_index n)))
    → OnlySmall (set_free_with_pinuse p n (p + n) s) t
    → 0 < n
    → n % 8 ≡ 0
    → cinuse s (p + n) ≡ true
    → IsFreed s bins p n t
unfolding set_free_with_pinuse chunksize cinuse pinuse clear_pinuse
    set_size_and_pinuse_of_free_chunk set_foot smallmap_is_marked
IsFreed-of_OnlySmall s t bins p n stacks only pos al next = subst (IsFreed s bins p n) (sym only) (
    let l = set_free_with_pinuse_lem p n s pos al in
    record {
      stacks =
          subst (λ z. SmallBins z (update bins (small_index n) (p ∷ bins (small_index n)))) only
            stacks;
      size = l.0;
      free = l.1;
      before_in_use = l.2;
      foot = l.3;
      told = l.4;
      next_in_use = l.5 ∙ next;
      next_size = l.6;
      heads = l.7;
      feet = l.8;
      rest = refl;
    })

-- When the small bins hold the stacks `bins`, freeing a small block that is new to them and lies
-- between blocks in use returns: the block is on top of its size's stack, free and with its size, and
-- the next chunk has its size in its foot word and knows that the chunk before it is free. The next
-- chunk's size and in-use bit, all other heads and feet, and all else of the state but the links and
-- the small map are as before.
pub dlfree-SmallBins :
    (os : Os) (s : State) (bins : ℕ → List ℕ) (p : ℕ)
    → SmallBins s bins
    → IsSmallBlock s bins p
    → (t : State) × (dlfree os (chunk2mem p) s ≡ done tt t) × IsFreed s bins p (chunksize s p) t
dlfree-SmallBins os s bins p inv b =
    let f = unlinked (dlfree-OnlySmall os s bins p inv b) in
    (
      f.0,
      f.1,
      IsFreed-of_OnlySmall s f.0 bins p (chunksize s p) f.2.0 f.2.1 b.nonempty (chunksize_mod_8 s p)
          b.next_in_use,
    )

update_twice :
    (bins : ℕ → List ℕ) (i : ℕ) (ys : List ℕ) (j : ℕ)
    → update (update bins i ys) i (bins i) j ≡ bins j
update_twice bins i ys j = elim (Bool-cases (i == j)) [
  | inl e ↦ rw e (ap bins ((==_iff i j).0 e))
  | inr n ↦ rw n refl
]

update_self : (bins : ℕ → List ℕ) (i : ℕ) (xs : List ℕ) → update bins i xs i ≡ xs
update_self bins i xs = let e : (i == i) ≡ true = ground arith in rw e refl

-- When the small bins hold the stacks `bins`, and `p` is a small block in use that is new to them and
-- lies between blocks in use, freeing it and then a small request with its padded size both return;
-- the request gets the same block, in use and with its size, and the small bins hold `bins` again.
pub dlmalloc-dlfree :
    (os : Os) (s : State) (bins : ℕ → List ℕ) (p bytes : ℕ)
    → SmallBins s bins
    → IsSmallBlock s bins p
    → bytes ≤ max_small_request
    → request_size bytes ≡ chunksize s p
    → (t u : State) × (dlfree os (chunk2mem p) s ≡ done tt t)
      × (dlmalloc os bytes t ≡ done (chunk2mem p) u)
      × Taken u bins p (chunksize s p)
dlmalloc-dlfree os s bins p bytes inv b h e =
    let f = unlinked (dlfree-OnlySmall os s bins p inv b) in
    let i = small_index (chunksize s p) in
    let m = dlmalloc-Taken os f.0 (update bins i (p ∷ bins i)) bytes p (bins i) f.2.0 h (
      subst (λ n. update bins i (p ∷ bins i) (small_index n) ≡ p ∷ bins i) (sym e)
        (update_self bins i (p ∷ bins i))) in
    (
      f.0,
      m.0,
      f.1,
      m.1,
      subst (λ bs. Taken m.0 bs p (chunksize s p)) (fun_ext (update_twice bins i (p ∷ bins i)))
          (subst (λ n. Taken m.0 (update (update bins i (p ∷ bins i)) (small_index n) (bins i)) p n)
            e m.2),
    )
