-- ===== src/TreeBin/Insert/Ring.antt =====
-- The insertion of a chunk in the ring of a node of its size.
use dlmalloc_rs.Prelude.{
  ℕ, suc, ◌≤◌, ◌<◌, ◌≡◌, ◌≢◌, refl, sym, subst, true, false, not, ◌&&◌, ◌==◌, List, [], ◌∷◌, arith,
  All, Fresh, Distinct,
}
use dlmalloc_rs.State.{State, done, set_fd, set_bk, set_parent, write, ok_address}
use dlmalloc_rs.Head.{chunksize}
use dlmalloc_rs.SmallBin.Ring.{Links, frame, fd_All}
use dlmalloc_rs.SmallBin.Stacks.{All-write_twice}
use dlmalloc_rs.TreeBin.{insert_below}
use dlmalloc_rs.TreeBin.Trie.{Trie, node, Represents, IsTreeChunk, IsRingChunk}
use dlmalloc_rs.TreeBin.Separate.{
  EveryChunk, Avoids, IsSeparate, SameAt, EveryChunk-mono, EveryChunk-both, All-map, All-both,
  Represents-frame,
}

-- A chunk of size `n` for bin `i` with no children yet.
pub record IsReady (s : State) (i n x : ℕ) : Type 0 where
  pub nonnull : 0 < x
  pub low : s.m.least_addr ≤ x
  pub size : chunksize s x ≡ n
  pub index : s.heap.index x ≡ i
  pub no_left : s.heap.child0 x ≡ 0
  pub no_right : s.heap.child1 x ≡ 0

-- Nothing has changed but the links between tree chunks.
abbrev pub OnlyLinks : State → State → Type 0
OnlyLinks s t = t ≡ record s {
  heap = record (s.heap) {
    fd = t.heap.fd;
    bk = t.heap.bk;
    child0 = t.heap.child0;
    child1 = t.heap.child1;
    parent = t.heap.parent;
    index = t.heap.index;
  };
}

abbrev pub ring_insertion : (x a : ℕ) → State → State
ring_insertion x a s =
    set_parent x 0 (set_bk x a (set_fd x (s.heap.fd a) (set_fd a x (set_bk (s.heap.fd a) x s))))

Links-insertion_more :
    (fd bk : ℕ → ℕ) (a x y : ℕ) (ys : List ℕ)
    → Fresh x (a ∷ y ∷ ys)
    → Fresh a (y ∷ ys)
    → Distinct (y ∷ ys)
    → Links fd bk a (y ∷ ys) a
    → Links (write (write fd a x) x y) (write (write bk y x) x a) a (x ∷ y ∷ ys) a
Links-insertion_more fd bk a x y ys new off d l = (
  ground (arith, new.0),
  ground arith,
  (
    ground arith,
    ground (arith, new.1.0),
    frame fd bk (write (write fd a x) x y) (write (write bk y x) x a) y ys a
        (All-write_twice fd a x x y (y ∷ ys) off new.1) (All-write_twice bk y x x a ys d.0 new.1.1)
        (ground (arith, new.0, off.0)) l.2,
  ),
)

Links-insertion :
    (fd bk : ℕ → ℕ) (a x : ℕ) (ring : List ℕ)
    → Fresh x (a ∷ ring)
    → Fresh a ring
    → Distinct ring
    → Links fd bk a ring a
    → Links (write (write fd a x) x (fd a)) (write (write bk (fd a) x) x a) a (x ∷ ring) a
Links-insertion fd bk a x [] new off d l =
    subst (λ f. Links (write (write fd a x) x f) (write (write bk f x) x a) a (x ∷ []) a) (sym l.0)
      (ground (arith, new.0), ground arith, (ground arith, ground (arith, new.0)))
Links-insertion fd bk a x (y ∷ ys) new off d l =
    subst (λ f. Links (write (write fd a x) x f) (write (write bk f x) x a) a (x ∷ y ∷ ys) a)
      (sym l.0) (Links-insertion_more fd bk a x y ys new off d l)

same_elsewhere :
    (x a y : ℕ) (s : State) → y ≢ x → y ≢ a → y ≢ s.heap.fd a → SameAt s (ring_insertion x a s) y
unfolding chunksize
same_elsewhere x a y s ne_x ne_a ne_f = record {
  node_same = record {
    fd = ground arith;
    bk = ground arith;
    parent = ground arith;
    index = refl;
    size = refl;
  };
  child0 = refl;
  child1 = refl;
}

-- The chunks of a subtree are not in the ring.
subtree_same :
    (x a : ℕ) (ring : List ℕ) (l : Trie) (s : State)
    → Links s.heap.fd s.heap.bk a ring a
    → Avoids x l
    → Avoids a l
    → All (λ y. Avoids y l) ring
    → EveryChunk (SameAt s (ring_insertion x a s)) l
subtree_same x a ring l s links new off ring_off =
    let f_off = fd_All s.heap.fd s.heap.bk (λ y. Avoids y l) a ring a links ring_off off in
    EveryChunk-mono _ _ l
      (λ y h. same_elsewhere x a y s (λ e. h.0 (sym e)) (λ e. h.1.0 (sym e)) (λ e. h.1.1 (sym e)))
      (EveryChunk-both _ _ l new (EveryChunk-both _ _ l off f_off))

IsTreeChunk-old :
    (s : State) (i up k x a y : ℕ)
    → x ≢ y
    → IsTreeChunk s i up k y
    → IsTreeChunk (ring_insertion x a s) i up k y
unfolding chunksize
IsTreeChunk-old s i up k x a y ne h = record {
  nonnull = h.nonnull;
  low = h.low;
  size = h.size;
  parent = ground (arith, ne, h.parent);
  index = h.index;
}

IsRingChunk-old :
    (s : State) (i k x a y : ℕ)
    → x ≢ y
    → IsRingChunk s i k y
    → IsRingChunk (ring_insertion x a s) i k y
IsRingChunk-old s i k x a y ne h = record {
  chunk = IsTreeChunk-old s i 0 k x a y ne h.chunk;
  no_left = h.no_left;
  no_right = h.no_right;
}

IsRingChunk-new :
    (s : State) (i n x a : ℕ) → IsReady s i n x → IsRingChunk (ring_insertion x a s) i n x
unfolding chunksize
IsRingChunk-new s i n x a h = record {
  chunk = record {
    nonnull = h.nonnull;
    low = h.low;
    size = h.size;
    parent = ground arith;
    index = h.index;
  };
  no_left = h.no_left;
  no_right = h.no_right;
}

module _ (s : State) (i up x a n k : ℕ) (ring : List ℕ) (l r : Trie)
    (m : Represents s i up a (node a k ring l r)) (new : Avoids x (node a k ring l r))
    (ready : IsReady s i n x) (same : k ≡ n) where
  pub ring_insertion-steps :
      (rounds bits : ℕ) → insert_below (suc rounds) x n a bits s ≡ done tt (ring_insertion x a s)
  unfolding insert_below
  ring_insertion-steps rounds bits =
      let f_low =
        fd_All s.heap.fd s.heap.bk (λ y. s.m.least_addr ≤ y) a ring a m.2
          (All-map _ _ ring (λ y h. h.chunk.low) m.3) m.1.low in
      let found : not (chunksize s a == n) ≡ false = ground (arith, m.1.size) in
      let fine : (ok_address s a && ok_address s (s.heap.fd a)) ≡ true =
        ground (arith, f_low, m.1.low) in
      rw (found, fine) refl

  pub ring_insertion-Represents :
      IsSeparate (node a k ring l r)
      → Represents (ring_insertion x a s) i up a (node a k (x ∷ ring) l r)
  ring_insertion-Represents apart = (
    refl,
    IsTreeChunk-old s i up k x a a new.0 m.1,
    Links-insertion s.heap.fd s.heap.bk a x ring (new.0, new.1) apart.0.0 apart.0.1 m.2,
    (
      subst (λ j. IsRingChunk (ring_insertion x a s) i j x) (sym same)
          (IsRingChunk-new s i n x a ready),
      All-map _ _ ring (λ y h. IsRingChunk-old s i k x a y h.0 h.1) (All-both _ _ ring new.1 m.3),
    ),
    Represents-frame s (ring_insertion x a s) i a (s.heap.child0 a) l refl
        (subtree_same x a ring l s m.2 new.2 apart.1.0 (All-map _ _ ring (λ y h. h.0) apart.2)) m.4,
    Represents-frame s (ring_insertion x a s) i a (s.heap.child1 a) r refl
        (subtree_same x a ring r s m.2 new.3 apart.1.1 (All-map _ _ ring (λ y h. h.1) apart.2)) m.5,
  )

  pub ring_insertion-SameAt :
      (y : ℕ) → y ≢ x → Avoids y (node a k ring l r) → SameAt s (ring_insertion x a s) y
  ring_insertion-SameAt y ne off =
      same_elsewhere x a y s ne off.0
        (fd_All s.heap.fd s.heap.bk (λ z. y ≢ z) a ring a m.2 off.1 off.0)
