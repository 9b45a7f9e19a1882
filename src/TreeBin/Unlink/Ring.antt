-- ===== src/TreeBin/Unlink/Ring.antt =====
-- `unlink_large_chunk` on a chunk that shares its ring with others of its size.
use dlmalloc_rs.Prelude.{
  ℕ, zero, suc, ◌≤◌, ◌≡◌, ◌≢◌, refl, sym, true, not, ◌&&◌, ◌==◌, List, [], ◌∷◌, ◌++◌, arith, Fresh,
  Distinct, All-append, append-All, All-remove, All_at, Distinct-append_middle,
}
use dlmalloc_rs.State.{State, done, set_fd, set_bk, ok_address}
use dlmalloc_rs.Head.{chunksize}
use dlmalloc_rs.TreeBin.{take_replacement}
use dlmalloc_rs.TreeBin.Trie.{Trie, node, IsTrie, Represents, IsTreeChunk, IsRingChunk}
use dlmalloc_rs.TreeBin.Separate.{
  Avoids, SameAt, EveryChunk-mono, EveryChunk-both, Represents-frame,
}
use dlmalloc_rs.TreeBin.Unlink.{Without}

-- The neighbours of `x` in its ring are linked to each other.
abbrev pub ring_cut : ℕ → State → State
ring_cut x s = set_fd (s.heap.bk x) (s.heap.fd x) (set_bk (s.heap.fd x) (s.heap.bk x) s)

pub ring_cut-steps :
    (x : ℕ) (s : State)
    → s.heap.bk x ≢ x
    → s.m.least_addr ≤ s.heap.fd x
    → s.heap.bk (s.heap.fd x) ≡ x
    → s.heap.fd (s.heap.bk x) ≡ x
    → take_replacement x s ≡ done (s.heap.bk x) (ring_cut x s)
unfolding take_replacement
ring_cut-steps x s more low back fwd =
    let go : not (s.heap.bk x == x) ≡ true = ground (arith, more) in
    let fine : (ok_address s (s.heap.fd x)
          && (s.heap.bk (s.heap.fd x) == x && s.heap.fd (s.heap.bk x) == x))
        ≡ true =
      ground (arith, low, back, fwd) in
    rw (go, fine) refl

pub ring_cut-SameAt :
    (x y : ℕ) (s : State) → y ≢ s.heap.bk x → y ≢ s.heap.fd x → SameAt s (ring_cut x s) y
unfolding chunksize
ring_cut-SameAt x y s ne_bk ne_fd = record {
  node_same = record {
    fd = ground (arith, ne_bk);
    bk = ground (arith, ne_fd);
    parent = refl;
    index = refl;
    size = refl;
  };
  child0 = refl;
  child1 = refl;
}

pub IsTreeChunk-cut :
    (s : State) (x i up n y : ℕ) → IsTreeChunk s i up n y → IsTreeChunk (ring_cut x s) i up n y
unfolding chunksize
IsTreeChunk-cut s x i up n y h = record {
  nonnull = h.nonnull;
  low = h.low;
  size = h.size;
  parent = h.parent;
  index = h.index;
}

pub IsRingChunk-cut :
    (s : State) (x i n y : ℕ) → IsRingChunk s i n y → IsRingChunk (ring_cut x s) i n y
IsRingChunk-cut s x i n y h = record {
  chunk = IsTreeChunk-cut s x i 0 n y h.chunk;
  no_left = h.no_left;
  no_right = h.no_right;
}

-- A trie that has neither neighbour.
pub Represents-cut :
    (s : State) (x i up p : ℕ) (t : Trie)
    → Avoids (s.heap.bk x) t
    → Avoids (s.heap.fd x) t
    → Represents s i up p t
    → Represents (ring_cut x s) i up p t
Represents-cut s x i up p t off_bk off_fd m =
    Represents-frame s (ring_cut x s) i up p t refl
      (EveryChunk-mono _ _ t (λ y h. ring_cut-SameAt x y s (λ e. h.0 (sym e)) (λ e. h.1 (sym e)))
        (EveryChunk-both _ _ t off_bk off_fd))
      m

-- The order of sizes does not see a ring.
pub other_ring-IsTrie :
    (w lo a b k : ℕ) (ring ring' : List ℕ) (l r : Trie)
    → IsTrie w lo (node a k ring l r)
    → IsTrie w lo (node b k ring' l r)
other_ring-IsTrie zero lo a b k ring ring' l r h = h
other_ring-IsTrie (suc w) lo a b k ring ring' l r h = h

-- A chunk in the middle of a ring taken out.
pub middle-Without :
    (a k x : ℕ) (ys zs : List ℕ) (l r : Trie)
    → Without (x ∷ []) (node a k (ys ++ x ∷ zs) l r) (node a k (ys ++ zs) l r)
middle-Without a k x ys zs l r = record {
  member = λ P h. (All_at P ys x zs h.1, tt);
  every = λ P h. (h.0, All-remove P ys x zs h.1, h.2, h.3);
  back = λ P f h.
      let parts = All-append P ys zs h.1 in
      (h.0, append-All P ys (x ∷ zs) parts.0 (f.0, parts.1), h.2, h.3);
  sizes = λ P h. h;
  separate = λ d.
      let rest = Distinct-append_middle ys x zs d.0.1 in
      let off = All_at (λ y. Avoids y l × Avoids y r) ys x zs d.2 in
      (
        (
          (All-remove (λ y. a ≢ y) ys x zs d.0.0, rest.0),
          d.1,
          All-remove (λ y. Avoids y l × Avoids y r) ys x zs d.2,
          d.3,
          d.4,
          d.5,
        ),
        (((λ e. All_at (λ y. a ≢ y) ys x zs d.0.0 (sym e)), rest.1, off.0, off.1), tt),
      );
  ordered = λ w lo al h. other_ring-IsTrie w lo a a k (ys ++ x ∷ zs) (ys ++ zs) l r h;
}

pub Distinct-append_last :
    (ys : List ℕ) (b : ℕ) → Distinct (ys ++ b ∷ []) → Fresh b ys × Distinct ys
Distinct-append_last [] b d = (tt, tt)
Distinct-append_last (y ∷ ys) b d =
    let parts = All-append (λ x. y ≢ x) ys (b ∷ []) d.0 in
    let rest = Distinct-append_last ys b d.1 in
    (((λ e. parts.1.0 (sym e)), rest.0), (parts.0, rest.1))

-- The first chunk of a ring taken out: the last one takes its place.
pub first-Without :
    (x n b : ℕ) (ys : List ℕ) (l r : Trie)
    → Without (x ∷ []) (node x n (ys ++ b ∷ []) l r) (node b n ys l r)
first-Without x n b ys l r = record {
  member = λ P h. (h.0, tt);
  every = λ P h. let parts = All-append P ys (b ∷ []) h.1 in (parts.1.0, parts.0, h.2, h.3);
  back = λ P f h. (f.0, append-All P ys (b ∷ []) h.1 (h.0, tt), h.2, h.3);
  sizes = λ P h. h;
  separate = λ d.
      let parts = All-append (λ y. Avoids y l × Avoids y r) ys (b ∷ []) d.2 in
      let own = All-append (λ y. x ≢ y) ys (b ∷ []) d.0.0 in
      (
        (Distinct-append_last ys b d.0.1, parts.1.0, parts.0, d.3, d.4, d.5),
        ((own.1.0, own.0, d.1.0, d.1.1), tt),
      );
  ordered = λ w lo al h. other_ring-IsTrie w lo x b n (ys ++ b ∷ []) ys l r h;
}
