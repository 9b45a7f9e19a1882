-- ===== src/TreeBin/Separate.antt =====
-- The chunks of the trees are different from one another, and what a change of memory elsewhere
-- leaves of a tree.
use dlmalloc_rs.Prelude.{
  ℕ, ◌≡◌, ◌≢◌, ◌∙◌, refl, sym, subst, List, [], ◌∷◌, arith, All, All-of, Fresh, Distinct,
}
use dlmalloc_rs.State.{State}
use dlmalloc_rs.Head.{chunksize}
use dlmalloc_rs.SmallBin.Ring.{Links, frame}
use dlmalloc_rs.TreeBin.Trie.{Trie, leaf, node, Represents, IsTreeChunk, IsRingChunk}

-- `P` of the address of every chunk, those in the rings included.
abbrev pub EveryChunk : (ℕ → Type 0) → Trie → Type 0
EveryChunk P leaf = Unit
EveryChunk P (node a n ring l r) = P a × All P ring × EveryChunk P l × EveryChunk P r

abbrev pub Avoids : ℕ → Trie → Type 0
Avoids y t = EveryChunk (λ z. y ≢ z) t

-- All chunks of a trie differ.
abbrev pub IsSeparate : Trie → Type 0
IsSeparate leaf = Unit
IsSeparate (node a n ring l r) =
    (Fresh a ring × Distinct ring)
    × (Avoids a l × Avoids a r)
    × All (λ y. Avoids y l × Avoids y r) ring
    × EveryChunk (λ y. Avoids y r) l
    × IsSeparate l
    × IsSeparate r

-- The fields of the chunk at `y` are the same in both states, but for its children.
pub record SameNode (s t : State) (y : ℕ) : Type 0 where
  pub fd : t.heap.fd y ≡ s.heap.fd y
  pub bk : t.heap.bk y ≡ s.heap.bk y
  pub parent : t.heap.parent y ≡ s.heap.parent y
  pub index : t.heap.index y ≡ s.heap.index y
  pub size : chunksize t y ≡ chunksize s y

pub record SameAt (s t : State) (y : ℕ) : Type 0 where
  pub node_same : SameNode s t y
  pub child0 : t.heap.child0 y ≡ s.heap.child0 y
  pub child1 : t.heap.child1 y ≡ s.heap.child1 y

pub All-map : (P Q : ℕ → Type 0) (xs : List ℕ) → ((y : ℕ) → P y → Q y) → All P xs → All Q xs
All-map P Q [] f h = tt
All-map P Q (x ∷ xs) f h = (f x h.0, All-map P Q xs f h.1)

pub All-both : (P Q : ℕ → Type 0) (xs : List ℕ) → All P xs → All Q xs → All (λ y. P y × Q y) xs
All-both P Q [] f g = tt
All-both P Q (x ∷ xs) f g = ((f.0, g.0), All-both P Q xs f.1 g.1)

pub EveryChunk-mono :
    (P Q : ℕ → Type 0) (t : Trie) → ((y : ℕ) → P y → Q y) → EveryChunk P t → EveryChunk Q t
EveryChunk-mono P Q leaf f h = tt
EveryChunk-mono P Q (node a n ring l r) f h =
    (f a h.0, All-map P Q ring f h.1, EveryChunk-mono P Q l f h.2, EveryChunk-mono P Q r f h.3)

pub EveryChunk-both :
    (P Q : ℕ → Type 0) (t : Trie) → EveryChunk P t → EveryChunk Q t → EveryChunk (λ y. P y × Q y) t
EveryChunk-both P Q leaf f g = tt
EveryChunk-both P Q (node a n ring l r) f g = (
  (f.0, g.0),
  All-both P Q ring f.1 g.1,
  EveryChunk-both P Q l f.2 g.2,
  EveryChunk-both P Q r f.3 g.3,
)

pub EveryChunk-of : (P : ℕ → Type 0) (t : Trie) → ((y : ℕ) → P y) → EveryChunk P t
EveryChunk-of P leaf f = tt
EveryChunk-of P (node a n ring l r) f =
    (f a, All-of P ring f, EveryChunk-of P l f, EveryChunk-of P r f)

pub All-swap :
    (R : ℕ → ℕ → Type 0) (xs : List ℕ) (t : Trie)
    → All (λ y. EveryChunk (R y) t) xs
    → EveryChunk (λ z. All (λ y. R y z) xs) t
All-swap R [] t h = EveryChunk-of _ t (λ z. tt)
All-swap R (x ∷ xs) t h = EveryChunk-both _ _ t h.0 (All-swap R xs t h.1)

EveryChunk-swap :
    (R : ℕ → ℕ → Type 0) (t u : Trie)
    → EveryChunk (λ y. EveryChunk (R y) u) t
    → EveryChunk (λ z. EveryChunk (λ y. R y z) t) u
EveryChunk-swap R leaf u h = EveryChunk-of _ u (λ z. tt)
EveryChunk-swap R (node a n ring l r) u h =
    EveryChunk-mono _ _ u (λ z q. (q.0, q.1.0, q.1.1.0, q.1.1.1))
      (EveryChunk-both _ _ u h.0 (
        EveryChunk-both _ _ u (All-swap R ring u h.1)
          (EveryChunk-both _ _ u (EveryChunk-swap R l u h.2) (EveryChunk-swap R r u h.3))))

pub Avoids-swap : (t u : Trie) → EveryChunk (λ y. Avoids y u) t → EveryChunk (λ z. Avoids z t) u
Avoids-swap t u h =
    EveryChunk-mono _ _ u (λ z q. EveryChunk-mono _ _ t (λ y ne e. ne (sym e)) q)
      (EveryChunk-swap ◌≢◌ t u h)

pub IsTreeChunk-frame :
    (s t : State) (i up n y : ℕ)
    → t.m.least_addr ≡ s.m.least_addr
    → SameNode s t y
    → IsTreeChunk s i up n y
    → IsTreeChunk t i up n y
IsTreeChunk-frame s t i up n y low same h = record {
  nonnull = h.nonnull;
  low = omega (arith, low, h.low);
  size = same.size ∙ h.size;
  parent = same.parent ∙ h.parent;
  index = same.index ∙ h.index;
}

pub IsRingChunk-frame :
    (s t : State) (i n y : ℕ)
    → t.m.least_addr ≡ s.m.least_addr
    → SameAt s t y
    → IsRingChunk s i n y
    → IsRingChunk t i n y
IsRingChunk-frame s t i n y low same h = record {
  chunk = IsTreeChunk-frame s t i 0 n y low same.node_same h.chunk;
  no_left = same.child0 ∙ h.no_left;
  no_right = same.child1 ∙ h.no_right;
}

pub Links-frame :
    (s t : State) (a : ℕ) (ring : List ℕ)
    → All (SameNode s t) (a ∷ ring)
    → Links s.heap.fd s.heap.bk a ring a
    → Links t.heap.fd t.heap.bk a ring a
Links-frame s t a ring same l =
    frame s.heap.fd s.heap.bk t.heap.fd t.heap.bk a ring a
      (same.0.fd, All-map (SameNode s t) _ ring (λ y h. h.fd) same.1)
      (All-map (SameNode s t) _ ring (λ y h. h.bk) same.1) same.0.bk l

-- A node whose own fields and ring are unchanged, with what its children are now.
pub Represents-node :
    (s t : State) (i up a n : ℕ) (ring : List ℕ) (l r l' r' : Trie)
    → t.m.least_addr ≡ s.m.least_addr
    → SameNode s t a
    → All (SameAt s t) ring
    → Represents s i up a (node a n ring l r)
    → Represents t i a (t.heap.child0 a) l'
    → Represents t i a (t.heap.child1 a) r'
    → Represents t i up a (node a n ring l' r')
Represents-node s t i up a n ring l r l' r' low same ring_same m ml mr = (
  refl,
  IsTreeChunk-frame s t i up n a low same m.1,
  Links-frame s t a ring (same, All-map _ _ ring (λ y h. h.node_same) ring_same) m.2,
  All-map _ (IsRingChunk t i n) ring (λ y h. IsRingChunk-frame s t i n y low h.0 h.1)
      (All-both (SameAt s t) (IsRingChunk s i n) ring ring_same m.3),
  ml,
  mr,
)

-- A trie in memory is still there where its chunks' fields are unchanged.
pub Represents-frame :
    (s t : State) (i up p : ℕ) (u : Trie)
    → t.m.least_addr ≡ s.m.least_addr
    → EveryChunk (SameAt s t) u
    → Represents s i up p u
    → Represents t i up p u
Represents-frame s t i up p leaf low same m = m
Represents-frame s t i up p (node a n ring l r) low same m =
    subst (λ q. Represents t i up q (node a n ring l r)) (sym m.0)
      (Represents-node s t i up a n ring l r l r low same.0.node_same same.1
        (refl, m.1, m.2, m.3, m.4, m.5)
        (subst (λ q. Represents t i a q l) (sym same.0.child0)
          (Represents-frame s t i a (s.heap.child0 a) l low same.2 m.4))
        (subst (λ q. Represents t i a q r) (sym same.0.child1)
          (Represents-frame s t i a (s.heap.child1 a) r low same.3 m.5)))
