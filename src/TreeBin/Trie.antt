-- ===== src/TreeBin/Trie.antt =====
-- The trees of src/dlmalloc.c as data: a node has the address of a chunk, its size, the further
-- chunks of the same size that are in its ring, and the two subtrees.
use dlmalloc_rs.Prelude.{
  ℕ, zero, suc, ◌+◌, ◌%◌, ◌≤◌, ◌<◌, ◌≡◌, ◌≢◌, Bool, true, false, List, arith, All, refl, subst, sym,
}
use dlmalloc_rs.State.{State}
use dlmalloc_rs.Head.{chunksize}
use dlmalloc_rs.SmallBin.Ring.{Links}

pub data Trie : Type 0 where
  leaf : Trie
  node : (a n : ℕ) → List ℕ → Trie → Trie → Trie

abbrev pub is_node : Trie → Bool
is_node leaf = false
is_node (node a n ring l r) = true

pub is_node-cases :
    (t : Trie)
    → is_node t ≡ true
    → (a n : ℕ) × (ring : List ℕ) × (l r : Trie) × (t ≡ node a n ring l r)
is_node-cases leaf e = absurd (cc)
is_node-cases (node a n ring l r) e = (a, n, ring, l, r, refl)

pub is_leaf : (t : Trie) → is_node t ≡ false → t ≡ leaf
is_leaf leaf e = refl
is_leaf (node a n ring l r) e = cc

-- `P` of the address and the size of every node.
abbrev pub Each : (ℕ → ℕ → Type 0) → Trie → Type 0
Each P leaf = Unit
Each P (node a n ring l r) = P a n × Each P l × Each P r

-- The trie has a node of size `n` at `a`.
pub data HasNode (a n : ℕ) : Trie → Type 0 where
  here : {ring : List ℕ} {l r : Trie} → HasNode a n (node a n ring l r)
  left : {b k : ℕ} {ring : List ℕ} {l r : Trie} → HasNode a n l → HasNode a n (node b k ring l r)
  right : {b k : ℕ} {ring : List ℕ} {l r : Trie} → HasNode a n r → HasNode a n (node b k ring l r)

pub Each-mono :
    (P Q : ℕ → ℕ → Type 0) (t : Trie) → ((a n : ℕ) → P a n → Q a n) → Each P t → Each Q t
Each-mono P Q leaf f h = tt
Each-mono P Q (node a n ring l r) f h = (f a n h.0, Each-mono P Q l f h.1, Each-mono P Q r f h.2)

pub Each-both :
    (P Q : ℕ → ℕ → Type 0) (t : Trie) → Each P t → Each Q t → Each (λ a n. P a n × Q a n) t
Each-both P Q leaf f g = tt
Each-both P Q (node a n ring l r) f g =
    ((f.0, g.0), Each-both P Q l f.1 g.1, Each-both P Q r f.2 g.2)

pub Each-HasNode : (P : ℕ → ℕ → Type 0) (t : Trie) (a n : ℕ) → Each P t → HasNode a n t → P a n
Each-HasNode P leaf a n h m = elim m [ ]
Each-HasNode P (node b k ring l r) a n h here = h.0
Each-HasNode P (node b k ring l r) a n h (left m) = Each-HasNode P l a n h.1 m
Each-HasNode P (node b k ring l r) a n h (right m) = Each-HasNode P r a n h.2 m

-- The number of bytes that the sizes of a subtree with `w` undecided bits range over: sizes are
-- multiples of 16.
abbrev pub span : ℕ → ℕ
span zero = 16
span (suc w) = span w + span w

-- A bitwise trie for the sizes from `lo` up to `lo + span w`, where the next bit is the highest of
-- the `w` undecided ones; no two nodes on a path have the same size.
abbrev pub IsTrie : (w lo : ℕ) → Trie → Type 0
IsTrie w lo leaf = Unit
IsTrie zero lo (node a n ring l r) = (n ≡ lo) × (l ≡ leaf) × (r ≡ leaf)
IsTrie (suc w) lo (node a n ring l r) =
    (lo ≤ n)
    × (n < lo + span (suc w))
    × (n % 16 ≡ 0)
    × IsTrie w lo l
    × IsTrie w (lo + span w) r
    × Each (λ b k. k ≢ n) l
    × Each (λ b k. k ≢ n) r

-- A free chunk of a tree: its head, its parent (0 for one that is only in a ring) and its bin.
pub record IsTreeChunk (s : State) (i up n a : ℕ) : Type 0 where
  pub nonnull : 0 < a
  pub low : s.m.least_addr ≤ a
  pub size : chunksize s a ≡ n
  pub parent : s.heap.parent a ≡ up
  pub index : s.heap.index a ≡ i

-- A chunk that is only in a ring has no children.
pub record IsRingChunk (s : State) (i n a : ℕ) : Type 0 where
  pub chunk : IsTreeChunk s i 0 n a
  pub no_left : s.heap.child0 a ≡ 0
  pub no_right : s.heap.child1 a ≡ 0

-- The pointer `p` leads to the trie in memory; its root's parent is `up`.
abbrev pub Represents : State → (i up p : ℕ) → Trie → Type 0
Represents s i up p leaf = p ≡ 0
Represents s i up p (node a n ring l r) =
    (p ≡ a)
    × IsTreeChunk s i up n a
    × Links s.heap.fd s.heap.bk a ring a
    × All (IsRingChunk s i n) ring
    × Represents s i a (s.heap.child0 a) l
    × Represents s i a (s.heap.child1 a) r

pub span-pos : (w : ℕ) → 16 ≤ span w
span-pos zero = omega arith
span-pos (suc w) = omega (arith, span-pos w)

-- All sizes are in the trie's range.
pub IsTrie-range :
    (w lo : ℕ) (t : Trie) → IsTrie w lo t → Each (λ a n. (lo ≤ n) × (n < lo + span w)) t
IsTrie-range zero lo leaf h = tt
IsTrie-range (suc w) lo leaf h = tt
IsTrie-range zero lo (node a n ring l r) h =
    let within = λ (b k : ℕ). (lo ≤ k) × (k < lo + 16) in
    (omega (arith, h.0), subst (Each within) (sym h.1) tt, subst (Each within) (sym h.2) tt)
IsTrie-range (suc w) lo (node a n ring l r) h = (
  (h.0, h.1),
  Each-mono _ _ l (λ b k q. (q.0, omega (arith, q.1))) (IsTrie-range w lo l h.3),
  Each-mono _ _ r (λ b k q. (omega (arith, q.0), omega (arith, q.1)))
      (IsTrie-range w (lo + span w) r h.4),
)
