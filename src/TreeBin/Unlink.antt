-- ===== src/TreeBin/Unlink.antt =====
-- What taking chunks out of a trie leaves of it (`unlink_large_chunk` of src/dlmalloc.c).
pub mod Replace
pub mod Leaf
pub mod Child
pub mod Detach
pub mod Ring
pub mod Circle
pub mod Move
pub mod Adopt
pub mod Steps
pub mod Node
pub mod Tree
pub mod Head
pub mod Inner
pub mod Any
pub mod Whole
use dlmalloc_rs.Prelude.{
  ℕ, zero, suc, ◌+◌, ◌%◌, ◌≡◌, ◌≢◌, refl, subst, sym, List, ◌∷◌, arith, All, Fresh,
}
use dlmalloc_rs.TreeBin.Trie.{Trie, leaf, node, Each, IsTrie, span}
use dlmalloc_rs.TreeBin.Insert.Down.{span_aligned}
use dlmalloc_rs.TreeBin.Separate.{
  EveryChunk, Avoids, IsSeparate, EveryChunk-mono, All-map, All-both, All-swap, Avoids-swap,
}

-- The chunks `xs` of the trie `u` are not in `v`, which has the others.
pub record Without (xs : List ℕ) (u v : Trie) : Type 1 where
  pub member : (P : ℕ → Type 0) → EveryChunk P u → All P xs
  pub every : (P : ℕ → Type 0) → EveryChunk P u → EveryChunk P v
  pub back : (P : ℕ → Type 0) → All P xs → EveryChunk P v → EveryChunk P u
  pub sizes : (P : ℕ → Type 0) → Each (λ a n. P n) u → Each (λ a n. P n) v
  pub separate : IsSeparate u → IsSeparate v × All (λ y. Avoids y v) xs
  pub ordered : (w lo : ℕ) → lo % 16 ≡ 0 → IsTrie w lo u → IsTrie w lo v

-- The place of a trie as a proper subtree of another one.
pub data Below (u : Trie) : Trie → Type 0 where
  at_left : {a n : ℕ} {ring : List ℕ} {r : Trie} → Below u (node a n ring u r)
  at_right : {a n : ℕ} {ring : List ℕ} {l : Trie} → Below u (node a n ring l u)
  in_left : {a n : ℕ} {ring : List ℕ} {l r : Trie} → Below u l → Below u (node a n ring l r)
  in_right : {a n : ℕ} {ring : List ℕ} {l r : Trie} → Below u r → Below u (node a n ring l r)

-- Another trie at this place.
abbrev pub replace : {u t : Trie} → Below u t → Trie → Trie
replace (at_left {a} {n} {ring} {r}) v = node a n ring v r
replace (at_right {a} {n} {ring} {l}) v = node a n ring l v
replace (in_left {a} {n} {ring} {l} {r} b) v = node a n ring (replace b v) r
replace (in_right {a} {n} {ring} {l} {r} b) v = node a n ring l (replace b v)

no_chunk : (x : ℕ) (xs : List ℕ) (u v : Trie) → u ≡ leaf → Without (x ∷ xs) u v → ⊥
no_chunk x xs u v e w = (w.member (λ y. ⊥) (subst (EveryChunk (λ y. ⊥)) (sym e) tt)).0

-- Chunks of one subtree are in no other part of the trie.
outside :
    (a x : ℕ) (ring xs : List ℕ) (l l' r : Trie)
    → Without (x ∷ xs) l l'
    → Avoids a l
    → All (λ z. Avoids z l) ring
    → EveryChunk (λ z. Avoids z r) l
    → IsSeparate l
    → All (λ y. (y ≢ a) × Fresh y ring × Avoids y l' × Avoids y r) (x ∷ xs)
outside a x ring xs l l' r w off ring_off apart d =
    let heads = w.member (λ y. y ≢ a) (EveryChunk-mono _ _ l (λ y ne e. ne (sym e)) off) in
    let rings =
      w.member (λ y. Fresh y ring)
        (EveryChunk-mono _ _ l (λ y q. All-map _ _ ring (λ z ne e. ne (sym e)) q)
          (All-swap ◌≢◌ ring l ring_off)) in
    All-map _ _ (x ∷ xs) (λ y q. (q.0, q.1.0, q.1.1.0, q.1.1.1))
      (All-both _ _ (x ∷ xs) heads (
        All-both _ _ (x ∷ xs) rings
          (All-both _ _ (x ∷ xs) (w.separate d).1 (w.member (λ y. Avoids y r) apart))))

ordered_left :
    (a n x : ℕ) (ring xs : List ℕ) (l r l' : Trie)
    → Without (x ∷ xs) l l'
    → (w lo : ℕ) → lo % 16 ≡ 0
    → IsTrie w lo (node a n ring l r)
    → IsTrie w lo (node a n ring l' r)
ordered_left a n x ring xs l r l' w zero lo al h = absurd (no_chunk x xs l l' h.1 w)
ordered_left a n x ring xs l r l' w (suc k) lo al h =
    (h.0, h.1, h.2, w.ordered k lo al h.3, h.4, w.sizes (λ j. j ≢ n) h.5, h.6)

ordered_right :
    (a n x : ℕ) (ring xs : List ℕ) (l r r' : Trie)
    → Without (x ∷ xs) r r'
    → (w lo : ℕ) → lo % 16 ≡ 0
    → IsTrie w lo (node a n ring l r)
    → IsTrie w lo (node a n ring l r')
ordered_right a n x ring xs l r r' w zero lo al h = absurd (no_chunk x xs r r' h.2 w)
ordered_right a n x ring xs l r r' w (suc k) lo al h = (
  h.0,
  h.1,
  h.2,
  h.3,
  w.ordered k (lo + span k) (omega (arith, al, span_aligned k)) h.4,
  h.5,
  w.sizes (λ j. j ≢ n) h.6,
)

pub Without-left :
    (a n x : ℕ) (ring xs : List ℕ) (l r l' : Trie)
    → Without (x ∷ xs) l l'
    → Without (x ∷ xs) (node a n ring l r) (node a n ring l' r)
Without-left a n x ring xs l r l' w = record {
  member = λ P h. w.member P h.2;
  every = λ P h. (h.0, h.1, w.every P h.2, h.3);
  back = λ P f h. (h.0, h.1, w.back P f h.2, h.3);
  sizes = λ P h. (h.0, w.sizes P h.1, h.2);
  separate = λ d. (
    (
      d.0,
      (w.every _ d.1.0, d.1.1),
      All-map _ _ ring (λ y q. (w.every _ q.0, q.1)) d.2,
      w.every _ d.3,
      (w.separate d.4).0,
      d.5,
    ),
    outside a x ring xs l l' r w d.1.0 (All-map _ _ ring (λ y q. q.0) d.2) d.3 d.4,
  );
  ordered = ordered_left a n x ring xs l r l' w;
}

pub Without-right :
    (a n x : ℕ) (ring xs : List ℕ) (l r r' : Trie)
    → Without (x ∷ xs) r r'
    → Without (x ∷ xs) (node a n ring l r) (node a n ring l r')
Without-right a n x ring xs l r r' w = record {
  member = λ P h. w.member P h.3;
  every = λ P h. (h.0, h.1, h.2, w.every P h.3);
  back = λ P f h. (h.0, h.1, h.2, w.back P f h.3);
  sizes = λ P h. (h.0, h.1, w.sizes P h.2);
  separate = λ d. (
    (
      d.0,
      (d.1.0, w.every _ d.1.1),
      All-map _ _ ring (λ y q. (q.0, w.every _ q.1)) d.2,
      EveryChunk-mono _ _ l (λ y q. w.every _ q) d.3,
      d.4,
      (w.separate d.5).0,
    ),
    All-map _ _ (x ∷ xs) (λ y q. (q.0, q.1, q.3, q.2))
        (outside a x ring xs r r' l w d.1.1 (All-map _ _ ring (λ y q. q.1) d.2)
          (Avoids-swap l r d.3) d.5),
  );
  ordered = ordered_right a n x ring xs l r r' w;
}

pub Without-replace :
    (x : ℕ) (xs : List ℕ) (u v : Trie) {t : Trie} (b : Below u t)
    → Without (x ∷ xs) u v
    → Without (x ∷ xs) t (replace b v)
Without-replace x xs u v (at_left {a} {n} {ring} {r}) w = Without-left a n x ring xs u r v w
Without-replace x xs u v (at_right {a} {n} {ring} {l}) w = Without-right a n x ring xs l u v w
Without-replace x xs u v (in_left {a} {n} {ring} {l} {r} b) w =
    Without-left a n x ring xs l r (replace b v) (Without-replace x xs u v b w)
Without-replace x xs u v (in_right {a} {n} {ring} {l} {r} b) w =
    Without-right a n x ring xs l r (replace b v) (Without-replace x xs u v b w)

-- What holds of a trie's chunks and sizes holds in its subtree.
pub Below-EveryChunk :
    (P : ℕ → Type 0) (u : Trie) {t : Trie} → Below u t → EveryChunk P t → EveryChunk P u
Below-EveryChunk P u at_left h = h.2
Below-EveryChunk P u at_right h = h.3
Below-EveryChunk P u (in_left b) h = Below-EveryChunk P u b h.2
Below-EveryChunk P u (in_right b) h = Below-EveryChunk P u b h.3

pub Below-Each : (P : ℕ → ℕ → Type 0) (u : Trie) {t : Trie} → Below u t → Each P t → Each P u
Below-Each P u at_left h = h.1
Below-Each P u at_right h = h.2
Below-Each P u (in_left b) h = Below-Each P u b h.1
Below-Each P u (in_right b) h = Below-Each P u b h.2

pub Below-IsSeparate : (u : Trie) {t : Trie} → Below u t → IsSeparate t → IsSeparate u
Below-IsSeparate u at_left d = d.4
Below-IsSeparate u at_right d = d.5
Below-IsSeparate u (in_left b) d = Below-IsSeparate u b d.4
Below-IsSeparate u (in_right b) d = Below-IsSeparate u b d.5

pub replaced_node :
    {u : Trie} (a n : ℕ) (ring : List ℕ) (l r v : Trie) (b : Below u (node a n ring l r))
    → (l' r' : Trie) × (replace b v ≡ node a n ring l' r')
replaced_node a n ring l r v at_left = (v, r, refl)
replaced_node a n ring l r v at_right = (l, v, refl)
replaced_node a n ring l r v (in_left b) = (replace b v, r, refl)
replaced_node a n ring l r v (in_right b) = (l, replace b v, refl)
