-- ===== src/TreeBin/Insert.antt =====
-- The insertion of a chunk in a trie, as a relation between the tries before and after.
pub mod Ring
pub mod Below
pub mod Down
pub mod Walk
pub mod Whole
pub mod First
pub mod Large
use dlmalloc_rs.Prelude.{ℕ, ◌≡◌, ◌≢◌, refl, sym, true, List, [], ◌∷◌, arith, All, Fresh, Distinct}
use dlmalloc_rs.TreeBin.Trie.{Trie, leaf, node, Each, is_node}
use dlmalloc_rs.TreeBin.Separate.{
  EveryChunk, Avoids, IsSeparate, EveryChunk-mono, EveryChunk-both, All-map, All-both,
}

-- The chunk `x` of size `n` became a new leaf, or the next one in the ring of a node of its size.
pub data Inserted (x n : ℕ) : Trie → Trie → Type 0 where
  new_leaf : Inserted x n leaf (node x n [] leaf leaf)
  new_in_ring :
      {a k : ℕ} {ring : List ℕ} {l r : Trie}
      → k ≡ n
      → Inserted x n (node a k ring l r) (node a k (x ∷ ring) l r)
  on_left :
      {a k : ℕ} {ring : List ℕ} {l r l' : Trie}
      → Inserted x n l l'
      → Inserted x n (node a k ring l r) (node a k ring l' r)
  on_right :
      {a k : ℕ} {ring : List ℕ} {l r r' : Trie}
      → Inserted x n r r'
      → Inserted x n (node a k ring l r) (node a k ring l r')

pub Each-Inserted :
    {x n : ℕ} (P : ℕ → ℕ → Type 0) {t t' : Trie} → P x n → Inserted x n t t' → Each P t → Each P t'
Each-Inserted P h new_leaf e = (h, tt, tt)
Each-Inserted P h (new_in_ring same) e = e
Each-Inserted P h (on_left i) e = (e.0, Each-Inserted P h i e.1, e.2)
Each-Inserted P h (on_right i) e = (e.0, e.1, Each-Inserted P h i e.2)

pub EveryChunk-Inserted :
    {x n : ℕ} (P : ℕ → Type 0) {t t' : Trie}
    → P x
    → Inserted x n t t'
    → EveryChunk P t
    → EveryChunk P t'
EveryChunk-Inserted P h new_leaf e = (h, tt, tt, tt)
EveryChunk-Inserted P h (new_in_ring same) e = (e.0, (h, e.1), e.2, e.3)
EveryChunk-Inserted P h (on_left i) e = (e.0, e.1, EveryChunk-Inserted P h i e.2, e.3)
EveryChunk-Inserted P h (on_right i) e = (e.0, e.1, e.2, EveryChunk-Inserted P h i e.3)

pub Avoids-Inserted :
    {x n : ℕ} (y : ℕ) {t t' : Trie} → x ≢ y → Inserted x n t t' → Avoids y t → Avoids y t'
Avoids-Inserted {x = x} y ne i e = EveryChunk-Inserted (λ z. y ≢ z) (λ same. ne (sym same)) i e

pub IsSeparate-Inserted :
    {x n : ℕ} {t t' : Trie} → Avoids x t → Inserted x n t t' → IsSeparate t → IsSeparate t'
IsSeparate-Inserted off new_leaf d = ((tt, tt), (tt, tt), tt, tt, tt, tt)
IsSeparate-Inserted off (new_in_ring same) d =
    ((((λ e. off.0 (sym e)), d.0.0), (off.1, d.0.1)), d.1, ((off.2, off.3), d.2), d.3, d.4, d.5)
IsSeparate-Inserted off (on_left {a = a} {ring = ring} i) d = (
  d.0,
  (Avoids-Inserted a off.0 i d.1.0, d.1.1),
  All-map _ _ ring (λ y h. (Avoids-Inserted y h.0 i h.1.0, h.1.1)) (All-both _ _ ring off.1 d.2),
  EveryChunk-Inserted _ off.3 i d.3,
  IsSeparate-Inserted off.2 i d.4,
  d.5,
)
IsSeparate-Inserted off (on_right {a = a} {ring = ring} {l = l} i) d = (
  d.0,
  (d.1.0, Avoids-Inserted a off.0 i d.1.1),
  All-map _ _ ring (λ y h. (h.1.0, Avoids-Inserted y h.0 i h.1.1)) (All-both _ _ ring off.1 d.2),
  EveryChunk-mono _ _ l (λ y h. Avoids-Inserted y h.0 i h.1) (EveryChunk-both _ _ l off.2 d.3),
  d.4,
  IsSeparate-Inserted off.3 i d.5,
)

pub Inserted-filled : {x n : ℕ} {t t' : Trie} → Inserted x n t t' → is_node t' ≡ true
Inserted-filled new_leaf = refl
Inserted-filled (new_in_ring same) = refl
Inserted-filled (on_left i) = refl
Inserted-filled (on_right i) = refl
