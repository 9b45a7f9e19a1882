-- ===== src/TreeBin/Unlink/Tree.antt =====
-- `unlink_large_chunk` on one tree: what it leaves of the tree, and what it changes elsewhere.
use dlmalloc_rs.Prelude.{
  ℕ, ◌<◌, ◌≡◌, ◌≢◌, ◌∙◌, ◌⊎◌, inl, inr, refl, ap, sym, subst, true, List, [], ◌∷◌, ◌++◌, All_at,
}
use dlmalloc_rs.BinMap.{clear_bit}
use dlmalloc_rs.State.{State, done}
use dlmalloc_rs.TreeBin.{unlink_large_chunk}
use dlmalloc_rs.TreeBin.Trie.{Trie, leaf, node, is_node, Represents}
use dlmalloc_rs.TreeBin.Separate.{EveryChunk, Avoids, IsSeparate, SameAt, All-map}
use dlmalloc_rs.TreeBin.Insert.Ring.{OnlyLinks}
use dlmalloc_rs.TreeBin.Insert.First.{OnlyTrees}
use dlmalloc_rs.TreeBin.Unlink.{
  Without, Below, at_left, at_right, in_left, in_right, replace, Below-EveryChunk, Below-IsSeparate,
  Without-replace,
}
use dlmalloc_rs.TreeBin.Unlink.Replace.{Relinked, parent_link, Below-Represents, replace-Represents}
use dlmalloc_rs.TreeBin.Unlink.Ring.{ring_cut, middle-Without}
use dlmalloc_rs.TreeBin.Unlink.Circle.{member-steps, member-Represents, member-SameAt}
use dlmalloc_rs.TreeBin.Unlink.Steps.{ring_chunk-steps}

-- The chunk `x` is out of the trie `u` of bin `i`, whose root is now in the bin.
pub record Unlinked (s : State) (i up x : ℕ) (u : Trie) : Type 1 where
  pub after : State
  pub trie : Trie
  pub steps : unlink_large_chunk x s ≡ done tt after
  pub only : OnlyTrees s after
  pub shape : Represents after i up (after.m.treebins i) trie
  pub without : Without (x ∷ []) u trie
  pub others : (y : ℕ) → Avoids y u → SameAt s after y
  pub roots : (j : ℕ) → i ≢ j → after.m.treebins j ≡ s.m.treebins j
  pub map :
      ((after.m.treemap ≡ s.m.treemap) × (is_node trie ≡ true))
      ⊎ ((after.m.treemap ≡ clear_bit s.m.treemap i) × (trie ≡ leaf))

pub OnlyLinks-OnlyTrees : (s t : State) → OnlyLinks s t → OnlyTrees s t
OnlyLinks-OnlyTrees s t only = subst (OnlyTrees s) (sym only) refl

pub OnlyTrees-trans : (s t u : State) → OnlyTrees s t → OnlyTrees t u → OnlyTrees s u
OnlyTrees-trans s t u p q =
    q
    ∙ ap
        (λ (z : State). record z {
          heap = record (z.heap) {
            fd = u.heap.fd;
            bk = u.heap.bk;
            child0 = u.heap.child0;
            child1 = u.heap.child1;
            parent = u.heap.parent;
            index = u.heap.index;
          };
          m = record (z.m) { treemap = u.m.treemap; treebins = u.m.treebins };
        })
        p

pub Represents-nonnull :
    (s : State) (i up p : ℕ) (t : Trie) → Represents s i up p t → EveryChunk (λ y. 0 < y) t
Represents-nonnull s i up p leaf m = tt
Represents-nonnull s i up p (node a n ring l r) m = (
  m.1.nonnull,
  All-map _ _ ring (λ y h. h.chunk.nonnull) m.3,
  Represents-nonnull s i a (s.heap.child0 a) l m.4,
  Represents-nonnull s i a (s.heap.child1 a) r m.5,
)

pub replace-filled : {u t : Trie} (place : Below u t) (v : Trie) → is_node (replace place v) ≡ true
replace-filled at_left v = refl
replace-filled at_right v = refl
replace-filled (in_left b) v = refl
replace-filled (in_right b) v = refl

module _ (s : State) (i x n : ℕ) (ring : List ℕ) (l r : Trie) where
  pub parent_avoids :
      (up p : ℕ) {u : Trie}
      → Below (node x n ring l r) u
      → Represents s i up p u
      → IsSeparate u
      → Avoids (s.heap.parent x) (node x n ring l r)
  parent_avoids up p at_left m d =
      subst (λ q. Avoids q (node x n ring l r)) (sym m.4.1.parent) d.1.0
  parent_avoids up p at_right m d =
      subst (λ q. Avoids q (node x n ring l r)) (sym m.5.1.parent) d.1.1
  parent_avoids up p (in_left {a} b) m d = parent_avoids a (s.heap.child0 a) b m.4 d.4
  parent_avoids up p (in_right {a} b) m d = parent_avoids a (s.heap.child1 a) b m.5 d.5

  -- The root of the whole tree is another node.
  pub other_root :
      (up p : ℕ) {u : Trie}
      → Below (node x n ring l r) u
      → Represents s i up p u
      → IsSeparate u
      → p ≢ x
  other_root up p at_left m d = λ e. d.1.0.0 (sym m.0 ∙ e)
  other_root up p at_right m d = λ e. d.1.1.0 (sym m.0 ∙ e)
  other_root up p (in_left {a} b) m d =
      λ e. (Below-EveryChunk (λ z. a ≢ z) (node x n ring l r) b d.1.0).0 (sym m.0 ∙ e)
  other_root up p (in_right {a} b) m d =
      λ e. (Below-EveryChunk (λ z. a ≢ z) (node x n ring l r) b d.1.1).0 (sym m.0 ∙ e)

-- A chunk behind the first one of a ring.
module _ (s : State) (i up a k x : ℕ) (ys zs : List ℕ) (l r : Trie) where
  pub member_of_root :
      Represents s i up (s.m.treebins i) (node a k (ys ++ x ∷ zs) l r)
      → IsSeparate (node a k (ys ++ x ∷ zs) l r)
      → Unlinked s i up x (node a k (ys ++ x ∷ zs) l r)
  member_of_root m d =
      let t = ring_cut x s in
      let held = subst (λ q. Represents s i up q (node a k (ys ++ x ∷ zs) l r)) m.0 m in
      record {
        after = t;
        trie = node a k (ys ++ zs) l r;
        steps =
            ring_chunk-steps x (s.heap.bk x) s t (member-steps s i up a k x ys zs l r held d)
              (All_at _ ys x zs m.3).chunk.parent;
        only = refl;
        shape =
            subst (λ q. Represents t i up q (node a k (ys ++ zs) l r)) (sym m.0)
              (member-Represents s i up a k x ys zs l r held d);
        without = middle-Without a k x ys zs l r;
        others = member-SameAt s i up a k x ys zs l r held d;
        roots = λ j ne. refl;
        map = inl (refl, refl);
      }

  pub member_inside :
      {u : Trie} (place : Below (node a k (ys ++ x ∷ zs) l r) u)
      → Represents s i up (s.m.treebins i) u
      → IsSeparate u
      → Unlinked s i up x u
  member_inside {u} place m d =
      let t = ring_cut x s in
      let ring = ys ++ x ∷ zs in
      let sub = node a k ring l r in
      let xp = s.heap.parent a in
      let held = Below-Represents s i a k ring l r up (s.m.treebins i) place m in
      let own = Below-IsSeparate sub place d in
      let same = member-SameAt s i xp a k x ys zs l r held own in
      let linked : Relinked s t xp a a =
        elim (parent_link s i a k ring l r up (s.m.treebins i) place m) [
          | inl e ↦ inl (e, e, refl)
          | inr e ↦ inr (e, e, refl)
        ] in
      record {
        after = t;
        trie = replace place (node a k (ys ++ zs) l r);
        steps =
            ring_chunk-steps x (s.heap.bk x) s t (member-steps s i xp a k x ys zs l r held own)
              (All_at _ ys x zs held.3).chunk.parent;
        only = refl;
        shape =
            replace-Represents s i a k ring l r t (node a k (ys ++ zs) l r) a refl
              (λ y off ne. same y off)
              (same xp (parent_avoids s i a k ring l r up (s.m.treebins i) place m d)).node_same
              linked (member-Represents s i xp a k x ys zs l r held own) up (s.m.treebins i) place m
              d;
        without =
            Without-replace x [] sub (node a k (ys ++ zs) l r) place
              (middle-Without a k x ys zs l r);
        others = λ y off. same y (Below-EveryChunk (λ z. y ≢ z) sub place off);
        roots = λ j ne. refl;
        map = inl (refl, replace-filled place (node a k (ys ++ zs) l r));
      }
