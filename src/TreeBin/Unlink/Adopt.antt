-- ===== src/TreeBin/Unlink/Adopt.antt =====
-- `adopt`: a chunk that was taken out gets the parent and the children of the node that it replaces.
use dlmalloc_rs.Prelude.{ℕ, ◌≡◌, ◌≢◌, ◌∙◌, refl, ap, sym, subst, true, List, arith, All}
use dlmalloc_rs.State.{State, done, set_parent, ok_address}
use dlmalloc_rs.Head.{chunksize}
use dlmalloc_rs.SmallBin.Ring.{Links, frame}
use dlmalloc_rs.TreeBin.{adopt}
use dlmalloc_rs.TreeBin.Trie.{Trie, node, Represents, IsTreeChunk, IsRingChunk}
use dlmalloc_rs.TreeBin.Separate.{
  EveryChunk, Avoids, IsSeparate, SameNode, SameAt, EveryChunk-mono, EveryChunk-both, All-map,
  All-both, Avoids-swap, Represents-frame, IsTreeChunk-frame, IsRingChunk-frame,
}
use dlmalloc_rs.TreeBin.Insert.Ring.{IsReady, OnlyLinks}
use dlmalloc_rs.TreeBin.Insert.First.{SameAt-trans}
use dlmalloc_rs.TreeBin.Unlink.Move.{Moved, move_child-Moved}

pub OnlyLinks-trans : (s t u : State) → OnlyLinks s t → OnlyLinks t u → OnlyLinks s u
OnlyLinks-trans s t u p q =
    q
    ∙ ap
        (λ (z : State). record z {
          heap = record (z.heap) {
            fd = u.heap.fd;
            bk = u.heap.bk;
            child0 = u.heap.child0;
            child1 = u.heap.child1;
            parent = u.heap.parent;
            index = u.heap.index;
          };
        })
        p

pub SameNode-trans : (s t u : State) (y : ℕ) → SameNode s t y → SameNode t u y → SameNode s u y
SameNode-trans s t u y p q = record {
  fd = q.fd ∙ p.fd;
  bk = q.bk ∙ p.bk;
  parent = q.parent ∙ p.parent;
  index = q.index ∙ p.index;
  size = q.size ∙ p.size;
}

-- The chunk `b` is the root of the tree, with the parent `xp`.
pub record Adopted (s : State) (i x xp b k : ℕ) (own : List ℕ) (l r : Trie) : Type 0 where
  pub after : State
  pub steps : adopt x xp b s ≡ done tt after
  pub only : OnlyLinks s after
  pub shape : Represents after i xp b (node b k own l r)
  pub others : (y : ℕ) → Avoids y (node b k own l r) → SameAt s after y

set_parent-SameAt : (b xp y : ℕ) (s : State) → y ≢ b → SameAt s (set_parent b xp s) y
unfolding chunksize
set_parent-SameAt b xp y s ne = record {
  node_same = record {
    fd = refl;
    bk = refl;
    parent = ground (arith, ne);
    index = refl;
    size = refl;
  };
  child0 = refl;
  child1 = refl;
}

with_parent :
    (s : State) (i b xp k : ℕ) → IsReady s i k b → IsTreeChunk (set_parent b xp s) i xp k b
unfolding chunksize
with_parent s i b xp k h = record {
  nonnull = h.nonnull;
  low = h.low;
  size = h.size;
  parent = ground arith;
  index = h.index;
}

module _ (s : State) (i x xp b k : ℕ) (own : List ℕ) (l r : Trie) (ready : IsReady s i k b)
    (links : Links s.heap.fd s.heap.bk b own b) (own_chunks : All (IsRingChunk s i k) own)
    (ml : Represents s i x (s.heap.child0 x) l) (mr : Represents s i x (s.heap.child1 x) r)
    (d : IsSeparate (node b k own l r)) (off_x : Avoids x (node b k own l r)) where
  -- Chunks of a subtree are not `b`.
  away : (v : Trie) → Avoids b v → EveryChunk (SameAt s (set_parent b xp s)) v
  away v off = EveryChunk-mono _ _ v (λ y ne. set_parent-SameAt b xp y s (λ e. ne (sym e))) off

  moved_left : Moved (set_parent b xp s) i x b 0 l
  moved_left =
      move_child-Moved (set_parent b xp s) i x b 0 off_x.0 l
        (Represents-frame s (set_parent b xp s) i x (s.heap.child0 x) l refl (away l d.1.0) ml) d.4
        d.1.0 ready.no_left

  moved_right : Moved (moved_left.after) i x b 1 r
  moved_right =
      let s1 = set_parent b xp s in
      let L = moved_left in
      let low : L.after.m.least_addr ≡ s.m.least_addr = ap (λ (z : State). z.m.least_addr) L.only in
      let same =
        EveryChunk-mono _ _ r (λ y q. L.others y (λ e. q.0 (sym e)) q.1)
          (EveryChunk-both _ _ r d.1.1 (Avoids-swap l r d.3)) in
      let field = (L.others x off_x.0 off_x.2).child1 in
      move_child-Moved L.after i x b 1 off_x.0 r
        (subst (λ q. Represents L.after i x q r) (sym field)
          (Represents-frame s1 L.after i x (s.heap.child1 x) r low same
            (Represents-frame s s1 i x (s.heap.child1 x) r refl (away r d.1.1) mr)))
        d.5 d.1.1 (L.kept ∙ ready.no_right)

  adopted_others : (y : ℕ) → Avoids y (node b k own l r) → SameAt s (moved_right.after) y
  adopted_others y off =
      SameAt-trans s (moved_left.after) (moved_right.after) y
        (SameAt-trans s (set_parent b xp s) (moved_left.after) y (set_parent-SameAt b xp y s off.0)
          (moved_left.others y off.0 off.2))
        (moved_right.others y off.0 off.3)

  -- The chunks of the ring.
  adopted_own : All (SameAt s (moved_right.after)) own
  adopted_own =
      All-map _ _ own
        (λ y h.
          SameAt-trans s (moved_left.after) (moved_right.after) y
            (SameAt-trans s (set_parent b xp s) (moved_left.after) y
              (set_parent-SameAt b xp y s (λ e. h.0 (sym e)))
              (moved_left.others y (λ e. h.0 (sym e)) h.1.0))
            (moved_right.others y (λ e. h.0 (sym e)) h.1.1))
        (All-both _ _ own d.0.0 d.2)

  adopted_only : OnlyLinks s (moved_right.after)
  adopted_only =
      OnlyLinks-trans s (moved_left.after) (moved_right.after)
        (OnlyLinks-trans s (set_parent b xp s) (moved_left.after) refl moved_left.only)
        moved_right.only

  adopted_shape : Represents (moved_right.after) i xp b (node b k own l r)
  adopted_shape =
      let s1 = set_parent b xp s in
      let L = moved_left in
      let R = moved_right in
      let t = R.after in
      let low : t.m.least_addr ≡ s.m.least_addr = ap (λ (z : State). z.m.least_addr) adopted_only in
      let low2 : t.m.least_addr ≡ L.after.m.least_addr =
        ap (λ (z : State). z.m.least_addr) R.only in
      let at_b = SameNode-trans s1 L.after t b L.at R.at in
      let same =
        EveryChunk-mono _ _ l (λ y q. R.others y (λ e. q.0 (sym e)) q.1)
          (EveryChunk-both _ _ l d.1.0 d.3) in
      let fds =
        All-map (SameAt s t) (λ y. t.heap.fd y ≡ s.heap.fd y) own (λ y h. h.node_same.fd)
          adopted_own in
      let bks =
        All-map (SameAt s t) (λ y. t.heap.bk y ≡ s.heap.bk y) own (λ y h. h.node_same.bk)
          adopted_own in
      (
        refl,
        IsTreeChunk-frame s1 t i xp k b low at_b (with_parent s i b xp k ready),
        frame s.heap.fd s.heap.bk t.heap.fd t.heap.bk b own b (at_b.fd, fds) bks at_b.bk links,
        All-map _ (IsRingChunk t i k) own (λ y h. IsRingChunk-frame s t i k y low h.0 h.1)
            (All-both (SameAt s t) (IsRingChunk s i k) own adopted_own own_chunks),
        subst (λ q. Represents t i b q l) (sym R.kept)
            (Represents-frame L.after t i b (L.after.heap.child0 b) l low2 same L.shape),
        R.shape,
      )

  adopted_steps : adopt x xp b s ≡ done tt (moved_right.after)
  unfolding adopt
  adopted_steps =
      let fine : ok_address s b ≡ true = ground (arith, ready.low) in
      rw (fine, moved_left.steps) moved_right.steps

  pub adopt-Adopted : Adopted s i x xp b k own l r
  adopt-Adopted = record {
    after = moved_right.after;
    steps = adopted_steps;
    only = adopted_only;
    shape = adopted_shape;
    others = adopted_others;
  }
