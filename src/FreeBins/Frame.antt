-- ===== src/FreeBins/Frame.antt =====
-- Changes of memory that leave the bins as they are.
use dlmalloc_rs.Prelude.{ℕ, ◌<◌, ◌≡◌, ◌∙◌, refl, ap, sym, subst, List, arith}
use dlmalloc_rs.State.{State, treebin_at}
use dlmalloc_rs.Head.{chunksize}
use dlmalloc_rs.BinMap.{bit_is_marked}
use dlmalloc_rs.SmallBin.{smallmap_is_marked}
use dlmalloc_rs.TreeBin.{treemap_is_marked}
use dlmalloc_rs.TreeBin.Trie.{Trie, Represents}
use dlmalloc_rs.TreeBin.Separate.{
  EveryChunk, SameAt, EveryChunk-mono, EveryChunk-of, Represents-frame,
}
use dlmalloc_rs.TreeBin.Bins.{TreeBins}
use dlmalloc_rs.FreeBins.{FreeBins}

-- The trees are the same when their chunks' fields, the roots and the map are.
pub TreeBins-frame :
    (s t : State) (tries : ℕ → Trie)
    → TreeBins s tries
    → t.m.at ≡ s.m.at
    → t.m.least_addr ≡ s.m.least_addr
    → t.m.treemap ≡ s.m.treemap
    → t.m.treebins ≡ s.m.treebins
    → ((j : ℕ) → j < 32 → EveryChunk (SameAt s t) (tries j))
    → TreeBins t tries
unfolding treemap_is_marked
TreeBins-frame s t tries inv at low map roots same = record {
  map = omega (arith, map, inv.map);
  each = λ i h.
      let up : treebin_at s i ≡ treebin_at t i = omega (arith, at) in
      subst (λ u. Represents t i u (t.m.treebins i) (tries i)) up
        (subst (λ q. Represents t i (treebin_at s i) q (tries i))
          (sym (ap (λ (f : ℕ → ℕ). f i) roots))
          (Represents-frame s t i (treebin_at s i) (s.m.treebins i) (tries i) low (same i h)
            (inv.each i h)));
  ordered = inv.ordered;
  sizes = inv.sizes;
  marked = λ i h. ap (λ (q : ℕ). bit_is_marked q i) map ∙ inv.marked i h;
  separate = inv.separate;
  apart = inv.apart;
}

-- Other heads and feet.
abbrev pub with_heads : (head prev_foot : ℕ → ℕ) → State → State
with_heads head prev_foot s = record s {
  heap = record (s.heap) { head = head; prev_foot = prev_foot };
}

pub FreeBins-with_heads :
    (head prev_foot : ℕ → ℕ) (s : State) (stacks : ℕ → List ℕ) (tries : ℕ → Trie)
    → FreeBins s stacks tries
    → ((j : ℕ)
        → j < 32
        → EveryChunk (λ y. chunksize (with_heads head prev_foot s) y ≡ chunksize s y) (tries j))
    → FreeBins (with_heads head prev_foot s) stacks tries
unfolding smallmap_is_marked
FreeBins-with_heads head prev_foot s stacks tries inv sizes = record {
  small = record {
    each = inv.small.each;
    distinct = inv.small.distinct;
    apart = inv.small.apart;
    off_bins = inv.small.off_bins;
  };
  trees = TreeBins-frame s (with_heads head prev_foot s) tries inv.trees refl refl refl refl (λ j h.
      EveryChunk-mono _ _ (tries j)
        (λ y e. record {
          node_same = record { fd = refl; bk = refl; parent = refl; index = refl; size = e };
          child0 = refl;
          child1 = refl;
        })
        (sizes j h));
  apart = inv.apart;
  off_bins = inv.off_bins;
}

-- Another designated victim.
abbrev pub with_dv : (dv dvsize : ℕ) → State → State
with_dv dv dvsize s = record s { m = record (s.m) { dvsize = dvsize; dv = dv } }

pub FreeBins-with_dv :
    (dv dvsize : ℕ) (s : State) (stacks : ℕ → List ℕ) (tries : ℕ → Trie)
    → FreeBins s stacks tries
    → FreeBins (with_dv dv dvsize s) stacks tries
unfolding smallmap_is_marked chunksize
FreeBins-with_dv dv dvsize s stacks tries inv = record {
  small = record {
    each = inv.small.each;
    distinct = inv.small.distinct;
    apart = inv.small.apart;
    off_bins = inv.small.off_bins;
  };
  trees = TreeBins-frame s (with_dv dv dvsize s) tries inv.trees refl refl refl refl (λ j h.
      EveryChunk-of _ (tries j) (λ y. record {
        node_same = record { fd = refl; bk = refl; parent = refl; index = refl; size = refl };
        child0 = refl;
        child1 = refl;
      }));
  apart = inv.apart;
  off_bins = inv.off_bins;
}
