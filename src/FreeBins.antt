-- ===== src/FreeBins.antt =====
-- The small bins and the tree bins together: the free chunks that an allocation can take
-- (`smallbins`, `treebins` and their maps in the malloc_state of src/dlmalloc.c).
pub mod Frame
pub mod Small
pub mod Victim
pub mod Large
pub mod Heads
pub mod Insert
pub mod Take
pub mod Fit
pub mod Best
pub mod Serve
use dlmalloc_rs.Prelude.{ℕ, ◌<◌, List, Fresh}
use dlmalloc_rs.State.{State, smallbin_at}
use dlmalloc_rs.SmallBin.Stacks.{SmallBins}
use dlmalloc_rs.TreeBin.Trie.{Trie}
use dlmalloc_rs.TreeBin.Separate.{EveryChunk, Avoids}
use dlmalloc_rs.TreeBin.Bins.{TreeBins}

-- The small bins hold the stacks and the tree bins the tries, and no chunk of a tree is in a small
-- bin or is one of the small bins' own addresses.
pub record FreeBins (s : State) (stacks : ℕ → List ℕ) (tries : ℕ → Trie) : Type 0 where
  pub small : SmallBins s stacks
  pub trees : TreeBins s tries
  pub apart : (i j : ℕ) → i < 32 → j < 32 → EveryChunk (λ y. Fresh y (stacks i)) (tries j)
  pub off_bins : (i j : ℕ) → i < 32 → j < 32 → Avoids (smallbin_at s i) (tries j)
