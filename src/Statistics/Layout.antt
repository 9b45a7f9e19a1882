-- ===== src/Statistics/Layout.antt =====
-- What the loops of `internal_mallinfo` and `internal_malloc_stats` go over, without the loops: the
-- chunks that lie one behind the other in a segment, as a list of their sizes.
use dlmalloc_rs.Prelude.{
  ℕ, ◌+◌, ◌≤◌, ◌<◌, ◌≡◌, ◌≢◌, ◌⊎◌, Bool, not, List, [], ◌∷◌, if◌then◌else◌, arith,
}
use dlmalloc_rs.Size.{align_as_chunk}
use dlmalloc_rs.State.{State, Segment}
use dlmalloc_rs.Head.{is_inuse, chunksize, fencepost_head}

pub record Piece : Type 0 where
  pub size : ℕ
  pub free : Bool

-- A chunk other than top at `q` in the segment `g`.
pub record IsPiece (s : State) (g : Segment) (q : ℕ) (p : Piece) : Type 0 where
  pub from : g.base ≤ q
  pub to : q < g.base + g.size
  pub not_top : q ≢ s.m.top
  pub not_fence : s.heap.head q ≢ fencepost_head
  pub sized : chunksize s q ≡ p.size
  pub least : 16 ≤ p.size
  pub used : is_inuse s q ≡ not p.free

-- The chunks from `q` on, up to top, a fencepost or the end of the segment.
unfoldable pub IsLaid : State → Segment → (q : ℕ) → List Piece → Type 0
IsLaid s g q [] = (g.base + g.size ≤ q) ⊎ (q ≡ s.m.top) ⊎ (s.heap.head q ≡ fencepost_head)
IsLaid s g q (p ∷ ps) = IsPiece s g q p × IsLaid s g (q + p.size) ps

-- The chunks of each of the segments.
unfoldable pub IsCovered : State → List Segment → List (List Piece) → Type 0
unfolding IsLaid
IsCovered s [] [] = Unit {0}
IsCovered s [] (ps ∷ pss) = ⊥
IsCovered s (g ∷ gs) [] = ⊥
IsCovered s (g ∷ gs) (ps ∷ pss) = IsLaid s g (align_as_chunk g.base) ps × IsCovered s gs pss

abbrev pub free_size : Piece → ℕ
free_size p = if p.free then p.size else 0

abbrev pub free_count : Piece → ℕ
free_count p = if p.free then 1 else 0

unfoldable pub sum_of : (Piece → ℕ) → List Piece → ℕ
sum_of f [] = 0
sum_of f (p ∷ ps) = f p + sum_of f ps

unfoldable pub sum_all : (Piece → ℕ) → List (List Piece) → ℕ
unfolding sum_of
sum_all f [] = 0
sum_all f (ps ∷ pss) = sum_of f ps + sum_all f pss

pub sum_of_free : (ps : List Piece) → sum_of free_size ps ≤ sum_of (λ p. p.size) ps
unfolding sum_of
sum_of_free [] = omega arith
sum_of_free (p ∷ ps) = ground (arith, sum_of_free ps)

pub sum_all_free : (pss : List (List Piece)) → sum_all free_size pss ≤ sum_all (λ p. p.size) pss
unfolding sum_all
sum_all_free [] = omega arith
sum_all_free (ps ∷ pss) = omega (arith, sum_of_free ps, sum_all_free pss)

pub sum_of_counts :
    (s : State) (g : Segment) (q : ℕ) (ps : List Piece)
    → IsLaid s g q ps
    → sum_of free_count ps ≤ sum_of (λ p. p.size) ps
unfolding sum_of IsLaid
sum_of_counts s g q [] laid = omega arith
sum_of_counts s g q (p ∷ ps) laid =
    let least = laid.0.least in ground (arith, least, sum_of_counts s g (q + p.size) ps laid.1)
