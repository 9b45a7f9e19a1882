-- ===== src/Statistics/Loops.antt =====
-- The loops of `internal_mallinfo` and `internal_malloc_stats` end, and count the chunks that lie in
-- the segments.
use dlmalloc_rs.Prelude.{
  ℕ, zero, suc, ◌+◌, ◌-◌, ◌*◌, ◌/◌, ◌%◌, ◌^◌, ◌≤◌, ◌<◌, ◌≡◌, ◌∙◌, refl, ap, true, false, List, [],
  ◌∷◌, arith, Bool-cases, inl, inr,
}
use dlmalloc_rs.Size.{add64, sub64, align_as_chunk}
use dlmalloc_rs.State.{State, Segment, done}
use dlmalloc_rs.Head.{next_chunk}
use dlmalloc_rs.Segments.{segment_holds}
use dlmalloc_rs.Statistics.{
  Tally, goes_on, tally_chunk, tally_from, tally_segments, used_without, used_from, used_segments,
}
use dlmalloc_rs.Statistics.Layout.{
  Piece, IsPiece, IsLaid, IsCovered, free_size, free_count, sum_of, sum_all, sum_of_free,
  sum_of_counts,
}

-- The counts with `nfree`, `mfree` and `sum` more.
abbrev pub plus : Tally → (nfree mfree sum : ℕ) → Tally
plus c nfree mfree sum = record {
  nfree = c.nfree + nfree;
  mfree = c.mfree + mfree;
  sum = c.sum + sum;
}

-- No count has wrapped around, and none will in `more` bytes of chunks.
abbrev pub IsWithin : Tally → (more : ℕ) → Type 0
IsWithin c more = (c.nfree ≤ c.sum) × (c.mfree ≤ c.sum) × (c.sum + more < 2 ^ 64)

-- Enough rounds for the chunks from `q` on, 16 bytes each at least.
abbrev IsEnough : (rounds : ℕ) → Segment → (q : ℕ) → Type 0
IsEnough rounds g q = (0 < rounds) × (g.base ≤ q → g.base + g.size + 16 ≤ q + 16 * rounds)

plus-plus :
    (c : Tally) (a b x d e y : ℕ) → plus (plus c a b x) d e y ≡ plus c (a + d) (b + e) (x + y)
plus-plus c a b x d e y =
    let n : c.nfree + a + d ≡ c.nfree + (a + d) = omega arith in
    let m : c.mfree + b + e ≡ c.mfree + (b + e) = omega arith in
    let k : c.sum + x + y ≡ c.sum + (x + y) = omega arith in rw (n, m, k) refl

plus_zero : (c : Tally) → plus c 0 0 0 ≡ c
plus_zero c =
    let n : c.nfree + 0 ≡ c.nfree = omega arith in
    let m : c.mfree + 0 ≡ c.mfree = omega arith in
    let k : c.sum + 0 ≡ c.sum = omega arith in rw (n, m, k) refl

IsEnough-next :
    (rounds : ℕ) (g : Segment) (q n : ℕ)
    → IsEnough (suc rounds) g q
    → g.base ≤ q
    → q < g.base + g.size
    → 16 ≤ n
    → IsEnough rounds g (q + n)
IsEnough-next rounds g q n h from to least =
    let room = h.1 from in (omega (arith, room, to), λ k. omega (arith, room, least))

IsEnough-first : (g : Segment) (q : ℕ) → IsEnough (g.size / 16 + 2) g q
IsEnough-first g q = (omega arith, λ k. omega (arith, k))

module _ (s : State) (g : Segment) (q : ℕ) where
  goes_on-IsPiece : (p : Piece) → IsPiece s g q p → goes_on s g q ≡ true
  unfolding segment_holds
  goes_on-IsPiece p h = ground (arith, h.from, h.to, h.not_top, h.not_fence)

  goes_on-end : IsLaid s g q [] → goes_on s g q ≡ false
  unfolding segment_holds IsLaid
  goes_on-end (inl over) = ground (arith, over)
  goes_on-end (inr (inl top)) = ground (arith, top)
  goes_on-end (inr (inr fence)) = ground (arith, fence)

  tally_chunk-plus :
      (p : Piece) (c : Tally) (more : ℕ)
      → IsPiece s g q p
      → IsWithin c (p.size + more)
      → tally_chunk s q c ≡ plus c (free_count p) (free_size p) p.size
  unfolding add64
  tally_chunk-plus p c more h w =
      let big = w.2 in
      let k : (c.sum + p.size) % 2 ^ 64 ≡ c.sum + p.size = omega (arith, big) in
      let m : (c.mfree + p.size) % 2 ^ 64 ≡ c.mfree + p.size = omega (arith, w.1, big) in
      let n : (c.nfree + 1) % 2 ^ 64 ≡ c.nfree + 1 = omega (arith, w.0, h.least, big) in
      let m' : c.mfree + 0 ≡ c.mfree = omega arith in
      let n' : c.nfree + 0 ≡ c.nfree = omega arith in
      elim (Bool-cases p.free) [
        | inl free ↦ rw (h.used, h.sized, free, k, m, n) refl
        | inr used ↦ rw (h.used, h.sized, used, k, m', n') refl
      ]

  used_without-sub :
      (p : Piece) (used : ℕ)
      → IsPiece s g q p
      → free_size p ≤ used
      → used < 2 ^ 64
      → used_without s q used ≡ used - free_size p
  unfolding sub64
  used_without-sub p used h fits word = elim (Bool-cases p.free) [
    | inl free ↦ ground (arith, h.used, h.sized, free, fits, word)
    | inr kept ↦ ground (arith, h.used, kept)
  ]

IsWithin-next :
    (c : Tally) (p : Piece) (more : ℕ)
    → 16 ≤ p.size
    → IsWithin c (p.size + more)
    → IsWithin (plus c (free_count p) (free_size p) p.size) more
IsWithin-next c p more least w = elim (Bool-cases p.free) [
  | inl free ↦ ground (arith, least, w.0, w.1, w.2, free)
  | inr used ↦ ground (arith, least, w.0, w.1, w.2, used)
]

tally_from-plus :
    (s : State) (rounds : ℕ) (g : Segment) (q : ℕ) (c : Tally) (ps : List Piece)
    → IsLaid s g q ps
    → IsEnough rounds g q
    → IsWithin c (sum_of (λ p. p.size) ps)
    → tally_from rounds g q c s
      ≡ done (plus c (sum_of free_count ps) (sum_of free_size ps) (sum_of (λ p. p.size) ps)) s
unfolding tally_from sum_of IsLaid next_chunk
tally_from-plus s zero g q c ps laid enough w = absurd (omega (arith, enough.0))
tally_from-plus s (suc rounds) g q c [] laid enough w =
    rw (goes_on-end s g q laid, plus_zero c) refl
tally_from-plus s (suc rounds) g q c (p ∷ ps) laid enough w =
    let here = laid.0 in
    let more = sum_of (λ (r : Piece). r.size) ps in
    rw (goes_on-IsPiece s g q p here, tally_chunk-plus s g q p c more here w, here.sized)
      (tally_from-plus s rounds g (q + p.size) (plus c (free_count p) (free_size p) p.size) ps
          laid.1 (IsEnough-next rounds g q p.size enough here.from here.to here.least)
          (IsWithin-next c p more here.least w)
        ∙ ap (λ (t : Tally). done t s)
            (plus-plus c (free_count p) (free_size p) p.size (sum_of free_count ps)
              (sum_of free_size ps) more))

used_from-sub :
    (s : State) (rounds : ℕ) (g : Segment) (q used : ℕ) (ps : List Piece)
    → IsLaid s g q ps
    → IsEnough rounds g q
    → sum_of free_size ps ≤ used
    → used < 2 ^ 64
    → used_from rounds g q used s ≡ done (used - sum_of free_size ps) s
unfolding used_from sum_of IsLaid next_chunk
used_from-sub s zero g q used ps laid enough fits word = absurd (omega (arith, enough.0))
used_from-sub s (suc rounds) g q used [] laid enough fits word =
    let none : used - 0 ≡ used = omega arith in rw (goes_on-end s g q laid, none) refl
used_from-sub s (suc rounds) g q used (p ∷ ps) laid enough fits word =
    let here = laid.0 in
    let less : used - free_size p - sum_of free_size ps
        ≡ used - (free_size p + sum_of free_size ps) =
      omega arith in
    rw
      (
        goes_on-IsPiece s g q p here,
        used_without-sub s g q p used here (omega (arith, fits)) word,
        here.sized,
      )
      (used_from-sub s rounds g (q + p.size) (used - free_size p) ps laid.1
          (IsEnough-next rounds g q p.size enough here.from here.to here.least)
          (omega (arith, fits)) (omega (arith, word))
        ∙ ap (λ (u : ℕ). done u s) less)

pub tally_segments-plus :
    (s : State) (gs : List Segment) (c : Tally) (pss : List (List Piece))
    → IsCovered s gs pss
    → IsWithin c (sum_all (λ p. p.size) pss)
    → tally_segments gs c s
      ≡ done (plus c (sum_all free_count pss) (sum_all free_size pss) (sum_all (λ p. p.size) pss)) s
unfolding tally_segments sum_all IsCovered
tally_segments-plus s [] c [] covered w = rw (plus_zero c) refl
tally_segments-plus s [] c (ps ∷ pss) covered w = absurd covered
tally_segments-plus s (g ∷ gs) c [] covered w = absurd covered
tally_segments-plus s (g ∷ gs) c (ps ∷ pss) covered w =
    let q = align_as_chunk g.base in
    let n = sum_of free_count ps in
    let m = sum_of free_size ps in
    let k = sum_of (λ (p : Piece). p.size) ps in
    let big = w.2 in
    let here =
      tally_from-plus s (g.size / 16 + 2) g q c ps covered.0 (IsEnough-first g q)
        (w.0, w.1, omega (arith, big)) in
    rw here (
      tally_segments-plus s gs (plus c n m k) pss covered.1 (
        omega (arith, w.0, sum_of_counts s g q ps covered.0),
        omega (arith, w.1, sum_of_free ps),
        omega (arith, big),
      )
      ∙ ap (λ (t : Tally). done t s)
          (plus-plus c n m k (sum_all free_count pss) (sum_all free_size pss)
            (sum_all (λ p. p.size) pss)))

pub used_segments-sub :
    (s : State) (gs : List Segment) (used : ℕ) (pss : List (List Piece))
    → IsCovered s gs pss
    → sum_all free_size pss ≤ used
    → used < 2 ^ 64
    → used_segments gs used s ≡ done (used - sum_all free_size pss) s
unfolding used_segments sum_all IsCovered
used_segments-sub s [] used [] covered fits word =
    let none : used - 0 ≡ used = omega arith in rw none refl
used_segments-sub s [] used (ps ∷ pss) covered fits word = absurd covered
used_segments-sub s (g ∷ gs) used [] covered fits word = absurd covered
used_segments-sub s (g ∷ gs) used (ps ∷ pss) covered fits word =
    let q = align_as_chunk g.base in
    let m = sum_of free_size ps in
    let here =
      used_from-sub s (g.size / 16 + 2) g q used ps covered.0 (IsEnough-first g q)
        (omega (arith, fits)) word in
    let less : used - m - sum_all free_size pss ≡ used - (m + sum_all free_size pss) =
      omega arith in
    rw here (
      used_segments-sub s gs (used - m) pss covered.1 (omega (arith, fits)) (omega (arith, word))
      ∙ ap (λ (u : ℕ). done u s) less)
