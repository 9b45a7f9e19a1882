-- ===== src/TreeAlloc/Walk.antt =====
-- The walk of `tmalloc_large` through the tree of the request's own bin: it follows the bits of the
-- request and keeps the deepest subtree of larger sizes that it did not enter.
pub mod Steps
pub mod Whole
pub mod Found
use native.Mathlib.Nat.{
  mul_comm, mul_assoc, mul-add, add-mul, zero-mul, mul_right_comm, mul-lt-mul_of_pos_right,
}
use dlmalloc_rs.Prelude.{
  ℕ, zero, suc, ◌+◌, ◌-◌, ◌*◌, ◌/◌, ◌%◌, ◌^◌, ◌≤◌, ◌<◌, ◌≡◌, ◌≢◌, ◌∙◌, ◌⊎◌, ap, refl, sym, subst,
  true, false, List, arith, ltb, ◌==◌, not, ◌&&◌, if◌then◌else◌, Bool-cases, inl, inr,
}
use dlmalloc_rs.Size.{sub64}
use dlmalloc_rs.State.{State, Run, done, child}
use dlmalloc_rs.Head.{chunksize}
use dlmalloc_rs.TreeBin.Trie.{
  Trie, leaf, node, Each, Each-mono, Each-both, HasNode, here, left, right, span, span-pos, IsTrie,
  IsTrie-range, Represents,
}
use dlmalloc_rs.TreeAlloc.{Search, improve, search_bin}
use dlmalloc_rs.TreeAlloc.Leftmost.{Fits}

-- A chunk of size `n` that could serve the request is no better than the best one so far, or than a
-- node of the trie that is left to search.
abbrev pub Covered : (nb rsize : ℕ) → Trie → ℕ → Type 0
Covered nb rsize t n = nb ≤ n → (rsize ≤ n - nb) ⊎ ((b k : ℕ) × HasNode b k t × (k ≤ n))

-- What the walk from `q` through `t` leaves, if `rest` was set aside before: a trie to search, and a
-- best chunk.
pub record Walked (s : State) (i nb : ℕ) (q r : Search) (t rest : Trie) : Type 0 where
  pub trie : Trie
  pub up : ℕ
  pub w : ℕ
  pub lo : ℕ
  pub shape : Represents s i up r.t trie
  pub ordered : IsTrie w lo trie
  pub depth : w < 64
  pub candidates : (r.rsize ≡ 0) ⊎ Fits nb trie
  pub inside : (b k : ℕ) → HasNode b k trie → HasNode b k t ⊎ HasNode b k rest
  pub no_worse : r.rsize ≤ q.rsize
  pub source :
      ((r.v ≡ q.v) × (r.rsize ≡ q.rsize))
      ⊎ ((a n : ℕ) × HasNode a n t × (nb ≤ n) × (r.v ≡ a) × (r.rsize ≡ n - nb))
  pub covers : Each (λ a n. Covered nb r.rsize trie n) t
  pub covers_rest : Each (λ a n. Covered nb r.rsize trie n) rest

-- A subtree that was set aside, with all its sizes from `bound` on.
pub record SetAside (s : State) (i p bound : ℕ) (t : Trie) : Type 0 where
  pub up : ℕ
  pub w : ℕ
  pub lo : ℕ
  pub shape : Represents s i up p t
  pub ordered : IsTrie w lo t
  pub depth : w < 64
  pub above : Each (λ a n. (bound ≤ n) × (n < 2 ^ 64)) t

improve_any :
    (s : State) (nb n : ℕ) (q : Search)
    → chunksize s q.t ≡ n
    → 0 < n
    → n < 2 ^ 64
    → nb < 2 ^ 64
    → q.rsize ≤ 2 ^ 64 - nb
    → ((improve s nb q).rsize ≤ q.rsize)
      × (nb ≤ n → (improve s nb q).rsize ≤ n - nb)
      × ((((improve s nb q).v ≡ q.v) × ((improve s nb q).rsize ≡ q.rsize))
          ⊎ ((nb ≤ n) × ((improve s nb q).v ≡ q.t) × ((improve s nb q).rsize ≡ n - nb)))
unfolding sub64
improve_any s nb n q size pos word small start =
    elim (Bool-cases (ltb ((n + 2 ^ 64 - nb) % 2 ^ 64) q.rsize)) [
      | inl better ↦
          rw (size, better)
            (ground arith, (λ h. omega arith), inr (ground arith, refl, ground arith))
      | inr worse ↦ rw (size, worse) (omega arith, (λ h. ground arith), inl (refl, refl))
    ]
