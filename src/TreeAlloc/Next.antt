-- ===== src/TreeAlloc/Next.antt =====
-- `tmalloc_large` where its own bin has no chunk that is large enough: the next bin that is not
-- empty.
use Prim.Native.Nat.{bit_and}
use native.Mathlib.Nat.{one-le-pow}
use dlmalloc_rs.Prelude.{
  ℕ, zero, suc, ◌^◌, ◌<◌, ◌≡◌, ◌∙◌, ◌⊎◌, ap, refl, true, false, arith, ◌==◌, Bool-cases, inl, inr,
}
use dlmalloc_rs.Word.{bit_at, bit_and-le}
use dlmalloc_rs.BinMap.{idx2bit, left_bits, least_bit, compute_bit2idx}
use dlmalloc_rs.BinMap.First.{least_bit_index, bit_at-left_bits, left_bits-idx2bit}
use dlmalloc_rs.State.{State}
use dlmalloc_rs.TreeBin.Trie.{Trie, is_node}
use dlmalloc_rs.TreeBin.Bins.{TreeBins}
use dlmalloc_rs.TreeAlloc.{next_treebin}
use dlmalloc_rs.TreeAlloc.Small.{node_by_bit}

bit_at-none : (j : ℕ) → bit_at 0 j ≡ 0
unfolding bit_at
bit_at-none zero = refl
bit_at-none (suc j) = bit_at-none j

-- The bins above `idx` are empty, or the first of them that is not is bin `i`.
pub record IsNext (s : State) (tries : ℕ → Trie) (idx i : ℕ) : Type 0 where
  pub above : idx < i
  pub bin : i < 32
  pub filled : is_node (tries i) ≡ true
  pub root : next_treebin s idx ≡ s.m.treebins i
  pub skipped : (j : ℕ) → idx < j → j < i → is_node (tries j) ≡ false

pub next_treebin-IsNext :
    (s : State) (tries : ℕ → Trie) (idx : ℕ)
    → TreeBins s tries
    → idx < 32
    → ((next_treebin s idx ≡ 0) × ((j : ℕ) → idx < j → j < 32 → is_node (tries j) ≡ false))
      ⊎ ((i : ℕ) × IsNext s tries idx i)
unfolding next_treebin
next_treebin-IsNext s tries idx inv lt =
    let bits = bit_and (left_bits (idx2bit idx)) s.m.treemap in
    let digit = bit_at-left_bits s.m.treemap idx in
    elim (Bool-cases (bits == 0)) [
      | inl none_left ↦
          let null : bits ≡ 0 = ground (arith, none_left) in
          rw none_left (
            inl (
              refl,
              λ j above bin.
                  let clear : bit_at bits j ≡ 0 = ap (λ b. bit_at b j) null ∙ bit_at-none j in
                  ground (arith, clear, digit j lt bin, node_by_bit inv j bin),
            ))
      | inr some_left ↦
          let i = compute_bit2idx (least_bit bits) in
          let word : bits < 2 ^ 32 = omega (
            arith,
            bit_and-le 32 (left_bits (idx2bit idx)) s.m.treemap,
            left_bits-idx2bit idx lt,
            one-le-pow (suc idx) 2,
          ) in
          let first = least_bit_index bits (ground arith) word in
          let set = digit i lt first.0 in
          inr (
            i,
            record {
              above = ground (arith, set, first.1);
              bin = first.0;
              filled = ground (arith, set, first.1, node_by_bit inv i first.0);
              root = rw some_left refl;
              skipped = λ j above before. ground (
                arith,
                digit j lt (omega (arith, before, first.0)),
                first.2 j before,
                node_by_bit inv j (omega (arith, before, first.0)),
              );
            },
          )
    ]
