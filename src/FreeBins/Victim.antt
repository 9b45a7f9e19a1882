-- ===== src/FreeBins/Victim.antt =====
-- `replace_dv` keeps all the bins in order.
use dlmalloc_rs.Prelude.{
  ℕ, ◌<◌, ◌≡◌, ◌≢◌, ◌∙◌, ap, inl, inr, refl, sym, subst, ◌==◌, Bool-cases, List, ◌∷◌, arith,
  if◌then◌else◌, Fresh,
}
use dlmalloc_rs.Size.{small_index}
use dlmalloc_rs.State.{State, and_then, put, Run}
use dlmalloc_rs.SmallBin.{insert_small_chunk, replace_dv}
use dlmalloc_rs.SmallBin.Stacks.{Leaves, leaves, OnlySmall, update}
use dlmalloc_rs.SmallBin.Insert.{IsNew}
use dlmalloc_rs.TreeBin.Trie.{Trie}
use dlmalloc_rs.TreeBin.Separate.{Avoids}
use dlmalloc_rs.FreeBins.{FreeBins}
use dlmalloc_rs.FreeBins.Frame.{with_dv, FreeBins-with_dv}
use dlmalloc_rs.FreeBins.Small.{FreeBins-insert_small_chunk}

-- The designated victim of a state: none, or a small chunk that is in no bin.
pub record IsVictim (s : State) (stacks : ℕ → List ℕ) (tries : ℕ → Trie) : Type 0 where
  pub small : small_index s.m.dvsize < 32
  pub new : IsNew s stacks s.m.dv
  pub off : (j : ℕ) → j < 32 → Avoids s.m.dv (tries j)

-- The stacks after `replace_dv`: the old victim is on top of its bin's.
abbrev pub with_victim : State → (ℕ → List ℕ) → ℕ → List ℕ
with_victim s stacks =
    let i = small_index s.m.dvsize in
    if s.m.dvsize == 0 then stacks else update stacks i (s.m.dv ∷ stacks i)

-- Nothing has changed but links, the map of the small bins and the designated victim.
abbrev pub OnlyVictim : State → State → Type 0
OnlyVictim s t = t ≡ record s {
  heap = record (s.heap) { fd = t.heap.fd; bk = t.heap.bk };
  m = record (s.m) { smallmap = t.m.smallmap; dv = t.m.dv; dvsize = t.m.dvsize };
}

-- The write of the new victim behind an insertion.
after_insertion :
    (s : State) (stacks : ℕ → List ℕ) (tries : ℕ → Trie) (p size : ℕ) (r : Run (Unit {0}))
    → Leaves (λ t. FreeBins t stacks tries × OnlySmall s t) r
    → Leaves
        (λ t. FreeBins t stacks tries × OnlyVictim s t × (t.m.dv ≡ p) × (t.m.dvsize ≡ size))
        (and_then r (λ _. put (with_dv p size)))
after_insertion s stacks tries p size r (leaves {t} h) = leaves (
  FreeBins-with_dv p size t stacks tries h.0,
  ap (λ (z : State). with_dv p size z) h.1,
  refl,
  refl,
)

pub replace_dv-FreeBins :
    (s : State) (stacks : ℕ → List ℕ) (tries : ℕ → Trie) (p size : ℕ)
    → FreeBins s stacks tries
    → (s.m.dvsize ≢ 0 → IsVictim s stacks tries)
    → Leaves
        (λ t.
          FreeBins t (with_victim s stacks) tries
          × OnlyVictim s t
          × (t.m.dv ≡ p)
          × (t.m.dvsize ≡ size))
        (replace_dv p size s)
unfolding replace_dv
replace_dv-FreeBins s stacks tries p size inv victim = elim (Bool-cases (s.m.dvsize == 0)) [
  | inl none ↦ rw none (leaves (FreeBins-with_dv p size s stacks tries inv, refl, refl, refl))
  | inr some ↦
      let v = victim (ground (arith, some)) in
      rw some (
        after_insertion s _ tries p size (insert_small_chunk s.m.dv s.m.dvsize s)
          (FreeBins-insert_small_chunk s stacks tries s.m.dv s.m.dvsize inv v.small v.new v.off))
]

-- The victim and its head are the same in a state where nothing else has changed.
pub IsVictim-moved :
    (s t : State) (stacks : ℕ → List ℕ) (tries tries' : ℕ → Trie)
    → t.m.dv ≡ s.m.dv
    → t.m.dvsize ≡ s.m.dvsize
    → t.m.at ≡ s.m.at
    → t.m.least_addr ≡ s.m.least_addr
    → ((j : ℕ) → j < 32 → Avoids s.m.dv (tries' j))
    → IsVictim s stacks tries
    → IsVictim t stacks tries'
IsVictim-moved s t stacks tries tries' dv dvsize at low off h = record {
  small = subst (λ n. small_index n < 32) (sym dvsize) h.small;
  new = record {
    low = omega (arith, dv, low, h.new.low);
    off_bins = λ j lt e. h.new.off_bins j lt (omega (arith, e, dv, at));
    off_chunks = λ j lt. subst (λ v. Fresh v (stacks j)) (sym dv) (h.new.off_chunks j lt);
  };
  off = λ j lt. subst (λ v. Avoids v (tries' j)) (sym dv) (off j lt);
}

pub with_victim-same :
    (s t : State) (stacks : ℕ → List ℕ)
    → t.m.dv ≡ s.m.dv
    → t.m.dvsize ≡ s.m.dvsize
    → with_victim t stacks ≡ with_victim s stacks
with_victim-same s t stacks dv dvsize =
    ap (λ (v : ℕ). with_victim (with_dv v t.m.dvsize t) stacks) dv
    ∙ ap (λ (n : ℕ). with_victim (with_dv s.m.dv n t) stacks) dvsize
