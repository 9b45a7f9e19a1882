-- ===== src/SmallBin/Ring.antt =====
-- Circular doubly linked lists as lists of addresses.
use dlmalloc_rs.Prelude.{
  ℕ, ◌≡◌, ◌≢◌, sym, subst, ap, ◌∙◌, List, [], ◌∷◌, ◌++◌, arith, All, Fresh, Distinct, All-append,
}
use dlmalloc_rs.State.{write}

-- From `a` the `fd` links lead through `xs` to `z`, and the `bk` links back.
abbrev pub Links : (fd bk : ℕ → ℕ) → ℕ → List ℕ → ℕ → Type 0
Links fd bk a [] z = (fd a ≡ z) × (bk z ≡ a)
Links fd bk a (x ∷ xs) z = (fd a ≡ x) × (bk x ≡ a) × Links fd bk x xs z

-- A write elsewhere is not seen on a list.
pub All-write : (f : ℕ → ℕ) (a v : ℕ) (xs : List ℕ) → Fresh a xs → All (λ x. write f a v x ≡ f x) xs
All-write f a v [] h = tt
All-write f a v (x ∷ xs) h = (ground (arith, h.0), All-write f a v xs h.1)

pub frame :
    (fd bk fd' bk' : ℕ → ℕ) (a : ℕ) (xs : List ℕ) (z : ℕ)
    → All (λ x. fd' x ≡ fd x) (a ∷ xs)
    → All (λ x. bk' x ≡ bk x) xs
    → bk' z ≡ bk z
    → Links fd bk a xs z
    → Links fd' bk' a xs z
frame fd bk fd' bk' a [] z f b e l = (ground (arith, f.0, l.0), ground (arith, l.1))
frame fd bk fd' bk' a (x ∷ xs) z f b e l =
    (ground (arith, f.0, l.0), ground (arith, b.0, l.1), frame fd bk fd' bk' x xs z f.1 b.1 e l.2)

module _ (fd bk : ℕ → ℕ) where
  pub split :
      (a : ℕ) (ys : List ℕ) (p : ℕ) (zs : List ℕ) (z : ℕ)
      → Links fd bk a (ys ++ p ∷ zs) z
      → Links fd bk a ys p × Links fd bk p zs z
  split a [] p zs z l = ((l.0, l.1), l.2)
  split a (y ∷ ys) p zs z l = let rest = split y ys p zs z l.2 in ((l.0, l.1, rest.0), rest.1)

  -- The node before `p` is one of the list, and so is the node behind it, or the end.
  pub bk_ne : (c a : ℕ) (ys : List ℕ) (p : ℕ) → Links fd bk a ys p → Fresh c (a ∷ ys) → c ≢ bk p
  bk_ne c a [] p l h = λ e. h.0 (omega (arith, l.1))
  bk_ne c a (y ∷ ys) p l h = bk_ne c y ys p l.2 h.1

  pub fd_ne : (c p : ℕ) (zs : List ℕ) (z : ℕ) → Links fd bk p zs z → Fresh c zs → c ≢ z → c ≢ fd p
  fd_ne c p [] z l h ne = λ e. ne (omega (arith, l.0))
  fd_ne c p (q ∷ zs) z l h ne = λ e. h.0 (omega (arith, l.0))

  -- What holds of the list's nodes holds of the neighbours of `p`.
  pub bk_All :
      (P : ℕ → Type 0) (a : ℕ) (ys : List ℕ) (p : ℕ)
      → Links fd bk a ys p
      → All P (a ∷ ys)
      → P (bk p)
  bk_All P a [] p l h = subst P (sym l.1) h.0
  bk_All P a (y ∷ ys) p l h = bk_All P y ys p l.2 h.1

  pub fd_All :
      (P : ℕ → Type 0) (p : ℕ) (zs : List ℕ) (z : ℕ)
      → Links fd bk p zs z
      → All P zs
      → P z
      → P (fd p)
  fd_All P p [] z l h end = subst P (sym l.0) end
  fd_All P p (q ∷ zs) z l h end = subst P (sym l.0) h.0

  -- The neighbours of `p` point back at it.
  pub fd-bk : (a : ℕ) (ys : List ℕ) (p : ℕ) → Links fd bk a ys p → fd (bk p) ≡ p
  fd-bk a [] p l = ap fd l.1 ∙ l.0
  fd-bk a (y ∷ ys) p l = fd-bk y ys p l.2

  pub bk-fd : (p : ℕ) (zs : List ℕ) (z : ℕ) → Links fd bk p zs z → bk (fd p) ≡ p
  bk-fd p [] z l = ap bk l.0 ∙ l.1
  bk-fd p (q ∷ zs) z l = ap bk l.0 ∙ l.1

  -- Taking `p` out joins the two parts.
  pub join :
      (a : ℕ) (ys : List ℕ) (p : ℕ) (zs : List ℕ) (z : ℕ)
      → Links fd bk a ys p
      → Links fd bk p zs z
      → Distinct (a ∷ (ys ++ zs))
      → Fresh z (ys ++ zs)
      → Links (write fd (bk p) (fd p)) (write bk (fd p) (bk p)) a (ys ++ zs) z
  join a [] p [] z l r d h =
      (ground (arith, l.0, l.1, r.0, r.1), ground (arith, l.0, l.1, r.0, r.1))
  join a [] p (q ∷ zs) z l r d h = (
    ground (arith, l.1, r.0),
    ground (arith, l.1, r.0),
    frame fd bk (write fd (bk p) (fd p)) (write bk (fd p) (bk p)) q zs z
        (All-write fd (bk p) (fd p) (q ∷ zs) (subst (λ c. Fresh c (q ∷ zs)) (sym l.1) d.0))
        (All-write bk (fd p) (bk p) zs (subst (λ c. Fresh c zs) (sym r.0) d.1.0))
        (ground (arith, r.0, h.0)) r.2,
  )
  join a (y ∷ ys) p zs z l r d h =
      let away : a ≢ bk p = bk_ne a y ys p l.2 ((All-append (λ x. a ≢ x) (y ∷ ys) zs d.0).0) in
      let behind : y ≢ fd p =
        fd_ne y p zs z r ((All-append (λ x. y ≢ x) ys zs d.1.0).1) (λ e. h.0 (sym e)) in
      (ground (arith, l.0), ground (arith, l.1), join y ys p zs z l.2 r d.1 h.1)
