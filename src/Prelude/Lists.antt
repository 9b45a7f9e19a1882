-- ===== src/Prelude/Lists.antt =====
-- Predicates on lists, by recursion.
use Prim.Native.Nat.{ℕ, suc}
use mathlib.Core.Path.{sym}
use mathlib.Core.Logic.{◌≢◌}
use mathlib.Core.List.{List, [], ◌∷◌, ◌++◌}

abbrev pub All {ℓ κ} : {A : Type ℓ} → (A → Type κ) → List A → Type κ
All P [] = Unit
All P (x ∷ xs) = P x × All P xs

abbrev pub Fresh : ℕ → List ℕ → Type 0
Fresh a xs = All (λ x. a ≢ x) xs

abbrev pub Distinct : List ℕ → Type 0
Distinct [] = Unit
Distinct (x ∷ xs) = Fresh x xs × Distinct xs

module _ {ℓ} {A : Type ℓ} where
  abbrev pub length : List A → ℕ
  length [] = 0
  length (x ∷ xs) = suc (length xs)

module _ {ℓ κ} {A : Type ℓ} (P : A → Type κ) where
  pub All-append : (xs ys : List A) → All P (xs ++ ys) → All P xs × All P ys
  All-append [] ys h = (tt, h)
  All-append (x ∷ xs) ys h = let rest = All-append xs ys h.1 in ((h.0, rest.0), rest.1)

  pub append-All : (xs ys : List A) → All P xs → All P ys → All P (xs ++ ys)
  append-All [] ys h k = k
  append-All (x ∷ xs) ys h k = (h.0, append-All xs ys h.1 k)

  -- An element taken out of the middle.
  pub All-remove : (xs : List A) (p : A) (ys : List A) → All P (xs ++ p ∷ ys) → All P (xs ++ ys)
  All-remove xs p ys h = let parts = All-append xs (p ∷ ys) h in append-All xs ys parts.0 parts.1.1

  pub All_at : (xs : List A) (p : A) (ys : List A) → All P (xs ++ p ∷ ys) → P p
  All_at xs p ys h = (All-append xs (p ∷ ys) h).1.0

  pub All-of : (xs : List A) → ((x : A) → P x) → All P xs
  All-of [] f = tt
  All-of (x ∷ xs) f = (f x, All-of xs f)

pub All-mono {ℓ κ μ} :
    {A : Type ℓ} {P : A → Type κ} {Q : A → Type μ} (xs : List A)
    → ((x : A) → P x → Q x)
    → All P xs
    → All Q xs
All-mono [] f h = tt
All-mono (x ∷ xs) f h = (f x h.0, All-mono xs f h.1)

-- A list without repetitions, with an element taken out of the middle.
pub Distinct-append_middle :
    (ys : List ℕ) (p : ℕ) (zs : List ℕ)
    → Distinct (ys ++ p ∷ zs)
    → Distinct (ys ++ zs) × Fresh p (ys ++ zs)
Distinct-append_middle [] p zs d = (d.1, d.0)
Distinct-append_middle (y ∷ ys) p zs d =
    let parts = All-append (λ x. y ≢ x) ys (p ∷ zs) d.0 in
    let rest = Distinct-append_middle ys p zs d.1 in
    ((append-All (λ x. y ≢ x) ys zs parts.0 parts.1.1, rest.0), ((λ e. parts.1.0 (sym e)), rest.1))
