-- ===== src/SmallBin/Stacks.antt =====
-- The small bins as 32 stacks of chunks, and the operations as operations on the stacks.
use dlmalloc_rs.Prelude.{
  ℕ, ◌+◌, ◌*◌, ◌≤◌, ◌<◌, ◌≡◌, ◌≢◌, refl, ◌∙◌, sym, subst, Bool, true, false, List, [], ◌∷◌, ◌++◌,
  arith, Bool-cases, ==_iff, inl, inr, All, Fresh, Distinct, All-append, append-All,
  Distinct-append_middle, ◌==◌, if◌then◌else◌,
}
use dlmalloc_rs.State.{State, Run, done, write, smallbin_at}
use dlmalloc_rs.SmallBin.{smallmap_is_marked}
use dlmalloc_rs.SmallBin.Ring.{Links, frame, split, join}

-- A bin at `b` holds the chunks `xs`, first to last. While it is empty its links may be stale.
abbrev pub Holds : (marked : Bool) (fd bk : ℕ → ℕ) (least b : ℕ) → List ℕ → Type 0
Holds marked fd bk least b [] = marked ≡ false
Holds marked fd bk least b (x ∷ xs) =
    (marked ≡ true) × Links fd bk b (x ∷ xs) b × All (λ c. least ≤ c) (x ∷ xs)

abbrev pub IsBin : State → ℕ → List ℕ → Type 0
IsBin s i xs =
    Holds (smallmap_is_marked s i) s.heap.fd s.heap.bk s.m.least_addr (smallbin_at s i) xs

-- All 32 bins: their chunks differ from one another and from the bins' own addresses.
pub record SmallBins (s : State) (bins : ℕ → List ℕ) : Type 0 where
  pub each : (i : ℕ) → i < 32 → IsBin s i (bins i)
  pub distinct : (i : ℕ) → i < 32 → Distinct (bins i)
  pub apart : (i j : ℕ) → i < 32 → j < 32 → i ≢ j → All (λ x. Fresh x (bins j)) (bins i)
  pub off_bins : (i j : ℕ) → i < 32 → j < 32 → Fresh (smallbin_at s j) (bins i)

-- Writes at fresh addresses, and a change of the map that spares the bin's bit.
pub Holds-frame :
    (marked marked' : Bool) (fd bk fd' bk' : ℕ → ℕ) (least b : ℕ) (xs : List ℕ)
    → marked' ≡ marked
    → All (λ x. fd' x ≡ fd x) (b ∷ xs)
    → All (λ x. bk' x ≡ bk x) (b ∷ xs)
    → Holds marked fd bk least b xs
    → Holds marked' fd' bk' least b xs
Holds-frame marked marked' fd bk fd' bk' least b [] e f g h = e ∙ h
Holds-frame marked marked' fd bk fd' bk' least b (x ∷ xs) e f g h =
    (e ∙ h.0, frame fd bk fd' bk' b (x ∷ xs) b f g.1 g.0 h.1, h.2)

-- Two writes.
pub All-write_twice :
    (f : ℕ → ℕ) (a v c w : ℕ) (xs : List ℕ)
    → Fresh a xs
    → Fresh c xs
    → All (λ x. write (write f a v) c w x ≡ f x) xs
All-write_twice f a v c w [] h k = tt
All-write_twice f a v c w (x ∷ xs) h k =
    (ground (arith, h.0, k.0), All-write_twice f a v c w xs h.1 k.1)

-- The links after an insertion into a bin with chunks.
pub Holds-link_first :
    (fd bk : ℕ → ℕ) (least b p x : ℕ) (xs : List ℕ)
    → least ≤ p
    → Fresh p (b ∷ x ∷ xs)
    → Fresh b (x ∷ xs)
    → Fresh x xs
    → Holds true fd bk least b (x ∷ xs)
    → Holds true (write (write fd b p) p x) (write (write bk x p) p b) least b (p ∷ x ∷ xs)
Holds-link_first fd bk least b p x xs low new off first h = (
  refl,
  (
    ground (arith, new.0),
    ground arith,
    (
      ground arith,
      ground (arith, new.1.0),
      frame fd bk (write (write fd b p) p x) (write (write bk x p) p b) x xs b
          (All-write_twice fd b p p x (x ∷ xs) off new.1)
          (All-write_twice bk x p p b xs first new.1.1) (ground (arith, new.0, off.0)) h.1.2,
    ),
  ),
  (low, h.2),
)

-- The links after `p` is taken out of a bin that holds others.
pub Holds-link_over :
    (fd bk : ℕ → ℕ) (least b : ℕ) (ys : List ℕ) (p : ℕ) (zs : List ℕ)
    → Distinct (b ∷ (ys ++ p ∷ zs))
    → Links fd bk b (ys ++ p ∷ zs) b
    → All (λ c. least ≤ c) (ys ++ p ∷ zs)
    → (x : ℕ) (xs : List ℕ) → ys ++ zs ≡ x ∷ xs
    → Holds true (write fd (bk p) (fd p)) (write bk (fd p) (bk p)) least b (ys ++ zs)
Holds-link_over fd bk least b ys p zs d l h x xs e =
    let parts = split fd bk b ys p zs b l in
    let off = All-append (λ c. b ≢ c) ys (p ∷ zs) d.0 in
    let off_rest : Fresh b (ys ++ zs) = append-All (λ c. b ≢ c) ys zs off.0 off.1.1 in
    let low = All-append (λ c. least ≤ c) ys (p ∷ zs) h in
    let low_rest = append-All (λ c. least ≤ c) ys zs low.0 low.1.1 in
    let rest = Distinct-append_middle ys p zs d.1 in
    let links = join fd bk b ys p zs b parts.0 parts.1 (off_rest, rest.0) off_rest in
    subst (Holds true (write fd (bk p) (fd p)) (write bk (fd p) (bk p)) least b) (sym e) (
      refl,
      subst (λ q. Links (write fd (bk p) (fd p)) (write bk (fd p) (bk p)) b q b) e links,
      subst (All (λ c. least ≤ c)) e low_rest,
    )

-- What a run leaves: `Leaves P r` says that it returns, in a state with `P`.
pub data Leaves (P : State → Type 0) : Run (Unit {0}) → Type 0 where
  leaves : {t : State} → P t → Leaves P (done tt t)

-- Nothing has changed but the links and the map of the small bins.
abbrev pub OnlySmall : State → State → Type 0
OnlySmall s t = t ≡ record s {
  heap = record (s.heap) { fd = t.heap.fd; bk = t.heap.bk };
  m = record (s.m) { smallmap = t.m.smallmap };
}

abbrev pub update : (ℕ → List ℕ) → ℕ → List ℕ → ℕ → List ℕ
update bins i xs j = if i == j then xs else bins j

abbrev pub Apart : List ℕ → List ℕ → Type 0
Apart xs ys = All (λ x. Fresh x ys) xs

pub Apart-cons : (y : ℕ) (ys xs : List ℕ) → Fresh y xs → Apart xs ys → Apart xs (y ∷ ys)
Apart-cons y ys [] h k = tt
Apart-cons y ys (x ∷ xs) h k = (((λ e. h.0 (sym e)), k.0), Apart-cons y ys xs h.1 k.1)

Apart-nil : (xs : List ℕ) → Apart xs []
Apart-nil [] = tt
Apart-nil (x ∷ xs) = (tt, Apart-nil xs)

pub Apart-symm : (xs ys : List ℕ) → Apart xs ys → Apart ys xs
Apart-symm [] ys h = Apart-nil ys
Apart-symm (x ∷ xs) ys h = Apart-cons x xs ys h.0 (Apart-symm xs ys h.1)

-- A change of bin `i` alone.
pub SmallBins-update :
    (s t : State) (bins : ℕ → List ℕ) (i : ℕ) (xs : List ℕ)
    → SmallBins s bins
    → t.m.at ≡ s.m.at
    → Distinct xs
    → ((j : ℕ) → j < 32 → Fresh (smallbin_at s j) xs)
    → ((j : ℕ) → j < 32 → i ≢ j → Apart xs (bins j))
    → IsBin t i xs
    → ((j : ℕ) → j < 32 → i ≢ j → IsBin t j (bins j))
    → SmallBins t (update bins i xs)
SmallBins-update s t bins i xs inv at d off apart this others = record {
  each = λ j h. elim (Bool-cases (i == j)) [
    | inl e ↦ rw e (subst (λ k. IsBin t k xs) ((==_iff i j).0 e) this)
    | inr n ↦ rw n (others j h (ground arith))
  ];
  distinct = λ j h. elim (Bool-cases (i == j)) [ inl e ↦ rw e d | inr n ↦ rw n (inv.distinct j h) ];
  apart = λ j k h g ne. elim (Bool-cases (i == j)) [
    | inl e ↦
        let other : (i == k) ≡ false = ground arith in rw (e, other) (apart k g (ground arith))
    | inr n ↦ rw n (elim (Bool-cases (i == k)) [
      | inl e ↦ rw e (Apart-symm xs (bins j) (apart j h (ground arith)))
      | inr o ↦ rw o (inv.apart j k h g ne)
    ])
  ];
  off_bins = λ j k h g.
      subst (λ a. Fresh (a + 72 + k * 16) (update bins i xs j)) (sym at)
        (elim (Bool-cases (i == j)) [
          | inl e ↦ rw e (off k g)
          | inr n ↦ rw n (inv.off_bins j k h g)
        ]);
}
