-- ===== src/Prelude/Sorting.antt =====
-- Rows in the order of a query (`order by`), by insertion, for an order that tells rows of different
-- keys apart.
use Prim.Native.Nat.{ℕ, zero, suc}
use Prim.Native.String.{String}
use mathlib.Core.Path.{◌≡◌, refl, subst}
use mathlib.Core.Logic.{inl, inr}
use mathlib.Core.Bool.{Bool, true, false}
use mathlib.Core.List.{List, [], ◌∷◌}
use mathlib.Core.Option.{Option, none, some}
use native.Mathlib.Omega.{arith}
use kiwi_catalog.Prelude.Tests.{if◌then◌else◌, ◌=ₛ◌, Bool-cases, Option-cases}
use kiwi_catalog.Prelude.Lists.{All, All-map, take}
use kiwi_catalog.Prelude.Cuts.{drop, All-select, select-All}
use kiwi_catalog.Prelude.Table.{select, count}
use kiwi_catalog.Prelude.Table.Keyed.{Distinct}

module _ {ℓ} {A : Type ℓ} (lt : A → A → Bool) where
  unfoldable pub placed : A → List A → List A
  placed x [] = x ∷ []
  placed x (y ∷ ys) = let rest = placed x ys in if lt x y then x ∷ y ∷ ys else y ∷ rest

  unfoldable pub ordered : List A → List A
  ordered [] = []
  ordered (x ∷ xs) = placed x (ordered xs)

  abbrev pub Sorted : List A → Type 0
  Sorted [] = Unit
  Sorted (x ∷ xs) = All (λ y. lt x y ≡ true) xs × Sorted xs

  pub All-placed {κ} : (P : A → Type κ) (x : A) (xs : List A) → P x → All P xs → All P (placed x xs)
  unfolding placed
  All-placed P x [] p h = (p, tt)
  All-placed P x (y ∷ ys) p h = elim (Bool-cases (lt x y)) [
    | inl e ↦ rw e (p, h)
    | inr e ↦ rw e (h.0, All-placed P x ys p h.1)
  ]

  pub All-ordered {κ} : (P : A → Type κ) (xs : List A) → All P xs → All P (ordered xs)
  unfolding ordered
  All-ordered P [] h = tt
  All-ordered P (x ∷ xs) h = All-placed P x (ordered xs) h.0 (All-ordered P xs h.1)

  pub count-placed : (p : A → Bool) (x : A) (xs : List A) → count p (placed x xs) ≡ count p (x ∷ xs)
  unfolding placed count
  count-placed p x [] = refl
  count-placed p x (y ∷ ys) = ground (arith, count-placed p x ys)

  pub count-ordered : (p : A → Bool) (xs : List A) → count p (ordered xs) ≡ count p xs
  unfolding ordered count
  count-ordered p [] = refl
  count-ordered p (x ∷ xs) = ground (arith, count-placed p x (ordered xs), count-ordered p xs)

  placed-first : (x : A) (xs : List A) → All (λ y. lt x y ≡ true) xs → placed x xs ≡ x ∷ xs
  unfolding placed
  placed-first x [] h = refl
  placed-first x (y ∷ ys) h = rw h.0 refl

abbrev pub last_row {ℓ} : {A : Type ℓ} → List A → Option A
last_row [] = none
last_row (x ∷ xs) = elim (last_row xs) [ none ↦ some x | some z ↦ some z ]

pub count_none-All {ℓ} :
    {A : Type ℓ} (q : A → Bool) (xs : List A) → count q xs ≡ 0 → All (λ y. q y ≡ false) xs
unfolding count
count_none-All q [] h = tt
count_none-All q (x ∷ xs) h = elim (Bool-cases (q x)) [
  | inl e ↦ absurd (ground (arith, e, h))
  | inr e ↦ (e, count_none-All q xs (ground (arith, e, h)))
]

module _ {ℓ} {A : Type ℓ} where
  pub last_row-All {κ} :
      (P : A → Type κ) (xs : List A) (z : A) → All P xs → last_row xs ≡ some z → P z
  last_row-All P [] z h k = cc
  last_row-All P (x ∷ xs) z h k = elim (Option-cases (last_row xs)) [
    | inl nothing ↦ let same : x ≡ z = ground (arith, nothing, k) in subst P same h.0
    | inr (y, found) ↦ last_row-All P xs z h.1 (ground (arith, found, k))
  ]

  pub All-take {κ} : (P : A → Type κ) (n : ℕ) (xs : List A) → All P xs → All P (take n xs)
  All-take P zero xs h = tt
  All-take P (suc n) [] h = tt
  All-take P (suc n) (x ∷ xs) h = (h.0, All-take P n xs h.1)

  pub nothing_left : (n : ℕ) (xs : List A) → last_row (take n xs) ≡ none → drop n xs ≡ xs
  nothing_left zero xs h = refl
  nothing_left (suc n) [] h = refl
  nothing_left (suc n) (x ∷ xs) h = absurd (ground (arith, h))

module _ {ℓ} {A : Type ℓ} (lt : A → A → Bool) (key : A → String)
    (trans : (x y z : A) → lt x y ≡ true → lt y z ≡ true → lt x z ≡ true)
    (asym : (x y : A) → lt x y ≡ true → lt y x ≡ false)
    (total : (x y : A) → lt x y ≡ false → (key y =ₛ key x) ≡ false → lt y x ≡ true) where
  placed-Sorted :
      (x : A) (xs : List A)
      → Sorted lt xs
      → All (λ y. (key y =ₛ key x) ≡ false) xs
      → Sorted lt (placed lt x xs)
  unfolding placed
  placed-Sorted x [] h d = (tt, tt)
  placed-Sorted x (y ∷ ys) h d = elim (Bool-cases (lt x y)) [
    | inl e ↦ rw e ((e, All-map (λ z below. trans x y z e below) ys h.0), h)
    | inr e ↦
        rw e (
          All-placed lt (λ z. lt y z ≡ true) x ys (total x y e d.0) h.0,
          placed-Sorted x ys h.1 d.1,
        )
  ]

  pub ordered-Sorted : (xs : List A) → Distinct key xs → Sorted lt (ordered lt xs)
  unfolding ordered
  ordered-Sorted [] d = tt
  ordered-Sorted (x ∷ xs) d = placed-Sorted x (ordered lt xs) (ordered-Sorted xs d.1) (
      All-ordered lt (λ y. (key y =ₛ key x) ≡ false) xs
        (count_none-All (λ y. key y =ₛ key x) xs d.0))

  select-placed :
      (q : A → Bool) (x : A) (xs : List A)
      → Sorted lt xs
      → select q (placed lt x xs) ≡ (if q x then placed lt x (select q xs) else select q xs)
  unfolding placed select
  select-placed q x [] h = ground arith
  select-placed q x (y ∷ ys) h = elim (Bool-cases (lt x y)) [
    | inl e ↦
        let after : All (λ z. lt x z ≡ true) (y ∷ ys) =
          (e, All-map (λ z below. trans x y z e below) ys h.0) in
        let first : placed lt x (select q (y ∷ ys)) ≡ x ∷ select q (y ∷ ys) =
          placed-first lt x (select q (y ∷ ys))
            (All-select (λ z. lt x z ≡ true) q (y ∷ ys) after) in
        ground (arith, e, first)
    | inr e ↦ ground (arith, e, select-placed q x ys h.1)
  ]

  -- Filtering and ordering may be exchanged.
  pub select-ordered :
      (q : A → Bool) (xs : List A)
      → Distinct key xs
      → select q (ordered lt xs) ≡ ordered lt (select q xs)
  unfolding ordered select
  select-ordered q [] d = refl
  select-ordered q (x ∷ xs) d =
      ground
        (arith, select-placed q x (ordered lt xs) (ordered-Sorted xs d.1), select-ordered q xs d.1)

  -- What comes after the last row that was taken is what was not taken.
  pub last_row-cut :
      (n : ℕ) (xs : List A) (z : A)
      → Sorted lt xs
      → last_row (take n xs) ≡ some z
      → select (lt z) xs ≡ drop n xs
  unfolding select
  last_row-cut zero xs z h k = cc
  last_row-cut (suc n) [] z h k = cc
  last_row-cut (suc n) (x ∷ xs) z h k = elim (Option-cases (last_row (take n xs))) [
    | inl nothing ↦
        let same : x ≡ z = ground (arith, nothing, k) in
        let own : lt z x ≡ false = elim (Bool-cases (lt z x)) [
          | inl e ↦ ground (arith, e, asym z x e, same)
          | inr e ↦ e
        ] in
        let whole : select (lt z) xs ≡ xs =
          subst (λ v. select (lt v) xs ≡ xs) same (select-All (lt x) xs h.0) in
        ground (arith, whole, nothing_left n xs nothing, own)
    | inr (y, found) ↦
        let same : last_row (take n xs) ≡ some z = ground (arith, found, k) in
        let below : lt x z ≡ true =
          last_row-All (λ e. lt x e ≡ true) (take n xs) z (All-take (λ e. lt x e ≡ true) n xs h.0)
            same in
        ground (arith, asym x z below, last_row-cut n xs z h.1 same)
  ]
