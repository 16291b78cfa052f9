-- ===== src/Prelude/Table/Found.antt =====
-- A row that one search finds, when another looks for it.
use Prim.Native.Nat.{◌≤◌, ◌<◌}
use mathlib.Core.Path.{◌≡◌, refl}
use mathlib.Core.Logic.{inl, inr}
use mathlib.Core.Bool.{Bool, true, false}
use mathlib.Core.List.{List, [], ◌∷◌}
use mathlib.Core.Option.{some}
use native.Mathlib.Omega.{arith}
use kiwi_catalog.Prelude.Tests.{Bool-cases}
use kiwi_catalog.Prelude.Table.{find?, update, insert, count}
use kiwi_catalog.Prelude.Table.Laws.{count-update_le, count-le}

module _ {ℓ} {A : Type ℓ} where
  -- A row that is found and counts is counted.
  find?-counted :
      (p q : A → Bool) (xs : List A) (r : A) → find? q xs ≡ some r → p r ≡ true → 0 < count p xs
  unfolding find? count
  find?-counted p q [] r h e = cc
  find?-counted p q (x ∷ xs) r h e = elim (Bool-cases (q x)) [
    | inl here ↦ let same : x ≡ r = ground arith in ground (arith, same)
    | inr after ↦ ground (arith, find?-counted p q xs r)
  ]

  -- Where at most one row counts, a row that is found and counts is the one.
  pub find?-one :
      (p q : A → Bool) (xs : List A) (r : A)
      → find? q xs ≡ some r
      → p r ≡ true
      → count p xs ≤ 1
      → find? p xs ≡ some r
  unfolding find? count
  find?-one p q [] r h e one = cc
  find?-one p q (x ∷ xs) r h e one = elim (Bool-cases (q x)) [
    | inl here ↦ let same : x ≡ r = ground arith in ground (arith, same)
    | inr after ↦ ground (arith, find?-counted p q xs r, find?-one p q xs r)
  ]

  -- An update of a row that is found and counts, after which it counts no more.
  pub count-update_lt_at :
      (p q s : A → Bool) (f : A → A) (xs : List A) (r : A)
      → ((x : A) → q x ≡ true → p (f x) ≡ true → p x ≡ true)
      → find? s xs ≡ some r
      → p r ≡ true
      → q r ≡ true
      → p (f r) ≡ false
      → count p (update q f xs) < count p xs
  unfolding find? count update
  count-update_lt_at p q s f [] r keep h counted covered out = cc
  count-update_lt_at p q s f (x ∷ xs) r keep h counted covered out = elim (Bool-cases (s x)) [
    | inl here ↦
        let same : x ≡ r = ground arith in ground (arith, same, count-update_le p q f xs keep)
    | inr after ↦
        ground
          (arith, keep x, count-update_lt_at p q s f xs r keep (ground arith) counted covered out)
  ]

  -- A row that the search does not accept may join or change without the search noticing.
  pub find?-insert_other :
      (p : A → Bool) (x : A) (xs : List A) → p x ≡ false → find? p (insert x xs) ≡ find? p xs
  unfolding find? insert
  find?-insert_other p x [] other = ground (arith, other)
  find?-insert_other p x (y ∷ xs) other = ground (arith, find?-insert_other p x xs other)

  pub find?-update_other :
      (p q : A → Bool) (f : A → A) (xs : List A)
      → ((x : A) → q x ≡ true → (p x ≡ false) × (p (f x) ≡ false))
      → find? p (update q f xs) ≡ find? p xs
  unfolding find? update
  find?-update_other p q f [] other = refl
  find?-update_other p q f (x ∷ xs) other =
      ground (arith, other x, find?-update_other p q f xs other)

  -- Where no two rows pass a test, and the one that does is outside a narrower test, none is inside.
  pub count-narrower :
      (p q : A → Bool) (xs : List A) (r : A)
      → ((x : A) → q x ≡ true → p x ≡ true)
      → count p xs ≤ 1
      → find? p xs ≡ some r
      → q r ≡ false
      → count q xs ≡ 0
  unfolding find? count
  count-narrower p q [] r within one found out = refl
  count-narrower p q (x ∷ xs) r within one found out = elim (Bool-cases (p x)) [
    | inl here ↦
        let same : x ≡ r = ground arith in
        let fewer = count-le q p xs within in ground (arith, same, fewer)
    | inr after ↦ ground (arith, within x, count-narrower p q xs r within)
  ]
