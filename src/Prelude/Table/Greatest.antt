-- ===== src/Prelude/Table/Greatest.antt =====
-- The greatest value of the rows that count, under the statements on a table.
use Prim.Native.Nat.{ℕ, ◌≤◌, max}
use mathlib.Core.Path.{◌≡◌, refl}
use mathlib.Core.Logic.{inl, inr}
use mathlib.Core.Bool.{Bool, true, false}
use mathlib.Core.List.{List, [], ◌∷◌}
use mathlib.Core.Option.{some}
use native.Mathlib.Omega.{arith}
use kiwi_catalog.Prelude.Tests.{Bool-cases}
use kiwi_catalog.Prelude.Lists.{All}
use kiwi_catalog.Prelude.Table.{find?, update, insert, count, max_of}

module _ {ℓ} {A : Type ℓ} where
  -- Every row of the clause lies at or below the maximum.
  pub find?-le-max_of :
      (p q : A → Bool) (f : A → ℕ) (xs : List A) (x : A)
      → find? q xs ≡ some x
      → p x ≡ true
      → f x ≤ max_of p f xs
  unfolding find? max_of
  find?-le-max_of p q f [] x h k = cc
  find?-le-max_of p q f (y ∷ xs) x h k = ground (arith, find?-le-max_of p q f xs x)

  pub max_of-update :
      (p q : A → Bool) (g : A → ℕ) (f : A → A) (xs : List A)
      → ((x : A) → p (f x) ≡ p x)
      → ((x : A) → g (f x) ≡ g x)
      → max_of p g (update q f xs) ≡ max_of p g xs
  unfolding max_of update
  max_of-update p q g f [] h k = refl
  max_of-update p q g f (x ∷ xs) h k = ground (arith, h x, k x, max_of-update p q g f xs h k)

  pub max_of-insert :
      (p : A → Bool) (g : A → ℕ) (x : A) (xs : List A)
      → p x ≡ true
      → max_of p g (insert x xs) ≡ max (max_of p g xs) (g x)
  unfolding max_of insert
  max_of-insert p g x [] h = ground arith
  max_of-insert p g x (y ∷ xs) h = ground (arith, max_of-insert p g x xs h)

  pub max_of-insert_other :
      (p : A → Bool) (g : A → ℕ) (x : A) (xs : List A)
      → p x ≡ false
      → max_of p g (insert x xs) ≡ max_of p g xs
  unfolding max_of insert
  max_of-insert_other p g x [] h = ground arith
  max_of-insert_other p g x (y ∷ xs) h = ground (arith, max_of-insert_other p g x xs h)

  pub max_of-zero : (p : A → Bool) (f : A → ℕ) (xs : List A) → count p xs ≡ 0 → max_of p f xs ≡ 0
  unfolding count max_of
  max_of-zero p f [] h = refl
  max_of-zero p f (x ∷ xs) h = ground (arith, max_of-zero p f xs)

  -- The greatest value of the one row that counts.
  pub max_of-only :
      (p : A → Bool) (f : A → ℕ) (xs : List A) (r : A)
      → find? p xs ≡ some r
      → count p xs ≤ 1
      → max_of p f xs ≡ f r
  unfolding find? count max_of
  max_of-only p f [] r h one = cc
  max_of-only p f (x ∷ xs) r h one = elim (Bool-cases (p x)) [
    | inl e ↦
        let same : x ≡ r = ground arith in ground (arith, same, max_of-zero p f xs (ground arith))
    | inr e ↦ ground (arith, max_of-only p f xs r (ground arith) (ground arith))
  ]

  max_of-All :
      (p : A → Bool) (f : A → ℕ) (n : ℕ) (xs : List A)
      → max_of p f xs ≤ n
      → All (λ x. p x ≡ true → f x ≤ n) xs
  unfolding max_of
  max_of-All p f n [] h = tt
  max_of-All p f n (x ∷ xs) h = (λ e. ground arith, max_of-All p f n xs (ground arith))

  -- No row that counts has a greater value than the greatest.
  pub All-le-max_of :
      (p : A → Bool) (f : A → ℕ) (xs : List A) → All (λ x. p x ≡ true → f x ≤ max_of p f xs) xs
  All-le-max_of p f xs = max_of-All p f (max_of p f xs) xs (omega arith)
