-- ===== src/Prelude/Table.antt =====
-- A database table as the list of its rows in insertion order, and the statements that the program
-- runs on one. A `where` clause is a Boolean test of the row.
pub mod Laws
pub mod Keyed
pub mod Found
pub mod Greatest
use Prim.Native.Nat.{ℕ, suc, max}
use mathlib.Core.Bool.{Bool}
use mathlib.Core.List.{List, [], ◌∷◌, ◌++◌}
use mathlib.Core.Option.{Option, none, some}
use kiwi_catalog.Prelude.Tests.{if◌then◌else◌}

module _ {ℓ} {A : Type ℓ} where
  -- `select * from t where p`, the first row
  unfoldable pub find? : (A → Bool) → List A → Option A
  find? p [] = none
  find? p (x ∷ xs) = if p x then some x else find? p xs

  -- `select * from t where p`, all rows
  unfoldable pub select : (A → Bool) → List A → List A
  select p [] = []
  select p (x ∷ xs) = let rest = select p xs in if p x then x ∷ rest else rest

  -- `update t set f where p`
  unfoldable pub update : (A → Bool) → (A → A) → List A → List A
  update p f [] = []
  update p f (x ∷ xs) = (if p x then f x else x) ∷ update p f xs

  -- `delete from t where p`
  unfoldable pub delete : (A → Bool) → List A → List A
  delete p [] = []
  delete p (x ∷ xs) = let rest = delete p xs in if p x then rest else x ∷ rest

  -- `insert into t values x`
  unfoldable pub insert : A → List A → List A
  insert x xs = xs ++ x ∷ []

  -- `select count(*) from t where p`
  unfoldable pub count : (A → Bool) → List A → ℕ
  count p [] = 0
  count p (x ∷ xs) = if p x then suc (count p xs) else count p xs

  -- `select max(f) from t where p`, and 0 in place of SQL's null
  unfoldable pub max_of : (A → Bool) → (A → ℕ) → List A → ℕ
  max_of p f [] = 0
  max_of p f (x ∷ xs) = if p x then max (f x) (max_of p f xs) else max_of p f xs
