-- ===== src/Prelude/Table/Laws.antt =====
-- What the statements on a table do to its counts, to a row that is looked up, and to a property of
-- all rows.
use Prim.Native.Nat.{◌+◌, ◌≤◌, ◌<◌}
use mathlib.Core.Path.{◌≡◌, refl}
use mathlib.Core.Logic.{inl, inr}
use mathlib.Core.Bool.{Bool, true, false, ◌&&◌}
use mathlib.Core.List.{List, [], ◌∷◌}
use mathlib.Core.Option
use mathlib.Core.Option.{Option, none, some}
use native.Mathlib.Omega.{arith}
use kiwi_catalog.Prelude.Tests.{if◌then◌else◌, if_intro, Bool-cases}
use kiwi_catalog.Prelude.Lists.{All}
use kiwi_catalog.Prelude.Table.{find?, update, delete, insert, count}

module _ {ℓ} {A : Type ℓ} where
  -- An update whose clause covers all counted rows, and which leaves none of them counted.
  pub count-update_none :
      (p q : A → Bool) (f : A → A) (xs : List A)
      → ((x : A) → q x ≡ true → p (f x) ≡ false)
      → ((x : A) → q x ≡ false → p x ≡ false)
      → count p (update q f xs) ≡ 0
  unfolding count update
  count-update_none p q f [] h k = refl
  count-update_none p q f (x ∷ xs) h k = ground (arith, h x, k x, count-update_none p q f xs h k)

  -- An update that makes no row counted which was not.
  pub count-update_le :
      (p q : A → Bool) (f : A → A) (xs : List A)
      → ((x : A) → q x ≡ true → p (f x) ≡ true → p x ≡ true)
      → count p (update q f xs) ≤ count p xs
  unfolding count update
  count-update_le p q f [] h = omega arith
  count-update_le p q f (x ∷ xs) h = ground (arith, h x, count-update_le p q f xs h)

  -- The same, where the rows of the clause are known by a property of all rows.
  pub count-update_le_All :
      (p q : A → Bool) (f : A → A) (xs : List A)
      → All (λ x. q x ≡ true → p (f x) ≡ true → p x ≡ true) xs
      → count p (update q f xs) ≤ count p xs
  unfolding count update
  count-update_le_All p q f [] h = omega arith
  count-update_le_All p q f (x ∷ xs) h = ground (arith, h.0, count-update_le_All p q f xs h.1)

  pub count-update_eq :
      (p q : A → Bool) (f : A → A) (xs : List A)
      → ((x : A) → q x ≡ true → p (f x) ≡ p x)
      → count p (update q f xs) ≡ count p xs
  unfolding count update
  count-update_eq p q f [] h = refl
  count-update_eq p q f (x ∷ xs) h = ground (arith, h x, count-update_eq p q f xs h)

  -- An update makes at most the rows of its clause counted.
  pub count-update_add :
      (p q : A → Bool) (f : A → A) (xs : List A) → count p (update q f xs) ≤ count p xs + count q xs
  unfolding count update
  count-update_add p q f [] = omega arith
  count-update_add p q f (x ∷ xs) = ground (arith, count-update_add p q f xs)

  pub count-insert :
      (p : A → Bool) (x : A) (xs : List A)
      → count p (insert x xs) ≡ count p xs + (if p x then 1 else 0)
  unfolding count insert
  count-insert p x [] = ground arith
  count-insert p x (y ∷ xs) = ground (arith, count-insert p x xs)

  pub count-delete_le : (p q : A → Bool) (xs : List A) → count p (delete q xs) ≤ count p xs
  unfolding count delete
  count-delete_le p q [] = omega arith
  count-delete_le p q (x ∷ xs) = ground (arith, count-delete_le p q xs)

  pub count-le :
      (p q : A → Bool) (xs : List A) → ((x : A) → p x ≡ true → q x ≡ true) → count p xs ≤ count q xs
  unfolding count
  count-le p q [] h = omega arith
  count-le p q (x ∷ xs) h = ground (arith, h x, count-le p q xs h)

  pub find?-true : (p : A → Bool) (xs : List A) (x : A) → find? p xs ≡ some x → p x ≡ true
  unfolding find?
  find?-true p [] x h = cc
  find?-true p (y ∷ xs) x h = ground (arith, find?-true p xs x)

  pub find?-All {κ} :
      (P : A → Type κ) (p : A → Bool) (xs : List A) (x : A) → All P xs → find? p xs ≡ some x → P x
  unfolding find?
  find?-All P p [] x a h = cc
  find?-All P p (y ∷ xs) x a h = elim (Bool-cases (p y)) [
    | inl e ↦ let same : y ≡ x = ground arith in rw (← same) a.0
    | inr e ↦ find?-All P p xs x a.1 (ground arith)
  ]

  -- A row that is found counts, and where none is found none counts.
  pub find?-count_pos : (p : A → Bool) (xs : List A) (x : A) → find? p xs ≡ some x → 0 < count p xs
  unfolding find? count
  find?-count_pos p [] x h = cc
  find?-count_pos p (y ∷ xs) x h = ground (arith, find?-count_pos p xs x)

  pub find?-count_zero : (p : A → Bool) (xs : List A) → find? p xs ≡ none → count p xs ≡ 0
  unfolding find? count
  find?-count_zero p [] h = refl
  find?-count_zero p (y ∷ xs) h = ground (arith, find?-count_zero p xs)

  pub find?-none_le :
      (p q : A → Bool) (xs : List A)
      → ((x : A) → p x ≡ true → q x ≡ true)
      → find? q xs ≡ none
      → find? p xs ≡ none
  unfolding find?
  find?-none_le p q [] h k = refl
  find?-none_le p q (x ∷ xs) h k = ground (arith, h x, find?-none_le p q xs h)

  -- An update that does not move the search finds the row it found before, updated.
  pub find?-update :
      (p q : A → Bool) (f : A → A) (xs : List A)
      → ((x : A) → q x ≡ true → p (f x) ≡ p x)
      → find? p (update q f xs) ≡ Option.map (λ x. if q x then f x else x) (find? p xs)
  unfolding find? update
  find?-update p q f [] h = ground arith
  find?-update p q f (x ∷ xs) h = ground (arith, h x, find?-update p q f xs h)

  pub find?-insert_found :
      (p : A → Bool) (x : A) (xs : List A) (y : A)
      → find? p xs ≡ some y
      → find? p (insert x xs) ≡ some y
  unfolding find? insert
  find?-insert_found p x [] y h = cc
  find?-insert_found p x (z ∷ xs) y h = ground (arith, find?-insert_found p x xs y)

  pub find?-insert_absent :
      (p : A → Bool) (x : A) (xs : List A)
      → find? p xs ≡ none
      → find? p (insert x xs) ≡ (if p x then some x else none)
  unfolding find? insert
  find?-insert_absent p x [] h = ground arith
  find?-insert_absent p x (z ∷ xs) h = ground (arith, find?-insert_absent p x xs)

  pub All-update {κ} :
      (P : A → Type κ) (q : A → Bool) (f : A → A) (xs : List A)
      → ((x : A) → q x ≡ true → P x → P (f x))
      → All P xs
      → All P (update q f xs)
  unfolding update
  All-update P q f [] h a = tt
  All-update P q f (x ∷ xs) h a =
      (if_intro P (q x) (λ e. h x e a.0) (λ e. a.0), All-update P q f xs h a.1)

  pub All-insert {κ} : (P : A → Type κ) (x : A) (xs : List A) → P x → All P xs → All P (insert x xs)
  unfolding insert
  All-insert P x [] h a = (h, tt)
  All-insert P x (y ∷ xs) h a = (a.0, All-insert P x xs h a.1)

  -- A deletion that spares the rows which the search looks for.
  pub find?-delete_other :
      (p q : A → Bool) (xs : List A)
      → ((x : A) → p x ≡ true → q x ≡ false)
      → find? p (delete q xs) ≡ find? p xs
  unfolding find? delete
  find?-delete_other p q [] h = refl
  find?-delete_other p q (x ∷ xs) h = ground (arith, h x, find?-delete_other p q xs h)

  -- A deletion leaves no row of its clause, and nothing new.
  pub All-delete {κ} :
      (P : A → Type κ) (q : A → Bool) (xs : List A)
      → ((x : A) → q x ≡ false → P x)
      → All P (delete q xs)
  unfolding delete
  All-delete P q [] h = tt
  All-delete P q (x ∷ xs) h =
      if_intro (All P) (q x) (λ _. All-delete P q xs h) (λ e. (h x e, All-delete P q xs h))

  pub find?-delete_absent :
      (p q : A → Bool) (xs : List A) → find? p xs ≡ none → find? p (delete q xs) ≡ none
  unfolding find? delete
  find?-delete_absent p q [] h = refl
  find?-delete_absent p q (x ∷ xs) h = ground (arith, find?-delete_absent p q xs)

  pub delete-insert_kept :
      (q : A → Bool) (x : A) (xs : List A)
      → q x ≡ false
      → delete q (insert x xs) ≡ insert x (delete q xs)
  unfolding delete insert
  delete-insert_kept q x [] h = ground arith
  delete-insert_kept q x (y ∷ xs) h = ground (arith, delete-insert_kept q x xs h)

  pub delete-insert_gone :
      (q : A → Bool) (x : A) (xs : List A) → q x ≡ true → delete q (insert x xs) ≡ delete q xs
  unfolding delete insert
  delete-insert_gone q x [] h = ground arith
  delete-insert_gone q x (y ∷ xs) h = ground (arith, delete-insert_gone q x xs h)

  -- An update that makes rows found where none was: the first of them is found.
  pub find?-update_moved :
      (p q : A → Bool) (f : A → A) (xs : List A)
      → count p xs ≡ 0
      → ((x : A) → q x ≡ true → p (f x) ≡ true)
      → find? p (update q f xs) ≡ Option.map f (find? q xs)
  unfolding find? update count
  find?-update_moved p q f [] h k = ground arith
  find?-update_moved p q f (x ∷ xs) h k = ground (arith, k x, find?-update_moved p q f xs)

  pub find?-of_count_zero : (p : A → Bool) (xs : List A) → count p xs ≡ 0 → find? p xs ≡ none
  unfolding find? count
  find?-of_count_zero p [] h = refl
  find?-of_count_zero p (x ∷ xs) h = ground (arith, find?-of_count_zero p xs)

  pub find?-delete_kept :
      (p q : A → Bool) (xs : List A) (r : A)
      → find? p xs ≡ some r
      → q r ≡ false
      → find? p (delete q xs) ≡ some r
  unfolding find? delete
  find?-delete_kept p q [] r h k = cc
  find?-delete_kept p q (x ∷ xs) r h k = ground (arith, find?-delete_kept p q xs r)

  pub update-insert :
      (q : A → Bool) (f : A → A) (x : A) (xs : List A)
      → update q f (insert x xs) ≡ insert (if q x then f x else x) (update q f xs)
  unfolding update insert
  update-insert q f x [] = refl
  update-insert q f x (y ∷ xs) = rw (update-insert q f x xs)

  -- An update that takes the first counted row out, and makes no row counted.
  pub count-update_lt :
      (p q : A → Bool) (f : A → A) (xs : List A) (r : A)
      → ((x : A) → q x ≡ true → p (f x) ≡ true → p x ≡ true)
      → find? p xs ≡ some r
      → q r ≡ true
      → p (f r) ≡ false
      → count p (update q f xs) < count p xs
  unfolding find? count update
  count-update_lt p q f [] r keep h covered out = cc
  count-update_lt p q f (x ∷ xs) r keep h covered out = elim (Bool-cases (p x)) [
    | inl e ↦ let same : x ≡ r = ground arith in ground (arith, same, count-update_le p q f xs keep)
    | inr e ↦ ground (arith, keep x, count-update_lt p q f xs r keep (ground arith) covered out)
  ]

  -- A row that the clause does not cover stays found.
  pub find?-update_kept :
      (p q : A → Bool) (f : A → A) (xs : List A) (r : A)
      → ((x : A) → q x ≡ true → p (f x) ≡ p x)
      → find? p xs ≡ some r
      → q r ≡ false
      → find? p (update q f xs) ≡ some r
  find?-update_kept p q f xs r keep h apart = ground (arith, find?-update p q f xs keep, h, apart)

  -- Where the first row that passes one test passes another, the two together find it.
  pub find?-and :
      (p q : A → Bool) (xs : List A) (r : A)
      → find? p xs ≡ some r
      → q r ≡ true
      → find? (λ x. p x && q x) xs ≡ some r
  unfolding find?
  find?-and p q [] r h e = cc
  find?-and p q (x ∷ xs) r h e = ground (arith, find?-and p q xs r)

  -- What one search finds, a search that finds nothing does not accept.
  pub find?-apart :
      (p q : A → Bool) (xs : List A) (r : A) → find? p xs ≡ some r → find? q xs ≡ none → q r ≡ false
  unfolding find?
  find?-apart p q [] r h k = cc
  find?-apart p q (x ∷ xs) r h k = ground (arith, find?-apart p q xs r)

  -- Where the clause covers what the search accepts, nothing is found after the deletion.
  pub find?-delete-none :
      (p q : A → Bool) (xs : List A)
      → ((x : A) → p x ≡ true → q x ≡ true)
      → find? p (delete q xs) ≡ none
  unfolding find? delete
  find?-delete-none p q [] h = refl
  find?-delete-none p q (x ∷ xs) h = ground (arith, h x, find?-delete-none p q xs h)
