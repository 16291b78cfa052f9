-- ===== src/Prelude/Table/Keyed.antt =====
-- Tables with a text for a key that no two rows share.
use Prim.Native.Nat.{◌≤◌}
use Prim.Native.String.{String}
use mathlib.Core.Path.{◌≡◌, refl, ◌∙◌, subst}
use mathlib.Core.Logic.{inl, inr}
use mathlib.Core.Bool.{Bool, true, false}
use mathlib.Core.List.{List, [], ◌∷◌}
use mathlib.Core.Option.{some}
use native.Mathlib.Omega.{arith}
use text.Mathlib.TextEquality.{eq_iff}
use kiwi_catalog.Prelude.Tests.{if◌then◌else◌, ◌=ₛ◌, Bool-cases, if_intro}
use kiwi_catalog.Prelude.Lists.{All, All-map}
use kiwi_catalog.Prelude.Table.{find?, update, insert, count}
use kiwi_catalog.Prelude.Table.Laws.{count-insert, count-update_eq, find?-All}

module _ {ℓ} {A : Type ℓ} (key : A → String) where
  abbrev pub is_key : String → A → Bool
  is_key k x = key x =ₛ k

  -- The key column is unique.
  abbrev pub Distinct : List A → Type 0
  Distinct [] = Unit
  Distinct (x ∷ xs) = (count (λ y. key y =ₛ key x) xs ≡ 0) × Distinct xs

  -- Where no row counts, none is found, and none passes the test.
  pub count_zero-All : (p : A → Bool) (xs : List A) → count p xs ≡ 0 → All (λ x. p x ≡ false) xs
  unfolding count
  count_zero-All p [] h = tt
  count_zero-All p (x ∷ xs) h = (ground arith, count_zero-All p xs (ground arith))

  pub Distinct-count_le : (k : String) (xs : List A) → Distinct xs → count (is_key k) xs ≤ 1
  unfolding count
  Distinct-count_le k [] h = omega arith
  Distinct-count_le k (x ∷ xs) h = elim (Bool-cases (key x =ₛ k)) [
    | inl e ↦
        let same : key x ≡ k = (eq_iff (key x) k).0 e in
        let none_left : count (is_key k) xs ≡ 0 = rw (← same) h.0 in rw e (omega arith)
    | inr e ↦ rw e (Distinct-count_le k xs h.1)
  ]

  pub Distinct-insert :
      (x : A) (xs : List A) → count (is_key (key x)) xs ≡ 0 → Distinct xs → Distinct (insert x xs)
  unfolding insert count
  Distinct-insert x [] h d = (refl, tt)
  Distinct-insert x (y ∷ xs) h d = (
    ground
        (arith, count-insert (is_key (key y)) x xs, eq_iff (key x) (key y), eq_iff (key y) (key x)),
    Distinct-insert x xs (ground arith) d.1,
  )

  pub Distinct-update :
      (q : A → Bool) (f : A → A) (xs : List A)
      → ((x : A) → key (f x) ≡ key x)
      → Distinct xs
      → Distinct (update q f xs)
  unfolding update
  Distinct-update q f [] keep d = tt
  Distinct-update q f (x ∷ xs) keep d =
      let kept : key (if q x then f x else x) ≡ key x =
        if_intro (λ z. key z ≡ key x) (q x) (λ _. keep x) (λ _. refl) in
      (
        rw kept (count-update_eq (is_key (key x)) q f xs (λ y _. rw (keep y)) ∙ d.0),
        Distinct-update q f xs keep d.1,
      )

  -- A row found further down has another key than the head.
  other_key :
      (p : A → Bool) (x r : A) (xs : List A)
      → Distinct (x ∷ xs)
      → find? p xs ≡ some r
      → is_key (key r) x ≡ false
  other_key p x r xs d h =
      let apart : (key r =ₛ key x) ≡ false =
        find?-All (λ y. (key y =ₛ key x) ≡ false) p xs r (count_zero-All _ xs d.0) h in
      ground (arith, eq_iff (key r) (key x), eq_iff (key x) (key r))

  -- A row that any search finds is the only one with its key.
  pub find?-only :
      (p : A → Bool) (xs : List A) (r : A)
      → Distinct xs
      → find? p xs ≡ some r
      → All (λ x. is_key (key r) x ≡ true → x ≡ r) xs
  unfolding find?
  find?-only p [] r d h = tt
  find?-only p (x ∷ xs) r d h = elim (Bool-cases (p x)) [
    | inl e ↦
        let same : x ≡ r = ground arith in
        (
          λ _. same,
          subst (λ z. All (λ y. is_key (key z) y ≡ true → y ≡ z) xs) same
              (All-map (λ y apart k. cc (apart, k)) xs (count_zero-All (is_key (key x)) xs d.0)),
        )
    | inr e ↦
        let below : find? p xs ≡ some r = ground arith in
        let apart : is_key (key r) x ≡ false = other_key p x r xs d below in
        (λ k. cc, find?-only p xs r d.1 below)
  ]

  -- So the search by its key finds it again.
  pub find?-by_key :
      (p : A → Bool) (xs : List A) (r : A)
      → Distinct xs
      → find? p xs ≡ some r
      → find? (is_key (key r)) xs ≡ some r
  unfolding find?
  find?-by_key p [] r d h = cc
  find?-by_key p (x ∷ xs) r d h = elim (Bool-cases (p x)) [
    | inl e ↦ let same : x ≡ r = ground arith in ground (arith, eq_iff (key x) (key r))
    | inr e ↦
        let below : find? p xs ≡ some r = ground arith in
        ground (arith, other_key p x r xs d below, find?-by_key p xs r d.1 below)
  ]
