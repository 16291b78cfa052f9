-- ===== src/Action.antt =====
-- Functions that write to a database connection and may raise. What was written before a raise
-- stays written for whoever catches it, so the state comes back beside the error too;
-- `db_session` (db/session.py) commits at a normal end and drops everything at an exception.
use kiwi_catalog.Prelude.{◌≡◌, refl, ◌⊎◌, inl, inr, Bool, true, false, Option, none, some, arith}
use kiwi_catalog.Result.{Error, Result, ok, err}

pub data Outcome {ℓ} (S A : Type ℓ) : Type ℓ where
  done : A → S → Outcome S A
  raised : Error → S → Outcome S A

abbrev pub Action {ℓ} : Type ℓ → Type ℓ → Type ℓ
Action S A = S → Outcome S A

module _ {ℓ} {S A B : Type ℓ} where
  abbrev pub then_do : Outcome S A → (A → Action S B) → Outcome S B
  then_do (done a s) f = f a s
  then_do (raised e s) f = raised e s

module _ {ℓ} {S A B : Type ℓ} where
  infixl 5 ◌>>=◌ ◌>>◌
  abbrev pub ◌>>=◌ : Action S A → (A → Action S B) → Action S B
  ◌>>=◌ m f s = then_do (m s) f

  abbrev pub ◌>>◌ : Action S A → Action S B → Action S B
  ◌>>◌ m k s = then_do (m s) (λ _. k)

module _ {ℓ} {S A : Type ℓ} where
  abbrev pub pure : A → Action S A
  pure a s = done a s

  abbrev pub raise : Error → Action S A
  raise e s = raised e s

  -- what `select` reads
  abbrev pub gets : (S → A) → Action S A
  gets f s = done (f s) s

  abbrev pub state_of : Outcome S A → S
  state_of (done a s) = s
  state_of (raised e s) = s

  abbrev pub result_of : Outcome S A → Result A
  result_of (done a s) = ok a
  result_of (raised e s) = err e

  abbrev pub from_option : Error → Option A → Action S A
  from_option e none s = raised e s
  from_option e (some a) s = done a s

  abbrev pub from_result : Result A → Action S A
  from_result (err e) s = raised e s
  from_result (ok a) s = done a s

  abbrev pub end_session : S → Outcome S A → S
  end_session s (done a t) = t
  end_session s (raised e t) = s

  -- The state that the database is left in by `with db_session(path) as conn: m`.
  unfoldable pub db_session : Action S A → S → S
  db_session m s = end_session s (m s)

abbrev pub modify {ℓ} : {S : Type ℓ} → (S → S) → Action S Unit
modify f s = done tt (f s)

-- `if b: raise e`
abbrev pub raise_if {ℓ} : {S : Type ℓ} → Bool → Error → Action S Unit
raise_if true e s = raised e s
raise_if false e s = done tt s

-- An action on a part of the state.
module _ {ℓ} {S P A : Type ℓ} where
  abbrev replaced : (P → S) → Outcome P A → Outcome S A
  replaced put (done a p) = done a (put p)
  replaced put (raised e p) = raised e (put p)

  abbrev pub zoom : (S → P) → (S → P → S) → Action P A → Action S A
  zoom part put m s = replaced (put s) (m (part s))

-- `try: m except E: return`, where `caught` tells the errors that E catches.
module _ {ℓ} {S A : Type ℓ} where
  abbrev recovered : (Error → Bool) → Outcome S A → Outcome S Unit
  recovered caught (done a s) = done tt s
  recovered caught (raised e s) = elim (caught e) [ true ↦ done tt s | false ↦ raised e s ]

  abbrev pub ignoring : (Error → Bool) → Action S A → Action S Unit
  ignoring caught m s = recovered caught (m s)

-- A block that ended normally has passed each of its steps.
pub then_do-eq-done {ℓ} :
    {S A B : Type ℓ} (m : Outcome S A) (f : A → Action S B) {b : B} {t : S}
    → then_do m f ≡ done b t
    → (a : A) × (s : S) × (m ≡ done a s) × (f a s ≡ done b t)
then_do-eq-done (done a s) f h = (a, s, refl, h)
then_do-eq-done (raised e s) f h = cc

-- A block that ended normally has passed the check it starts with.
pub raise_if-done {ℓ} :
    {S A : Type ℓ} (b : Bool) (e : Error) (s : S) (f : Unit → Action S A) {x : A} {t : S}
    → then_do (raise_if b e s) f ≡ done x t
    → (b ≡ false) × (f tt s ≡ done x t)
raise_if-done true e s f h = cc
raise_if-done false e s f h = (refl, h)

pub from_option-done {ℓ} :
    {S A : Type ℓ} (e : Error) (o : Option A) (s : S) (a : A) (t : S)
    → from_option e o s ≡ done a t
    → (o ≡ some a) × (t ≡ s)
from_option-done e none s a t h = cc
from_option-done e (some b) s a t h = (ground arith, ground arith)

pub from_result-kept {ℓ} :
    {S A : Type ℓ} (r : Result A) (s : S) (a : A) (t : S) → from_result r s ≡ done a t → t ≡ s
from_result-kept (err e) s a t h = cc
from_result-kept (ok b) s a t h = ground arith

pub Outcome-cases {ℓ} :
    {S A : Type ℓ} (m : Outcome S A)
    → ((a : A) × (s : S) × (m ≡ done a s)) ⊎ ((e : Error) × (s : S) × (m ≡ raised e s))
Outcome-cases (done a s) = inl (a, s, refl)
Outcome-cases (raised e s) = inr (e, s, refl)

-- A check: it writes nothing, whether it passes or raises.
abbrev pub Checks {ℓ} : {S : Type ℓ} → Action S Unit → S → Type ℓ
Checks m s = (m s ≡ done tt s) ⊎ ((e : Error) × (m s ≡ raised e s))
