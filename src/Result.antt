-- ===== src/Result.antt =====
-- core/errors.py: the expected failures, and a pure function that may raise one. The texts of the
-- messages are not modelled.
use kiwi_catalog.Prelude.{◌≡◌, refl, Bool, true, false, if◌then◌else◌}

pub data Error : Type 0 where
  shopping_cli validation not_found conflict permission_denied auth idempotency_conflict gone
        rate_limit payload_too_large method_not_allowed invalid_state_transition integrity assertion
        value_error type_error runtime :
      Error

-- `except ConflictError` catches the subclass too.
abbrev pub is_conflict : Error → Bool
is_conflict Error.conflict = true
is_conflict Error.idempotency_conflict = true
is_conflict _ = false

abbrev pub is_not_found : Error → Bool
is_not_found Error.not_found = true
is_not_found _ = false

-- What a pure function gives: its value, or what it raised.
pub data Result {ℓ} (V : Type ℓ) : Type ℓ where
  err : Error → Result V
  ok : V → Result V

module _ {ℓ ℓ'} {V : Type ℓ} {W : Type ℓ'} where
  infixl 5 ◌>>=◌
  abbrev pub ◌>>=◌ : Result V → (V → Result W) → Result W
  ◌>>=◌ (err raised) next = err raised
  ◌>>=◌ (ok value) next = next value

  -- A step that let its caller go on: its value, and what the rest gave with it.
  pub passed_step :
      (step : Result V) (next : V → Result W) {w : W}
      → (step >>= next) ≡ ok w
      → (value : V) × (step ≡ ok value) × (next value ≡ ok w)
  passed_step (err raised) next eq = cc
  passed_step (ok value) next eq = (value, refl, eq)

module _ {ℓ} {W : Type ℓ} where
  infixl 5 ◌>>◌
  abbrev pub ◌>>◌ : Result (Unit {0}) → Result W → Result W
  ◌>>◌ (err raised) rest = err raised
  ◌>>◌ (ok _) rest = rest

-- `if not condition: raise error`
abbrev pub ensure : Bool → Error → Result (Unit {0})
ensure condition error = if condition then ok tt else err error
