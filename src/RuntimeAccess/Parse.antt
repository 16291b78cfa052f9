-- ===== src/RuntimeAccess/Parse.antt =====
-- `parse_access_config` of kiwi_catalog/services/runtime_access.py, over the JSON that a merchant
-- sends.
use Prim.Native.String
use kiwi_catalog.Prelude.{
  ℕ, String, Bool, true, false, ◌&&◌, Option, none, some, List, [], ◌∷◌, ◌=ₛ◌, one_of, leb, truthy,
  if◌then◌else◌, ℤ, pos, negsuc,
}
use kiwi_catalog.Result.{Error, Result, ok, err, ◌>>=◌, ◌>>◌, ensure}

mutual
  -- `other` is a value that none of the checks accepts: null, an array or a fraction.
  pub data Json : Type 0 where
    bool : Bool → Json
    int : ℤ → Json
    text : String → Json
    object : Fields → Json
    other : Json

  -- A Python dictionary: no two fields have one name.
  pub data Fields : Type 0 where
    no_fields : Fields
    field : String → Json → Fields → Fields

-- `value.get(name)`
unfoldable pub get : String → Fields → Option Json
get name Fields.no_fields = none
get name (Fields.field k v rest) = if k =ₛ name then some v else get name rest

abbrev has : Option Json → Bool
has none = false
has (some v) = true

-- every name of the value is one of `names`
unfoldable pub only : List String → Fields → Bool
only names Fields.no_fields = true
only names (Fields.field k v rest) = one_of names k && only names rest

unfoldable pub has_all : List String → Fields → Bool
has_all [] value = true
has_all (n ∷ ns) value = has (get n value) && has_all ns value

-- `set(value) == names`
abbrev pub has_names : List String → Fields → Bool
has_names names value = only names value && has_all names value

abbrev is_text : String → Option Json → Bool
is_text expected (some (Json.text s)) = s =ₛ expected
is_text expected (some (Json.bool b)) = false
is_text expected (some (Json.int n)) = false
is_text expected (some (Json.object fs)) = false
is_text expected (some Json.other) = false
is_text expected none = false

abbrev is_true : Option Json → Bool
is_true (some (Json.bool b)) = b
is_true (some (Json.text s)) = false
is_true (some (Json.int n)) = false
is_true (some (Json.object fs)) = false
is_true (some Json.other) = false
is_true none = false

abbrev as_version : Option Json → Result ℕ
as_version (some (Json.int (pos n))) = ok n
as_version (some (Json.int (negsuc n))) = err Error.validation
as_version (some (Json.bool b)) = err Error.validation
as_version (some (Json.text s)) = err Error.validation
as_version (some (Json.object fs)) = err Error.validation
as_version (some Json.other) = err Error.validation
as_version none = err Error.validation

abbrev as_text : Option Json → Result String
as_text (some (Json.text s)) = ok s
as_text (some (Json.bool b)) = err Error.validation
as_text (some (Json.int n)) = err Error.validation
as_text (some (Json.object fs)) = err Error.validation
as_text (some Json.other) = err Error.validation
as_text none = err Error.validation

abbrev as_object : Option Json → Result Fields
as_object (some (Json.object fs)) = ok fs
as_object (some (Json.text s)) = err Error.validation
as_object (some (Json.bool b)) = err Error.validation
as_object (some (Json.int n)) = err Error.validation
as_object (some Json.other) = err Error.validation
as_object none = err Error.validation

-- `_SHARE_FIELDS`, `_CONSENT_FIELDS`
abbrev pub share_fields : List String
share_fields =
    "provider" ∷ "access_mode" ∷ "parameter_name" ∷ "secret_value" ∷ "adapter_version" ∷ "auth_mode"
    ∷ "expected_version" ∷ "consent" ∷ []

abbrev pub consent_fields : List String
consent_fields = "terms_version" ∷ "granted" ∷ []

abbrev pub consent_terms_version : String
consent_terms_version = "workbuddy-share-v1-2026-10-27"

-- `SECRET_MAX_LENGTH`
abbrev pub secret_max_length : ℕ
secret_max_length = 4096

-- What a valid value asks for; the remaining fields of a share are the constants of the service.
pub data AccessConfig : Type 0 where
  revocation : ℕ → AccessConfig
  share : ℕ → String → AccessConfig

abbrev has_constants : Fields → Bool
has_constants value =
    is_text "workbuddy" (get "provider" value)
    && is_text "share_parameter" (get "access_mode" value)
    && is_text "sharecode" (get "parameter_name" value)
    && is_text "workbuddy-share-v1" (get "adapter_version" value)
    && is_text "signature" (get "auth_mode" value)

unfoldable pub parse_share : ℕ → Fields → Result AccessConfig
parse_share expected value = do
  ensure (has_names share_fields value) Error.validation
  ensure (has_constants value) Error.validation
  secret ← as_text (get "secret_value" value)
  ensure (truthy secret && leb (String.count secret) secret_max_length) Error.validation
  consent ← as_object (get "consent" value)
  ensure (has_names consent_fields consent) Error.validation
  ensure (is_true (get "granted" consent)) Error.validation
  ensure (is_text consent_terms_version (get "terms_version" consent)) Error.validation
  ok (AccessConfig.share expected secret)

unfoldable pub parse_access_config : Json → Result AccessConfig
parse_access_config json = do
  value ← as_object (some json)
  expected ← as_version (get "expected_version" value)
  if is_text "none" (get "access_mode" value)
      then (do
        ensure (has_names ("access_mode" ∷ "expected_version" ∷ []) value) Error.validation
        ok (AccessConfig.revocation expected))
      else parse_share expected value
