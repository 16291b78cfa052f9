-- ===== src/Enrollments/Devices.antt =====
-- kiwi_catalog/services/enrollments.py: the device asks for its enrollment, with the checks of its
-- key and of its signature.
use Prim.Native.String.{◌++◌}
use kiwi_catalog.Prelude.{
  ℕ, ◌+◌, String, Bool, true, not, ◌&&◌, ◌||◌, Option, none, some, List, [], ◌∷◌, ◌==◌, ◌=ₛ◌, ltb,
  leb, one_of, is_some, truthy, if◌then◌else◌, strip, without_slashes,
}
use kiwi_catalog.Prelude.Table.{find?, insert}
use kiwi_catalog.Result.{Error, Result, ok, err}
use kiwi_catalog.Action.{Action, Outcome, ◌>>=◌, ◌>>◌, pure, raise_if, from_option, zoom}
use kiwi_catalog.RequestNonces.{consume_request_nonce}
use kiwi_catalog.Enrollments.Store.{Enrollment, Db, Env, Proof, Jwk, DeviceBody}

abbrev pub enrollment_scopes : List String
enrollment_scopes = "runtime:bind" ∷ "card:publish" ∷ "heartbeat" ∷ []

abbrev pub required_mode_values : List String
required_mode_values = "required" ∷ "enforce" ∷ "strict" ∷ "1" ∷ "true" ∷ "yes" ∷ "on" ∷ []

unfoldable pub pairing_required : Env → Bool
pairing_required e = one_of required_mode_values e.pairing_mode

abbrev pub all_in : List String → List String → Bool
all_in [] ys = true
all_in (x ∷ xs) ys = one_of ys x && all_in xs ys

abbrev pub same_names : List String → List String → Bool
same_names xs ys = all_in xs ys && all_in ys xs

abbrev pub allowed_members : String → Option (List String)
allowed_members kty =
    if kty =ₛ "OKP"
    then some ("kty" ∷ "crv" ∷ "x" ∷ [])
    else if kty =ₛ "EC"
    then some ("kty" ∷ "crv" ∷ "x" ∷ "y" ∷ [])
    else none

unfoldable pub validate_public_jwk : {S : Type 0} → Jwk → Action S String
validate_public_jwk jwk = do
  allowed ← from_option Error.validation (allowed_members jwk.kty)
  raise_if (not (same_names jwk.members allowed)) Error.validation
  pure jwk.thumbprint

-- `expiry <= now or expiry > now + two minutes`
unfoldable pub check_exp : {S : Type 0} → ℕ → Proof → Action S Unit
check_exp now p = do
  exp ← from_option Error.validation p.exp
  raise_if (leb exp now || ltb (now + 120) exp) Error.validation

abbrev pub verified : {S : Type 0} → Result Proof → Action S Proof
verified (err e) db = Outcome.raised e db
verified (ok p) db = Outcome.done p db

abbrev pub consume_nonce : Env → String → Proof → Action Db Unit
consume_nonce e key_id p =
    zoom (λ (db : Db). db.nonces) (λ db rows. record db { nonces = rows })
      (consume_request_nonce e.now e.calls
        (record { key_id = key_id; nonce = p.nonce; issued_at = p.issued_at }))

-- A text field that is missing or blank.
abbrev pub required_text : Option String → Action Db String
required_text field = do
  text ← from_option Error.validation field
  raise_if (not (truthy (strip text))) Error.validation
  pure text

abbrev pub required_number : Option ℕ → Action Db ℕ
required_number field = do
  n ← from_option Error.validation field
  raise_if (n == 0) Error.validation
  pure n

abbrev pub has_id : String → Enrollment → Bool
has_id id r = r.enrollment_id =ₛ id

-- The primary key and the unique index of the user codes.
abbrev pub insert_enrollment : Enrollment → Action Db Unit
insert_enrollment r db =
    if is_some
      (find? (λ x. x.enrollment_id =ₛ r.enrollment_id || x.user_code =ₛ r.user_code) db.enrollments)
    then Outcome.raised Error.integrity db
    else Outcome.done tt (record db { enrollments = insert r db.enrollments })

unfoldable pub create_device : Env → DeviceBody → Action Db Enrollment
create_device e body = do
  jwk ← from_option Error.validation body.key_jwk
  thumb ← validate_public_jwk jwk
  key_id ← required_text body.key_id
  runtime_origin ← required_text body.runtime_origin
  a2a_endpoint ← required_text body.a2a_endpoint
  generation ← required_number body.generation
  service_epoch ← required_number body.service_epoch
  preview ← from_option Error.validation body.preview
  raise_if preview.leaks Error.validation
  raise_if (not preview.parses) Error.validation
  raise_if (not body.safe_targets) Error.validation
  raise_if (not (without_slashes a2a_endpoint =ₛ (without_slashes runtime_origin ++ "/a2a")))
      Error.validation
  raise_if (not (one_of preview.interfaces a2a_endpoint)) Error.validation
  signed ← verified body.possession
  raise_if (not (signed.body_digest =ₛ body.digest)) Error.validation
  check_exp e.now signed
  consume_nonce e key_id signed
  let row : Enrollment = record {
    enrollment_id = e.enrollment_id;
    device_code_hash = e.hash e.device_code;
    user_code = e.user_code;
    status = "ready_for_authorization";
    key_id = key_id;
    key_thumbprint = thumb;
    key_jwk_json = jwk.text;
    runtime_origin = runtime_origin;
    a2a_endpoint = a2a_endpoint;
    generation = generation;
    service_epoch = service_epoch;
    public_preview_json = preview.text;
    public_profile_revision = body.public_profile_revision;
    approved_card_digest = "";
    merchant_id = "";
    catalog_agent_id = "";
    grant_hash = "";
    scopes = [];
    expected_binding_version = 1;
    authorization_epoch = 1;
    created_at = e.now;
    expires_at = e.now + 600;
    grant_expires_at = none;
    authorized_at = none;
    binding_id = "";
    consumed_at = none;
  }
  insert_enrollment row
  pure row
