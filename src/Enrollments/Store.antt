-- ===== src/Enrollments/Store.antt =====
-- The rows of `enrollments` (kiwi_catalog/db/migrations.py), and what
-- kiwi_catalog/services/enrollments.py is given from outside.
use kiwi_catalog.Prelude.{ℕ, String, Bool, Option, List}
use kiwi_catalog.Result.{Result}
use kiwi_catalog.AgentCatalog.Store.{Agent}
use kiwi_catalog.BindingRequests.Store.{Binding, Entry}
use kiwi_catalog.RequestNonces.{Nonce, Stamp}

pub record Enrollment : Type 0 where
  pub enrollment_id : String
  pub device_code_hash : String
  pub user_code : String
  pub status : String
  pub key_id : String
  pub key_thumbprint : String
  pub key_jwk_json : String
  pub runtime_origin : String
  pub a2a_endpoint : String
  pub generation : ℕ
  pub service_epoch : ℕ
  pub public_preview_json : String
  pub public_profile_revision : String
  pub approved_card_digest : String
  pub merchant_id : String
  pub catalog_agent_id : String
  pub grant_hash : String
  pub scopes : List String
  pub expected_binding_version : ℕ
  pub authorization_epoch : ℕ
  pub created_at : ℕ
  pub expires_at : ℕ
  pub grant_expires_at : Option ℕ
  pub authorized_at : Option ℕ
  pub binding_id : String
  pub consumed_at : Option ℕ

pub record Db : Type 0 where
  pub enrollments : List Enrollment
  pub agents : List Agent
  pub bindings : List Binding
  pub nonces : List Nonce
  pub audits : List Entry

-- `pairing_mode` is the text of the setting, stripped and in lower case; `hash` is SHA-256,
-- `stable_grant` the keyed hash under the server's secret, `card_digest` the digest of a preview's
-- canonical form; the last three are drawn.
pub record Env : Type 0 where
  pub now : ℕ
  pub calls : ℕ
  pub pairing_mode : String
  pub hash : String → String
  pub stable_grant : String → String → String
  pub card_digest : String → String
  pub enrollment_id : String
  pub device_code : String
  pub user_code : String

-- The payload of a possession proof that `verify_binding_possession` let through; `exp` is none
-- where it has no time zone or is malformed.
pub record Proof : Type 0 where
  pub nonce : String
  pub issued_at : Option Stamp
  pub exp : Option ℕ
  pub body_digest : String

-- A key as the program reads it: its kind, the names of its members, its text and its thumbprint.
pub record Jwk : Type 0 where
  pub kty : String
  pub members : List String
  pub text : String
  pub thumbprint : String

-- A preview: its text, whether the scan finds private data in it, whether the parser of agent cards
-- takes it, and the urls of its interfaces.
pub record Preview : Type 0 where
  pub text : String
  pub leaks : Bool
  pub parses : Bool
  pub interfaces : List String

-- The body of `create_device`. A field is none where it is missing or of another type; a number
-- below one is 0. `safe_targets` is the verdict of the endpoint policy, `digest` the digest of the
-- body, and `possession` what `verify_binding_possession` gives for the signature.
pub record DeviceBody : Type 0 where
  pub key_jwk : Option Jwk
  pub key_id : Option String
  pub runtime_origin : Option String
  pub a2a_endpoint : Option String
  pub generation : Option ℕ
  pub service_epoch : Option ℕ
  pub preview : Option Preview
  pub public_profile_revision : String
  pub safe_targets : Bool
  pub digest : String
  pub possession : Result Proof
