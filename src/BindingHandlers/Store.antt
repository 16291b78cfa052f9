-- ===== src/BindingHandlers/Store.antt =====
-- The state of kiwi_catalog/api/handlers/cloud_binding.py, and what its handlers are given.
use kiwi_catalog.Prelude.{ℕ, String, Bool, Option, List}
use kiwi_catalog.Result.{Result}
use kiwi_catalog.RequestNonces.{Signed, Stamp}
use kiwi_catalog.RuntimeAccess.Parse.{Json}
use kiwi_catalog.BindingRequests.Store.{Db as Core, Env as CoreEnv}
use kiwi_catalog.Enrollments.Store.{Enrollment, Proof, Jwk}

pub record Db : Type 0 where
  pub core : Core
  pub enrollments : List Enrollment

-- `hash` is SHA-256
pub record Env : Type 0 where
  pub core : CoreEnv
  pub hash : String → String

-- The binding of a payload once `_binding_required` has passed; `binding_id` is empty where it is
-- missing, and `management_valid` says whether its management paths are well formed.
pub record Offer : Type 0 where
  pub binding_id : String
  pub runtime_origin : String
  pub a2a_endpoint : String
  pub key_id : String
  pub key_thumbprint : String
  pub key_jwk_json : String
  pub generation : ℕ
  pub service_epoch : ℕ
  pub expires_at : Option ℕ
  pub management_valid : Bool

-- The payload of a possession proof.
pub record Possession : Type 0 where
  pub nonce : Option String
  pub issued_at : Option Stamp

-- Whether a request carries the administrator's token, and what the verification of its signature
-- gives: against the offered key, and against the key of the agent's active binding.
pub record Auth : Type 0 where
  pub is_admin : Bool
  pub possession : Result Possession
  pub runtime : Result Signed

-- A binding that is asked for with the grant of an enrollment.
pub record Bid : Type 0 where
  pub agent_id : String
  pub enrollment_id : String
  pub grant : String
  pub offer : Offer
  pub jwk : Jwk
  pub possession : Result Proof
  pub access : Option Json

-- What the network challenge of a runtime gives: its proof, and when the challenge expires.
pub record Answer : Type 0 where
  pub proof : Result Proof
  pub expires_at : ℕ
