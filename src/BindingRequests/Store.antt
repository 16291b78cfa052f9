-- ===== src/BindingRequests/Store.antt =====
-- The rows that kiwi_catalog/services/binding_requests.py reads and writes
-- (kiwi_catalog/db/models.py), and what the service is given from outside.
use kiwi_catalog.Prelude.{ℕ, String, Option, List}
use kiwi_catalog.AgentCatalog.Store.{Agent, Verification}
use kiwi_catalog.RequestNonces.{Nonce, Stamp}
use kiwi_catalog.RuntimeAccess.Store.{Config, Consent, Fault, Sealed}

-- `runtime_bindings`; `expires_at` is none where the column is the empty text
pub record Binding : Type 0 where
  pub binding_id : String
  pub catalog_agent_id : String
  pub merchant_id : String
  pub runtime_origin : String
  pub a2a_endpoint : String
  pub key_id : String
  pub key_thumbprint : String
  pub key_jwk_json : String
  pub binding_version : ℕ
  pub service_epoch : ℕ
  pub status : String
  pub expires_at : Option ℕ
  pub created_at : ℕ
  pub updated_at : ℕ

-- `runtime_binding_requests`
pub record Request : Type 0 where
  pub binding_request_id : String
  pub catalog_agent_id : String
  pub merchant_id : String
  pub runtime_origin : String
  pub a2a_endpoint : String
  pub key_id : String
  pub key_thumbprint : String
  pub key_jwk_json : String
  pub generation : ℕ
  pub service_epoch : ℕ
  pub nonce : String
  pub status : String
  pub requested_at : ℕ
  pub expires_at : ℕ
  pub decided_at : Option ℕ
  pub decided_note : String
  pub access_config_version : ℕ

-- `agent_endpoints`
pub record Endpoint : Type 0 where
  pub endpoint_id : ℕ
  pub catalog_agent_id : String
  pub kind : String
  pub url : String
  pub protocol : String
  pub protocol_version : String
  pub preference : ℕ
  pub status : String
  pub last_checked_at : ℕ

-- the columns of `card_publications` that are read
pub record Publication : Type 0 where
  pub catalog_agent_id : String
  pub publication_state : String

-- `audit_events`, with the agent of its details
pub record Entry : Type 0 where
  pub catalog_agent_id : String
  pub actor : String
  pub event : String
  pub created_at : ℕ

pub record Db : Type 0 where
  pub agents : List Agent
  pub bindings : List Binding
  pub requests : List Request
  pub nonces : List Nonce
  pub endpoints : List Endpoint
  pub publications : List Publication
  pub verifications : List Verification
  pub configs : List Config
  pub consents : List Consent
  pub faults : List Fault
  pub audits : List Entry

-- `ttl` and `max` are the numbers of the two settings, where they are numbers; `hostname` is the
-- host that urllib finds in a url, in lower case; `base_url` that of `hosted_base_url`, with no
-- slash at its end; `request_id` is drawn, and `calls` counts the calls that consume a nonce.
pub record Env : Type 0 where
  pub now : ℕ
  pub ttl : Option ℕ
  pub max : Option ℕ
  pub issuer_kid : String
  pub base_url : String
  pub request_id : String
  pub calls : ℕ
  pub hostname : String → Option String
  pub custody : String
  pub encrypt : String → Option Sealed
  pub decrypt : String → String → Option String

-- What the handler of a first binding passes on: the binding of the request, the key, the payload
-- that was signed, and the agent's row.
pub record Proposal : Type 0 where
  pub agent : Agent
  pub key_id : String
  pub runtime_origin : String
  pub a2a_endpoint : String
  pub generation : ℕ
  pub service_epoch : ℕ
  pub key_jwk_json : String
  pub thumbprint : String
  pub nonce : Option String
  pub issued_at : Option Stamp
  pub access_config_version : ℕ
