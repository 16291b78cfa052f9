-- ===== src/RuntimeAccess/Store.antt =====
-- The rows of kiwi_catalog/services/runtime_access.py (kiwi_catalog/db/models.py), and what the
-- service is given from outside: the time, its settings, and the encryption of the cryptography
-- package, which gives nothing where its keys are not configured or do not fit.
use kiwi_catalog.Prelude.{ℕ, String, Option, List}

pub record Config : Type 0 where
  pub catalog_agent_id : String
  pub config_version : ℕ
  pub provider : String
  pub access_mode : String
  pub parameter_name : String
  pub secret_ciphertext : String
  pub key_id : String
  pub adapter_version : String
  pub auth_mode : String
  pub status : String
  pub revoked_reason : String
  pub validated_at : Option ℕ
  pub created_at : ℕ
  pub updated_at : ℕ

-- `revoked_at` is none where the column is the empty text
pub record Consent : Type 0 where
  pub catalog_agent_id : String
  pub merchant_id : String
  pub scope : String
  pub terms_version : String
  pub granted_at : ℕ
  pub revoked_at : Option ℕ

pub record Fault : Type 0 where
  pub catalog_agent_id : String
  pub buyer_key : String
  pub code : String
  pub occurred_at : ℕ

-- the columns of `catalog_agents` that are read
pub record Agent : Type 0 where
  pub catalog_agent_id : String
  pub merchant_id : String

pub record Access : Type 0 where
  pub configs : List Config
  pub consents : List Consent
  pub faults : List Fault
  pub agents : List Agent

-- A ciphertext, and the id of the key that made it.
pub record Sealed : Type 0 where
  pub ciphertext : String
  pub key_id : String

-- `custody` is the text of the setting, stripped and in lower case.
pub record Env : Type 0 where
  pub now : ℕ
  pub custody : String
  pub encrypt : String → Option Sealed
  pub decrypt : String → String → Option String
