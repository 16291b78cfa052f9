-- ===== src/AgentCatalog/Store.antt =====
-- The rows of `catalog_agents` and `agent_verifications` (kiwi_catalog/db/models.py): the columns
-- that are read or written here. Empty times are none.
use kiwi_catalog.Prelude.{ℕ, String, Option, List}
use kiwi_catalog.Degradation.{Expiry}

pub record Agent : Type 0 where
  pub catalog_agent_id : String
  pub merchant_id : String
  pub display_name : String
  pub canonical_domain : String
  pub verification_status : String
  pub verification_level : String
  pub freshness_state : String
  pub administrative_state : String
  pub handoff_destination_types : List String
  pub last_refresh_attempt_at : Option ℕ
  pub last_refresh_result : String
  pub last_seen_at : Option ℕ
  pub last_verified_at : Option ℕ
  pub updated_at : ℕ

-- `evidence_json` as the items of its object
pub record Verification : Type 0 where
  pub verification_id : ℕ
  pub catalog_agent_id : String
  pub verification_type : String
  pub result : String
  pub evidence : List (String × String)
  pub checked_at : ℕ
  pub expires_at : Expiry

-- The keyword arguments of `set_state_domains`.
pub record StateChange : Type 0 where
  pub verification_level : Option String
  pub freshness_state : Option String
  pub administrative_state : Option String
  pub handoff_destination_types : Option (List String)
  pub last_verified_at : Option ℕ
  pub last_refresh_attempt_at : Option ℕ
  pub last_refresh_result : Option String
