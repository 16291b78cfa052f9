-- ===== src/Listings/Store.antt =====
-- The rows that the listing domain reads and writes, in the column order of
-- kiwi_catalog/db/models.py and of `insert_listing` in kiwi_catalog/listings/sqlite_repository.py.
-- A time is the number of seconds that its ISO text stands for, and a JSON column is its text.
use kiwi_catalog.Prelude.{ℕ, String, Option, List}

-- The content columns of `commerce_listings`: all that `_compute_listing_digest` covers, but the
-- keys and the owner.
pub record Content : Type 0 where
  pub source_revision : String
  pub title : String
  pub summary : String
  pub category : String
  pub brand : String
  pub attributes_json : String
  pub regions_json : String
  pub tags_json : String
  pub commercial_hints_json : String
  pub handoff_destination_types_json : String
  pub handoff_destination_ref : String

pub record Listing : Type 0 where
  pub id : ℕ
  pub listing_id : String
  pub listing_type : String
  pub owner_agent_id : String
  pub merchant_id : String
  pub source_product_ref : Option String
  pub publisher_listing_key : Option String
  pub content : Content
  pub listing_digest : String
  pub publication_state : String
  pub governance_hold : ℕ
  pub listing_freshness_state : String
  pub published_at : ℕ
  pub updated_at : ℕ
  pub fresh_until : ℕ
  pub created_at : ℕ

-- The columns of `catalog_agents` that the listing domain reads; `administrative_state` is empty
-- where the column is null.
pub record Agent : Type 0 where
  pub catalog_agent_id : String
  pub merchant_id : String
  pub administrative_state : String

pub record Account : Type 0 where
  pub account_id : ℕ
  pub merchant_id : String
  pub status : String
  pub email_verified : ℕ

pub record Plan : Type 0 where
  pub plan_code : String
  pub active_limit : ℕ
  pub updated_at : ℕ

pub record Entitlement : Type 0 where
  pub merchant_id : String
  pub plan_code : String
  pub status : String
  pub limit_override : Option ℕ
  pub updated_at : ℕ

-- `listing_entitlement_audit`, without the JSON of its detail column
pub record Audit : Type 0 where
  pub merchant_id : String
  pub actor : String
  pub action : String
  pub created_at : ℕ

pub record Db : Type 0 where
  pub listings : List Listing
  pub next_id : ℕ
  pub agents : List Agent
  pub accounts : List Account
  pub merchants : List String
  pub plans : List Plan
  pub entitlements : List Entitlement
  pub audits : List Audit

-- What `validate_publish_payload` returns: the keys that may be absent are options.
pub record Canonical : Type 0 where
  pub listing_type : String
  pub owner_agent_id : String
  pub merchant_id : String
  pub source_product_ref : Option String
  pub publisher_listing_key : Option String
  pub source_revision : Option String
  pub title : String
  pub summary : Option String
  pub category : String
  pub brand : Option String
  pub attributes : Option String
  pub regions : Option String
  pub tags : Option String
  pub commercial_hints : Option String
  pub handoff_destination_types : Option String
  pub handoff_destination_ref : Option String
  pub fresh_until : Option ℕ
