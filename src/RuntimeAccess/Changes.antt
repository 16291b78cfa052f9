-- ===== src/RuntimeAccess/Changes.antt =====
-- The writes of kiwi_catalog/services/runtime_access.py: consent, and the life of a version from
-- `pending` to `active`, `invalid` or `revoked`.
use kiwi_catalog.Prelude.{
  ℕ, ◌+◌, String, Bool, not, ◌&&◌, Option, none, some, ◌==◌, ◌=ₛ◌, is_some, truthy, if◌then◌else◌,
  strip,
}
use kiwi_catalog.Prelude.Table.{find?, update, insert, count}
use kiwi_catalog.Result.{Error, ok, err}
use kiwi_catalog.Action.{Action, Outcome, ◌>>=◌, ◌>>◌, pure, gets, modify, raise_if, from_option}
use kiwi_catalog.RuntimeAccess.Store.{Config, Consent, Agent, Access, Sealed, Env}
use kiwi_catalog.RuntimeAccess.Parse.{
  Json, AccessConfig, parse_access_config, consent_terms_version,
}
use kiwi_catalog.RuntimeAccess.{
  custody_enabled, with_status, is_version, head_version, config_row, active_runtime_access,
  MerchantView, merchant_projection, of_agent,
}

abbrev pub parsed : Json → Action Access AccessConfig
parsed json db = elim (parse_access_config json) [
  | ok c ↦ Outcome.done c db
  | err e ↦ Outcome.raised e db
]

abbrev pub set_configs : (Config → Bool) → (Config → Config) → Access → Access
set_configs p f db = record db { configs = update p f db.configs }

abbrev pub consents_of : String → Consent → Bool
consents_of a c = c.catalog_agent_id =ₛ a

abbrev granted : Env → String → String → String → Consent
granted e a merchant_id terms_version = record {
  catalog_agent_id = a;
  merchant_id = merchant_id;
  scope = "directory_custody";
  terms_version = terms_version;
  granted_at = e.now;
  revoked_at = none;
}

-- The row of an agent is replaced, in all its columns.
unfoldable pub record_consent : Env → String → String → String → Action Access Unit
record_consent e a merchant_id terms_version = do
  raise_if (not (terms_version =ₛ consent_terms_version)) Error.validation
  modify (λ (db : Access).
      if is_some (find? (consents_of a) db.consents)
      then record db {
        consents = update (consents_of a) (λ c. granted e a merchant_id terms_version) db.consents;
      }
      else record db { consents = insert (granted e a merchant_id terms_version) db.consents })

-- not revoked
abbrev pub standing : Consent → Bool
standing c = not (is_some c.revoked_at)

unfoldable pub active_consent : String → Access → Option Consent
active_consent a db =
    find? (λ c. consents_of a c && standing c && c.terms_version =ₛ consent_terms_version)
      db.consents

abbrev pub erased : ℕ → Config → Config
erased now r = record r { secret_ciphertext = ""; updated_at = now }

-- The ciphertexts of the agent are erased with the consent.
unfoldable pub revoke_consent : Env → String → Access → Access
revoke_consent e a db = record db {
  consents =
      update (λ c. consents_of a c && standing c) (λ c. record c { revoked_at = some e.now })
        db.consents;
  configs = update (of_agent a) (erased e.now) db.configs;
}

abbrev pub invalidated : ℕ → Config → Config
invalidated now r = record r { status = "invalid"; updated_at = now }

abbrev pub new_config : Env → String → ℕ → Sealed → Config
new_config e a version box = record {
  catalog_agent_id = a;
  config_version = version;
  provider = "workbuddy";
  access_mode = "share_parameter";
  parameter_name = "sharecode";
  secret_ciphertext = box.ciphertext;
  key_id = box.key_id;
  adapter_version = "workbuddy-share-v1";
  auth_mode = "signature";
  status = "pending";
  revoked_reason = "";
  validated_at = none;
  created_at = e.now;
  updated_at = e.now;
}

-- The primary key refuses a version that the agent has.
abbrev insert_config : Config → Action Access Unit
insert_config r db =
    if is_some (find? (is_version r.catalog_agent_id r.config_version) db.configs)
    then Outcome.raised Error.integrity db
    else Outcome.done tt (record db { configs = insert r db.configs })

-- The staging of a share that was parsed.
unfoldable pub stage_share : Env → String → ℕ → String → Action Access MerchantView
stage_share e a expected secret = do
  head ← gets (head_version a)
  raise_if (not (expected == head)) Error.conflict
  box ← from_option Error.runtime (e.encrypt secret)
  modify (set_configs (with_status a "pending") (invalidated e.now))
  insert_config (new_config e a (head + 1) box)
  row ← config_row a (head + 1)
  pure (merchant_projection row)

abbrev stage_parsed : Env → String → AccessConfig → Action Access MerchantView
stage_parsed e a (AccessConfig.revocation expected) db = Outcome.raised Error.validation db
stage_parsed e a (AccessConfig.share expected secret) db = stage_share e a expected secret db

unfoldable pub stage_runtime_access : Env → String → Json → Action Access MerchantView
stage_runtime_access e a json = do
  raise_if (not (custody_enabled e)) Error.conflict
  config ← parsed json
  stage_parsed e a config

abbrev pub superseded : ℕ → Config → Config
superseded now r = record r { status = "revoked"; revoked_reason = "superseded"; updated_at = now }

abbrev pub activated : ℕ → Config → Config
activated now r = record r { status = "active"; validated_at = some now; updated_at = now }

abbrev pub pending_version : String → ℕ → Config → Bool
pending_version a v r = is_version a v r && r.status =ₛ "pending"

abbrev merchant_of : Option Agent → String
merchant_of none = ""
merchant_of (some g) = g.merchant_id

unfoldable pub activate_runtime_access : Env → String → ℕ → Action Access MerchantView
activate_runtime_access e a v = do
  raise_if (not (custody_enabled e)) Error.conflict
  row ← config_row a v
  raise_if (not (row.status =ₛ "pending")) Error.conflict
  head ← gets (head_version a)
  raise_if (not (head == v)) Error.conflict
  agent ← gets (λ (db : Access). find? (λ g. g.catalog_agent_id =ₛ a) db.agents)
  raise_if (not (truthy (strip (merchant_of agent)))) Error.conflict
  modify (set_configs (with_status a "active") (superseded e.now))
  changed ← gets (λ (db : Access). count (pending_version a v) db.configs)
  modify (set_configs (pending_version a v) (activated e.now))
  raise_if (not (changed == 1)) Error.conflict
  record_consent e a (merchant_of agent) consent_terms_version
  result ← config_row a v
  pure (merchant_projection result)

unfoldable pub invalidate_runtime_access : Env → String → ℕ → Action Access MerchantView
invalidate_runtime_access e a v = do
  row ← config_row a v
  if row.status =ₛ "invalid" then pure (merchant_projection row) else (do
    raise_if (not (row.status =ₛ "pending")) Error.conflict
    modify (set_configs (pending_version a v) (invalidated e.now))
    result ← config_row a v
    pure (merchant_projection result))

abbrev pub withdrawn : ℕ → Config → Config
withdrawn now r = record r {
  status = "revoked";
  revoked_reason = "merchant_revoked";
  updated_at = now;
}

unfoldable pub revoke_version : Env → String → ℕ → Action Access MerchantView
revoke_version e a expected = do
  head ← gets (head_version a)
  raise_if (not (expected == head)) Error.conflict
  found ← gets (active_runtime_access a)
  active ← from_option Error.not_found found
  modify (set_configs (with_status a "pending") (invalidated e.now))
  modify (set_configs (with_status a "active") (withdrawn e.now))
  modify (revoke_consent e a)
  result ← config_row a active.config_version
  pure (merchant_projection result)

abbrev revoke_parsed : Env → String → AccessConfig → Action Access MerchantView
revoke_parsed e a (AccessConfig.revocation expected) db = revoke_version e a expected db
revoke_parsed e a (AccessConfig.share expected secret) db = Outcome.raised Error.validation db

unfoldable pub revoke_runtime_access : Env → String → Json → Action Access MerchantView
revoke_runtime_access e a json = do config ← parsed json; revoke_parsed e a config
