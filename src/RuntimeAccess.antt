-- ===== src/RuntimeAccess.antt =====
-- kiwi_catalog/services/runtime_access.py: the share codes that the catalog keeps for merchants,
-- their versions and the merchants' consent. Each function runs in its caller's transaction.
pub mod Store
pub mod Parse
pub mod Changes
pub mod Shapes
pub mod Versions
pub mod Effects
use kiwi_catalog.Prelude.{
  ℕ, ◌-◌, ◌*◌, String, Bool, false, not, ◌&&◌, Option, none, some, List, [], ◌∷◌, ◌==◌, ◌=ₛ◌, ltb,
  one_of, is_some, truthy, if◌then◌else◌,
}
use kiwi_catalog.Prelude.Table.{find?, insert, delete, max_of}
use kiwi_catalog.Result.{Error, Result, ok, err}
use kiwi_catalog.Action.{Action, Outcome, ◌>>=◌, ◌>>◌, modify, raise_if}
use Store.{Config, Fault, Access, Env}

unfoldable pub custody_enabled : Env → Bool
custody_enabled e = not (one_of ("0" ∷ "false" ∷ "off" ∷ "no" ∷ []) e.custody)

abbrev pub of_agent : String → Config → Bool
of_agent a r = r.catalog_agent_id =ₛ a

abbrev pub with_status : String → String → Config → Bool
with_status a s r = r.catalog_agent_id =ₛ a && r.status =ₛ s

abbrev pub is_version : String → ℕ → Config → Bool
is_version a v r = r.catalog_agent_id =ₛ a && r.config_version == v

unfoldable pub head_version : String → Access → ℕ
head_version a db = max_of (of_agent a) (λ r. r.config_version) db.configs

unfoldable pub config_row : String → ℕ → Action Access Config
config_row a v db = elim (find? (is_version a v) db.configs) [
  | none ↦ Outcome.raised Error.not_found db
  | some r ↦ Outcome.done r db
]

unfoldable pub active_runtime_access : String → Access → Option Config
active_runtime_access a db = find? (with_status a "active") db.configs

-- `order by config_version desc limit 1`
unfoldable pub latest_runtime_access : String → Access → Option Config
unfolding head_version
latest_runtime_access a db = find? (is_version a (head_version a db)) db.configs

unfoldable pub current_version_state : String → Access → ℕ × String
current_version_state a db = elim (latest_runtime_access a db) [
  | none ↦ (0, "none")
  | some r ↦ (r.config_version, r.status)
]

-- What the public record shows of a configuration: metadata, and no secret.
pub record PublicView : Type 0 where
  pub provider : String
  pub access_mode : String
  pub parameter_name : String
  pub config_version : ℕ
  pub adapter_version : String
  pub auth_mode : String

abbrev view_of : Config → PublicView
view_of r = record {
  provider = r.provider;
  access_mode = r.access_mode;
  parameter_name = r.parameter_name;
  config_version = r.config_version;
  adapter_version = r.adapter_version;
  auth_mode = r.auth_mode;
}

unfoldable pub public_projection : Option Config → Option PublicView
public_projection none = none
public_projection (some r) = if r.status =ₛ "active" then some (view_of r) else none

pub record MerchantView : Type 0 where
  pub shown : PublicView
  pub status : String
  pub status_reason : String
  pub validated_at : Option ℕ
  pub updated_at : ℕ

unfoldable pub merchant_projection : Config → MerchantView
merchant_projection r = record {
  shown = view_of r;
  status = r.status;
  status_reason = r.revoked_reason;
  validated_at = r.validated_at;
  updated_at = r.updated_at;
}

pub record BuyerView : Type 0 where
  pub catalog_agent_id : String
  pub runtime_origin : String
  pub shown : PublicView
  pub secret_value : String
  pub validated_at : Option ℕ
  pub updated_at : ℕ

abbrev unsealed : Option String → Result String
unsealed none = err Error.runtime
unsealed (some s) = ok s

unfoldable pub buyer_projection : Env → String → Config → Result BuyerView
buyer_projection e runtime_origin r =
    if not (r.status =ₛ "active")
    then err Error.not_found
    else elim (e.decrypt r.secret_ciphertext r.key_id) [
      | none ↦ err Error.runtime
      | some secret ↦ ok (record {
        catalog_agent_id = r.catalog_agent_id;
        runtime_origin = runtime_origin;
        shown = view_of r;
        secret_value = secret;
        validated_at = r.validated_at;
        updated_at = r.updated_at;
      })
    ]

unfoldable pub row_secret : Env → List String → Config → Result String
row_secret e statuses r =
    if one_of statuses r.status
    then unsealed (e.decrypt r.secret_ciphertext r.key_id)
    else err Error.conflict

-- `FAULT_RETENTION_DAYS` in seconds
abbrev fault_retention : ℕ
fault_retention = 7 * 86400

-- The table of faults takes a row once (`insert or ignore`).
abbrev is_fault : String → String → String → ℕ → Fault → Bool
is_fault a b c t f =
    f.catalog_agent_id =ₛ a && f.buyer_key =ₛ b && f.code =ₛ c && f.occurred_at == t

unfoldable pub record_fault : Env → String → String → String → Action Access Unit
record_fault e a buyer_key code = do
  raise_if (not (one_of ("gate_rejected" ∷ "config_missing" ∷ []) code)) Error.validation
  raise_if (not (truthy a && truthy buyer_key)) Error.validation
  modify (λ db.
      if is_some (find? (is_fault a buyer_key code e.now) db.faults) then db else record db {
        faults =
            insert
              (record {
                catalog_agent_id = a;
                buyer_key = buyer_key;
                code = code;
                occurred_at = e.now;
              })
              db.faults;
      })
  modify (λ db. record db {
    faults =
        delete (λ f. f.catalog_agent_id =ₛ a && ltb f.occurred_at (e.now - fault_retention))
          db.faults;
  })
