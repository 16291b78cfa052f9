-- ===== src/BindingHandlers.antt =====
-- kiwi_catalog/api/handlers/cloud_binding.py: bindings that are made, rotated and revoked by the
-- runtime that holds the key, or by an administrator.
pub mod Store
pub mod Grants
pub mod Placement
pub mod Changes
pub mod Revocation
pub mod Commit
pub mod Exchange
pub mod Opening
pub mod Rebinding
pub mod Updates
pub mod Compensation
pub mod Steps
use Prim.Native.String.{◌++◌}
use kiwi_catalog.Prelude.{
  ℕ, ◌+◌, String, Bool, not, ◌&&◌, Option, none, some, List, ◌=ₛ◌, is_some, or_else, ◌==◌,
  if◌then◌else◌, strip,
}
use kiwi_catalog.Prelude.Table.{find?, update, insert}
use kiwi_catalog.Result.{Error}
use kiwi_catalog.Action.{
  Action, Outcome, ◌>>=◌, ◌>>◌, pure, gets, modify, raise_if, from_option, zoom, from_result,
}
use kiwi_catalog.RequestNonces.{accept_request}
use kiwi_catalog.RuntimeAccess.Parse.{Json, parse_access_config}
use kiwi_catalog.RuntimeAccess.Changes.{stage_runtime_access, activate_runtime_access}
use kiwi_catalog.AgentCatalog.{is_agent}
use kiwi_catalog.AgentCatalog.Store.{Agent}
use kiwi_catalog.BindingRequests.{
  has_id, binding_name, revoked, revoke, access_of, with_access, settings,
}
use kiwi_catalog.BindingRequests.Requests.{create_request, audited}
use kiwi_catalog.BindingRequests.Endpoints.{active_binding, is_binding, sync_cloud_endpoints}
use kiwi_catalog.BindingRequests.Store.{Binding, Proposal, Db as Core, Env as CoreEnv}
use Store.{Offer, Auth, Possession}

abbrev pub successor : Option Binding → ℕ
successor none = 1
successor (some b) = b.binding_version + 1

abbrev pub placed_row : Agent → Offer → ℕ → ℕ → Binding
placed_row g o version now = record {
  binding_id = or_else o.binding_id (binding_name g.catalog_agent_id version);
  catalog_agent_id = g.catalog_agent_id;
  merchant_id = g.merchant_id;
  runtime_origin = o.runtime_origin;
  a2a_endpoint = o.a2a_endpoint;
  key_id = o.key_id;
  key_thumbprint = o.key_thumbprint;
  key_jwk_json = o.key_jwk_json;
  binding_version = version;
  service_epoch = o.service_epoch;
  status = "active";
  expires_at = o.expires_at;
  created_at = now;
  updated_at = now;
}

-- The version after the binding that is replaced, or 1; the ids and the versions of an agent are
-- unique.
unfoldable pub place_binding : Agent → Offer → Option Binding → ℕ → Action (List Binding) Binding
place_binding g o existing now rows =
    let row = placed_row g o (successor existing) now in
    if is_some (find? (has_id row.binding_id) rows)
    then Outcome.raised Error.conflict rows
    else if is_some (find? (is_binding g.catalog_agent_id row.binding_version) rows)
    then Outcome.raised Error.integrity rows
    else Outcome.done row (revoke now existing (insert row rows))

unfoldable pub insert_active_binding :
    CoreEnv → Agent → Offer → Option Binding → String → Action Core Binding
insert_active_binding e g o existing actor = do
  b ←
      zoom (λ (db : Core). db.bindings) (λ db rows. record db { bindings = rows })
        (place_binding g o existing e.now)
  modify (sync_cloud_endpoints e.base_url g.catalog_agent_id e.now)
  modify (audited g.catalog_agent_id actor "runtime_binding_created" e.now)
  pure b

-- The version that was staged, or 0 where there is nothing to stage.
abbrev pub staged : CoreEnv → String → Option Json → Action Core ℕ
staged e a none = pure 0
staged e a (some json) = do
  view ← zoom access_of with_access (stage_runtime_access (settings e) a json)
  pure view.shown.config_version

abbrev pub checked_access : {S : Type 0} → Option Json → Action S Unit
checked_access none = pure tt
checked_access (some json) = do config ← from_result (parse_access_config json); pure tt

abbrev pub proposal : Agent → Offer → Possession → ℕ → Proposal
proposal g o p version = record {
  agent = g;
  key_id = o.key_id;
  runtime_origin = o.runtime_origin;
  a2a_endpoint = o.a2a_endpoint;
  generation = o.generation;
  service_epoch = o.service_epoch;
  key_jwk_json = o.key_jwk_json;
  thumbprint = o.key_thumbprint;
  nonce = p.nonce;
  issued_at = p.issued_at;
  access_config_version = version;
}

abbrev pub activate : CoreEnv → String → ℕ → Action Core Unit
activate e a version = if version == 0 then pure tt else (do
  view ← zoom access_of with_access (activate_runtime_access (settings e) a version)
  pure tt)

-- The administrator's fallback: a binding at once.
unfoldable pub bind_now : CoreEnv → Agent → Offer → Option Json → Action Core Unit
bind_now e g o access = do
  b ← insert_active_binding e g o none ("admin+possession:" ++ o.key_id)
  version ← staged e g.catalog_agent_id access
  activate e g.catalog_agent_id version

-- A request that waits for the merchant.
unfoldable pub request_binding :
    CoreEnv → Agent → Offer → Possession → Option Json → Action Core Unit
request_binding e g o possession access = do
  version ← staged e g.catalog_agent_id access
  request ← create_request e (proposal g o possession version)
  pure tt

unfoldable pub bind_first : CoreEnv → Agent → Offer → Auth → Option Json → Action Core Unit
bind_first e g o auth access = do
  possession ← from_result auth.possession
  if auth.is_admin then bind_now e g o access else request_binding e g o possession access

-- A signature by the key of the active binding, with a nonce that is used up.
abbrev pub signed_by_runtime : CoreEnv → Auth → Action Core Unit
signed_by_runtime e auth = do
  signed ← from_result auth.runtime
  zoom (λ (db : Core). db.nonces) (λ db rows. record db { nonces = rows })
      (accept_request e.now e.calls signed)

abbrev pub authorized_by : CoreEnv → Auth → String → String → Action Core String
authorized_by e auth admin runtime =
    if auth.is_admin
    then (do possession ← from_result auth.possession; pure admin)
    else (do signed_by_runtime e auth; pure runtime)

unfoldable pub rotate : CoreEnv → Agent → Offer → Auth → Option Json → Binding → Action Core Unit
rotate e g o auth access existing = do
  raise_if (is_some access) Error.validation
  actor ← authorized_by e auth ("admin+possession:" ++ o.key_id) ("runtime:" ++ existing.binding_id)
  b ← insert_active_binding e g o (some existing) actor
  pure tt

unfoldable pub create_runtime_binding :
    CoreEnv → String → Offer → Auth → Option Json → Action Core Unit
create_runtime_binding e a o auth access = do
  checked_access access
  raise_if (not o.management_valid) Error.validation
  found ← gets (λ (db : Core). find? (is_agent (strip a)) db.agents)
  g ← from_option Error.not_found found
  existing ← gets (λ (db : Core). active_binding (strip a) db.bindings)
  elim existing [ none ↦ bind_first e g o auth access | some b ↦ rotate e g o auth access b ]

-- The update, the endpoints and the audit of a revocation.
unfoldable pub write_revocation : CoreEnv → String → String → String → Core → Core
write_revocation e a id actor db = audited a actor "runtime_binding_revoked" e.now (
    sync_cloud_endpoints e.base_url a e.now
      (record db { bindings = update (has_id id) (revoked e.now) db.bindings }))

abbrev pub owned : String → String → Binding → Bool
owned a id b = b.catalog_agent_id =ₛ a && has_id id b

unfoldable pub revoke_runtime_binding : CoreEnv → String → String → Auth → Action Core Unit
revoke_runtime_binding e a id auth = do
  found ← gets (λ (db : Core). find? (owned (strip a) (strip id)) db.bindings)
  row ← from_option Error.not_found found
  if row.status =ₛ "revoked" then pure tt else (do
    (if auth.is_admin then pure tt else signed_by_runtime e auth)
    modify (write_revocation e (strip a) (strip id) (if auth.is_admin then "admin" else "runtime")))
