-- ===== src/BindingRequests.antt =====
-- kiwi_catalog/services/binding_requests.py: the first binding of an agent to a hosted runtime. The
-- runtime's request waits until the merchant confirms or rejects it, or until it expires.
pub mod Requests
pub mod Store
pub mod Endpoints
pub mod Evidence
pub mod Single
pub mod Frames
pub mod Decisions
pub mod Steps
pub mod Once
pub mod Confirmation
pub mod Proofs
pub mod Promotion
use kiwi_catalog.BindingRequests.Requests.{
  pending_of, is_request, decided, noted, set_requests, audited, require_owned_agent,
  load_pending_request,
}
use Prim.Native.String.{◌++◌}
use kiwi_catalog.Prelude.{
  ℕ, ◌+◌, String, Bool, not, ◌||◌, Option, none, some, List, ◌==◌, ◌=ₛ◌, is_some, truthy,
  if◌then◌else◌, strip, prefix, suffix, decimal, map,
}
use kiwi_catalog.Prelude.Table.{find?, update, insert, max_of}
use kiwi_catalog.Result.{Error, is_conflict, is_not_found}
use kiwi_catalog.Action.{
  Action, Outcome, ◌>>=◌, ◌>>◌, pure, gets, modify, raise_if, from_option, zoom, ignoring,
}
use kiwi_catalog.RuntimeAccess.Store.{Access, Agent as AccessAgent, Env as AccessEnv}
use kiwi_catalog.RuntimeAccess.Changes.{activate_runtime_access, invalidate_runtime_access}
use kiwi_catalog.AgentCatalog.{is_agent}
use kiwi_catalog.AgentCatalog.Store.{Agent}
use Store.{Binding, Request, Db, Env}
use Endpoints.{active_of, is_binding, sync_cloud_endpoints}
use Evidence.{record_active_binding_evidence}

abbrev pub of_agent : String → Binding → Bool
of_agent a b = b.catalog_agent_id =ₛ a

abbrev pub has_id : String → Binding → Bool
has_id id b = b.binding_id =ₛ id

unfoldable pub binding_name : String → ℕ → String
binding_name a version = "bind_" ++ suffix 8 a ++ "_" ++ decimal version

abbrev pub new_binding : Agent → Request → ℕ → ℕ → Binding
new_binding g req version now = record {
  binding_id = binding_name g.catalog_agent_id version;
  catalog_agent_id = g.catalog_agent_id;
  merchant_id = strip g.merchant_id;
  runtime_origin = req.runtime_origin;
  a2a_endpoint = req.a2a_endpoint;
  key_id = req.key_id;
  key_thumbprint = req.key_thumbprint;
  key_jwk_json = req.key_jwk_json;
  binding_version = version;
  service_epoch = req.service_epoch;
  status = "active";
  expires_at = none;
  created_at = now;
  updated_at = now;
}

abbrev pub revoked : ℕ → Binding → Binding
revoked now b = record b { status = "revoked"; updated_at = now }

abbrev pub revoke : ℕ → Option Binding → List Binding → List Binding
revoke now none rows = rows
revoke now (some old) rows = update (has_id old.binding_id) (revoked now) rows

-- The new version of the binding: the ids and the versions of an agent are unique, and the binding
-- that was active is revoked.
unfoldable pub write_binding : Agent → Request → ℕ → Action (List Binding) Binding
write_binding g req now rows =
    let a = g.catalog_agent_id in
    let version = max_of (of_agent a) (λ b. b.binding_version) rows + 1 in
    let row = new_binding g req version now in
    if is_some (find? (has_id row.binding_id) rows)
    then Outcome.raised Error.conflict rows
    else if is_some (find? (is_binding a version) rows)
    then Outcome.raised Error.integrity rows
    else Outcome.done row (revoke now (find? (active_of a) rows) (insert row rows))

-- The request by its id as it was given, and then what else is pending.
unfoldable pub settle_requests : String → String → ℕ → Db → Db
settle_requests a id now db =
    set_requests (pending_of a) (noted "expired" now ("superseded by confirmed request " ++ id))
      (set_requests (is_request id) (decided "confirmed" now) db)

-- `canonical_domain_of` (kiwi_catalog/discovery/_validation.py)
unfoldable pub canonical_domain_of : Env → String → Action Db String
canonical_domain_of e url = do
  host ← from_option Error.shopping_cli (e.hostname url)
  raise_if (not (truthy host)) Error.shopping_cli
  pure host

abbrev pub with_domain : String → ℕ → Agent → Agent
with_domain canonical now g = record g { canonical_domain = canonical; updated_at = now }

abbrev pub set_agents : (Agent → Bool) → (Agent → Agent) → Db → Db
set_agents p f db = record db { agents = update p f db.agents }

unfoldable pub fill_domain : Env → Agent → String → Action Db String
fill_domain e g origin =
    if truthy (strip g.canonical_domain) then pure (strip g.canonical_domain) else (do
      canonical ← canonical_domain_of e origin
      modify (set_agents (is_agent g.catalog_agent_id) (with_domain canonical e.now))
      pure canonical)

abbrev pub keys : Agent → AccessAgent
keys g = record { catalog_agent_id = g.catalog_agent_id; merchant_id = g.merchant_id }

abbrev pub access_of : Db → Access
access_of db = record {
  configs = db.configs;
  consents = db.consents;
  faults = db.faults;
  agents = map keys db.agents;
}

abbrev pub with_access : Db → Access → Db
with_access db access = record db {
  configs = access.configs;
  consents = access.consents;
  faults = access.faults;
}

abbrev pub settings : Env → AccessEnv
settings e = record { now = e.now; custody = e.custody; encrypt = e.encrypt; decrypt = e.decrypt }

unfoldable pub activate_linked_access_config : Env → String → ℕ → Action Db Unit
activate_linked_access_config e a version =
    if version == 0
    then pure tt
    else ignoring is_conflict
        (zoom access_of with_access (activate_runtime_access (settings e) a version))

unfoldable pub invalidate_linked_access_config : Env → String → ℕ → Action Db Unit
invalidate_linked_access_config e a version =
    if version == 0
    then pure tt
    else ignoring (λ error. is_conflict error || is_not_found error)
        (zoom access_of with_access (invalidate_runtime_access (settings e) a version))

pub record Confirmed : Type 0 where
  pub binding : Binding
  pub canonical_domain : String

-- What follows once the binding is written.
unfoldable pub complete_confirmation : Env → Agent → Request → String → Binding → Action Db String
complete_confirmation e g req id b = do
  modify (settle_requests g.catalog_agent_id id e.now)
  canonical ← fill_domain e g req.runtime_origin
  modify (sync_cloud_endpoints e.base_url g.catalog_agent_id e.now)
  record_active_binding_evidence e g.catalog_agent_id b.binding_id req.key_thumbprint
      req.runtime_origin req.a2a_endpoint
  activate_linked_access_config e g.catalog_agent_id req.access_config_version
  modify (
      audited g.catalog_agent_id ("merchant:" ++ strip g.merchant_id) "runtime_binding_confirmed"
        e.now)
  pure canonical

unfoldable pub confirm_request : Env → String → String → String → Action Db Confirmed
confirm_request e merchant_id a id = do
  row ← require_owned_agent merchant_id a
  req ← load_pending_request row.catalog_agent_id id e.now
  b ←
      zoom (λ (db : Db). db.bindings) (λ db rows. record db { bindings = rows })
        (write_binding row req e.now)
  canonical ← complete_confirmation e row req id b
  pure (record { binding = b; canonical_domain = canonical })

abbrev pub linked_version : Option Request → ℕ
linked_version none = 0
linked_version (some r) = r.access_config_version

unfoldable pub reject_request : Env → String → String → String → String → Action Db Unit
reject_request e merchant_id a id note = do
  row ← require_owned_agent merchant_id a
  raise_if (not (truthy (strip note))) Error.validation
  load_pending_request row.catalog_agent_id id e.now
  modify (set_requests (is_request id) (noted "rejected" e.now (prefix 500 (strip note))))
  linked ← gets (λ (db : Db). find? (is_request id) db.requests)
  invalidate_linked_access_config e row.catalog_agent_id (linked_version linked)
  modify (
      audited row.catalog_agent_id ("merchant:" ++ strip row.merchant_id) "runtime_binding_rejected"
        e.now)
