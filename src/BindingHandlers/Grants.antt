-- ===== src/BindingHandlers/Grants.antt =====
-- `_create_enrollment_binding` of kiwi_catalog/api/handlers/cloud_binding.py: the first binding of a
-- device that holds the grant of its enrollment. One transaction checks the request; the network
-- challenge of the runtime follows outside of a transaction; a second transaction binds.
use Prim.Native.String.{◌++◌}
use kiwi_catalog.Prelude.{
  ℕ, ◌+◌, String, Bool, not, ◌&&◌, ◌||◌, Option, none, some, ◌==◌, ◌=ₛ◌, leb, one_of, truthy,
  if◌then◌else◌,
}
use kiwi_catalog.Prelude.Table.{find?, update, count, max_of}
use kiwi_catalog.Result.{Error, ok, err, is_conflict}
use kiwi_catalog.Action.{
  Action, Outcome, done, raised, ◌>>=◌, ◌>>◌, pure, gets, modify, raise_if, from_option,
  from_result, zoom,
}
use kiwi_catalog.RequestNonces.{consume_request_nonce}
use kiwi_catalog.RuntimeAccess.{head_version}
use kiwi_catalog.RuntimeAccess.Parse.{Json, AccessConfig, parse_access_config}
use kiwi_catalog.RuntimeAccess.Changes.{stage_runtime_access}
use kiwi_catalog.AgentCatalog.{is_agent}
use kiwi_catalog.AgentCatalog.Store.{Agent}
use kiwi_catalog.BindingRequests.{
  of_agent, has_id, canonical_domain_of, with_domain, set_agents, access_of, with_access, settings,
  activate_linked_access_config,
}
use kiwi_catalog.BindingRequests.Endpoints.{active_binding}
use kiwi_catalog.BindingRequests.Evidence.{record_active_binding_evidence}
use kiwi_catalog.BindingRequests.Store.{Binding, Db as Core, Env as CoreEnv}
use kiwi_catalog.Enrollments.{grant_over, is_authorized}
use kiwi_catalog.Enrollments.Devices.{validate_public_jwk, check_exp, has_id as is_enrollment}
use kiwi_catalog.Enrollments.Store.{Enrollment, Proof}
use kiwi_catalog.BindingHandlers.{insert_active_binding, checked_access}
use kiwi_catalog.BindingHandlers.Store.{Db, Env, Bid, Answer}

abbrev pub on_core : {A : Type 0} → Action Core A → Action Db A
on_core = zoom (λ (db : Db). db.core) (λ db c. record db { core = c })

abbrev pub consume_nonce : Env → String → Proof → Action Db Unit
consume_nonce e key_id p = on_core (
    zoom (λ (c : Core). c.nonces) (λ c rows. record c { nonces = rows })
      (consume_request_nonce e.core.now e.core.calls
        (record { key_id = key_id; nonce = p.nonce; issued_at = p.issued_at })))

abbrev pub active_agent : Agent → Bool
active_agent g = g.administrative_state =ₛ "active"

abbrev pub is_bound : Enrollment → Bool
is_bound r = r.status =ₛ "bound"

abbrev pub may_bind : Enrollment → Bool
may_bind r = one_of r.scopes "runtime:bind"

-- What the binding of a grant is checked against in the first transaction.
unfoldable pub check_grant : Env → Bid → Enrollment → Agent → Action Db String
check_grant e bid row g = do
  raise_if
      (not (is_authorized row || is_bound row) || (is_authorized row && grant_over e.core.now row))
      Error.permission_denied
  raise_if (not (e.hash bid.grant =ₛ row.grant_hash)) Error.permission_denied
  raise_if
      (not (row.merchant_id =ₛ g.merchant_id)
        || not (bid.offer.runtime_origin =ₛ row.runtime_origin)
        || not (bid.offer.a2a_endpoint =ₛ row.a2a_endpoint))
      Error.permission_denied
  thumb ← validate_public_jwk bid.jwk
  raise_if (not (thumb =ₛ row.key_thumbprint) || not (bid.offer.key_id =ₛ row.key_id))
      Error.permission_denied
  raise_if
      (not (bid.offer.generation == row.generation)
        || not (bid.offer.service_epoch == row.service_epoch))
      Error.permission_denied
  raise_if (not (may_bind row)) Error.permission_denied
  pure thumb

-- Either the enrollment is bound already, or the runtime is to be challenged.
pub data Opened : Type 0 where
  already : Enrollment → Opened
  challenged : String → Opened

-- A device that holds a bound enrollment may come again while its binding and its agent are active.
unfoldable pub open_again : Enrollment → Agent → String → Action Db Opened
open_again row g thumb =
    if is_bound row && truthy row.binding_id
    then (do
      bound ← gets (λ (db : Db). find? (has_id row.binding_id) db.core.bindings)
      b ← from_option Error.permission_denied bound
      raise_if (not (b.status =ₛ "active") || not (active_agent g)) Error.permission_denied
      pure (Opened.already row))
    else pure (Opened.challenged thumb)

unfoldable pub open_challenge : Env → Bid → Action Db Opened
open_challenge e bid = do
  checked_access bid.access
  found ← gets (λ (db : Db). find? (is_enrollment bid.enrollment_id) db.enrollments)
  row ← from_option Error.not_found found
  agent ← gets (λ (db : Db). find? (is_agent bid.agent_id) db.core.agents)
  g ← from_option Error.not_found agent
  raise_if (not (row.catalog_agent_id =ₛ bid.agent_id)) Error.not_found
  thumb ← check_grant e bid row g
  signed ← from_result bid.possession
  check_exp e.core.now signed
  consume_nonce e row.key_id signed
  open_again row g thumb

abbrev expected_of : AccessConfig → ℕ
expected_of (AccessConfig.revocation expected) = expected
expected_of (AccessConfig.share expected secret) = expected

-- The access configuration is staged where its version is the head; otherwise it is left out.
unfoldable pub stage_or_skip : CoreEnv → String → Option Json → Action Core ℕ
stage_or_skip e a none db = Outcome.done 0 db
stage_or_skip e a (some json) db = elim (parse_access_config json) [
  | err error ↦ Outcome.raised error db
  | ok config ↦
      let head = head_version a (access_of db) in
      if not (expected_of config == head)
      then Outcome.done 0 db
      else elim (stage_runtime_access (settings e) a json (access_of db)) [
        | done view access ↦ Outcome.done view.shown.config_version (with_access db access)
        | raised error access ↦
            if is_conflict error && not (head_version a access == expected_of config)
            then Outcome.done 0 (with_access db access)
            else Outcome.raised error (with_access db access)
      ]
]

abbrev pub bound : String → ℕ → Enrollment → Enrollment
bound binding_id now r = record r {
  status = "bound";
  binding_id = binding_id;
  consumed_at = some now;
}

abbrev pub authorized_row : String → Enrollment → Bool
authorized_row id r = is_enrollment id r && is_authorized r

abbrev pub next_version : String → Core → ℕ
next_version a db = max_of (of_agent a) (λ b. b.binding_version) db.bindings + 1

-- The enrollment as it stands after the challenge.
unfoldable pub check_unchanged : Env → Bid → Answer → Enrollment → Action Db Agent
check_unchanged e bid answer row = do
  raise_if (leb answer.expires_at e.core.now) Error.permission_denied
  raise_if (not (is_authorized row) || grant_over e.core.now row) Error.permission_denied
  agent ← gets (λ (db : Db). find? (is_agent bid.agent_id) db.core.agents)
  g ← from_option Error.type_error agent
  raise_if (not (row.merchant_id =ₛ g.merchant_id) || not (active_agent g)) Error.permission_denied
  raise_if
      (not (e.hash bid.grant =ₛ row.grant_hash)
        || not (bid.offer.generation == row.generation)
        || not (bid.offer.service_epoch == row.service_epoch)
        || not (may_bind row))
      Error.permission_denied
  pure g

abbrev pub grant_taken : Env → Bid → Binding → Db → Db
grant_taken e bid b db = record db {
  enrollments =
      update (authorized_row bid.enrollment_id) (bound b.binding_id e.core.now) db.enrollments;
}

abbrev pub domain_set : Env → Bid → String → Db → Db
domain_set e bid canonical db = record db {
  core = set_agents (is_agent bid.agent_id) (with_domain canonical e.core.now) db.core;
}

-- The domain of the agent, the evidence of the binding and the access configuration.
unfoldable pub finish_binding : Env → Bid → String → ℕ → Enrollment → Binding → Action Db Binding
finish_binding e bid thumb version row b = do
  canonical ← on_core (canonical_domain_of e.core row.runtime_origin)
  modify (domain_set e bid canonical)
  expires ← on_core (
      record_active_binding_evidence e.core bid.agent_id b.binding_id thumb row.runtime_origin
        row.a2a_endpoint)
  on_core (activate_linked_access_config e.core bid.agent_id version)
  pure b

-- The binding is placed, and the grant used up by the one row that it updates.
unfoldable pub place_grant : Env → Bid → Agent → Action Db Binding
place_grant e bid g = do
  raise_if (not bid.offer.management_valid) Error.validation
  existing ← gets (λ (db : Db). active_binding bid.agent_id db.core.bindings)
  b ←
      on_core
        (insert_active_binding e.core g bid.offer existing ("enrollment:" ++ bid.enrollment_id))
  changed ← gets (λ (db : Db). count (authorized_row bid.enrollment_id) db.enrollments)
  modify (grant_taken e bid b)
  raise_if (not (changed == 1)) Error.conflict
  pure b

unfoldable pub bind_enrollment : Env → Bid → String → Enrollment → Agent → Action Db Binding
bind_enrollment e bid thumb row g = do
  version ← on_core (stage_or_skip e.core bid.agent_id bid.access)
  b ← place_grant e bid g
  finish_binding e bid thumb version row b

-- The second transaction; `thumb` is the thumbprint that the first one has checked.
unfoldable pub commit_binding : Env → Bid → String → Answer → Action Db Binding
commit_binding e bid thumb answer = do
  found ← gets (λ (db : Db). find? (is_enrollment bid.enrollment_id) db.enrollments)
  row ← from_option Error.permission_denied found
  g ← check_unchanged e bid answer row
  proof ← from_result answer.proof
  consume_nonce e row.key_id proof
  version ← gets (λ (db : Db). next_version bid.agent_id db.core)
  raise_if (not (version == row.expected_binding_version)) Error.conflict
  bind_enrollment e bid thumb row g
