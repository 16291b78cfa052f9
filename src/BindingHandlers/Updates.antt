-- ===== src/BindingHandlers/Updates.antt =====
-- `update_runtime_access` of kiwi_catalog/api/handlers/cloud_binding.py: the configuration of a bound
-- runtime is staged in one transaction, challenged over the network, and put into force in a second
-- one. What was staged and fails is discarded in a third.
use Prim.Native.String.{◌++◌}
use kiwi_catalog.Prelude.{
  ℕ, String, Bool, true, false, not, ◌&&◌, Option, none, some, ◌==◌, ◌=ₛ◌, truthy, if◌then◌else◌,
  strip,
}
use kiwi_catalog.Prelude.Table.{find?}
use kiwi_catalog.Result.{Error, Result, ok, err}
use kiwi_catalog.Action.{
  Action, done, raised, ◌>>=◌, ◌>>◌, pure, gets, modify, raise_if, from_option, from_result, zoom,
  db_session,
}
use kiwi_catalog.RequestNonces.{Signed, accept_request}
use kiwi_catalog.RuntimeAccess.{MerchantView}
use kiwi_catalog.RuntimeAccess.Parse.{Json, AccessConfig, parse_access_config}
use kiwi_catalog.RuntimeAccess.Changes.{
  stage_runtime_access, activate_runtime_access, revoke_runtime_access, invalidate_runtime_access,
}
use kiwi_catalog.AgentCatalog.{is_agent}
use kiwi_catalog.AgentCatalog.Store.{Agent}
use kiwi_catalog.BindingRequests.{access_of, with_access, settings}
use kiwi_catalog.BindingRequests.Endpoints.{active_binding}
use kiwi_catalog.BindingRequests.Requests.{audited}
use kiwi_catalog.BindingRequests.Store.{Binding, Db as Core, Env as CoreEnv}
use kiwi_catalog.Enrollments.Devices.{check_exp}
use kiwi_catalog.BindingHandlers.Grants.{active_agent}

-- A request, with its stripped agent id; `runtime` is what the verification of its signature against the active binding gives,
-- and `exp` the expiry that the signature covers.
pub record Update : Type 0 where
  pub agent_id : String
  pub binding_id : String
  pub access : Json
  pub runtime : Result Signed
  pub exp : Option ℕ

-- What the first transaction hands on: the version that it staged, or 0, and the epoch of the binding.
pub record Opening : Type 0 where
  pub version : ℕ
  pub service_epoch : ℕ

abbrev pub is_share : AccessConfig → Bool
is_share (AccessConfig.revocation expected) = false
is_share (AccessConfig.share expected secret) = true

abbrev pub stage_config : CoreEnv → Update → AccessConfig → Action Core ℕ
stage_config e u (AccessConfig.revocation expected) = pure 0
stage_config e u (AccessConfig.share expected secret) = do
  view ← zoom access_of with_access (stage_runtime_access (settings e) u.agent_id u.access)
  pure view.shown.config_version

abbrev accept_signed : CoreEnv → Signed → Action Core Unit
accept_signed e signed =
    zoom (λ (db : Core). db.nonces) (λ db rows. record db { nonces = rows })
      (accept_request e.now e.calls signed)

-- The checks of the request, up to the agent's state.
unfoldable pub authorize_update : CoreEnv → Update → Action Core Binding
authorize_update e u = do
  agent ← gets (λ (db : Core). find? (is_agent u.agent_id) db.agents)
  g ← from_option Error.not_found agent
  current ← gets (λ (db : Core). active_binding u.agent_id db.bindings)
  b ← from_option Error.not_found current
  signed ← from_result u.runtime
  accept_signed e signed
  check_exp e.now
      (record { nonce = signed.nonce; issued_at = signed.issued_at; exp = u.exp; body_digest = "" })
  raise_if (not (active_agent g)) Error.permission_denied
  pure b

unfoldable pub open_update : CoreEnv → Update → AccessConfig → Action Core Opening
open_update e u config = do
  b ← authorize_update e u
  version ← stage_config e u config
  raise_if (is_share config && not (truthy (strip b.merchant_id))) Error.conflict
  pure (record { version = version; service_epoch = b.service_epoch })

abbrev still_active : Option Agent → Bool
still_active none = false
still_active (some g) = active_agent g

abbrev same_binding : Update → Opening → Option Binding → Bool
same_binding u o none = false
same_binding u o (some b) = b.binding_id =ₛ u.binding_id && b.service_epoch == o.service_epoch

abbrev enforce : CoreEnv → Update → Opening → AccessConfig → Action Core MerchantView
enforce e u o (AccessConfig.revocation expected) =
    zoom access_of with_access (revoke_runtime_access (settings e) u.agent_id u.access)
enforce e u o (AccessConfig.share expected secret) =
    zoom access_of with_access (activate_runtime_access (settings e) u.agent_id o.version)

abbrev event_of : AccessConfig → String
event_of (AccessConfig.revocation expected) = "runtime_access_revoked"
event_of (AccessConfig.share expected secret) = "runtime_access_updated"

unfoldable pub commit_update : CoreEnv → Update → AccessConfig → Opening → Action Core MerchantView
commit_update e u config o = do
  agent ← gets (λ (db : Core). find? (is_agent u.agent_id) db.agents)
  raise_if (not (still_active agent)) Error.conflict
  current ← gets (λ (db : Core). active_binding u.agent_id db.bindings)
  raise_if (not (same_binding u o current)) Error.conflict
  view ← enforce e u o config
  modify (audited u.agent_id ("runtime:" ++ u.binding_id) (event_of config) e.now)
  pure view

-- `_invalidate_staged_best_effort`: a failure of its own is swallowed.
unfoldable pub discard : CoreEnv → String → ℕ → Core → Core
discard e a version =
    db_session (zoom access_of with_access (invalidate_runtime_access (settings e) a version))

-- The three transactions have times of their own, and other connections write in between: during
-- the challenge, and before what was staged is discarded. `verdict` is the outcome of the challenge.
pub record Course : Type 0 where
  pub opening : CoreEnv
  pub ending : CoreEnv
  pub discarding : CoreEnv
  pub verdict : Result (Unit {0})
  pub meanwhile : Core → Core
  pub before_discard : Core → Core

-- The challenge is left out for a revocation.
abbrev pub challenge_of : Course → AccessConfig → Result (Unit {0})
challenge_of c (AccessConfig.revocation expected) = ok tt
challenge_of c (AccessConfig.share expected secret) = c.verdict

abbrev pub dropped : Course → Update → ℕ → Core → Core
dropped c u version db =
    if version == 0 then db else discard c.discarding u.agent_id version (c.before_discard db)

unfoldable pub end_update :
    Course → Update → AccessConfig → Opening → Core → Result MerchantView × Core
end_update c u config o db = elim (challenge_of c config) [
  | err error ↦ (err error, discard c.discarding u.agent_id o.version (c.before_discard db))
  | ok passed ↦ elim (commit_update c.ending u config o db) [
    | done view t ↦ (ok view, t)
    | raised error t ↦ (err error, dropped c u o.version db)
  ]
]

unfoldable pub update_runtime_access : Course → Update → Core → Result MerchantView × Core
update_runtime_access c u db = elim (parse_access_config u.access) [
  | err error ↦ (err error, db)
  | ok config ↦ elim (open_update c.opening u config db) [
    | raised error t ↦ (err error, db)
    | done o t ↦ end_update c u config o (c.meanwhile t)
  ]
]
