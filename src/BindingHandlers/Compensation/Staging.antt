-- ===== src/BindingHandlers/Compensation/Staging.antt =====
-- What the first transaction of `update_runtime_access`
-- (kiwi_catalog/api/handlers/cloud_binding.py) leaves of the configurations.
use kiwi_catalog.BindingHandlers.Compensation.Discard.{IsKeyed, waiting_not_active}
use kiwi_catalog.Prelude.{
  ℕ, ◌+◌, String, ◌≡◌, refl, inl, inr, none, List, not, arith, eq_iff, Bool-cases, Option-cases,
  subst, sym, strip, truthy,
}
use kiwi_catalog.Prelude.Table.{find?, insert}
use kiwi_catalog.Prelude.Table.Laws.{count-update_eq, count-insert, find?-count_zero, find?-true}
use kiwi_catalog.Prelude.Table.Found.{find?-insert_other, find?-update_other}
use kiwi_catalog.Result.{Error, ok}
use kiwi_catalog.Action.{done, Outcome-cases, then_do-eq-done, raise_if-done}
use kiwi_catalog.RuntimeAccess.{
  MerchantView, merchant_projection, is_version, with_status, config_row,
}
use kiwi_catalog.RuntimeAccess.Parse.{Json, AccessConfig, parse_access_config}
use kiwi_catalog.RuntimeAccess.Changes.{new_config, stage_share, invalidated, stage_runtime_access}
use kiwi_catalog.RuntimeAccess.Store.{Config, Access, Env as AccessEnv}
use kiwi_catalog.RuntimeAccess.Shapes.{settled, stage-share, stage_share-configs}
use kiwi_catalog.BindingRequests.{access_of, settings}
use kiwi_catalog.Enrollments.Devices.{check_exp}
use kiwi_catalog.BindingRequests.Store.{Binding, Db as Core, Env as CoreEnv}
use kiwi_catalog.BindingHandlers.Updates.{
  Update, Opening, stage_config, open_update, authorize_update,
}

-- What the staging leaves: the version after the one that was expected, and the active row.
pub record Stages (a : String) (expected version : ℕ) (s t : List Config) : Type 0 where
  pub numbered : version ≡ expected + 1
  pub keyed : IsKeyed t
  pub active : find? (with_status a "active") t ≡ find? (with_status a "active") s

pub Stages-at :
    (a : String) (expected version version' : ℕ) (s t t' : List Config)
    → version ≡ version'
    → t ≡ t'
    → Stages a expected version s t
    → Stages a expected version' s t'
Stages-at a expected version version' s t t' number rows stages =
    subst (λ x. Stages a expected version' s x) rows
      (subst (λ n. Stages a expected n s t) number stages)

pub IsKeyed-insert :
    (r : Config) (rows : List Config)
    → IsKeyed rows
    → find? (is_version r.catalog_agent_id r.config_version) rows ≡ none
    → IsKeyed (insert r rows)
IsKeyed-insert r rows keyed fresh a v = elim (Bool-cases (is_version a v r)) [
  | inl here ↦
      let absent : find? (is_version a v) rows ≡ none =
        ground (arith, fresh, here, eq_iff r.catalog_agent_id a) in
      ground
        (arith, find?-count_zero (is_version a v) rows absent, count-insert (is_version a v) r rows)
  | inr other ↦ ground (arith, keyed a v, count-insert (is_version a v) r rows, other)
]

pub stage_share-version :
    (e : AccessEnv) (a : String) (v : ℕ) (secret : String) (db db' : Access) (r : MerchantView)
    → stage_share e a v secret db ≡ done r db'
    → r.shown.config_version ≡ v + 1
unfolding stage_share config_row merchant_projection
stage_share-version e a v secret db db' r h =
    elim (Option-cases (find? (is_version a (v + 1)) db'.configs)) [
      | inl missing ↦
          absurd (ground (arith, missing, (stage_share-configs e a db v secret r db' h)))
      | inr (row, found) ↦
          let shown : r ≡ merchant_projection row =
            ground (arith, found, (stage_share-configs e a db v secret r db' h)) in
          ground (arith, shown, find?-true (is_version a (v + 1)) db'.configs row found)
    ]

pub stage-Stages :
    (e : AccessEnv) (a : String) (json : Json) (expected : ℕ) (secret : String) (db db' : Access)
    (r : MerchantView)
    → parse_access_config json ≡ ok (AccessConfig.share expected secret)
    → IsKeyed db.configs
    → stage_runtime_access e a json db ≡ done r db'
    → Stages a expected r.shown.config_version db.configs db'.configs
stage-Stages e a json expected secret db db' r parsed keyed h =
    let (v, s, is, staged) = stage-share e a json db r db' h in
    let same : v ≡ expected = cc (is, parsed) in
    let (box, head, fresh, after) = stage_share-configs e a db v s r db' staged in
    let version = stage_share-version e a v s db db' r staged in
    let row = new_config e a (v + 1) box in
    let still : IsKeyed (settled e a db) = λ b w.
      rw
        (count-update_eq (is_version b w) (with_status a "pending") (invalidated e.now) db.configs
          (λ x _. refl))
        (keyed b w) in
    record {
      numbered = ground (arith, version, same);
      keyed = rw after (IsKeyed-insert row (settled e a db) still fresh);
      active = ground (
        arith,
        after,
        find?-insert_other (with_status a "active") row (settled e a db) (ground arith),
        find?-update_other (with_status a "active") (with_status a "pending") (invalidated e.now)
            db.configs (λ x g. (waiting_not_active a x g, ground arith)),
      );
    }

pub authorize_update-configs :
    (e : CoreEnv) (u : Update) (s t : Core) (b : Binding)
    → authorize_update e u s ≡ done b t
    → t.configs ≡ s.configs
unfolding authorize_update check_exp
authorize_update-configs e u s t b h = ground arith

pub stage_config-Stages :
    (e : CoreEnv) (u : Update) (expected version : ℕ) (secret : String) (s t : Core)
    → parse_access_config u.access ≡ ok (AccessConfig.share expected secret)
    → IsKeyed s.configs
    → stage_config e u (AccessConfig.share expected secret) s ≡ done version t
    → Stages u.agent_id expected version s.configs t.configs
stage_config-Stages e u expected version secret s t parsed keyed h =
    elim (Outcome-cases (stage_runtime_access (settings e) u.agent_id u.access (access_of s))) [
      | inl (view, access, staged) ↦
          let stages =
            stage-Stages (settings e) u.agent_id u.access expected secret (access_of s) access view
              parsed keyed staged in
          let number : view.shown.config_version ≡ version = ground (arith, h, staged) in
          let rows : access.configs ≡ t.configs = ground (arith, h, staged) in
          Stages-at u.agent_id expected view.shown.config_version version s.configs access.configs
            t.configs number rows stages
      | inr (error, access, stop) ↦ absurd (ground (arith, h, stop))
    ]

pub open_update-Stages :
    (e : CoreEnv) (u : Update) (expected : ℕ) (secret : String) (s t : Core) (o : Opening)
    → parse_access_config u.access ≡ ok (AccessConfig.share expected secret)
    → IsKeyed s.configs
    → open_update e u (AccessConfig.share expected secret) s ≡ done o t
    → Stages u.agent_id expected o.version s.configs t.configs
unfolding open_update
open_update-Stages e u expected secret s t o parsed keyed h =
    let (b, s1, authorized, h1) = then_do-eq-done (authorize_update e u s) _ h in
    let kept = authorize_update-configs e u s s1 b authorized in
    let (version, s2, staged, h2) =
      then_do-eq-done (stage_config e u (AccessConfig.share expected secret) s1) _ h1 in
    let stages =
      stage_config-Stages e u expected version secret s1 s2 parsed (subst IsKeyed (sym kept) keyed)
        staged in
    let (_, h3) = raise_if-done (not (truthy (strip b.merchant_id))) Error.conflict s2 _ h2 in
    let number : version ≡ o.version = ground (arith, h3) in
    let rows : s2.configs ≡ t.configs = ground (arith, h3) in
    subst (λ x. Stages u.agent_id expected o.version x t.configs) kept
      (Stages-at u.agent_id expected version o.version s1.configs s2.configs t.configs number rows
        stages)
