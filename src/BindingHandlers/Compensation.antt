-- ===== src/BindingHandlers/Compensation.antt =====
-- What `update_runtime_access` (kiwi_catalog/api/handlers/cloud_binding.py) leaves when it fails.
pub mod Staging
pub mod Discard
use kiwi_catalog.BindingHandlers.Compensation.Staging.{open_update-Stages}
use kiwi_catalog.BindingHandlers.Compensation.Discard.{IsKeyed, discarded}
use kiwi_catalog.Prelude.{ℕ, ◌+◌, String, ◌≡◌, ◌⊎◌, inl, inr, arith, subst, sym}
use kiwi_catalog.Prelude.Table.{find?, count}
use kiwi_catalog.Result.{Error, ok, err}
use kiwi_catalog.Action.{done, raised, Outcome-cases}
use kiwi_catalog.RuntimeAccess.{with_status}
use kiwi_catalog.RuntimeAccess.Parse.{AccessConfig, parse_access_config}
use kiwi_catalog.RuntimeAccess.Changes.{pending_version}
use kiwi_catalog.BindingRequests.Store.{Db as Core}
use kiwi_catalog.BindingHandlers.Updates.{
  Update, Opening, Course, open_update, discard, end_update, update_runtime_access,
}

-- A share that is not put into force, once its staging was committed: `before` is the state in which
-- it was discarded.
pub record Undone (c : Course) (u : Update) (expected : ℕ) (db db' : Core) : Type 0 where
  pub opened : Core
  pub kept :
      find? (with_status u.agent_id "active") opened.configs
      ≡ find? (with_status u.agent_id "active") db.configs
  pub none_pending : count (pending_version u.agent_id (expected + 1)) db'.configs ≡ 0
  pub active :
      find? (with_status u.agent_id "active") db'.configs
      ≡ find? (with_status u.agent_id "active") (c.before_discard (c.meanwhile opened)).configs

update-opened :
    (c : Course) (u : Update) (config : AccessConfig) (db t : Core) (o : Opening)
    → parse_access_config u.access ≡ ok config
    → open_update c.opening u config db ≡ done o t
    → update_runtime_access c u db ≡ end_update c u config o (c.meanwhile t)
unfolding update_runtime_access
update-opened c u config db t o parsed opens = ground (arith, parsed, opens)

update-refused :
    (c : Course) (u : Update) (config : AccessConfig) (db t : Core) (error : Error)
    → parse_access_config u.access ≡ ok config
    → open_update c.opening u config db ≡ raised error t
    → (update_runtime_access c u db).1 ≡ db
unfolding update_runtime_access
update-refused c u config db t error parsed stop = ground (arith, parsed, stop)

end_update-failed :
    (c : Course) (u : Update) (n v : ℕ) (secret : String) (o : Opening) (db : Core) (error : Error)
    → o.version ≡ v + 1
    → (end_update c u (AccessConfig.share n secret) o db).0 ≡ err error
    → (end_update c u (AccessConfig.share n secret) o db).1
      ≡ discard c.discarding u.agent_id (v + 1) (c.before_discard db)
unfolding end_update
end_update-failed c u n v secret o db error number failed = ground (arith, number, failed)

-- An update by a share that fails, whatever other connections write in between: it has written
-- nothing, or it has staged the version after the expected one, and then no row of that version is
-- left pending, and the active version is the one that the others left. The versions of an agent are
-- unique, and the others keep them so.
pub update_runtime_access-Undone :
    (c : Course) (u : Update) (db : Core) (expected : ℕ) (secret : String) (error : Error)
    → parse_access_config u.access ≡ ok (AccessConfig.share expected secret)
    → IsKeyed db.configs
    → ((x : Core) → IsKeyed x.configs → IsKeyed (c.meanwhile x).configs)
    → ((x : Core) → IsKeyed x.configs → IsKeyed (c.before_discard x).configs)
    → (update_runtime_access c u db).0 ≡ err error
    → ((update_runtime_access c u db).1 ≡ db)
      ⊎ Undone c u expected db (update_runtime_access c u db).1
update_runtime_access-Undone c u db expected secret error parsed keyed others later failed =
    elim (Outcome-cases (open_update c.opening u (AccessConfig.share expected secret) db)) [
      | inr (e, t, stop) ↦
          inl (update-refused c u (AccessConfig.share expected secret) db t e parsed stop)
      | inl (o, t, opens) ↦
          let stages = open_update-Stages c.opening u expected secret db t o parsed keyed opens in
          let x = c.before_discard (c.meanwhile t) in
          let (gone, same) =
            discarded c.discarding u.agent_id (expected + 1) x
              (later (c.meanwhile t) (others t stages.keyed)) in
          let runs = update-opened c u (AccessConfig.share expected secret) db t o parsed opens in
          let ends : (update_runtime_access c u db).1
              ≡ discard c.discarding u.agent_id (expected + 1) x =
            subst (λ r. r.1 ≡ discard c.discarding u.agent_id (expected + 1) x) (sym runs)
              (end_update-failed c u expected expected secret o (c.meanwhile t) error
                stages.numbered (subst (λ r. r.0 ≡ err error) runs failed)) in
          inr (record {
            opened = t;
            kept = stages.active;
            none_pending =
                subst
                  (λ (y : Core). count (pending_version u.agent_id (expected + 1)) y.configs ≡ 0)
                  (sym ends) gone;
            active =
                subst
                  (λ (y : Core).
                    find? (with_status u.agent_id "active") y.configs
                    ≡ find? (with_status u.agent_id "active") x.configs)
                  (sym ends) same;
          })
    ]
