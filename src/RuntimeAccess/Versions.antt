-- ===== src/RuntimeAccess/Versions.antt =====
-- The versions of an agent's share code under every sequence of writes
-- (kiwi_catalog/services/runtime_access.py).
use kiwi_catalog.Prelude.{
  ℕ, ◌+◌, ◌≤◌, String, ◌≡◌, inl, inr, Bool, true, List, [], ◌∷◌, ◌=ₛ◌, arith, eq_iff, Bool-cases,
}
use kiwi_catalog.Prelude.Table.{update, insert, count}
use kiwi_catalog.Prelude.Table.Laws.{
  count-update_none, count-update_le, count-update_add, count-insert,
}
use kiwi_catalog.Action.{Action, done, Outcome-cases, db_session}
use kiwi_catalog.RuntimeAccess.Store.{Config, Access, Sealed, Env}
use kiwi_catalog.RuntimeAccess.Parse.{Json}
use kiwi_catalog.RuntimeAccess.{of_agent, with_status, MerchantView}
use kiwi_catalog.RuntimeAccess.Changes.{
  invalidated, new_config, superseded, activated, pending_version, withdrawn, erased,
  stage_runtime_access, activate_runtime_access, invalidate_runtime_access, revoke_runtime_access,
}
use kiwi_catalog.RuntimeAccess.Shapes.{
  settled, stage-share, revoke-revocation, stage_share-configs, activate-configs,
  invalidate-configs, revoke-configs,
}

abbrev pub active_of : String → List Config → ℕ
active_of a rows = count (with_status a "active") rows

abbrev pub pending_of : String → List Config → ℕ
pending_of a rows = count (with_status a "pending") rows

-- An agent has at most one active version and at most one that is pending.
abbrev pub IsSound : List Config → Type 0
IsSound rows = (b : String) → (active_of b rows ≤ 1) × (pending_of b rows ≤ 1)

-- An update that makes no row active or pending which was not.
shrunk-IsSound :
    (q : Config → Bool) (f : Config → Config) (rows : List Config)
    → ((b : String) (x : Config)
        → with_status b "active" (f x) ≡ true
        → with_status b "active" x ≡ true)
    → ((b : String) (x : Config)
        → with_status b "pending" (f x) ≡ true
        → with_status b "pending" x ≡ true)
    → IsSound rows
    → IsSound (update q f rows)
shrunk-IsSound q f rows h k sound b =
    let fewer_active = count-update_le (with_status b "active") q f rows (λ x e. h b x) in
    let fewer_pending = count-update_le (with_status b "pending") q f rows (λ x e. k b x) in
    (omega (arith, (sound b).0, fewer_active), omega (arith, (sound b).1, fewer_pending))

module _ (e : Env) (a : String) where
  settled-IsSound : (db : Access) → IsSound db.configs → IsSound (settled e a db)
  settled-IsSound db =
      shrunk-IsSound (with_status a "pending") (invalidated e.now) db.configs
        (λ b x g. ground arith) (λ b x g. ground arith)

  staged-IsSound :
      (v : ℕ) (box : Sealed) (db : Access)
      → IsSound db.configs
      → IsSound (insert (new_config e a v box) (settled e a db))
  staged-IsSound v box db sound b =
      let (one_active, one_pending) = settled-IsSound db sound b in
      let none_pending : pending_of a (settled e a db) ≡ 0 =
        count-update_none (with_status a "pending") (with_status a "pending") (invalidated e.now)
          db.configs (λ x g. ground arith) (λ x g. g) in
      (
        ground (
          arith,
          one_active,
          count-insert (with_status b "active") (new_config e a v box) (settled e a db),
        ),
        ground (
          arith,
          one_pending,
          none_pending,
          eq_iff a b,
          count-insert (with_status b "pending") (new_config e a v box) (settled e a db),
        ),
      )

  activated-IsSound :
      (v : ℕ) (rows : List Config)
      → IsSound rows
      → count (pending_version a v) (update (with_status a "active") (superseded e.now) rows) ≡ 1
      → IsSound (
          update
            (pending_version a v)
            (activated e.now)
            (update (with_status a "active") (superseded e.now) rows))
  activated-IsSound v rows sound one b =
      let mid = update (with_status a "active") (superseded e.now) rows in
      let (mid_active, mid_pending) =
        shrunk-IsSound (with_status a "active") (superseded e.now) rows (λ b' x g. ground arith)
          (λ b' x g. ground arith) sound b in
      let none_active : active_of a mid ≡ 0 =
        count-update_none (with_status a "active") (with_status a "active") (superseded e.now) rows
          (λ x g. ground arith) (λ x g. g) in
      let fewer_pending =
        count-update_le (with_status b "pending") (pending_version a v) (activated e.now) mid
          (λ x g k. ground arith) in
      (
        elim (Bool-cases (a =ₛ b)) [
          | inl same ↦
              let gained =
                count-update_add (with_status b "active") (pending_version a v) (activated e.now)
                  mid in
              ground (arith, gained, one, none_active, eq_iff a b)
          | inr other ↦
              let fewer =
                count-update_le (with_status b "active") (pending_version a v) (activated e.now) mid
                  (λ x g k. ground (
                    arith,
                    eq_iff a b,
                    eq_iff x.catalog_agent_id a,
                    eq_iff x.catalog_agent_id b,
                  )) in
              omega (arith, fewer, mid_active)
        ],
        omega (arith, fewer_pending, mid_pending),
      )

  revoked-IsSound :
      (db : Access)
      → IsSound db.configs
      → IsSound (
          update
            (of_agent a)
            (erased e.now)
            (update (with_status a "active") (withdrawn e.now) (settled e a db)))
  revoked-IsSound db sound =
      shrunk-IsSound (of_agent a) (erased e.now)
        (update (with_status a "active") (withdrawn e.now) (settled e a db)) (λ b x g. g)
        (λ b x g. g)
        (shrunk-IsSound (with_status a "active") (withdrawn e.now) (settled e a db)
          (λ b x g. ground arith) (λ b x g. ground arith) (settled-IsSound db sound))

-- A call of the service.
pub data Write : Type 0 where
  stage : String → Json → Write
  activate : String → ℕ → Write
  invalidate : String → ℕ → Write
  revoke : String → Json → Write

unfoldable pub perform : Env → Write → Action Access MerchantView
perform e (Write.stage a json) = stage_runtime_access e a json
perform e (Write.activate a v) = activate_runtime_access e a v
perform e (Write.invalidate a v) = invalidate_runtime_access e a v
perform e (Write.revoke a json) = revoke_runtime_access e a json

-- The database after calls that each run in a session of their own, whatever they raise.
unfoldable pub perform_all : List (Env × Write) → Access → Access
perform_all [] db = db
perform_all ((e, w) ∷ rest) db = perform_all rest (db_session (perform e w) db)

done-IsSound :
    (e : Env) (w : Write) (db : Access) (r : MerchantView) (db' : Access)
    → IsSound db.configs
    → perform e w db ≡ done r db'
    → IsSound db'.configs
unfolding perform stage_runtime_access revoke_runtime_access
done-IsSound e (Write.stage a json) db r db' sound h =
    let (v, secret, _, staged) = stage-share e a json db r db' h in
    let (box, _, _, after) = stage_share-configs e a db v secret r db' staged in
    rw after (staged-IsSound e a (v + 1) box db sound)
done-IsSound e (Write.activate a v) db r db' sound h =
    let (_, one, after) = activate-configs e a db v r db' h in
    rw after (activated-IsSound e a v db.configs sound one)
done-IsSound e (Write.invalidate a v) db r db' sound h =
    elim (invalidate-configs e a db v r db' h) [
      | inl same ↦ rw same sound
      | inr after ↦ rw after (
          shrunk-IsSound (pending_version a v) (invalidated e.now) db.configs
            (λ b x g. ground arith) (λ b x g. ground arith) sound)
    ]
done-IsSound e (Write.revoke a json) db r db' sound h =
    let (v, _, revoked) = revoke-revocation e a json db r db' h in
    rw (revoke-configs e a db v r db' revoked) (revoked-IsSound e a db sound)

-- However staging, activation, invalidation and revocation follow one another, for whatever agents
-- and with whatever failures, an agent that had at most one active version and at most one pending
-- version still has.
pub perform_all-IsSound :
    (ws : List (Env × Write)) (db : Access)
    → IsSound db.configs
    → IsSound (perform_all ws db).configs
unfolding perform_all db_session
perform_all-IsSound [] db sound = sound
perform_all-IsSound ((e, w) ∷ ws) db sound = elim (Outcome-cases (perform e w db)) [
  | inl (r, db', h) ↦
      let after : db_session (perform e w) db ≡ db' = ground (arith, h) in
      perform_all-IsSound ws (db_session (perform e w) db)
        (rw after (done-IsSound e w db r db' sound h))
  | inr (failure, db', h) ↦
      let after : db_session (perform e w) db ≡ db = ground (arith, h) in
      perform_all-IsSound ws (db_session (perform e w) db) (rw after sound)
]
