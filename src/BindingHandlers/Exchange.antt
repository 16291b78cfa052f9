-- ===== src/BindingHandlers/Exchange.antt =====
-- A grant that is exchanged for a binding (`_create_enrollment_binding` of
-- kiwi_catalog/api/handlers/cloud_binding.py): what holds afterwards.
use kiwi_catalog.Prelude.{
  ℕ, String, List, ◌≡◌, refl, inl, inr, true, some, arith, eq_iff, subst, sym,
}
use Prim.Native.String.{◌++◌}
use kiwi_catalog.Prelude.Table.{find?}
use kiwi_catalog.Prelude.Table.Laws.{find?-true, find?-update}
use kiwi_catalog.Action.{done, Outcome-cases, db_session}
use kiwi_catalog.AgentCatalog.{is_agent}
use kiwi_catalog.AgentCatalog.Store.{Agent}
use kiwi_catalog.BindingRequests.Endpoints.{active_binding, sync_cloud_endpoints}
use kiwi_catalog.BindingRequests.Single.{IsSound}
use kiwi_catalog.BindingRequests.Store.{Binding}
use kiwi_catalog.Enrollments.{is_authorized}
use kiwi_catalog.Enrollments.Devices.{has_id as is_enrollment}
use kiwi_catalog.Enrollments.Store.{Enrollment}
use kiwi_catalog.BindingHandlers.Changes.{Change, inserted}
use kiwi_catalog.BindingHandlers.Placement.{place_binding-active, insert_active_binding-done}
use kiwi_catalog.BindingHandlers.Grants.{bound, authorized_row, next_version, commit_binding}
use kiwi_catalog.BindingHandlers.Commit.{Commits, commit_binding-Commits}
use kiwi_catalog.BindingHandlers.Commit.Checks.{IsOpen}
use kiwi_catalog.BindingHandlers.Store.{Db, Env, Bid, Answer}

module _ (e : Env) (bid : Bid) (answer : Answer) (s t : Db) (b : Binding)
    (c : Commits e bid answer s t b) where
  pub own_agent : c.agent.catalog_agent_id ≡ bid.agent_id
  own_agent = ground (
    arith,
    find?-true (is_agent bid.agent_id) s.core.agents c.agent c.registered,
    eq_iff c.agent.catalog_agent_id bid.agent_id,
  )

  current :
      active_binding c.agent.catalog_agent_id c.places.before.bindings
      ≡ active_binding bid.agent_id c.places.before.bindings
  current = rw own_agent refl

  pub Commits-Change : Change s.core.bindings t.core.bindings
  Commits-Change =
      let change =
        inserted e.core c.agent bid.offer (active_binding bid.agent_id c.places.before.bindings)
          ("enrollment:" ++ bid.enrollment_id) c.places.before c.places.after b current
          c.places.placed in
      subst (λ x. Change x t.core.bindings) c.places.rows
        (subst (λ x. Change c.places.before.bindings x) (sym c.places.bindings) change)

  pub Commits-active :
      IsSound s.core.bindings → active_binding bid.agent_id t.core.bindings ≡ some b
  unfolding sync_cloud_endpoints
  Commits-active sound =
      let (rows, placed, after) =
        insert_active_binding-done e.core c.agent bid.offer
          (active_binding bid.agent_id c.places.before.bindings)
          ("enrollment:" ++ bid.enrollment_id) c.places.before c.places.after b c.places.placed in
      let kept : t.core.bindings ≡ rows = ground (arith, after, c.places.bindings) in
      let active =
        place_binding-active c.agent bid.offer
          (active_binding bid.agent_id c.places.before.bindings) e.core.now c.places.before.bindings
          rows b (subst IsSound (sym c.places.rows) sound) current placed in
      rw kept (subst (λ x. active_binding x rows ≡ some b) own_agent active)

  pub Commits-bound :
      find? (is_enrollment bid.enrollment_id) t.enrollments
      ≡ some (bound b.binding_id e.core.now c.row)
  Commits-bound = rw c.places.enrollments (
      ground (
        arith,
        find?-update (is_enrollment bid.enrollment_id) (authorized_row bid.enrollment_id)
            (bound b.binding_id e.core.now) s.enrollments (λ x _. refl),
        c.found,
        c.accepted.authorized,
        find?-true (is_enrollment bid.enrollment_id) s.enrollments c.row c.found,
      ))

bound_row-closed :
    (id binding_id : String) (now : ℕ) (row r : Enrollment) (rows : List Enrollment)
    → find? (is_enrollment id) rows ≡ some (bound binding_id now row)
    → find? (is_enrollment id) rows ≡ some r
    → is_authorized r ≡ true
    → ⊥
bound_row-closed id binding_id now row r rows left found authorized =
    let same : bound binding_id now row ≡ r = ground (arith, left, found) in
    let moved : is_authorized (bound binding_id now row) ≡ true =
      subst (λ x. is_authorized x ≡ true) (sym same) authorized in
    cc

-- In a sound table, an exchange that returns a binding: the enrollment was authorized, its grant not
-- yet over and the one presented, the challenge in time, the agent the merchant's own and active, and
-- the generation, the epoch, the scope and the version of the binding as approved. Afterwards the
-- binding is the active one of the agent, and the enrollment is bound to it.
pub commit_binding-binds :
    (e : Env) (bid : Bid) (thumb : String) (answer : Answer) (s t : Db) (b : Binding)
    → IsSound s.core.bindings
    → commit_binding e bid thumb answer s ≡ done b t
    → (row : Enrollment) × (g : Agent) × (find? (is_enrollment bid.enrollment_id) s.enrollments
        ≡ some row)
      × (find? (is_agent bid.agent_id) s.core.agents ≡ some g)
      × IsOpen e bid answer row g
      × (next_version bid.agent_id s.core ≡ row.expected_binding_version)
      × (active_binding bid.agent_id t.core.bindings ≡ some b)
      × (find? (is_enrollment bid.enrollment_id) t.enrollments
          ≡ some (bound b.binding_id e.core.now row))
commit_binding-binds e bid thumb answer s t b sound h =
    let c = commit_binding-Commits e bid thumb answer s t b h in
    (
      c.row,
      c.agent,
      c.found,
      c.registered,
      c.accepted,
      c.expected,
      Commits-active e bid answer s t b c sound,
      Commits-bound e bid answer s t b c,
    )

-- A grant is exchanged once: in the state that the exchange left, whatever is asked of the enrollment,
-- at any time and with any answer of the runtime, the exchange leaves the state as it was.
pub commit_binding-once :
    (e : Env) (bid : Bid) (thumb : String) (answer : Answer) (s t : Db) (b : Binding)
    → commit_binding e bid thumb answer s ≡ done b t
    → (e' : Env) (bid' : Bid) (thumb' : String) (answer' : Answer)
    → bid'.enrollment_id ≡ bid.enrollment_id
    → db_session (commit_binding e' bid' thumb' answer') t ≡ t
unfolding db_session
commit_binding-once e bid thumb answer s t b h e' bid' thumb' answer' same =
    elim (Outcome-cases (commit_binding e' bid' thumb' answer' t)) [
      | inl (b', t', again) ↦
          let c = commit_binding-Commits e bid thumb answer s t b h in
          let d = commit_binding-Commits e' bid' thumb' answer' t t' b' again in
          let left = Commits-bound e bid answer s t b c in
          let found = d.found in
          let authorized = d.accepted.authorized in
          absurd (
            bound_row-closed bid.enrollment_id b.binding_id e.core.now c.row d.row t.enrollments
              left (subst (λ x. find? (is_enrollment x) t.enrollments ≡ some d.row) same found)
              authorized)
      | inr (error, t', raises) ↦ ground (arith, raises)
    ]
