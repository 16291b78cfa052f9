-- ===== src/BindingHandlers/Rebinding.antt =====
-- An agent whose bindings are all revoked, and `_insert_active_binding`
-- (kiwi_catalog/api/handlers/cloud_binding.py), which numbers from 1 where nothing is active.
use Prim.Native.String.{◌++◌}
use kiwi_catalog.Prelude.{
  String, ◌≡◌, refl, inl, inr, true, Option, none, some, arith, eq_iff, Option-cases, strip, subst,
  sym,
}
use kiwi_catalog.Prelude.Table.{find?}
use kiwi_catalog.Prelude.Table.Laws.{find?-true}
use kiwi_catalog.Action.{done, Outcome-cases, db_session, then_do-eq-done}
use kiwi_catalog.RuntimeAccess.Parse.{Json}
use kiwi_catalog.AgentCatalog.{is_agent}
use kiwi_catalog.AgentCatalog.Store.{Agent}
use kiwi_catalog.BindingRequests.Endpoints.{active_binding, is_binding}
use kiwi_catalog.BindingRequests.Store.{Binding, Db as Core, Env as CoreEnv}
use kiwi_catalog.BindingHandlers.{
  bind_now, bind_first, create_runtime_binding, insert_active_binding,
}
use kiwi_catalog.BindingHandlers.Placement.{insert_active_binding-done, place_binding-done}
use kiwi_catalog.BindingHandlers.Commit.{commit_binding-Commits}
use kiwi_catalog.BindingHandlers.Exchange.{own_agent}
use kiwi_catalog.BindingHandlers.Grants.{commit_binding}
use kiwi_catalog.BindingHandlers.Store.{Db, Env, Offer, Auth, Bid, Answer}

-- The first version is taken.
insert_active_binding-taken :
    (e : CoreEnv) (g : Agent) (o : Offer) (actor a : String) (s t : Core) (b r : Binding)
    → g.catalog_agent_id ≡ a
    → find? (is_binding a 1) s.bindings ≡ some r
    → insert_active_binding e g o none actor s ≡ done b t
    → ⊥
insert_active_binding-taken e g o actor a s t b r own taken h =
    let (rows, placed, _) = insert_active_binding-done e g o none actor s t b h in
    let (_, _, unused, _) = place_binding-done g o none e.now s.bindings rows b placed in
    let free : find? (is_binding a 1) s.bindings ≡ none =
      subst (λ x. find? (is_binding x 1) s.bindings ≡ none) own unused in
    cc

commit_binding-refused :
    (e : Env) (bid : Bid) (thumb : String) (answer : Answer) (s t : Db) (b r : Binding)
    → active_binding bid.agent_id s.core.bindings ≡ none
    → find? (is_binding bid.agent_id 1) s.core.bindings ≡ some r
    → commit_binding e bid thumb answer s ≡ done b t
    → ⊥
commit_binding-refused e bid thumb answer s t b r free taken h =
    let c = commit_binding-Commits e bid thumb answer s t b h in
    let rows = sym c.places.rows in
    let free' : active_binding bid.agent_id c.places.before.bindings ≡ none =
      subst (λ x. active_binding bid.agent_id x ≡ none) rows free in
    insert_active_binding-taken e.core c.agent bid.offer ("enrollment:" ++ bid.enrollment_id)
      bid.agent_id c.places.before c.places.after b r (own_agent e bid answer s t b c)
      (subst (λ x. find? (is_binding bid.agent_id 1) x ≡ some r) rows taken)
      (subst
        (λ x.
          insert_active_binding e.core c.agent bid.offer x ("enrollment:" ++ bid.enrollment_id)
            c.places.before
          ≡ done b c.places.after)
        free' c.places.placed)

bind_now-refused :
    (e : CoreEnv) (g : Agent) (o : Offer) (access : Option Json) (a : String) (s t : Core)
    (r : Binding)
    → g.catalog_agent_id ≡ a
    → find? (is_binding a 1) s.bindings ≡ some r
    → bind_now e g o access s ≡ done tt t
    → ⊥
unfolding bind_now
bind_now-refused e g o access a s t r own taken h =
    let (b, s1, inserts, _) =
      then_do-eq-done (insert_active_binding e g o none ("admin+possession:" ++ o.key_id) s) _ h in
    insert_active_binding-taken e g o ("admin+possession:" ++ o.key_id) a s s1 b r own taken inserts

create_runtime_binding-refused :
    (e : CoreEnv) (a : String) (o : Offer) (auth : Auth) (access : Option Json) (s t : Core)
    (r : Binding)
    → auth.is_admin ≡ true
    → active_binding (strip a) s.bindings ≡ none
    → find? (is_binding (strip a) 1) s.bindings ≡ some r
    → create_runtime_binding e a o auth access s ≡ done tt t
    → ⊥
unfolding create_runtime_binding bind_first
create_runtime_binding-refused e a o auth access s t r admin free taken h =
    elim (Option-cases (find? (is_agent (strip a)) s.agents)) [
      | inl missing ↦ ground (arith, missing)
      | inr (g, found) ↦
          let own : g.catalog_agent_id ≡ strip a = ground (
            arith,
            find?-true (is_agent (strip a)) s.agents g found,
            eq_iff g.catalog_agent_id (strip a),
          ) in
          let first : bind_now e g o access s ≡ done tt t = ground (arith, found, free, admin) in
          bind_now-refused e g o access (strip a) s t r own taken first
    ]

-- Where no binding of an agent is active but the table holds its version 1, as after a revocation, no
-- grant of an enrollment is exchanged and no administrator binds the agent: each session leaves the
-- state as it was, whatever it is given.
pub rebinding-refused :
    (e : Env) (a : String) (bid : Bid) (thumb : String) (answer : Answer) (o : Offer) (auth : Auth)
    (access : Option Json) (db : Db) (r : Binding)
    → bid.agent_id ≡ strip a
    → auth.is_admin ≡ true
    → active_binding (strip a) db.core.bindings ≡ none
    → find? (is_binding (strip a) 1) db.core.bindings ≡ some r
    → (db_session (commit_binding e bid thumb answer) db ≡ db)
      × (db_session (create_runtime_binding e.core a o auth access) db.core ≡ db.core)
unfolding db_session
rebinding-refused e a bid thumb answer o auth access db r same admin free taken = (
  elim (Outcome-cases (commit_binding e bid thumb answer db)) [
    | inl (b, t, h) ↦ absurd (
        commit_binding-refused e bid thumb answer db t b r
          (subst (λ x. active_binding x db.core.bindings ≡ none) (sym same) free)
          (subst (λ x. find? (is_binding x 1) db.core.bindings ≡ some r) (sym same) taken) h)
    | inr (error, t, h) ↦ rw h refl
  ],
  elim (Outcome-cases (create_runtime_binding e.core a o auth access db.core)) [
    | inl (u, t, h) ↦
        absurd
          (create_runtime_binding-refused e.core a o auth access db.core t r admin free taken h)
    | inr (error, t, h) ↦ rw h refl
  ],
)
