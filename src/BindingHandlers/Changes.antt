-- ===== src/BindingHandlers/Changes.antt =====
-- What the handlers of kiwi_catalog/api/handlers/cloud_binding.py may do to the bindings.
use kiwi_catalog.Prelude.{
  ℕ, String, ◌≡◌, refl, inl, inr, Option, none, some, List, is_some, arith, eq_iff, Bool-cases,
  Option-cases, strip, subst, sym,
}
use kiwi_catalog.Prelude.Table.{find?, update}
use kiwi_catalog.Prelude.Table.Laws.{find?-true}
use kiwi_catalog.Action.{done, raise_if, from_result, then_do-eq-done}
use kiwi_catalog.Result.{Error}
use Prim.Native.String.{◌++◌}
use kiwi_catalog.RuntimeAccess.Parse.{Json}
use kiwi_catalog.AgentCatalog.{is_agent}
use kiwi_catalog.AgentCatalog.Store.{Agent}
use kiwi_catalog.BindingRequests.{has_id, revoked}
use kiwi_catalog.BindingRequests.Decisions.{create_request-done}
use kiwi_catalog.BindingRequests.Endpoints.{active_binding, sync_cloud_endpoints}
use kiwi_catalog.BindingRequests.Requests.{create_request}
use kiwi_catalog.BindingRequests.Single.{IsSound}
use kiwi_catalog.BindingRequests.Store.{Binding, Db as Core, Env as CoreEnv}
use kiwi_catalog.BindingHandlers.{
  place_binding, insert_active_binding, staged, activate, proposal, bind_now, request_binding,
  bind_first, rotate, authorized_by, create_runtime_binding,
}
use kiwi_catalog.BindingHandlers.Placement.{
  place_binding-IsSound, revoked-IsSound, insert_active_binding-done,
}
use kiwi_catalog.BindingHandlers.Store.{Offer, Auth, Possession}

-- The rows stay, a binding takes the place of the active one, or one is revoked.
pub data Change (rows : List Binding) : List Binding → Type 0 where
  same : Change rows rows
  placed :
      {rows' : List Binding} (g : Agent) (o : Offer) (now : ℕ) (b : Binding)
      → place_binding g o (active_binding g.catalog_agent_id rows) now rows ≡ done b rows'
      → Change rows rows'
  closed : (id : String) (now : ℕ) → Change rows (update (has_id id) (revoked now) rows)

pub Change-IsSound : {rows rows' : List Binding} → Change rows rows' → IsSound rows → IsSound rows'
Change-IsSound same sound = sound
Change-IsSound {rows} {rows'} (placed g o now b h) sound =
    place_binding-IsSound g o (active_binding g.catalog_agent_id rows) now rows rows' b sound refl h
Change-IsSound {rows} (closed id now) sound = revoked-IsSound id now rows sound

pub inserted :
    (e : CoreEnv) (g : Agent) (o : Offer) (existing : Option Binding) (actor : String) (s t : Core)
    (b : Binding)
    → active_binding g.catalog_agent_id s.bindings ≡ existing
    → insert_active_binding e g o existing actor s ≡ done b t
    → Change s.bindings t.bindings
unfolding sync_cloud_endpoints
inserted e g o existing actor s t b current h =
    let (rows, p, after) = insert_active_binding-done e g o existing actor s t b h in
    subst (λ (x : Core). Change s.bindings x.bindings) (sym after)
      (Change.placed g o e.now b (rw current p))

staged-bindings :
    (e : CoreEnv) (a : String) (access : Option Json) (s t : Core) (n : ℕ)
    → staged e a access s ≡ done n t
    → t.bindings ≡ s.bindings
staged-bindings e a none s t n h = ground arith
staged-bindings e a (some json) s t n h = ground arith

activate-bindings :
    (e : CoreEnv) (a : String) (version : ℕ) (s t : Core)
    → activate e a version s ≡ done tt t
    → t.bindings ≡ s.bindings
activate-bindings e a version s t h = ground arith

authorized_by-bindings :
    (e : CoreEnv) (auth : Auth) (admin runtime : String) (s t : Core) (actor : String)
    → authorized_by e auth admin runtime s ≡ done actor t
    → t.bindings ≡ s.bindings
authorized_by-bindings e auth admin runtime s t actor h = ground arith

bind_now-Change :
    (e : CoreEnv) (g : Agent) (o : Offer) (access : Option Json) (s t : Core)
    → active_binding g.catalog_agent_id s.bindings ≡ none
    → bind_now e g o access s ≡ done tt t
    → Change s.bindings t.bindings
unfolding bind_now
bind_now-Change e g o access s t free h =
    let a = g.catalog_agent_id in
    let actor = "admin+possession:" ++ o.key_id in
    let (b, s1, inserts, rest1) = then_do-eq-done (insert_active_binding e g o none actor s) _ h in
    let (version, s2, stages, rest2) = then_do-eq-done (staged e a access s1) _ rest1 in
    let kept2 = staged-bindings e a access s1 s2 version stages in
    let kept3 = activate-bindings e a version s2 t rest2 in
    rw (kept3, kept2) (inserted e g o none actor s s1 b free inserts)

request_binding-bindings :
    (e : CoreEnv) (g : Agent) (o : Offer) (p : Possession) (access : Option Json) (s t : Core)
    → request_binding e g o p access s ≡ done tt t
    → t.bindings ≡ s.bindings
unfolding request_binding
request_binding-bindings e g o p access s t h =
    let a = g.catalog_agent_id in
    let (version, s1, stages, rest1) = then_do-eq-done (staged e a access s) _ h in
    let (r, s2, made, rest2) =
      then_do-eq-done (create_request e (proposal g o p version) s1) _ rest1 in
    let kept1 = staged-bindings e a access s s1 version stages in
    let kept2 = (create_request-done e (proposal g o p version) s1 s2 r made).bindings in
    ground (arith, kept1, kept2)

bind_first-Change :
    (e : CoreEnv) (g : Agent) (o : Offer) (auth : Auth) (access : Option Json) (s t : Core)
    → active_binding g.catalog_agent_id s.bindings ≡ none
    → bind_first e g o auth access s ≡ done tt t
    → Change s.bindings t.bindings
unfolding bind_first
bind_first-Change e g o auth access s t free h =
    let (possession, s0, proved, rest) = then_do-eq-done (from_result auth.possession s) _ h in
    let start : s0 ≡ s = ground arith in
    elim (Bool-cases auth.is_admin) [
      | inl admin ↦ bind_now-Change e g o access s t free (ground (arith, start))
      | inr guest ↦
          let kept : t.bindings ≡ s.bindings =
            request_binding-bindings e g o possession access s t (ground (arith, start)) in
          rw kept Change.same
    ]

rotate-Change :
    (e : CoreEnv) (g : Agent) (o : Offer) (auth : Auth) (access : Option Json) (old : Binding)
    (s t : Core)
    → active_binding g.catalog_agent_id s.bindings ≡ some old
    → rotate e g o auth access old s ≡ done tt t
    → Change s.bindings t.bindings
unfolding rotate
rotate-Change e g o auth access old s t current h =
    let by_admin = "admin+possession:" ++ o.key_id in
    let by_runtime = "runtime:" ++ old.binding_id in
    let (u, s0, bare, rest) = then_do-eq-done (raise_if (is_some access) Error.validation s) _ h in
    let same0 : s0 ≡ s = ground arith in
    let (actor, s1, authorized, rest1) =
      then_do-eq-done (authorized_by e auth by_admin by_runtime s0) _ rest in
    let (b, s2, inserts, rest2) =
      then_do-eq-done (insert_active_binding e g o (some old) actor s1) _ rest1 in
    let kept1 = authorized_by-bindings e auth by_admin by_runtime s0 s1 actor authorized in
    let kept : s1.bindings ≡ s.bindings = ground (arith, kept1, same0) in
    let change = inserted e g o (some old) actor s1 s2 b (rw kept current) inserts in
    let ends : s2 ≡ t = ground arith in
    subst (λ x. Change x t.bindings) kept
      (subst (λ (x : Core). Change s1.bindings x.bindings) ends change)

-- A request to bind that is served.
pub create_runtime_binding-Change :
    (e : CoreEnv) (a : String) (o : Offer) (auth : Auth) (access : Option Json) (s t : Core)
    → create_runtime_binding e a o auth access s ≡ done tt t
    → Change s.bindings t.bindings
unfolding create_runtime_binding
create_runtime_binding-Change e a o auth access s t h =
    elim (Option-cases (find? (is_agent (strip a)) s.agents)) [
      | inl missing ↦ absurd (ground (arith, missing))
      | inr (g, found) ↦
          let own : g.catalog_agent_id ≡ strip a = ground (
            arith,
            find?-true (is_agent (strip a)) s.agents g found,
            eq_iff g.catalog_agent_id (strip a),
          ) in
          elim (Option-cases (active_binding (strip a) s.bindings)) [
            | inl free ↦
                let h1 : bind_first e g o auth access s ≡ done tt t = ground (arith, found, free) in
                bind_first-Change e g o auth access s t (rw own free) h1
            | inr (old, current) ↦
                let h1 : rotate e g o auth access old s ≡ done tt t =
                  ground (arith, found, current) in
                rotate-Change e g o auth access old s t (rw own current) h1
          ]
    ]
