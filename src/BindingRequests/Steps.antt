-- ===== src/BindingRequests/Steps.antt =====
-- The calls of kiwi_catalog/services/binding_requests.py as transactions that follow one another,
-- and what they keep true.
use kiwi_catalog.Prelude.{ℕ, String, inl, inr, List, [], ◌∷◌}
use kiwi_catalog.Action.{Outcome-cases, db_session}
use kiwi_catalog.BindingRequests.{confirm_request, reject_request, Confirmed}
use kiwi_catalog.BindingRequests.Requests.{create_request, list_pending_requests, expire_stale}
use kiwi_catalog.BindingRequests.Decisions.{
  Creates, Confirms, Rejects, create_request-done, confirm_request-done, reject_request-done,
  list_pending_requests-done,
}
use kiwi_catalog.BindingRequests.Single.{IsSound, write_binding-IsSound}
use kiwi_catalog.BindingRequests.Store.{Db, Env, Proposal}

-- A call, with the merchant of its session, the agent and the request.
pub data Call : Type 0 where
  create : Env → Proposal → Call
  list_pending : Env → String → String → Call
  confirm : Env → String → String → String → Call
  reject : Env → String → String → String → String → Call

-- The call in a session of its own.
unfoldable pub serve : Call → Db → Db
serve (create e p) = db_session (create_request e p)
serve (list_pending e m a) = db_session (list_pending_requests e m a)
serve (confirm e m a id) = db_session (confirm_request e m a id)
serve (reject e m a id note) = db_session (reject_request e m a id note)

unfoldable pub serve_all : List Call → Db → Db
serve_all [] db = db
serve_all (c ∷ cs) db = serve_all cs (serve c db)

-- What a session may have done to the state: nothing, or one of the four.
pub data Served (db : Db) : Db → Type 0 where
  nothing : Served db db
  created : {t : Db} (e : Env) (p : Proposal) → Creates e p db t → Served db t
  listed : (a : String) (now : ℕ) → Served db (expire_stale a now db)
  confirmed :
      {t : Db} (e : Env) (a id : String) (c : Confirmed) → Confirms e a id db t c → Served db t
  rejected : {t : Db} (e : Env) (a id note : String) → Rejects e a id note db t → Served db t

pub serve-Served : (c : Call) (db : Db) → Served db (serve c db)
unfolding serve db_session
serve-Served (create e p) db = elim (Outcome-cases (create_request e p db)) [
  | inl (r, t, h) ↦ rw h (Served.created e p (create_request-done e p db t r h))
  | inr (error, t, h) ↦ rw h Served.nothing
]
serve-Served (list_pending e m a) db = elim (Outcome-cases (list_pending_requests e m a db)) [
  | inl (items, t, h) ↦
      let (g, same) = list_pending_requests-done e m a db t items h in
      rw (h, same) (Served.listed g.catalog_agent_id e.now)
  | inr (error, t, h) ↦ rw h Served.nothing
]
serve-Served (confirm e m a id) db = elim (Outcome-cases (confirm_request e m a id db)) [
  | inl (c, t, h) ↦ rw h (Served.confirmed e a id c (confirm_request-done e m a id db t c h))
  | inr (error, t, h) ↦ rw h Served.nothing
]
serve-Served (reject e m a id note) db = elim (Outcome-cases (reject_request e m a id note db)) [
  | inl (u, t, h) ↦ rw h (Served.rejected e a id note (reject_request-done e m a id note db t h))
  | inr (error, t, h) ↦ rw h Served.nothing
]

Served-IsSound : {s t : Db} → Served s t → IsSound s.bindings → IsSound t.bindings
Served-IsSound nothing sound = sound
Served-IsSound (created e p c) sound = rw c.bindings sound
Served-IsSound (listed a now) sound = unfold expire_stale in sound
Served-IsSound {s} {t} (confirmed e a id c was) sound =
    write_binding-IsSound was.agent was.request e.now s.bindings t.bindings c.binding sound
      was.written
Served-IsSound (rejected e a id note r) sound = rw r.bindings sound

pub serve-IsSound : (c : Call) (db : Db) → IsSound db.bindings → IsSound (serve c db).bindings
serve-IsSound c db = Served-IsSound (serve-Served c db)

-- Whatever sequence of requests, confirmations and rejections is served, by any merchants and at
-- any times: from a sound table of bindings on, every agent has at most one active binding, no two
-- bindings share an id, and no two bindings of an agent share a version.
pub serve_all-IsSound :
    (cs : List Call) (db : Db) → IsSound db.bindings → IsSound (serve_all cs db).bindings
unfolding serve_all
serve_all-IsSound [] db sound = sound
serve_all-IsSound (c ∷ cs) db sound = serve_all-IsSound cs (serve c db) (serve-IsSound c db sound)
