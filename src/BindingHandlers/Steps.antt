-- ===== src/BindingHandlers/Steps.antt =====
-- All the writers of `runtime_bindings`: the handlers of
-- kiwi_catalog/api/handlers/cloud_binding.py and the calls of
-- kiwi_catalog/services/binding_requests.py, each in a transaction of its own.
use kiwi_catalog.Prelude.{String, Option, inl, inr, List, [], ◌∷◌, ◌≡◌}
use kiwi_catalog.Action.{done, Action, Outcome-cases, db_session}
use kiwi_catalog.RuntimeAccess.Parse.{Json}
use kiwi_catalog.BindingRequests.Single.{IsSound}
use kiwi_catalog.BindingRequests.Steps.{
  Call as RequestCall, serve as serve_request, serve-IsSound as serve_request-IsSound,
}
use kiwi_catalog.BindingRequests.Store.{Db as Core}
use kiwi_catalog.BindingHandlers.{create_runtime_binding, revoke_runtime_binding}
use kiwi_catalog.BindingHandlers.Changes.{Change-IsSound, create_runtime_binding-Change}
use kiwi_catalog.BindingHandlers.Commit.{commit_binding-Commits}
use kiwi_catalog.BindingHandlers.Exchange.{Commits-Change}
use kiwi_catalog.BindingHandlers.Grants.{on_core, open_challenge, commit_binding}
use kiwi_catalog.BindingHandlers.Opening.{open_challenge-Keeps}
use kiwi_catalog.BindingHandlers.Revocation.{revoke_runtime_binding-Change}
use kiwi_catalog.BindingHandlers.Store.{Db, Env, Offer, Auth, Bid, Answer}

pub data Call : Type 0 where
  requests : RequestCall → Call
  create : Env → String → Offer → Auth → Option Json → Call
  revoke : Env → String → String → Auth → Call
  open_grant : Env → Bid → Call
  commit : Env → Bid → String → Answer → Call

unfoldable pub serve : Call → Db → Db
serve (requests c) db = record db { core = serve_request c db.core }
serve (create e a o auth access) db =
    db_session (on_core (create_runtime_binding e.core a o auth access)) db
serve (revoke e a id auth) db = db_session (on_core (revoke_runtime_binding e.core a id auth)) db
serve (open_grant e bid) db = db_session (open_challenge e bid) db
serve (commit e bid thumb answer) db = db_session (commit_binding e bid thumb answer) db

unfoldable pub serve_all : List Call → Db → Db
serve_all [] db = db
serve_all (c ∷ cs) db = serve_all cs (serve c db)

-- A session on the core keeps what its action keeps.
on_core-IsSound :
    (m : Action Core Unit) (db : Db)
    → ((t : Core) → m db.core ≡ done tt t → IsSound t.bindings)
    → IsSound db.core.bindings
    → IsSound (db_session (on_core m) db).core.bindings
unfolding db_session
on_core-IsSound m db keeps sound = elim (Outcome-cases (m db.core)) [
  | inl (u, t, h) ↦ rw h (keeps t h)
  | inr (error, t, h) ↦ rw h sound
]

pub serve-IsSound :
    (c : Call) (db : Db) → IsSound db.core.bindings → IsSound (serve c db).core.bindings
unfolding serve db_session
serve-IsSound (requests c) db sound = serve_request-IsSound c db.core sound
serve-IsSound (create e a o auth access) db sound =
    on_core-IsSound (create_runtime_binding e.core a o auth access) db
      (λ t h.
        Change-IsSound (create_runtime_binding-Change e.core a o auth access db.core t h) sound)
      sound
serve-IsSound (revoke e a id auth) db sound =
    on_core-IsSound (revoke_runtime_binding e.core a id auth) db
      (λ t h. Change-IsSound (revoke_runtime_binding-Change e.core a id auth db.core t h) sound)
      sound
serve-IsSound (open_grant e bid) db sound = elim (Outcome-cases (open_challenge e bid db)) [
  | inl (o, t, h) ↦ rw (h, (open_challenge-Keeps e bid db t o h).bindings) sound
  | inr (error, t, h) ↦ rw h sound
]
serve-IsSound (commit e bid thumb answer) db sound =
    elim (Outcome-cases (commit_binding e bid thumb answer db)) [
      | inl (b, t, h) ↦ rw h (
          Change-IsSound
            (Commits-Change e bid answer db t b
              (commit_binding-Commits e bid thumb answer db t b h))
            sound)
      | inr (error, t, h) ↦ rw h sound
    ]

-- Whatever sequence of calls is served, by merchants, administrators, runtimes and devices, at any
-- times: from a sound table of bindings on, every agent has at most one active binding, no two
-- bindings share an id, and no two bindings of an agent share a version.
pub bindings-IsSound :
    (cs : List Call) (db : Db) → IsSound db.core.bindings → IsSound (serve_all cs db).core.bindings
unfolding serve_all
bindings-IsSound [] db sound = sound
bindings-IsSound (c ∷ cs) db sound = bindings-IsSound cs (serve c db) (serve-IsSound c db sound)
