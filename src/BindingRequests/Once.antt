-- ===== src/BindingRequests/Once.antt =====
-- A request that waits for a merchant is decided once
-- (kiwi_catalog/services/binding_requests.py).
use kiwi_catalog.Prelude.{
  ℕ, String, ◌≡◌, Bool, refl, sym, ap, ◌∙◌, subst, inl, inr, true, false, some, List, [], ◌∷◌, ◌&&◌,
  ◌=ₛ◌, strip, leb, arith, eq_iff, Bool-cases, prefix,
}
use kiwi_catalog.Prelude.Table.{find?, update}
use kiwi_catalog.Prelude.Table.Laws.{
  find?-update_kept, find?-insert_found, find?-true, find?-count_zero,
}
use kiwi_catalog.Prelude.Table.Keyed.{Distinct, Distinct-update, Distinct-insert, find?-by_key}
use kiwi_catalog.Action.{Outcome-cases, db_session}
use kiwi_catalog.BindingRequests.{confirm_request, reject_request, settle_requests}
use kiwi_catalog.BindingRequests.Requests.{
  expire_stale, pending_of, is_request, decided, noted, new_request,
}
use kiwi_catalog.BindingRequests.Decisions.{confirm_request-done, reject_request-done}
use kiwi_catalog.BindingRequests.Steps.{Call, serve, serve_all, Served, serve-Served}
use kiwi_catalog.BindingRequests.Store.{Request, Db, Env}

abbrev pub UniqueIds : List Request → Type 0
UniqueIds rows = Distinct (λ r. r.binding_request_id) rows

-- The request of this id is `r`, and it is not pending.
pub record Closed (id : String) (r : Request) (rows : List Request) : Type 0 where
  pub ids : UniqueIds rows
  pub found : find? (is_request id) rows ≡ some r
  pub closed : (r.status =ₛ "pending") ≡ false

module _ (id : String) (r : Request) where
  -- An update that leaves the ids alone and does not cover the request.
  Closed-update :
      (q : Request → Bool) (f : Request → Request) (rows : List Request)
      → ((x : Request) → (f x).binding_request_id ≡ x.binding_request_id)
      → q r ≡ false
      → Closed id r rows
      → Closed id r (update q f rows)
  Closed-update q f rows keep apart c = record {
    ids = Distinct-update (λ x. x.binding_request_id) q f rows keep c.ids;
    found = find?-update_kept (is_request id) q f rows r (λ x _. rw (keep x)) c.found apart;
    closed = c.closed;
  }

  Closed-expire_stale :
      (a : String) (now : ℕ) (db : Db)
      → Closed id r db.requests
      → Closed id r (expire_stale a now db).requests
  unfolding expire_stale
  Closed-expire_stale a now db c =
      Closed-update (λ x. pending_of a x && leb x.expires_at now) (decided "expired" now)
        db.requests (λ x. refl) (ground (arith, c.closed)) c

  -- The id of a pending request is another one.
  other_id :
      strip id ≡ id
      → (id' a : String) (req : Request) (rows : List Request) → Closed id r rows
      → find? (λ x. is_request (strip id') x && x.catalog_agent_id =ₛ a) rows ≡ some req
      → (req.status =ₛ "pending") ≡ true
      → (r.binding_request_id =ₛ id') ≡ false
  other_id plain id' a req rows c loaded waiting = elim (Bool-cases (r.binding_request_id =ₛ id')) [
    | inr apart ↦ apart
    | inl same ↦
        let key : r.binding_request_id ≡ id =
          (eq_iff r.binding_request_id id).0 (find?-true (is_request id) rows r c.found) in
        let given : id' ≡ id = sym ((eq_iff r.binding_request_id id').0 same) ∙ key in
        let stripped : strip id' ≡ id = ap strip given ∙ plain in
        let hit =
          find?-true (λ x. is_request (strip id') x && x.catalog_agent_id =ₛ a) rows req loaded in
        let its : req.binding_request_id ≡ id =
          ground (arith, hit, stripped, eq_iff req.binding_request_id (strip id')) in
        let again =
          find?-by_key (λ x. x.binding_request_id)
            (λ x. is_request (strip id') x && x.catalog_agent_id =ₛ a) rows req c.ids loaded in
        let moved : find? (is_request id) rows ≡ some req =
          subst (λ k. find? (is_request k) rows ≡ some req) its again in
        absurd (ground (arith, c.found, moved, c.closed, waiting))
  ]

  Served-Closed :
      strip id ≡ id → {s t : Db} → Served s t → Closed id r s.requests → Closed id r t.requests
  Served-Closed plain Served.nothing c = c
  Served-Closed plain {s} (Served.created e p was) c =
      let rows = (expire_stale p.agent.catalog_agent_id e.now s).requests in
      let row = new_request e p was.nonce in
      let k = Closed-expire_stale p.agent.catalog_agent_id e.now s c in
      rw was.inserted (record {
        ids =
            Distinct-insert (λ x. x.binding_request_id) row rows
              (find?-count_zero (is_request e.request_id) rows was.fresh) k.ids;
        found = find?-insert_found (is_request id) row rows r k.found;
        closed = k.closed;
      })
  Served-Closed plain {s} (Served.listed a now) c = Closed-expire_stale a now s c
  Served-Closed plain {s} (Served.confirmed e a id' done_with was) c =
      let b = was.agent.catalog_agent_id in
      let rows = (expire_stale b e.now s).requests in
      let k = Closed-expire_stale b e.now s c in
      let apart = other_id plain id' b was.request rows k was.loaded was.pending in
      let first =
        Closed-update (is_request id') (decided "confirmed" e.now) rows (λ x. refl) apart k in
      rw was.settled (
        unfold settle_requests in
        Closed-update (pending_of b) _ (update (is_request id') (decided "confirmed" e.now) rows)
          (λ x. refl) (ground (arith, c.closed)) first)
  Served-Closed plain {s} (Served.rejected e a id' note was) c =
      let b = was.agent.catalog_agent_id in
      let rows = (expire_stale b e.now s).requests in
      let k = Closed-expire_stale b e.now s c in
      let apart = other_id plain id' b was.request rows k was.loaded was.pending in
      rw was.settled (
        Closed-update (is_request id') (noted "rejected" e.now (prefix 500 (strip note))) rows
          (λ x. refl) apart k)

  serve_all-Closed :
      strip id ≡ id
      → (cs : List Call) (db : Db) → Closed id r db.requests
      → Closed id r (serve_all cs db).requests
  unfolding serve_all
  serve_all-Closed plain [] db c = c
  serve_all-Closed plain (q ∷ cs) db c =
      serve_all-Closed plain cs (serve q db) (Served-Closed plain (serve-Served q db) c)

  -- No decision on it goes through.
  confirm-refused :
      strip id ≡ id
      → (e : Env) (m a : String) (db : Db) → Closed id r db.requests
      → db_session (confirm_request e m a id) db ≡ db
  unfolding db_session
  confirm-refused plain e m a db c = elim (Outcome-cases (confirm_request e m a id db)) [
    | inr (error, t, h) ↦ rw h refl
    | inl (result, t, h) ↦
        let was = confirm_request-done e m a id db t result h in
        let b = was.agent.catalog_agent_id in
        let k = Closed-expire_stale b e.now db c in
        let apart = other_id plain id b was.request _ k was.loaded was.pending in
        absurd (ground (arith, apart, find?-true (is_request id) db.requests r c.found))
  ]

  reject-refused :
      strip id ≡ id
      → (e : Env) (m a note : String) (db : Db) → Closed id r db.requests
      → db_session (reject_request e m a id note) db ≡ db
  unfolding db_session
  reject-refused plain e m a note db c = elim (Outcome-cases (reject_request e m a id note db)) [
    | inr (error, t, h) ↦ rw h refl
    | inl (result, t, h) ↦
        let was = reject_request-done e m a id note db t h in
        let b = was.agent.catalog_agent_id in
        let k = Closed-expire_stale b e.now db c in
        let apart = other_id plain id b was.request _ k was.loaded was.pending in
        absurd (ground (arith, apart, find?-true (is_request id) db.requests r c.found))
  ]

-- A decided request stays decided. Where the request ids are unique and the request of an id is not
-- pending (its id has no space at its ends), then after any further sequence of calls it is the same
-- row, and neither a confirmation nor a rejection of it, by any merchant for any agent, changes
-- anything in the database.
pub serve_all-decided :
    (id : String) (r : Request) (db : Db)
    → UniqueIds db.requests
    → find? (is_request id) db.requests ≡ some r
    → (r.status =ₛ "pending") ≡ false
    → strip id ≡ id
    → (cs : List Call) (e : Env) (m a note : String)
    → (find? (is_request id) (serve_all cs db).requests ≡ some r)
      × (db_session (confirm_request e m a id) (serve_all cs db) ≡ serve_all cs db)
      × (db_session (reject_request e m a id note) (serve_all cs db) ≡ serve_all cs db)
serve_all-decided id r db ids found closed plain cs e m a note =
    let start : Closed id r db.requests = record { ids = ids; found = found; closed = closed } in
    let after = serve_all-Closed id r plain cs db start in
    (
      after.found,
      confirm-refused id r plain e m a (serve_all cs db) after,
      reject-refused id r plain e m a note (serve_all cs db) after,
    )
