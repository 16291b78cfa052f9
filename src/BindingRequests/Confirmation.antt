-- ===== src/BindingRequests/Confirmation.antt =====
-- What the confirmation of a request makes of the bindings and the requests
-- (kiwi_catalog/services/binding_requests.py).
use mathlib.Core.Option
use kiwi_catalog.Prelude.{
  ℕ, ◌<◌, String, Bool, ◌≡◌, refl, sym, ap, ◌∙◌, subst, true, inl, inr, none, some, ◌&&◌, ◌=ₛ◌,
  strip, leb, arith, eq_iff, All, All-map, Bool-cases, Option-cases, if◌then◌else◌,
}
use kiwi_catalog.Prelude.Table.{find?, update, count}
use kiwi_catalog.Prelude.Table.Laws.{find?-true, find?-update, count-update_none}
use kiwi_catalog.Prelude.Table.Greatest.{All-le-max_of}
use kiwi_catalog.Action.{done}
use kiwi_catalog.AgentCatalog.{is_agent}
use kiwi_catalog.BindingRequests.{confirm_request, settle_requests, Confirmed, of_agent}
use kiwi_catalog.BindingRequests.Requests.{expire_stale, pending_of, is_request, decided}
use kiwi_catalog.BindingRequests.Decisions.{confirm_request-done}
use kiwi_catalog.BindingRequests.Endpoints.{active_binding}
use kiwi_catalog.BindingRequests.Single.{IsSound, write_binding-done, write_binding-active}
use kiwi_catalog.BindingRequests.Store.{Request, Db, Env}

-- A request that is pending after the stale ones expired was pending, and was not stale.
expire_stale-pending :
    (a : String) (now : ℕ) (db : Db) (p : Request → Bool) (req : Request)
    → ((x : Request) → p (decided "expired" now x) ≡ p x)
    → find? p (expire_stale a now db).requests ≡ some req
    → pending_of a req ≡ true
    → (find? p db.requests ≡ some req) × (now < req.expires_at)
unfolding expire_stale
expire_stale-pending a now db p req keep h waiting =
    let q = λ (x : Request). pending_of a x && leb x.expires_at now in
    let f = decided "expired" now in
    let moved : Option.map (λ x. if q x then f x else x) (find? p db.requests) ≡ some req =
      sym (find?-update p q f db.requests (λ x _. keep x)) ∙ h in
    elim (Option-cases (find? p db.requests)) [
      | inl missing ↦
          let nothing : none ≡ some req =
            subst (λ o. Option.map (λ x. if q x then f x else x) o ≡ some req) missing moved in
          cc
      | inr (old, found) ↦
          let result : some (if q old then f old else old) ≡ some req =
            subst (λ o. Option.map (λ x. if q x then f x else x) o ≡ some req) found moved in
          elim (Bool-cases (q old)) [
            | inl stale ↦
                let gone : req ≡ f old = ground (arith, result, stale) in
                let again : pending_of a (f old) ≡ true =
                  subst (λ x. pending_of a x ≡ true) gone waiting in
                absurd (ground (arith, again))
            | inr kept ↦
                let same : old ≡ req = ground (arith, result, kept) in
                (ground (arith, found, same), ground (arith, same, kept, waiting))
          ]
    ]

-- After the settlement nothing of the agent is pending.
settle_requests-none :
    (a id : String) (now : ℕ) (db : Db)
    → count (pending_of a) (settle_requests a id now db).requests ≡ 0
unfolding settle_requests
settle_requests-none a id now db =
    count-update_none (pending_of a) (pending_of a) _
      (update (is_request id) (decided "confirmed" now) db.requests) (λ x e. ground arith)
      (λ x e. e)

-- A confirmation that returns has bound the agent to what was requested, from a sound table of
-- bindings. The request was pending before and not yet stale; the binding that the catalog serves
-- for the agent is the new one, with the origin, the endpoint and the key of that request; its
-- version is greater than that of every earlier binding of the agent; and no request of the agent
-- is pending any more.
pub confirm_request-binds :
    (e : Env) (m a id : String) (s t : Db) (c : Confirmed)
    → IsSound s.bindings
    → confirm_request e m a id s ≡ done c t
    → (active_binding (strip a) t.bindings ≡ some c.binding)
      × All
          (λ b. of_agent (strip a) b ≡ true → b.binding_version < c.binding.binding_version)
          s.bindings
      × (count (pending_of (strip a)) t.requests ≡ 0)
      × ((req : Request) × (find?
              (λ r. is_request (strip id) r && r.catalog_agent_id =ₛ strip a)
              s.requests
            ≡ some req)
          × (req.status ≡ "pending")
          × (e.now < req.expires_at)
          × (c.binding.runtime_origin ≡ req.runtime_origin)
          × (c.binding.a2a_endpoint ≡ req.a2a_endpoint)
          × (c.binding.key_jwk_json ≡ req.key_jwk_json))
confirm_request-binds e m a id s t c sound h =
    let was = confirm_request-done e m a id s t c h in
    let g = was.agent in
    let req = was.request in
    let key : g.catalog_agent_id ≡ strip a =
      (eq_iff g.catalog_agent_id (strip a)).0
        (find?-true (is_agent (strip a)) s.agents g was.owned) in
    let (row, _, _, _) =
      write_binding-done g req e.now s.bindings t.bindings c.binding was.written in
    let p = λ (r : Request). is_request (strip id) r && r.catalog_agent_id =ₛ g.catalog_agent_id in
    let hit = find?-true p (expire_stale g.catalog_agent_id e.now s).requests req was.loaded in
    let (asked, young) =
      expire_stale-pending g.catalog_agent_id e.now s p req (λ x. refl) was.loaded
        (ground (arith, hit, was.pending)) in
    (
      subst (λ k. active_binding k t.bindings ≡ some c.binding) key
          (write_binding-active g req e.now s.bindings t.bindings c.binding sound was.written
            ∙ ap some (sym row)),
      subst
          (λ k.
            All (λ b. of_agent k b ≡ true → b.binding_version < c.binding.binding_version)
              s.bindings)
          key
          (All-map (λ x below own. ground (arith, below own, row)) s.bindings
            (All-le-max_of (of_agent g.catalog_agent_id) (λ b. b.binding_version) s.bindings)),
      subst (λ k. count (pending_of k) t.requests ≡ 0) key
          (subst (λ rows. count (pending_of g.catalog_agent_id) rows ≡ 0) (sym was.settled)
            (settle_requests-none g.catalog_agent_id id e.now
              (expire_stale g.catalog_agent_id e.now s))),
      (
        req,
        subst
            (λ k.
              find? (λ r. is_request (strip id) r && r.catalog_agent_id =ₛ k) s.requests ≡ some req)
            key asked,
        (eq_iff req.status "pending").0 was.pending,
        young,
        ground (arith, row),
        ground (arith, row),
        ground (arith, row),
      ),
    )
