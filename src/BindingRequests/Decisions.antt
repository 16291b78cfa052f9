-- ===== src/BindingRequests/Decisions.antt =====
-- What each call of kiwi_catalog/services/binding_requests.py has done when it returned: the
-- bindings and the requests that it leaves.
use kiwi_catalog.Prelude.{
  ℕ, ◌<◌, none, List, String, ◌≡◌, subst, inl, inr, true, some, ◌&&◌, ◌=ₛ◌, strip, prefix, arith,
  Option-cases, truthy, not,
}
use kiwi_catalog.Prelude.Table.{find?, insert, update, count}
use kiwi_catalog.Result.{Error}
use kiwi_catalog.Action.{raise_if, Outcome, done, then_do-eq-done, zoom}
use kiwi_catalog.AgentCatalog.{is_agent}
use kiwi_catalog.AgentCatalog.Store.{Agent}
use kiwi_catalog.BindingRequests.{
  confirm_request, reject_request, write_binding, complete_confirmation, settle_requests, Confirmed,
  invalidate_linked_access_config, linked_version,
}
use kiwi_catalog.BindingRequests.Requests.{
  require_owned_agent, load_pending_request, create_request, expire_stale, is_request, pending_of,
  set_requests, noted, new_request, max_pending, list_pending_requests, pending_request_items,
}
use kiwi_catalog.BindingRequests.Frames.{complete_confirmation-Keeps, invalidate_linked-Keeps}
use kiwi_catalog.BindingRequests.Store.{Binding, Request, Db, Env, Proposal}

pub require_owned_agent-done :
    (m a : String) (s t : Db) (g : Agent)
    → require_owned_agent m a s ≡ done g t
    → (t ≡ s) × (find? (is_agent (strip a)) s.agents ≡ some g)
unfolding require_owned_agent
require_owned_agent-done m a s t g h = ground arith

pub load_pending_request-done :
    (a id : String) (now : ℕ) (s t : Db) (r : Request)
    → load_pending_request a id now s ≡ done r t
    → (t ≡ expire_stale a now s)
      × (find?
            (λ r. is_request (strip id) r && r.catalog_agent_id =ₛ a)
            (expire_stale a now s).requests
          ≡ some r)
      × ((r.status =ₛ "pending") ≡ true)
unfolding load_pending_request
load_pending_request-done a id now s t r h = ground arith

-- What a confirmation that returned has done.
pub record Confirms (e : Env) (a id : String) (s t : Db) (c : Confirmed) : Type 0 where
  pub agent : Agent
  pub request : Request
  pub owned : find? (is_agent (strip a)) s.agents ≡ some agent
  pub loaded :
      find?
        (λ r. is_request (strip id) r && r.catalog_agent_id =ₛ agent.catalog_agent_id)
        (expire_stale agent.catalog_agent_id e.now s).requests
      ≡ some request
  pub pending : (request.status =ₛ "pending") ≡ true
  pub written : write_binding agent request e.now s.bindings ≡ done c.binding t.bindings
  pub settled :
      t.requests
      ≡ (settle_requests agent.catalog_agent_id id e.now
          (expire_stale agent.catalog_agent_id e.now s)).requests
  pub middle : Db
  pub completed :
      complete_confirmation e agent request id c.binding middle ≡ done c.canonical_domain t
  pub agents : middle.agents ≡ s.agents
  pub verifications : middle.verifications ≡ s.verifications

abbrev bind : Agent → Request → ℕ → Db → Outcome Db Binding
bind g req now =
    zoom (λ (db : Db). db.bindings) (λ db rows. record db { bindings = rows })
      (write_binding g req now)

confirm_parts :
    (e : Env) (a id canonical : String) (s s0 s1 s2 s3 t : Db) (g : Agent) (req : Request)
    (b : Binding) (c : Confirmed)
    → (s0 ≡ s) × (find? (is_agent (strip a)) s.agents ≡ some g)
    → load_pending_request g.catalog_agent_id id e.now s0 ≡ done req s1
    → bind g req e.now s1 ≡ done b s2
    → complete_confirmation e g req id b s2 ≡ done canonical s3
    → done (record { binding = b; canonical_domain = canonical }) s3 ≡ done c t
    → Confirms e a id s t c
confirm_parts e a id canonical s s0 s1 s2 s3 t g req b c owned loaded bound completed ended =
    let (same, found, waiting) =
      load_pending_request-done g.catalog_agent_id id e.now s0 s1 req loaded in
    let kept = complete_confirmation-Keeps e g req id b s2 s3 canonical completed in
    let start : s0 ≡ s = owned.0 in
    record {
      agent = g;
      request = req;
      owned = owned.1;
      loaded =
          subst
            (λ d.
              find? (λ r. is_request (strip id) r && r.catalog_agent_id =ₛ g.catalog_agent_id)
                (expire_stale g.catalog_agent_id e.now d).requests
              ≡ some req)
            start found;
      pending = waiting;
      written = unfold expire_stale in ground (arith, start, same, bound, kept, ended);
      settled =
          unfold expire_stale settle_requests in ground (arith, start, same, bound, kept, ended);
      middle = s2;
      completed = ground (arith, completed, ended);
      agents = unfold expire_stale in ground (arith, start, same, bound);
      verifications = unfold expire_stale in ground (arith, start, same, bound);
    }

pub confirm_request-done :
    (e : Env) (m a id : String) (s t : Db) (c : Confirmed)
    → confirm_request e m a id s ≡ done c t
    → Confirms e a id s t c
unfolding confirm_request
confirm_request-done e m a id s t c h =
    let (g, s0, owned, h1) = then_do-eq-done (require_owned_agent m a s) _ h in
    let (same, found) = require_owned_agent-done m a s s0 g owned in
    let (req, s1, loaded, h2) =
      then_do-eq-done (load_pending_request g.catalog_agent_id id e.now s0) _ h1 in
    let (b, s2, bound, h3) = then_do-eq-done (bind g req e.now s1) _ h2 in
    let (canonical, s3, completed, ended) =
      then_do-eq-done (complete_confirmation e g req id b s2) _ h3 in
    confirm_parts e a id canonical s s0 s1 s2 s3 t g req b c (same, found) loaded bound completed
      ended

-- What a creation that returned has done.
pub record Creates (e : Env) (p : Proposal) (s t : Db) : Type 0 where
  pub nonce : String
  pub room :
      count
        (pending_of p.agent.catalog_agent_id)
        (expire_stale p.agent.catalog_agent_id e.now s).requests
      < max_pending e
  pub fresh :
      find? (is_request e.request_id) (expire_stale p.agent.catalog_agent_id e.now s).requests
      ≡ none
  pub inserted :
      t.requests
      ≡ insert (new_request e p nonce) (expire_stale p.agent.catalog_agent_id e.now s).requests
  pub bindings : t.bindings ≡ s.bindings

pub create_request-done :
    (e : Env) (p : Proposal) (s t : Db) (r : Request)
    → create_request e p s ≡ done r t
    → Creates e p s t
create_request-done e p s t r h = elim (Option-cases p.nonce) [
  | inl missing ↦ unfold create_request in absurd (ground (arith, missing))
  | inr (nonce, read) ↦ record {
    nonce = nonce;
    room = unfold create_request in ground (arith, read);
    fresh = unfold create_request in ground (arith, read);
    inserted = unfold create_request in ground (arith, read);
    bindings = unfold create_request expire_stale in ground (arith, read);
  }
]

-- What a rejection that returned has done.
pub record Rejects (e : Env) (a id note : String) (s t : Db) : Type 0 where
  pub agent : Agent
  pub request : Request
  pub loaded :
      find?
        (λ r. is_request (strip id) r && r.catalog_agent_id =ₛ agent.catalog_agent_id)
        (expire_stale agent.catalog_agent_id e.now s).requests
      ≡ some request
  pub pending : (request.status =ₛ "pending") ≡ true
  pub settled :
      t.requests
      ≡ update
          (is_request id)
          (noted "rejected" e.now (prefix 500 (strip note)))
          (expire_stale agent.catalog_agent_id e.now s).requests
  pub bindings : t.bindings ≡ s.bindings

abbrev marked : String → ℕ → String → Db → Db
marked id now note = set_requests (is_request id) (noted "rejected" now (prefix 500 (strip note)))

reject_parts :
    (e : Env) (a id note : String) (s s0 s1 s2 t : Db) (g : Agent) (req : Request) (version : ℕ)
    → s0 ≡ s
    → load_pending_request g.catalog_agent_id id e.now s0 ≡ done req s1
    → invalidate_linked_access_config e g.catalog_agent_id version (marked id e.now note s1)
      ≡ done tt s2
    → (t.requests ≡ s2.requests) × (t.bindings ≡ s2.bindings)
    → Rejects e a id note s t
reject_parts e a id note s s0 s1 s2 t g req version start loaded dropped ended =
    let (same, found, waiting) =
      load_pending_request-done g.catalog_agent_id id e.now s0 s1 req loaded in
    let kept =
      invalidate_linked-Keeps e g.catalog_agent_id version (marked id e.now note s1) s2 dropped in
    record {
      agent = g;
      request = req;
      loaded =
          subst
            (λ d.
              find? (λ r. is_request (strip id) r && r.catalog_agent_id =ₛ g.catalog_agent_id)
                (expire_stale g.catalog_agent_id e.now d).requests
              ≡ some req)
            start found;
      pending = waiting;
      settled = ground (arith, start, same, kept, ended);
      bindings = unfold expire_stale in ground (arith, start, same, kept, ended);
    }

pub reject_request-done :
    (e : Env) (m a id note : String) (s t : Db)
    → reject_request e m a id note s ≡ done tt t
    → Rejects e a id note s t
unfolding reject_request
reject_request-done e m a id note s t h =
    let (g, s0, owned, h1) = then_do-eq-done (require_owned_agent m a s) _ h in
    let (same, found) = require_owned_agent-done m a s s0 g owned in
    let (u, s1, worded, h2) =
      then_do-eq-done (raise_if (not (truthy (strip note))) Error.validation s0) _ h1 in
    let (req, s2, loaded, h3) =
      then_do-eq-done (load_pending_request g.catalog_agent_id id e.now s1) _ h2 in
    let version = linked_version (find? (is_request id) (marked id e.now note s2).requests) in
    let (v, s3, dropped, ended) =
      then_do-eq-done
        (invalidate_linked_access_config e g.catalog_agent_id version (marked id e.now note s2)) _
        h3 in
    let start : s1 ≡ s = ground (arith, worded, same) in
    reject_parts e a id note s s1 s2 s3 t g req version start loaded dropped
      (ground arith, ground arith)

pub list_pending_requests-done :
    (e : Env) (m a : String) (s t : Db) (items : List Request)
    → list_pending_requests e m a s ≡ done items t
    → (g : Agent) × (t ≡ expire_stale g.catalog_agent_id e.now s)
unfolding list_pending_requests pending_request_items
list_pending_requests-done e m a s t items h =
    let (g, s0, owned, h1) = then_do-eq-done (require_owned_agent m a s) _ h in
    let (same, found) = require_owned_agent-done m a s s0 g owned in (g, ground (arith, same))
