-- ===== src/BindingRequests/Frames.antt =====
-- What the later stages of a decision leave alone: the bindings and the requests.
use kiwi_catalog.Prelude.{ℕ, String, ◌≡◌, refl, arith}
use kiwi_catalog.Action.{done, then_do-eq-done}
use kiwi_catalog.AgentCatalog.Store.{Agent}
use kiwi_catalog.BindingRequests.{
  fill_domain, canonical_domain_of, activate_linked_access_config, invalidate_linked_access_config,
  complete_confirmation, settle_requests,
}
use kiwi_catalog.BindingRequests.Evidence.{record_active_binding_evidence, add_evidence}
use kiwi_catalog.BindingRequests.Endpoints.{sync_cloud_endpoints}
use kiwi_catalog.BindingRequests.Store.{Binding, Request, Db, Env}

-- `t` has the bindings and the requests of `s`.
pub record Keeps (s t : Db) : Type 0 where
  pub bindings : t.bindings ≡ s.bindings
  pub requests : t.requests ≡ s.requests

pub fill_domain-Keeps :
    (e : Env) (g : Agent) (origin : String) (s t : Db) (c : String)
    → fill_domain e g origin s ≡ done c t
    → Keeps s t
unfolding fill_domain canonical_domain_of
fill_domain-Keeps e g origin s t c h = ground arith

pub evidence-Keeps :
    (e : Env) (a id thumbprint origin endpoint : String) (s t : Db) (n : ℕ)
    → record_active_binding_evidence e a id thumbprint origin endpoint s ≡ done n t
    → Keeps s t
unfolding record_active_binding_evidence add_evidence
evidence-Keeps e a id thumbprint origin endpoint s t n h = ground arith

pub activate_linked-Keeps :
    (e : Env) (a : String) (version : ℕ) (s t : Db)
    → activate_linked_access_config e a version s ≡ done tt t
    → Keeps s t
unfolding activate_linked_access_config
activate_linked-Keeps e a version s t h = ground arith

pub invalidate_linked-Keeps :
    (e : Env) (a : String) (version : ℕ) (s t : Db)
    → invalidate_linked_access_config e a version s ≡ done tt t
    → Keeps s t
unfolding invalidate_linked_access_config
invalidate_linked-Keeps e a version s t h = ground arith

pub complete_confirmation-Keeps :
    (e : Env) (g : Agent) (req : Request) (id : String) (b : Binding) (s t : Db) (c : String)
    → complete_confirmation e g req id b s ≡ done c t
    → (t.bindings ≡ s.bindings)
      × (t.requests ≡ (settle_requests g.catalog_agent_id id e.now s).requests)
unfolding complete_confirmation sync_cloud_endpoints
complete_confirmation-Keeps e g req id b s t c h =
    let a = g.catalog_agent_id in
    let s1 = settle_requests a id e.now s in
    let settled : s1.bindings ≡ s.bindings = unfold settle_requests in refl in
    let (canonical, s2, filled, synced) =
      then_do-eq-done (fill_domain e g req.runtime_origin s1) _ h in
    let f = fill_domain-Keeps e g req.runtime_origin s1 s2 canonical filled in
    let s3 = sync_cloud_endpoints e.base_url a e.now s2 in
    let (n, s4, proved, linked) =
      then_do-eq-done
        (record_active_binding_evidence e a b.binding_id req.key_thumbprint req.runtime_origin
          req.a2a_endpoint s3)
        _ synced in
    let v =
      evidence-Keeps e a b.binding_id req.key_thumbprint req.runtime_origin req.a2a_endpoint s3 s4 n
        proved in
    let (u, s5, activated, ended) =
      then_do-eq-done (activate_linked_access_config e a req.access_config_version s4) _ linked in
    let l = activate_linked-Keeps e a req.access_config_version s4 s5 activated in
    ground (arith, f, v, l, settled)
