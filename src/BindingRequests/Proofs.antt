-- ===== src/BindingRequests/Proofs.antt =====
-- The evidence and the promotion that `confirm_request` writes once the binding stands
-- (kiwi_catalog/services/binding_requests.py).
use kiwi_catalog.Prelude.{
  ℕ, String, ◌≡◌, ◌⊎◌, sym, ◌∙◌, subst, inl, inr, some, List, ◌&&◌, ◌=ₛ◌, strip, truthy, arith,
  Bool-cases, Option-cases,
}
use kiwi_catalog.Prelude.Table.{find?, update}
use kiwi_catalog.Action.{done, then_do-eq-done, Outcome-cases}
use kiwi_catalog.AgentCatalog.{is_agent, set_state_domains}
use kiwi_catalog.AgentCatalog.Store.{Agent}
use kiwi_catalog.BindingRequests.{
  complete_confirmation, fill_domain, canonical_domain_of, settle_requests, with_domain,
  activate_linked_access_config,
}
use kiwi_catalog.BindingRequests.Endpoints.{sync_cloud_endpoints}
use kiwi_catalog.BindingRequests.Evidence.{
  record_active_binding_evidence, add_evidence, promotion, evidence_expiry, proof_items,
}
use kiwi_catalog.BindingRequests.Frames.{fill_domain-Keeps}
use kiwi_catalog.BindingRequests.Store.{Binding, Request, Db, Env}

-- The agents before the promotion: as they were, or with the domain of the one filled in.
abbrev pub Filled : ℕ → String → List Agent → List Agent → Type 0
Filled now a old new =
    (new ≡ old)
    ⊎ ((canonical : String) × (new ≡ update (is_agent a) (with_domain canonical now) old))

fill_domain-Filled :
    (e : Env) (g : Agent) (origin : String) (s t : Db) (c : String)
    → fill_domain e g origin s ≡ done c t
    → Filled e.now g.catalog_agent_id s.agents t.agents × (t.verifications ≡ s.verifications)
unfolding fill_domain canonical_domain_of
fill_domain-Filled e g origin s t c h = elim (Bool-cases (truthy (strip g.canonical_domain))) [
  | inl has ↦ (inl (ground arith), ground arith)
  | inr empty ↦ (inr (c, ground arith), ground arith)
]

-- What the evidence of a completed confirmation is, and the promotion that follows it.
pub record Promotes (e : Env) (a id : String) (s t : Db) : Type 0 where
  pub binding : Binding
  pub items : List (String × String)
  pub before : List Agent
  pub after : Agent
  pub active : find? (λ b. b.binding_id =ₛ id && b.status =ₛ "active") s.bindings ≡ some binding
  pub proofs :
      t.verifications ≡ (add_evidence e.now a items (evidence_expiry e.now binding) s).verifications
  pub filled : Filled e.now a s.agents before
  pub promoted : set_state_domains e.now a (promotion e.now) before ≡ done after t.agents

evidence-Promotes :
    (e : Env) (a id thumbprint origin endpoint : String) (s0 s t : Db) (n : ℕ)
    → (s.bindings ≡ s0.bindings) × (s.verifications ≡ s0.verifications)
    → Filled e.now a s0.agents s.agents
    → record_active_binding_evidence e a id thumbprint origin endpoint s ≡ done n t
    → Promotes e a id s0 t
unfolding record_active_binding_evidence add_evidence
evidence-Promotes e a id thumbprint origin endpoint s0 s t n kept filled h =
    elim (Option-cases (find? (λ b. b.binding_id =ₛ id && b.status =ₛ "active") s.bindings)) [
      | inl missing ↦ absurd (ground (arith, missing))
      | inr (b, found) ↦
          elim (Outcome-cases (set_state_domains e.now a (promotion e.now) s.agents)) [
            | inr (error, rows, failed) ↦ absurd (ground (arith, found, failed))
            | inl (g, rows, promoted) ↦ record {
              binding = b;
              items = proof_items e id thumbprint origin endpoint (evidence_expiry e.now b);
              before = s.agents;
              after = g;
              active = ground (arith, found, kept);
              proofs = ground (arith, found, promoted, kept);
              filled = filled;
              promoted = ground (arith, found, promoted);
            }
          ]
    ]

activate_linked-kept :
    (e : Env) (a : String) (version : ℕ) (s t : Db)
    → activate_linked_access_config e a version s ≡ done tt t
    → (t.agents ≡ s.agents) × (t.verifications ≡ s.verifications)
unfolding activate_linked_access_config
activate_linked-kept e a version s t h = ground arith

Promotes-moved :
    (e : Env) (a id : String) (s t t' : Db)
    → (t'.agents ≡ t.agents) × (t'.verifications ≡ t.verifications)
    → Promotes e a id s t
    → Promotes e a id s t'
unfolding add_evidence
Promotes-moved e a id s t t' same p = record {
  binding = p.binding;
  items = p.items;
  before = p.before;
  after = p.after;
  active = p.active;
  proofs = same.1 ∙ p.proofs;
  filled = p.filled;
  promoted =
      subst (λ rows. set_state_domains e.now a (promotion e.now) p.before ≡ done p.after rows)
        (sym same.0) p.promoted;
}

pub complete-Promotes :
    (e : Env) (g : Agent) (req : Request) (id : String) (b : Binding) (s t : Db) (c : String)
    → complete_confirmation e g req id b s ≡ done c t
    → Promotes e g.catalog_agent_id b.binding_id s t
unfolding complete_confirmation sync_cloud_endpoints settle_requests
complete-Promotes e g req id b s t c h =
    let a = g.catalog_agent_id in
    let s1 = settle_requests a id e.now s in
    let (canonical, s2, filled, synced) =
      then_do-eq-done (fill_domain e g req.runtime_origin s1) _ h in
    let f = fill_domain-Filled e g req.runtime_origin s1 s2 canonical filled in
    let k = fill_domain-Keeps e g req.runtime_origin s1 s2 canonical filled in
    let s3 = sync_cloud_endpoints e.base_url a e.now s2 in
    let (n, s4, proved, linked) =
      then_do-eq-done
        (record_active_binding_evidence e a b.binding_id req.key_thumbprint req.runtime_origin
          req.a2a_endpoint s3)
        _ synced in
    let p =
      evidence-Promotes e a b.binding_id req.key_thumbprint req.runtime_origin req.a2a_endpoint s s3
        s4 n (k.bindings, f.1) f.0 proved in
    let (u, s5, activated, ended) =
      then_do-eq-done (activate_linked_access_config e a req.access_config_version s4) _ linked in
    let l = activate_linked-kept e a req.access_config_version s4 s5 activated in
    Promotes-moved e a b.binding_id s s4 t (ground (arith, l), ground (arith, l)) p
