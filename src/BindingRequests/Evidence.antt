-- ===== src/BindingRequests/Evidence.antt =====
-- `record_active_binding_evidence` of kiwi_catalog/services/binding_requests.py: an active binding
-- is the evidence for the highest level of its agent.
use kiwi_catalog.Prelude.{ℕ, ◌+◌, ◌*◌, String, none, some, List, [], ◌∷◌, ◌&&◌, ◌=ₛ◌, decimal}
use kiwi_catalog.Prelude.Table.{find?}
use kiwi_catalog.Result.{Error}
use kiwi_catalog.Action.{Action, ◌>>=◌, ◌>>◌, pure, gets, modify, from_option, zoom}
use kiwi_catalog.Degradation.{Expiry}
use kiwi_catalog.AgentCatalog.{insert_verification, set_state_domains, no_change}
use kiwi_catalog.AgentCatalog.Store.{StateChange}
use kiwi_catalog.BindingRequests.Store.{Binding, Db, Env}

-- The binding's own expiry, or 90 days.
abbrev pub evidence_expiry : ℕ → Binding → ℕ
evidence_expiry now b = elim b.expires_at [ none ↦ now + 90 * 86400 | some t ↦ t ]

-- The time is written as its seconds.
abbrev pub proof_items : Env → String → String → String → String → ℕ → List (String × String)
proof_items e binding_id thumbprint origin endpoint expires =
    ("binding_id", binding_id)
    ∷ ("key_thumbprint", thumbprint)
    ∷ ("runtime_origin", origin)
    ∷ ("a2a_endpoint", endpoint)
    ∷ ("issuer_kid", e.issuer_kid)
    ∷ ("exp", decimal expires)
    ∷ []

unfoldable pub add_evidence : ℕ → String → List (String × String) → ℕ → Db → Db
add_evidence now a items expires db = record db {
  verifications =
      insert_verification a "commerce_capability" "passed" items now (Expiry.at expires) (
        insert_verification a "agent_identity" "passed" items now (Expiry.at expires)
          db.verifications);
}

abbrev pub promotion : ℕ → StateChange
promotion now = record no_change {
  verification_level = some "commerce_verified";
  freshness_state = some "fresh";
  last_verified_at = some now;
}

unfoldable pub record_active_binding_evidence :
    Env → String → String → String → String → String → Action Db ℕ
record_active_binding_evidence e a binding_id thumbprint origin endpoint = do
  found ←
      gets
        (λ (db : Db). find? (λ b. b.binding_id =ₛ binding_id && b.status =ₛ "active") db.bindings)
  active ← from_option Error.conflict found
  let expires = evidence_expiry e.now active
  modify
      (add_evidence e.now a (proof_items e binding_id thumbprint origin endpoint expires) expires)
  zoom (λ (db : Db). db.agents) (λ db rows. record db { agents = rows })
      (set_state_domains e.now a (promotion e.now))
  pure expires
