-- ===== src/BindingRequests/Promotion.antt =====
-- A confirmed binding is evidence: the agent reaches the highest level, and the recomputation of
-- the level keeps it there while the evidence lasts (kiwi_catalog/services/binding_requests.py with
-- kiwi_catalog/services/verification_degradation.py).
use kiwi_catalog.Prelude.{
  ℕ, ◌+◌, ◌*◌, ◌≤◌, String, Bool, ◌≡◌, refl, sym, subst, some, List, ◌&&◌, ◌=ₛ◌, ◌==◌, strip, arith,
  eq_iff, All,
}
use kiwi_catalog.Prelude.Table.{find?, max_of}
use kiwi_catalog.Prelude.Table.Laws.{find?-true, find?-and, All-insert}
use kiwi_catalog.Prelude.Table.Keyed.{find?-by_key}
use kiwi_catalog.Action.{done}
use kiwi_catalog.StateDomains.{fold_verification_status}
use kiwi_catalog.Degradation.{Expiry, highest_supported_level, evidence_kind_to_level}
use kiwi_catalog.AgentCatalog.{is_agent, set_state_domains, insert_verification, with_domains}
use kiwi_catalog.AgentCatalog.Writes.{
  latest_passed, set_state_domains-done, latest_verification-insert,
}
use kiwi_catalog.AgentCatalog.Store.{Agent}
use kiwi_catalog.BindingRequests.{confirm_request, Confirmed}
use kiwi_catalog.BindingRequests.Decisions.{Confirms, confirm_request-done}
use kiwi_catalog.BindingRequests.Endpoints.{active_binding, active_of}
use kiwi_catalog.BindingRequests.Evidence.{add_evidence, promotion, evidence_expiry}
use kiwi_catalog.BindingRequests.Frames.{complete_confirmation-Keeps}
use kiwi_catalog.BindingRequests.Single.{
  IsSound, row_for, write_binding-done, write_binding-active, write_binding-IsSound,
}
use kiwi_catalog.BindingRequests.Store.{Binding, Db, Env}
use kiwi_catalog.BindingRequests.Proofs.{complete-Promotes}

-- The new binding is the active one that the evidence is about, and it does not expire.
evidence-forever :
    (e : Env) (a id : String) (s t : Db) (c : Confirmed)
    → IsSound s.bindings
    → (was : Confirms e a id s t c) (b : Binding)
    → find? (λ x. x.binding_id =ₛ c.binding.binding_id && x.status =ₛ "active") t.bindings ≡ some b
    → evidence_expiry e.now b ≡ e.now + 90 * 86400
evidence-forever e a id s t c sound was b found =
    let g = was.agent in
    let row = row_for g was.request e.now s.bindings in
    let (same, _, _, _) =
      write_binding-done g was.request e.now s.bindings t.bindings c.binding was.written in
    let after =
      write_binding-IsSound g was.request e.now s.bindings t.bindings c.binding sound was.written in
    let newest : find?
          (λ x.
            active_of g.catalog_agent_id x
            && x.binding_version
              == max_of (active_of g.catalog_agent_id) (λ b. b.binding_version) t.bindings)
          t.bindings
        ≡ some row =
      unfold active_binding in
      write_binding-active g was.request e.now s.bindings t.bindings c.binding sound was.written in
    let again : find? (λ x. x.binding_id =ₛ row.binding_id) t.bindings ≡ some row =
      find?-by_key (λ x. x.binding_id) _ t.bindings row after.ids newest in
    let its : find? (λ x. x.binding_id =ₛ row.binding_id && x.status =ₛ "active") t.bindings
        ≡ some row =
      find?-and (λ x. x.binding_id =ₛ row.binding_id) (λ x. x.status =ₛ "active") t.bindings row
        again (ground arith) in
    let found' : find? (λ x. x.binding_id =ₛ row.binding_id && x.status =ₛ "active") t.bindings
        ≡ some b =
      subst
        (λ r. find? (λ x. x.binding_id =ₛ r.binding_id && x.status =ₛ "active") t.bindings ≡ some b)
        same found in
    let equal : row ≡ b = ground (arith, its, found') in rw (← equal) refl

-- The state columns after the promotion.
abbrev pub IsTop : ℕ → Agent → Type 0
IsTop now g =
    (g.verification_level ≡ "commerce_verified")
    × (g.freshness_state ≡ "fresh")
    × (g.verification_status
        ≡ fold_verification_status "commerce_verified" "fresh" g.administrative_state)
    × (g.last_verified_at ≡ some now)

promoted-IsTop :
    (now : ℕ) (a : String) (rows rows' : List Agent) (g : Agent)
    → set_state_domains now a (promotion now) rows ≡ done g rows'
    → (find? (is_agent a) rows' ≡ some g) × IsTop now g
promoted-IsTop now a rows rows' g h =
    let (old, _, there, same) = set_state_domains-done now a (promotion now) rows rows' g h in
    let top : IsTop now (
        with_domains now "commerce_verified" "fresh" old.administrative_state (promotion now) old) =
      unfold with_domains in (refl, refl, refl, ground arith) in
    (there, subst (IsTop now) (sym same) top)

-- The latest evidence of the new binding supports the top level while it lasts.
evidence_supports :
    (now at expires : ℕ) (a : String) (items : List (String × String)) (s t : Db)
    (can_degrade : String → String → Bool)
    → All (λ v. v.checked_at ≤ now) s.verifications
    → t.verifications ≡ (add_evidence now a items expires s).verifications
    → at ≤ expires
    → highest_supported_level "commerce_verified" at can_degrade
        (latest_passed a t.verifications)
        evidence_kind_to_level
      ≡ "commerce_verified"
unfolding add_evidence
evidence_supports now at expires a items s t can_degrade past proofs lasting =
    let rows =
      insert_verification a "agent_identity" "passed" items now (Expiry.at expires)
        s.verifications in
    let past' : All (λ v. v.checked_at ≤ now) rows =
      unfold insert_verification in
      All-insert (λ v. v.checked_at ≤ now) _ s.verifications (omega arith) past in
    let (v, latest, until) =
      latest_verification-insert a "commerce_capability" "passed" items now (Expiry.at expires) rows
        past' in
    let passed : latest_passed a t.verifications "commerce_capability"
        ≡ some (record { expires_at = Expiry.at expires }) =
      unfold latest_passed in rw (proofs, latest, until) refl in
    unfold highest_supported_level in ground (arith, passed)

-- A confirmation that returns makes the agent commerce_verified and fresh, with the status that the
-- folding gives and the time of the confirmation; and while its evidence lasts, for 90 days, the
-- recomputation of the level from the latest evidence that passed stays at commerce_verified. The
-- table of bindings was sound, and no older evidence carries a later time than the confirmation.
pub confirm_request-promotes :
    (e : Env) (m a id : String) (s t : Db) (c : Confirmed)
    → IsSound s.bindings
    → All (λ v. v.checked_at ≤ e.now) s.verifications
    → confirm_request e m a id s ≡ done c t
    → (at : ℕ) → at ≤ e.now + 90 * 86400
    → (can_degrade : String → String → Bool)
    → ((g : Agent) × (find? (is_agent (strip a)) t.agents ≡ some g) × IsTop e.now g)
      × (highest_supported_level "commerce_verified" at can_degrade
            (latest_passed (strip a) t.verifications)
            evidence_kind_to_level
          ≡ "commerce_verified")
confirm_request-promotes e m a id s t c sound past h at lasting can_degrade =
    let was = confirm_request-done e m a id s t c h in
    let g = was.agent in
    let key : g.catalog_agent_id ≡ strip a =
      (eq_iff g.catalog_agent_id (strip a)).0
        (find?-true (is_agent (strip a)) s.agents g was.owned) in
    let p =
      complete-Promotes e g was.request id c.binding was.middle t c.canonical_domain
        was.completed in
    let kept =
      complete_confirmation-Keeps e g was.request id c.binding was.middle t c.canonical_domain
        was.completed in
    let active : find? (λ x. x.binding_id =ₛ c.binding.binding_id && x.status =ₛ "active")
          t.bindings
        ≡ some p.binding =
      subst
        (λ rows.
          find? (λ x. x.binding_id =ₛ c.binding.binding_id && x.status =ₛ "active") rows
          ≡ some p.binding)
        (sym kept.0) p.active in
    let until = evidence-forever e a id s t c sound was p.binding active in
    let past' : All (λ v. v.checked_at ≤ e.now) was.middle.verifications =
      subst (All (λ v. v.checked_at ≤ e.now)) (sym was.verifications) past in
    let (there, top) =
      promoted-IsTop e.now g.catalog_agent_id p.before t.agents p.after p.promoted in
    (
      (p.after, subst (λ k. find? (is_agent k) t.agents ≡ some p.after) key there, top),
      subst
          (λ k.
            highest_supported_level "commerce_verified" at can_degrade
              (latest_passed k t.verifications) evidence_kind_to_level
            ≡ "commerce_verified")
          key
          (evidence_supports e.now at (evidence_expiry e.now p.binding) g.catalog_agent_id p.items
            was.middle t can_degrade past' p.proofs (omega (arith, until, lasting))),
    )
