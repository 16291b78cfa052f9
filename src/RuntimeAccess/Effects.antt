-- ===== src/RuntimeAccess/Effects.antt =====
-- What staging, activating and revoking a share code bring about
-- (kiwi_catalog/services/runtime_access.py).
use kiwi_catalog.Prelude.{
  ℕ, ◌+◌, ◌≤◌, String, ◌≡◌, refl, inl, inr, not, ◌&&◌, none, some, ◌=ₛ◌, arith, eq_iff,
  Option-cases, ◌∙◌,
}
use kiwi_catalog.Prelude.Table.{find?, update, count}
use kiwi_catalog.Prelude.Table.Laws.{
  count-update_none, count-update_le, find?-update_moved, find?-true, find?-count_zero,
  find?-of_count_zero,
}
use kiwi_catalog.Prelude.Table.Greatest.{max_of-update, max_of-insert}
use kiwi_catalog.Result.{Error, ok}
use kiwi_catalog.Action.{done, raised}
use kiwi_catalog.RuntimeAccess.Store.{Config, Access, Env}
use kiwi_catalog.RuntimeAccess.Parse.{
  Json, AccessConfig, parse_access_config, consent_terms_version,
}
use kiwi_catalog.RuntimeAccess.{
  of_agent, with_status, head_version, active_runtime_access, MerchantView,
}
use kiwi_catalog.RuntimeAccess.Changes.{
  invalidated, new_config, superseded, activated, pending_version, withdrawn, erased, stage_share,
  standing, stage_runtime_access, activate_runtime_access, revoke_runtime_access, consents_of,
  active_consent,
}
use kiwi_catalog.RuntimeAccess.Shapes.{
  settled, stage-share, stage_share-configs, activate-configs, revoke-revocation, revoke-configs,
  revoke-consents,
}

module _ (e : Env) (a : String) (db : Access) (r : MerchantView) (db' : Access) where
  -- Staging raises the agent's head version by one, from the version that the merchant expected.
  stage-head :
      (json : Json)
      → stage_runtime_access e a json db ≡ done r db'
      → (v : ℕ) × (secret : String) × (parse_access_config json ≡ ok (AccessConfig.share v secret))
        × (head_version a db ≡ v)
        × (head_version a db' ≡ v + 1)
  unfolding head_version
  stage-head json h =
      let (v, secret, is, staged) = stage-share e a json db r db' h in
      let (box, head, _, after) = stage_share-configs e a db v secret r db' staged in
      (
        v,
        secret,
        is,
        head,
        ground (
          arith,
          after,
          eq_iff a a,
          max_of-insert (of_agent a) (λ c. c.config_version) (new_config e a (v + 1) box)
              (settled e a db),
          max_of-update (of_agent a) (with_status a "pending") (λ c. c.config_version)
              (invalidated e.now) db.configs (λ x. refl) (λ x. refl),
        ),
      )

  -- Two merchants' pages that saw the same version cannot both replace it: in the state that the
  -- staging of a share code against a version left, every staging against that version raises
  -- ConflictError and writes nothing.
  pub stage_runtime_access-once :
      (json : Json)
      → stage_runtime_access e a json db ≡ done r db'
      → (e' : Env) (json' : Json) (v : ℕ) (secret secret' : String)
      → parse_access_config json ≡ ok (AccessConfig.share v secret)
      → parse_access_config json' ≡ ok (AccessConfig.share v secret')
      → stage_runtime_access e' a json' db' ≡ raised Error.conflict db'
  unfolding stage_runtime_access stage_share
  stage_runtime_access-once json h e' json' v secret secret' was is =
      let (v', s', said, _, head) = stage-head json h in
      let same : v ≡ v' = cc (was, said) in ground (arith, is, head, same)

  -- A version that was activated is then the active one of its agent; it was the latest, and it is
  -- marked as validated at that time. The agent had at most one active version before.
  pub activate_runtime_access-active :
      (v : ℕ)
      → activate_runtime_access e a v db ≡ done r db'
      → (head_version a db ≡ v)
        × (row : Config) × (active_runtime_access a db' ≡ some row)
        × (row.config_version ≡ v)
        × (row.status ≡ "active")
        × (row.validated_at ≡ some e.now)
  unfolding active_runtime_access
  activate_runtime_access-active v h =
      let (head, one, after) = activate-configs e a db v r db' h in
      let mid = update (with_status a "active") (superseded e.now) db.configs in
      let none_active : count (with_status a "active") mid ≡ 0 =
        count-update_none (with_status a "active") (with_status a "active") (superseded e.now)
          db.configs (λ x g. ground arith) (λ x g. g) in
      let moved =
        find?-update_moved (with_status a "active") (pending_version a v) (activated e.now) mid
          none_active (λ x g. ground arith) in
      elim (Option-cases (find? (pending_version a v) mid)) [
        | inl absent ↦
            absurd (ground (arith, one, find?-count_zero (pending_version a v) mid absent))
        | inr (y, found) ↦ (
          head,
          activated e.now y,
          rw after (moved ∙ rw found refl),
          ground (arith, find?-true (pending_version a v) mid y found),
          refl,
          refl,
        )
      ]

  -- A revocation ends all of it: the agent has no active and no pending version left, no row of it
  -- holds a ciphertext any more, whatever state the row was in, and the consent is gone.
  pub revoke_runtime_access-ends :
      (json : Json)
      → revoke_runtime_access e a json db ≡ done r db'
      → (active_runtime_access a db' ≡ none)
        × (count (with_status a "pending") db'.configs ≡ 0)
        × (count (λ c. of_agent a c && not (c.secret_ciphertext =ₛ "")) db'.configs ≡ 0)
        × (active_consent a db' ≡ none)
  unfolding active_runtime_access active_consent
  revoke_runtime_access-ends json h =
      let (v, _, revoked) = revoke-revocation e a json db r db' h in
      let after = revoke-configs e a db v r db' revoked in
      let ended = update (with_status a "active") (withdrawn e.now) (settled e a db) in
      let none_active : count (with_status a "active") ended ≡ 0 =
        count-update_none (with_status a "active") (with_status a "active") (withdrawn e.now)
          (settled e a db) (λ x g. ground arith) (λ x g. g) in
      let none_pending : count (with_status a "pending") (settled e a db) ≡ 0 =
        count-update_none (with_status a "pending") (with_status a "pending") (invalidated e.now)
          db.configs (λ x g. ground arith) (λ x g. g) in
      let kept : (s : String)
          → count (with_status a s) (update (of_agent a) (erased e.now) ended)
            ≤ count (with_status a s) ended =
        λ s. count-update_le (with_status a s) (of_agent a) (erased e.now) ended (λ x g k. k) in
      let still_pending =
        count-update_le (with_status a "pending") (with_status a "active") (withdrawn e.now)
          (settled e a db) (λ x g k. ground arith) in
      (
        rw after (find?-of_count_zero _ _ (omega (arith, kept "active", none_active))),
        rw after (omega (arith, kept "pending", still_pending, none_pending)),
        rw after (
            count-update_none (λ c. of_agent a c && not (c.secret_ciphertext =ₛ "")) (of_agent a)
              (erased e.now) ended (λ x g. ground arith) (λ x g. ground arith)),
        rw (revoke-consents e a db v r db' revoked) (
            find?-of_count_zero _ _ (
              count-update_none
                (λ c. consents_of a c && standing c && c.terms_version =ₛ consent_terms_version)
                (λ c. consents_of a c && standing c) (λ c. record c { revoked_at = some e.now })
                db.consents (λ x g. ground arith) (λ x g. ground arith))),
      )
