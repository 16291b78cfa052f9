-- ===== src/RuntimeAccess/Shapes.antt =====
-- What the writes of kiwi_catalog/services/runtime_access.py leave in the table of configurations
-- when they end normally.
use kiwi_catalog.Prelude.{
  ℕ, ◌+◌, String, ◌≡◌, refl, inl, inr, ◌&&◌, none, some, List, ◌⊎◌, arith, Option-cases,
}
use kiwi_catalog.Prelude.Table.{find?, update, insert, count}
use kiwi_catalog.Result.{Error, ok, err}
use kiwi_catalog.RuntimeAccess.Parse.{Json, AccessConfig, parse_access_config}
use kiwi_catalog.Action.{done}
use kiwi_catalog.RuntimeAccess.Store.{Config, Access, Sealed, Env}
use kiwi_catalog.RuntimeAccess.{
  with_status, of_agent, is_version, head_version, config_row, active_runtime_access, MerchantView,
}
use kiwi_catalog.RuntimeAccess.Changes.{
  invalidated, new_config, stage_share, superseded, activated, pending_version, withdrawn, erased,
  activate_runtime_access, invalidate_runtime_access, revoke_version, consents_of, standing,
  stage_runtime_access, revoke_runtime_access, record_consent, revoke_consent,
}

module _ (e : Env) (a : String) (db : Access) where
  -- the rows after the pending ones are invalidated
  abbrev pub settled : List Config
  settled = update (with_status a "pending") (invalidated e.now) db.configs

  pub stage_share-configs :
      (v : ℕ) (secret : String) (r : MerchantView) (db' : Access)
      → stage_share e a v secret db ≡ done r db'
      → (box : Sealed) × (head_version a db ≡ v)
        × (find? (is_version a (v + 1)) settled ≡ none)
        × (db'.configs ≡ insert (new_config e a (v + 1) box) settled)
  unfolding stage_share config_row
  stage_share-configs v secret r db' h = elim (Option-cases (e.encrypt secret)) [
    | inl closed ↦ absurd (ground arith)
    | inr (box, sealed) ↦ (box, ground arith, ground arith, ground arith)
  ]

  pub activate-configs :
      (v : ℕ) (r : MerchantView) (db' : Access)
      → activate_runtime_access e a v db ≡ done r db'
      → (head_version a db ≡ v)
        × (count
              (pending_version a v)
              (update (with_status a "active") (superseded e.now) db.configs)
            ≡ 1)
        × (db'.configs
            ≡ update
                (pending_version a v)
                (activated e.now)
                (update (with_status a "active") (superseded e.now) db.configs))
  unfolding activate_runtime_access config_row record_consent
  activate-configs v r db' h = ground arith

  pub invalidate-configs :
      (v : ℕ) (r : MerchantView) (db' : Access)
      → invalidate_runtime_access e a v db ≡ done r db'
      → (db'.configs ≡ db.configs)
        ⊎ (db'.configs ≡ update (pending_version a v) (invalidated e.now) db.configs)
  unfolding invalidate_runtime_access config_row
  invalidate-configs v r db' h = ground arith

  pub revoke-configs :
      (v : ℕ) (r : MerchantView) (db' : Access)
      → revoke_version e a v db ≡ done r db'
      → (db'.configs
          ≡ update
              (of_agent a)
              (erased e.now)
              (update (with_status a "active") (withdrawn e.now) settled))
  unfolding revoke_version revoke_consent config_row active_runtime_access
  revoke-configs v r db' h = ground arith

  pub revoke-consents :
      (v : ℕ) (r : MerchantView) (db' : Access)
      → revoke_version e a v db ≡ done r db'
      → db'.consents
        ≡ update
            (λ c. consents_of a c && standing c)
            (λ c. record c { revoked_at = some e.now })
            db.consents
  unfolding revoke_version revoke_consent config_row active_runtime_access
  revoke-consents v r db' h = ground arith

pub Parse-cases :
    (json : Json)
    → ((v : ℕ) × (parse_access_config json ≡ ok (AccessConfig.revocation v)))
      ⊎ ((v : ℕ) × (secret : String) × (parse_access_config json
            ≡ ok (AccessConfig.share v secret)))
      ⊎ ((err' : Error) × (parse_access_config json ≡ err err'))
Parse-cases json =
    elim (parse_access_config json)
      as (λ p.
        ((v : ℕ) × (p ≡ ok (AccessConfig.revocation v)))
        ⊎ ((v : ℕ) × (secret : String) × (p ≡ ok (AccessConfig.share v secret)))
        ⊎ ((err' : Error) × (p ≡ err err'))) [
          | ok (AccessConfig.revocation v) ↦ inl (v, refl)
          | ok (AccessConfig.share v secret) ↦ inr (inl (v, secret, refl))
          | err e ↦ inr (inr (e, refl))
        ]

module _ (e : Env) (a : String) (json : Json) (db : Access) (r : MerchantView) (db' : Access) where
  -- only a share is staged
  pub stage-share :
      stage_runtime_access e a json db ≡ done r db'
      → (v : ℕ) × (secret : String) × (parse_access_config json ≡ ok (AccessConfig.share v secret))
        × (stage_share e a v secret db ≡ done r db')
  unfolding stage_runtime_access
  stage-share h = elim (Parse-cases json) [
    | inl (v, is) ↦ absurd (ground (arith, is))
    | inr (inl (v, secret, is)) ↦ (v, secret, is, ground (arith, is))
    | inr (inr (err', is)) ↦ absurd (ground (arith, is))
  ]

  -- and only a revocation revokes
  pub revoke-revocation :
      revoke_runtime_access e a json db ≡ done r db'
      → (v : ℕ) × (parse_access_config json ≡ ok (AccessConfig.revocation v))
        × (revoke_version e a v db ≡ done r db')
  unfolding revoke_runtime_access
  revoke-revocation h = elim (Parse-cases json) [
    | inl (v, is) ↦ (v, is, ground (arith, is))
    | inr (inl (v, secret, is)) ↦ absurd (ground (arith, is))
    | inr (inr (err', is)) ↦ absurd (ground (arith, is))
  ]
