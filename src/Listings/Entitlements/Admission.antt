-- ===== src/Listings/Entitlements/Admission.antt =====
-- When `require_publication_capacity` of kiwi_catalog/services/listing_entitlements.py lets a
-- publication pass.
use kiwi_catalog.Prelude.{
  ◌<◌, String, ◌≡◌, ◌⊎◌, inl, inr, true, Option, none, some, ◌=ₛ◌, arith, eq_iff, Option-cases,
}
use kiwi_catalog.Prelude.Table.{find?}
use kiwi_catalog.Result.{Error}
use kiwi_catalog.Action.{done, raised}
use kiwi_catalog.Listings.Store.{Account, Plan, Entitlement, Db}
use kiwi_catalog.Listings.Entitlements.{
  of_merchant, has_plan, limit_of, active_used, capacity_of, capacity, is_active_state,
  require_publication_capacity,
}

-- A merchant with a verified, active account and an active entitlement to a known plan, and either
-- a listing that is active already or a free slot.
pub record Admitted (merchant_id : String) (existing_state : Option String) (db : Db) : Type 0 where
  pub account : Account
  pub entitlement : Entitlement
  pub plan : Plan
  pub has_account : find? (λ a. a.merchant_id =ₛ merchant_id) db.accounts ≡ some account
  pub account_active : account.status ≡ "active"
  pub account_verified : account.email_verified ≡ 1
  pub has_entitlement : find? (of_merchant merchant_id) db.entitlements ≡ some entitlement
  pub entitlement_active : entitlement.status ≡ "active"
  pub plan_known : find? (has_plan entitlement.plan_code) db.plans ≡ some plan
  pub room :
      (existing_state ≡ some "ACTIVE") ⊎ (active_used merchant_id db < limit_of entitlement plan)

is_active_state-true : (s : Option String) → is_active_state s ≡ true → s ≡ some "ACTIVE"
is_active_state-true none h = cc
is_active_state-true (some s) h = ground (arith, eq_iff s "ACTIVE")

module _ (merchant_id : String) (existing_state : Option String) (db : Db) where
  -- A merchant that meets the conditions is let through, and nothing is written.
  pub require_publication_capacity_of_Admitted :
      Admitted merchant_id existing_state db
      → require_publication_capacity merchant_id existing_state db ≡ done tt db
  unfolding require_publication_capacity capacity capacity_of
  require_publication_capacity_of_Admitted h = ground (
    arith,
    eq_iff h.account.status "active",
    eq_iff h.entitlement.status "active",
    eq_iff "ACTIVE" "ACTIVE",
  )

  refused_or_room :
      (a : Account) (e : Entitlement) (p : Plan)
      → find? (λ x. x.merchant_id =ₛ merchant_id) db.accounts ≡ some a
      → find? (of_merchant merchant_id) db.entitlements ≡ some e
      → find? (has_plan e.plan_code) db.plans ≡ some p
      → (require_publication_capacity merchant_id existing_state db
          ≡ raised Error.permission_denied db)
        ⊎ ((a.status ≡ "active")
            × (a.email_verified ≡ 1)
            × (e.status ≡ "active")
            × ((existing_state ≡ some "ACTIVE") ⊎ (active_used merchant_id db < limit_of e p)))
  unfolding require_publication_capacity capacity capacity_of
  refused_or_room a e p ha he hp = ground (
    arith,
    eq_iff a.status "active",
    eq_iff e.status "active",
    is_active_state-true existing_state,
  )

  -- what is missing raises before anything else is asked
  missing_raises :
      ((find? (λ x. x.merchant_id =ₛ merchant_id) db.accounts ≡ none)
        ⊎ (find? (of_merchant merchant_id) db.entitlements ≡ none)
        ⊎ ((e : Entitlement) × (find? (of_merchant merchant_id) db.entitlements ≡ some e)
            × (find? (has_plan e.plan_code) db.plans ≡ none)))
      → require_publication_capacity merchant_id existing_state db
        ≡ raised Error.permission_denied db
  unfolding require_publication_capacity capacity
  missing_raises h = ground arith

  abbrev pub Decided : Type 0
  Decided =
      ((require_publication_capacity merchant_id existing_state db ≡ done tt db)
        × Admitted merchant_id existing_state db)
      ⊎ ((require_publication_capacity merchant_id existing_state db
            ≡ raised Error.permission_denied db)
          × (Admitted merchant_id existing_state db → ⊥))

  raised_decides :
      require_publication_capacity merchant_id existing_state db ≡ raised Error.permission_denied db
      → Decided
  raised_decides h = inr (h, λ a. cc (require_publication_capacity_of_Admitted a))

  -- The check passes exactly for a merchant that meets the conditions, and else raises
  -- PermissionDenied; in either case it writes nothing.
  pub admission_decided : Decided
  admission_decided =
      elim (Option-cases (find? (λ (x : Account). x.merchant_id =ₛ merchant_id) db.accounts)) [
        | inl ha ↦ raised_decides (missing_raises (inl ha))
        | inr (a, ha) ↦ elim (Option-cases (find? (of_merchant merchant_id) db.entitlements)) [
          | inl he ↦ raised_decides (missing_raises (inr (inl he)))
          | inr (e, he) ↦ elim (Option-cases (find? (has_plan e.plan_code) db.plans)) [
            | inl hp ↦ raised_decides (missing_raises (inr (inr (e, he, hp))))
            | inr (p, hp) ↦ elim (refused_or_room a e p ha he hp) [
              | inl h ↦ raised_decides h
              | inr (s, v, t, room) ↦
                  let admitted : Admitted merchant_id existing_state db = record {
                    account = a;
                    entitlement = e;
                    plan = p;
                    has_account = ha;
                    account_active = s;
                    account_verified = v;
                    has_entitlement = he;
                    entitlement_active = t;
                    plan_known = hp;
                    room = room;
                  } in
                  inl (require_publication_capacity_of_Admitted admitted, admitted)
            ]
          ]
        ]
      ]
