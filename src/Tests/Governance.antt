-- ===== src/Tests/Governance.antt =====
-- Suspended, held and barred listings on a small database (kiwi_catalog/listings).
use kiwi_catalog.Prelude.{
  ℕ, String, Option, inl, inr, arith, pos, false, ◌≡◌, ◌≢◌, ◌⊎◌, refl, some, none, strip, ◌∷◌, [],
}
use kiwi_catalog.Prelude.Table.{find?, update, insert, count}
use kiwi_catalog.Result.{Error}
use kiwi_catalog.Action.{done, raised}
use kiwi_catalog.Listings.Store.{Listing, Entitlement, Db}
use kiwi_catalog.Listings.Repository.{is_expired, expire_stale_listings, get_listing}
use kiwi_catalog.Listings.Entitlements.Admission.{Decided, admission_decided}
use kiwi_catalog.Listings.Entitlements.{
  Capacity, active_used, capacity, capacity_of, audit, change_entitlement, ensure_free_plan,
  ensure_free_entitlement, set_entitlement, set_merchant_entitlement,
}
use kiwi_catalog.Listings.Entitlements.Changes.{IsLimit, set_merchant_entitlement-in_force}
use kiwi_catalog.Listings.Entitlements.Terms.{IsChanged}
use kiwi_catalog.Listings.Repository.Expiry.{expire_stale_listings-none_expired}
use kiwi_catalog.Listings.Policy.{suspend_owned_listings}
use kiwi_catalog.Listings.Service.Restoration.{
  WithinLimit, reinstate_listing-suspend_owned_listings,
}
use kiwi_catalog.Listings.Service.{owner_agent, require_owner_active, reinstate_listing}
use kiwi_catalog.Listings.Service.Reinstatement.{
  MayReturn, reinstated, after, reinstate_listing-decided,
}
use kiwi_catalog.Tests.Publishing.{lamp_row, shop, shop_with_lamp, free_entitlement, free_plan}

abbrev held_row : Listing
held_row = record lamp_row {
  publication_state = "SUSPENDED";
  governance_hold = 1;
  updated_at = 2000;
}

abbrev shop_held : Db
shop_held = record shop_with_lamp { listings = held_row ∷ [] }

lamp_read : get_listing "lst_1" shop_with_lamp ≡ some lamp_row
unfolding get_listing find? strip
lamp_read = refl

lst_1_stripped : strip "lst_1" ≡ "lst_1"
unfolding strip
lst_1_stripped = refl

lamp_owner_ready : require_owner_active "agent_1" "m_1" shop_with_lamp ≡ done tt shop_with_lamp
unfolding require_owner_active owner_agent find?
lamp_owner_ready = refl

lamp_fits : WithinLimit "m_1" shop_with_lamp
unfolding find? active_used count
lamp_fits = inr (
  record {
    account = record { account_id = 1; merchant_id = "m_1"; status = "active"; email_verified = 1 };
    entitlement = free_entitlement;
    plan = free_plan;
    has_account = refl;
    account_active = refl;
    account_verified = refl;
    has_entitlement = refl;
    entitlement_active = refl;
    plan_known = refl;
    room = inl refl;
  },
  omega arith,
)

reinstate_listing-suspend_owned_listings_example :
    (t : Db) × (reinstate_listing "lst_1" "admin" "m_1" 3000
        (suspend_owned_listings "agent_1" 2000 shop_with_lamp).1
      ≡ done (record lamp_row { updated_at = 3000 }) t)
    × (get_listing "lst_1" t ≡ some (record lamp_row { updated_at = 3000 }))
reinstate_listing-suspend_owned_listings_example =
    reinstate_listing-suspend_owned_listings "lst_1" lst_1_stripped 2000 shop_with_lamp lamp_row
      lamp_read refl refl lamp_owner_ready lamp_fits 3000

admission_decided_example : Decided "m_1" none shop
admission_decided_example = admission_decided "m_1" none shop

reinstate_listing-decided_example :
    (MayReturn "lst_1" "admin" "m_1" 3000 shop_held held_row
      × (reinstate_listing "lst_1" "admin" "m_1" 3000 shop_held
          ≡ done
              (reinstated "lst_1" "admin" "m_1" 3000 shop_held held_row)
              (after "lst_1" "admin" "m_1" 3000 shop_held held_row))
      × (get_listing "lst_1" (after "lst_1" "admin" "m_1" 3000 shop_held held_row)
          ≡ some (reinstated "lst_1" "admin" "m_1" 3000 shop_held held_row))
      × ((reinstated "lst_1" "admin" "m_1" 3000 shop_held held_row).publication_state ≡ "ACTIVE")
      × ((reinstated "lst_1" "admin" "m_1" 3000 shop_held held_row).governance_hold ≢ 1))
    ⊎ ((MayReturn "lst_1" "admin" "m_1" 3000 shop_held held_row → ⊥)
        × ((e : Error) × (reinstate_listing "lst_1" "admin" "m_1" 3000 shop_held
              ≡ raised e shop_held)))
unfolding strip get_listing find?
reinstate_listing-decided_example =
    reinstate_listing-decided "lst_1" "admin" "m_1" 3000 shop_held held_row refl refl

abbrev raised_limit : Entitlement
raised_limit = record free_entitlement { limit_override = some 50; updated_at = 5 }

abbrev shop_raised : Db
shop_raised = record shop {
  entitlements = raised_limit ∷ [];
  audits =
      record {
        merchant_id = "m_1";
        actor = "admin";
        action = "merchant_entitlement_changed";
        created_at = 5;
      }
      ∷ [];
}

abbrev fifty_slots : Capacity
fifty_slots = record {
  plan_code = "free";
  status = "active";
  active_limit = 50;
  active_used = 0;
  active_remaining = 50;
}

limit_raised :
    set_merchant_entitlement "m_1" "admin" none (some (pos 50)) none false 5 shop
    ≡ done fifty_slots shop_raised
unfolding set_merchant_entitlement change_entitlement ensure_free_entitlement ensure_free_plan
    set_entitlement capacity capacity_of active_used audit find? update insert count
limit_raised = refl

set_merchant_entitlement-in_force_example :
    (capacity "m_1" shop_raised ≡ done fifty_slots shop_raised)
    × ((override : Option ℕ) × IsChanged "m_1" none
          (some (pos 50))
          none
          false
          shop
          "free"
          "active"
          override
        × IsLimit "free" override shop_raised 50)
    × (fifty_slots.active_used ≡ active_used "m_1" shop)
set_merchant_entitlement-in_force_example =
    set_merchant_entitlement-in_force "m_1" "admin" none (some (pos 50)) none false 5 shop
      limit_raised

-- long after the time limit of the lamp
expire_stale_listings-none_expired_example :
    ((expire_stale_listings 90000000 shop_with_lamp).0
      ≡ count (is_expired 90000000) shop_with_lamp.listings)
    × (count (is_expired 90000000) (expire_stale_listings 90000000 shop_with_lamp).1.listings ≡ 0)
    × ((expire_stale_listings 90000000 (expire_stale_listings 90000000 shop_with_lamp).1).0 ≡ 0)
    × ((merchant_id : String)
        → active_used merchant_id (expire_stale_listings 90000000 shop_with_lamp).1
          ≡ active_used merchant_id shop_with_lamp)
expire_stale_listings-none_expired_example =
    expire_stale_listings-none_expired 90000000 shop_with_lamp

one_expires : count (is_expired 90000000) shop_with_lamp.listings ≡ 1
unfolding count
one_expires = refl
