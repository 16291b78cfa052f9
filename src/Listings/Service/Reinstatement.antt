-- ===== src/Listings/Service/Reinstatement.antt =====
-- Reinstating a suspended listing (kiwi_catalog/listings/service.py).
use kiwi_catalog.Prelude.{
  ℕ, String, ◌≡◌, ◌≢◌, ◌⊎◌, inl, inr, refl, ◌∙◌, true, some, ◌=ₛ◌, ◌==◌, ◌&&◌, not, arith, eq_iff,
  Option-cases, Bool-cases, strip, if◌then◌else◌,
}
use kiwi_catalog.Prelude.Table.{find?, update}
use kiwi_catalog.Prelude.Table.Laws.{find?-update, find?-true}
use kiwi_catalog.Result.{Error}
use kiwi_catalog.Action.{done, raised, Checks}
use kiwi_catalog.Listings.Store.{Listing, Account, Db}
use kiwi_catalog.Listings.Repository.{has_id, with_state, get_listing, set_publication_state}
use kiwi_catalog.Listings.Entitlements.Admission.{admission_decided}
use kiwi_catalog.Listings.Service.{
  reinstate_listing, require_owner_active, capacity_if_registered, clear_hold, quarantine_hold,
}
use kiwi_catalog.Listings.Service.Steps.{require_owner_active-Checks}
use kiwi_catalog.Listings.Service.Withdrawal.{moved, get_listing-moved}

capacity_if_registered-Checks :
    (merchant : String) (db : Db) → Checks (capacity_if_registered merchant) db
unfolding capacity_if_registered
capacity_if_registered-Checks merchant db =
    elim (Option-cases (find? (λ (a : Account). a.merchant_id =ₛ merchant) db.accounts)) [
      | inl absent ↦ inl (ground arith)
      | inr (a, found) ↦ elim (admission_decided merchant (some "SUSPENDED") db) [
        | inl (passed, _) ↦ inl (ground (arith, passed))
        | inr (refusal, _) ↦ inr (Error.permission_denied, ground (arith, refusal))
      ]
    ]

module _ (listing_id actor merchant_id : String) (now : ℕ) (db : Db) (row : Listing) where
  abbrev unheld : Db
  unheld = if row.governance_hold == 1 then clear_hold listing_id db else db

  -- What has to hold of the listing for a call that does not raise.
  pub record MayReturn : Type 0 where
    pub owned : row.merchant_id ≡ merchant_id
    pub is_suspended : row.publication_state ≡ "SUSPENDED"
    pub not_quarantined : row.governance_hold ≢ quarantine_hold
    pub by_admin : row.governance_hold ≡ 1 → actor ≡ "admin"
    pub owner_ready : require_owner_active row.owner_agent_id merchant_id db ≡ done tt db
    pub has_capacity : capacity_if_registered merchant_id db ≡ done tt db

  -- the guards, one after the other: each raises before anything is written
  guards_or_raised :
      get_listing listing_id db ≡ some row
      → MayReturn
        ⊎ ((e : Error) × (reinstate_listing listing_id actor merchant_id now db ≡ raised e db))
  unfolding reinstate_listing
  guards_or_raised found = elim (Bool-cases (row.merchant_id =ₛ merchant_id)) [
    | inr other ↦ inr (Error.permission_denied, ground arith)
    | inl own ↦ elim (Bool-cases (row.publication_state =ₛ "SUSPENDED")) [
      | inr live ↦ inr (Error.permission_denied, ground arith)
      | inl still ↦ elim (Bool-cases (row.governance_hold == quarantine_hold)) [
        | inl quarantined ↦ inr (Error.permission_denied, ground arith)
        | inr plain ↦ elim (Bool-cases (row.governance_hold == 1 && not (actor =ₛ "admin"))) [
          | inl held ↦ inr (Error.permission_denied, ground arith)
          | inr free ↦ elim (require_owner_active-Checks row.owner_agent_id merchant_id db) [
            | inr (e, stop) ↦ inr (e, ground arith)
            | inl ready ↦ elim (capacity_if_registered-Checks merchant_id db) [
              | inr (e, stop) ↦ inr (e, ground arith)
              | inl room ↦ inl (record {
                owned = ground (arith, eq_iff row.merchant_id merchant_id);
                is_suspended = ground (arith, eq_iff row.publication_state "SUSPENDED");
                not_quarantined = ground arith;
                by_admin = λ held. ground (arith, eq_iff actor "admin");
                owner_ready = ready;
                has_capacity = room;
              })
            ]
          ]
        ]
      ]
    ]
  ]

  abbrev released_row : Listing
  released_row = if row.governance_hold == 1 then record row { governance_hold = 0 } else row

  get_listing-unheld :
      strip listing_id ≡ listing_id
      → get_listing listing_id db ≡ some row
      → get_listing listing_id unheld ≡ some released_row
  unfolding get_listing
  get_listing-unheld stripped found =
      let by_id : find? (has_id listing_id) db.listings ≡ some row = rw stripped at found in
      let hit : has_id listing_id row ≡ true =
        find?-true (has_id listing_id) db.listings row by_id in
      let cleared : find? (has_id listing_id) (
            update (has_id listing_id) (λ (r : Listing). record r { governance_hold = 0 })
              db.listings)
          ≡ some (record row { governance_hold = 0 }) =
        find?-update (has_id listing_id) (has_id listing_id)
          (λ (r : Listing). record r { governance_hold = 0 }) db.listings (λ x _. refl)
        ∙ rw by_id (ground arith) in
      elim (Bool-cases (row.governance_hold == 1)) [
        | inl held ↦ rw (held, stripped) cleared
        | inr free ↦ rw (free, stripped) by_id
      ]

  abbrev pub reinstated : Listing
  reinstated = with_state "ACTIVE" now released_row

  abbrev pub after : Db
  after = moved listing_id now "ACTIVE" unheld

  -- With the guards passed the row is read back active, and out of an administrator's hold.
  reinstate_listing_of_MayReturn :
      strip listing_id ≡ listing_id
      → get_listing listing_id db ≡ some row
      → MayReturn
      → reinstate_listing listing_id actor merchant_id now db ≡ done reinstated after
  unfolding reinstate_listing set_publication_state
  reinstate_listing_of_MayReturn stripped found may =
      let read : get_listing listing_id after ≡ some reinstated =
        get_listing-moved listing_id stripped now "ACTIVE" unheld released_row
          (get_listing-unheld stripped found) in
      ground (
        arith,
        read,
        may.owned,
        may.is_suspended,
        may.not_quarantined,
        may.by_admin,
        may.owner_ready,
        may.has_capacity,
        eq_iff row.merchant_id merchant_id,
        eq_iff row.publication_state "SUSPENDED",
        eq_iff actor "admin",
      )

  -- A reinstatement returns exactly where the listing is its merchant's, suspended, not quarantined
  -- for its content, released by an administrator if one holds it, and its owner and the capacity
  -- allow it. The row is then read back active and not held. Otherwise the call raises and writes
  -- nothing.
  pub reinstate_listing-decided :
      strip listing_id ≡ listing_id
      → get_listing listing_id db ≡ some row
      → (MayReturn
          × (reinstate_listing listing_id actor merchant_id now db ≡ done reinstated after)
          × (get_listing listing_id after ≡ some reinstated)
          × (reinstated.publication_state ≡ "ACTIVE")
          × (reinstated.governance_hold ≢ 1))
        ⊎ ((MayReturn → ⊥)
            × ((e : Error) × (reinstate_listing listing_id actor merchant_id now db ≡ raised e db)))
  reinstate_listing-decided stripped found = elim (guards_or_raised found) [
    | inl may ↦ inl (
      may,
      reinstate_listing_of_MayReturn stripped found may,
      get_listing-moved listing_id stripped now "ACTIVE" unheld released_row
          (get_listing-unheld stripped found),
      refl,
      ground arith,
    )
    | inr (e, stop) ↦
        inr (λ may. cc (stop, reinstate_listing_of_MayReturn stripped found may), (e, stop))
  ]
