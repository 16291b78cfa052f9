-- ===== src/Listings/Service/Restoration.antt =====
-- A listing that is suspended with its owner (kiwi_catalog/listings/policy.py) and reinstated
-- (kiwi_catalog/listings/service.py).
use kiwi_catalog.Prelude.{
  ℕ, ◌≤◌, ◌<◌, String, ◌≡◌, ◌⊎◌, inl, inr, refl, ◌∙◌, true, none, some, ◌=ₛ◌, arith, eq_iff, strip,
  subst,
}
use kiwi_catalog.Prelude.Table.{find?}
use kiwi_catalog.Prelude.Table.Laws.{find?-update}
use kiwi_catalog.Prelude.Table.Found.{count-update_lt_at}
use kiwi_catalog.Action.{done}
use kiwi_catalog.Listings.Store.{Listing, Account, Db}
use kiwi_catalog.Listings.Repository.{has_id, get_listing}
use kiwi_catalog.Listings.Entitlements.{is_active_of, active_used, limit_of}
use kiwi_catalog.Listings.Entitlements.Admission.{
  Admitted, require_publication_capacity_of_Admitted,
}
use kiwi_catalog.Listings.Policy.{is_active_owned, suspended, suspend_owned_listings}
use kiwi_catalog.Listings.Service.{
  reinstate_listing, require_owner_active, capacity_if_registered, owner_agent,
}
use kiwi_catalog.Listings.Service.Reinstatement.{
  MayReturn, after, reinstated, reinstate_listing-decided,
}

-- A merchant without an account here, or one whose active listings fit its entitlement.
abbrev pub WithinLimit : String → Db → Type 0
WithinLimit merchant_id db =
    (find? (λ (a : Account). a.merchant_id =ₛ merchant_id) db.accounts ≡ none)
    ⊎ ((a : Admitted merchant_id (some "ACTIVE") db) × (active_used merchant_id db
          ≤ limit_of a.entitlement a.plan))

module _ (id : String) (stripped : strip id ≡ id) (now : ℕ) (db : Db) (row : Listing)
    (found : get_listing id db ≡ some row) (active : row.publication_state ≡ "ACTIVE") where
  abbrev held_db : Db
  held_db = (suspend_owned_listings row.owner_agent_id now db).1

  by_id : find? (has_id id) db.listings ≡ some row
  unfolding get_listing
  by_id = rw stripped at found

  owned_row : is_active_owned row.owner_agent_id row ≡ true
  owned_row = ground (
    arith,
    active,
    eq_iff row.owner_agent_id row.owner_agent_id,
    eq_iff row.publication_state "ACTIVE",
  )

  -- The suspension frees at least the slot of the listing.
  freed : active_used row.merchant_id held_db < active_used row.merchant_id db
  unfolding active_used suspend_owned_listings
  freed =
      count-update_lt_at (is_active_of row.merchant_id) (is_active_owned row.owner_agent_id)
        (has_id id) (suspended now) db.listings row (λ (x : Listing) _ e. ground arith) by_id
        (ground (
          arith,
          active,
          eq_iff row.merchant_id row.merchant_id,
          eq_iff row.publication_state "ACTIVE",
        ))
        owned_row (ground arith)

  found_held : get_listing id held_db ≡ some (suspended now row)
  unfolding get_listing suspend_owned_listings
  found_held = rw stripped (
      find?-update (has_id id) (is_active_owned row.owner_agent_id) (suspended now) db.listings
        (λ x _. refl)
      ∙ rw by_id (ground (arith, owned_row)))

  room_again :
      WithinLimit row.merchant_id db
      → capacity_if_registered row.merchant_id held_db ≡ done tt held_db
  unfolding capacity_if_registered suspend_owned_listings
  room_again (inl absent) = ground (arith, absent)
  room_again (inr (a, fits)) =
      let still : Admitted row.merchant_id (some "SUSPENDED") held_db = record {
        account = a.account;
        entitlement = a.entitlement;
        plan = a.plan;
        has_account = a.has_account;
        account_active = a.account_active;
        account_verified = a.account_verified;
        has_entitlement = a.has_entitlement;
        entitlement_active = a.entitlement_active;
        plan_known = a.plan_known;
        room = inr (omega (arith, freed, fits));
      } in
      ground (
        arith,
        a.has_account,
        require_publication_capacity_of_Admitted row.merchant_id (some "SUSPENDED") held_db still,
      )

  may_return :
      (later : ℕ)
      → require_owner_active row.owner_agent_id row.merchant_id db ≡ done tt db
      → WithinLimit row.merchant_id db
      → MayReturn id "admin" row.merchant_id later held_db (suspended now row)
  unfolding require_owner_active owner_agent suspend_owned_listings
  may_return later ready within = record {
    owned = refl;
    is_suspended = refl;
    not_quarantined = λ e. ground arith;
    by_admin = λ _. refl;
    owner_ready = ground (arith, ready);
    has_capacity = room_again within;
  }

  as_before :
      (later : ℕ)
      → row.governance_hold ≡ 0
      → reinstated id "admin" row.merchant_id later held_db (suspended now row)
        ≡ record row { updated_at = later }
  as_before later free = ground (arith, free, active)

  -- An active listing, not held, of a merchant within its limit, whose owner was ready: suspended with
  -- its owner and reinstated by an administrator, it is as before but for the time of its update,
  -- whatever listings the suspension took down with it.
  pub reinstate_listing-suspend_owned_listings :
      row.governance_hold ≡ 0
      → require_owner_active row.owner_agent_id row.merchant_id db ≡ done tt db
      → WithinLimit row.merchant_id db
      → (later : ℕ)
      → (t : Db) × (reinstate_listing id "admin" row.merchant_id later
            (suspend_owned_listings row.owner_agent_id now db).1
          ≡ done (record row { updated_at = later }) t)
        × (get_listing id t ≡ some (record row { updated_at = later }))
  reinstate_listing-suspend_owned_listings free ready within later =
      let same : reinstated id "admin" row.merchant_id later held_db (suspended now row)
          ≡ record row { updated_at = later } =
        as_before later free in
      let end = after id "admin" row.merchant_id later held_db (suspended now row) in
      elim (reinstate_listing-decided id "admin" row.merchant_id later held_db (suspended now row)
        stripped found_held) [
          | inl (_, returns, reads, _, _) ↦ (
            end,
            subst (λ x. reinstate_listing id "admin" row.merchant_id later held_db ≡ done x end)
                same returns,
            subst (λ x. get_listing id end ≡ some x) same reads,
          )
          | inr (barred, _) ↦ absurd (barred (may_return later ready within))
        ]
