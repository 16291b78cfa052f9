-- ===== src/Listings/Service/Room.antt =====
-- Publishing through a runtime does not take a merchant over its limit
-- (kiwi_catalog/listings/service.py with kiwi_catalog/services/listing_entitlements.py).
use Prim.Native.Nat.{max}
use text.Mathlib.Text.{starts_with}
use kiwi_catalog.Prelude.{
  ℕ, ◌+◌, ◌≤◌, ◌<◌, String, ◌≡◌, ◌⊎◌, inl, inr, refl, Bool, true, false, ◌&&◌, some, none, ◌==◌,
  arith, eq_iff, Option-cases, All, All-map,
}
use kiwi_catalog.Prelude.Table.{find?}
use kiwi_catalog.Prelude.Table.Laws.{count-insert, count-update_add, count-update_le_All}
use kiwi_catalog.Prelude.Table.Keyed.{Distinct, Distinct-count_le, Distinct-update, find?-only}
use kiwi_catalog.Action.{done, Outcome-cases}
use kiwi_catalog.Listings.Store.{Listing, Plan, Entitlement, Canonical, Db}
use kiwi_catalog.Listings.Repository.{has_id, refreshed, insert_listing}
use kiwi_catalog.Listings.Entitlements.{
  of_merchant, has_plan, limit_of, is_active_of, active_used, require_publication_capacity,
}
use kiwi_catalog.Listings.Entitlements.Admission.{admission_decided}
use kiwi_catalog.Listings.Service.{
  Setting, find_existing, state_of_listing, hold_of, quarantine_hold, update_existing,
  store_listing, release, released, check_capacity, publish_listing,
}
use kiwi_catalog.Listings.Service.Stored.{
  Stored, digest, until, refresh, inserted, update_existing-shape, insert_listing-shape,
}
use kiwi_catalog.Listings.Service.Steps.{
  IsKeyed, find_existing-by_id, insert_listing-raised, publish_listing-steps, store_listing-Stored,
}

abbrev pub of_id : Listing → String
of_id r = r.listing_id

module _ (e : Setting) (c : Canonical) (db : Db) (m : String) where
  abbrev used : Db → ℕ
  used d = active_used m d

  -- an insertion takes one slot at most
  insert_room :
      {row : Listing} {mid : Db}
      → insert_listing e.fresh_id c (digest e c) (until e c) e.now db ≡ done row mid
      → used mid ≤ used db + 1
  unfolding active_used
  insert_room h =
      let (_, _, after) = insert_listing-shape e c db h in
      ground (arith, count-insert (is_active_of m) (inserted e c db) db.listings)

  -- so does an update, and none where the row is active already
  update_room :
      (old : Listing)
      → Distinct of_id db.listings
      → {row : Listing} {created : Bool} {mid : Db}
      → update_existing e c old db ≡ done (row, created) mid
      → used mid ≤ used db + 1
  unfolding active_used
  update_room old d h =
      let (_, _, _, _, after) = update_existing-shape e c old db h in
      ground (
        arith,
        count-update_add (is_active_of m) (has_id old.listing_id) (refresh e c) db.listings,
        Distinct-count_le of_id old.listing_id db.listings d,
      )

  update_no_room :
      (old : Listing)
      → Distinct of_id db.listings
      → find? (has_id old.listing_id) db.listings ≡ some old
      → old.publication_state ≡ "ACTIVE"
      → {row : Listing} {created : Bool} {mid : Db}
      → update_existing e c old db ≡ done (row, created) mid
      → used mid ≤ used db
  unfolding active_used refreshed
  update_no_room old d found active h =
      let (_, _, _, _, after) = update_existing-shape e c old db h in
      let only : All (λ x. has_id old.listing_id x ≡ true → x ≡ old) db.listings =
        find?-only of_id (has_id old.listing_id) db.listings old d found in
      ground (
        arith,
        count-update_le_All (is_active_of m) (has_id old.listing_id) (refresh e c) db.listings (
            All-map
              (λ x same hit taken. ground (arith, same hit, eq_iff old.publication_state "ACTIVE"))
              db.listings only),
      )

  -- the release from a quarantine finds the row active
  release_room :
      (flag : Bool) (stored : Listing) (b : Bool) (mid : Db)
      → Distinct of_id mid.listings
      → Stored e c stored mid
      → {row : Listing} {created : Bool} {db' : Db}
      → release flag (stored, b) mid ≡ done (row, created) db'
      → used db' ≤ used mid
  unfolding active_used release
  release_room false stored b mid d s h = ground arith
  release_room true stored b mid d s h =
      let only : All (λ x. has_id stored.listing_id x ≡ true → x ≡ stored) mid.listings =
        find?-only of_id (has_id stored.listing_id) mid.listings stored d s.in_table in
      let active : stored.publication_state ≡ "ACTIVE" = s.active in
      ground (
        arith,
        count-update_le_All (is_active_of m)
            (λ r. has_id stored.listing_id r && r.governance_hold == quarantine_hold) released
            mid.listings
            (All-map
              (λ x same hit taken. ground (arith, same, eq_iff stored.publication_state "ACTIVE"))
              mid.listings only),
      )

module _ (e : Setting) (c : Canonical) (db : Db) (m : String) (limit : ℕ) where
  abbrev Slot : Type 0
  Slot = (state_of_listing (find_existing c db) ≡ some "ACTIVE") ⊎ (active_used m db < limit)

  -- a new listing: it needs a free slot
  new_bound :
      e.others db ≡ db
      → find_existing c db ≡ none
      → Slot
      → {stored : Listing} {b : Bool} {mid : Db}
      → store_listing e c (find_existing c db) db ≡ done (stored, b) mid
      → active_used m mid ≤ limit
  unfolding store_listing
  new_bound idle new slot {stored} {b} {mid} st =
      elim (Outcome-cases (insert_listing e.fresh_id c (digest e c) (until e c) e.now db)) [
        | inl (row, s, made) ↦
            let taken : active_used m s ≤ active_used m db + 1 = insert_room e c db m made in
            ground (arith, taken)
        | inr (err, s, refused) ↦
            let back : s ≡ db = insert_listing-raised _ c _ _ _ db refused in absurd (ground arith)
      ]

  -- a listing that is there: it is active already, or needs a free slot
  old_bound :
      (old : Listing)
      → IsKeyed db
      → find_existing c db ≡ some old
      → Slot
      → {stored : Listing} {b : Bool} {mid : Db} → update_existing e c old db ≡ done (stored, b) mid
      → active_used m mid ≤ max (active_used m db) limit
  old_bound old keyed found slot st = elim slot [
    | inl active ↦
        let still : old.publication_state ≡ "ACTIVE" = ground arith in
        let kept =
          update_no_room e c db m old keyed.distinct (find_existing-by_id c db old keyed found)
            still st in
        omega (arith, kept)
    | inr free ↦ omega (arith, update_room e c db m old keyed.distinct st)
  ]

  publish_bound :
      IsKeyed db
      → e.others db ≡ db
      → Slot
      → (stored : Listing) (b : Bool) (mid : Db)
      → store_listing e c (find_existing c db) db ≡ done (stored, b) mid
      → {row : Listing} {created : Bool} {db' : Db}
      → release (hold_of (find_existing c db) == quarantine_hold) (stored, b) mid
        ≡ done (row, created) db'
      → active_used m db' ≤ max (active_used m db) limit
  unfolding store_listing release refreshed
  publish_bound keyed idle slot stored b mid st {row} {created} {db'} end =
      elim (Option-cases (find_existing c db)) [
        | inl new ↦
            let within : active_used m mid ≤ limit = new_bound idle new slot st in
            let same : db' ≡ mid = ground arith in ground (arith, within)
        | inr (old, found) ↦
            let st' : update_existing e c old db ≡ done (stored, b) mid = rw found at st in
            let (_, _, _, _, after) = update_existing-shape e c old db st' in
            let d : Distinct of_id mid.listings = rw after (
              Distinct-update of_id (has_id old.listing_id) (refresh e c) db.listings (λ x. refl)
                keyed.distinct) in
            let kept =
              release_room e c db m (hold_of (find_existing c db) == quarantine_hold) stored b mid d
                (store_listing-Stored e c db keyed (rw idle keyed) st) end in
            omega (arith, kept, old_bound old keyed found slot st')
      ]

-- A publication through a runtime that no other connection cuts into leaves the merchant with no
-- more active listings than it had or than its limit allows, whichever is more.
pub publish_listing-room :
    (e : Setting) (c : Canonical) (actor : String) (db : Db) (entitlement : Entitlement)
    (plan : Plan)
    → IsKeyed db
    → e.others db ≡ db
    → starts_with actor "runtime:" ≡ true
    → find? (of_merchant c.merchant_id) db.entitlements ≡ some entitlement
    → find? (has_plan entitlement.plan_code) db.plans ≡ some plan
    → {row : Listing} {created : Bool} {db' : Db}
    → publish_listing e c actor db ≡ done (row, created) db'
    → active_used c.merchant_id db' ≤ max (active_used c.merchant_id db) (limit_of entitlement plan)
unfolding check_capacity
publish_listing-room e c actor db entitlement plan keyed idle via he hp h =
    let (checked, (stored, b), mid, st, end) = publish_listing-steps e c db actor h in
    let passed : require_publication_capacity c.merchant_id (state_of_listing (find_existing c db))
          db
        ≡ done tt db =
      ground arith in
    elim (admission_decided c.merchant_id (state_of_listing (find_existing c db)) db) [
      | inr (refusal, _) ↦ absurd (ground arith)
      | inl (_, admitted) ↦
          let same : admitted.entitlement ≡ entitlement =
            ground (arith, admitted.has_entitlement) in
          let same_plan : admitted.plan ≡ plan = cc (admitted.plan_known, same) in
          publish_bound e c db c.merchant_id (limit_of entitlement plan) keyed idle
            (ground (arith, admitted.room, same, same_plan)) stored b mid st end
    ]
