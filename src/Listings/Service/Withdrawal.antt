-- ===== src/Listings/Service/Withdrawal.antt =====
-- Withdrawing a listing and reinstating it (kiwi_catalog/listings/service.py).
use kiwi_catalog.Prelude.{
  ℕ, String, ◌≡◌, ◌≢◌, ◌⊎◌, inl, inr, refl, ◌∙◌, true, some, ◌=ₛ◌, arith, eq_iff, Bool-cases, strip,
}
use kiwi_catalog.Prelude.Table.{find?, update}
use kiwi_catalog.Prelude.Table.Laws.{find?-update, find?-true}
use kiwi_catalog.Result.{Error}
use kiwi_catalog.Action.{done, raised}
use kiwi_catalog.Listings.Store.{Listing, Db}
use kiwi_catalog.Listings.Repository.{has_id, with_state, get_listing, set_publication_state}
use kiwi_catalog.Listings.Service.{withdraw_listing}

-- The database after `set_publication_state` with a known state.
abbrev pub moved : String → ℕ → String → Db → Db
moved listing_id now state db = record db {
  listings = update (has_id listing_id) (with_state state now) db.listings;
}

module _ (listing_id : String) (stripped : strip listing_id ≡ listing_id) (now : ℕ) where
  -- a row that is set to a state is found in that state
  pub get_listing-moved :
      (state : String) (db : Db) (row : Listing)
      → get_listing listing_id db ≡ some row
      → get_listing listing_id (moved listing_id now state db) ≡ some (with_state state now row)
  unfolding get_listing
  get_listing-moved state db row found =
      let by_id : find? (has_id listing_id) db.listings ≡ some row = rw stripped at found in
      let hit : has_id listing_id row ≡ true =
        find?-true (has_id listing_id) db.listings row by_id in
      rw stripped (
        find?-update (has_id listing_id) (has_id listing_id) (with_state state now) db.listings
          (λ x _. refl)
        ∙ rw by_id (ground arith))

  -- A listing that its merchant withdraws is then found WITHDRAWN, whatever state it was
  -- in, and the call returns that row; done again, it returns the same and writes nothing. For any
  -- other merchant the call raises PermissionDenied and writes nothing.
  pub withdraw_listing-withdrawn :
      (merchant_id : String) (db : Db) (row : Listing)
      → get_listing listing_id db ≡ some row
      → ((row.merchant_id ≢ merchant_id)
          × (withdraw_listing listing_id merchant_id now db ≡ raised Error.permission_denied db))
        ⊎ ((row' : Listing) × (db' : Db) × (withdraw_listing listing_id merchant_id now db
              ≡ done row' db')
            × (row.merchant_id ≡ merchant_id)
            × (row'.publication_state ≡ "WITHDRAWN")
            × (get_listing listing_id db' ≡ some row')
            × (withdraw_listing listing_id merchant_id now db' ≡ done row' db'))
  unfolding withdraw_listing set_publication_state
  withdraw_listing-withdrawn merchant_id db row found =
      elim (Bool-cases (row.merchant_id =ₛ merchant_id)) [
        | inr other ↦ inl (ground (arith, eq_iff row.merchant_id merchant_id), ground arith)
        | inl own ↦ elim (Bool-cases (row.publication_state =ₛ "WITHDRAWN")) [
          | inl gone ↦ inr (
            row,
            db,
            ground arith,
            ground (arith, eq_iff row.merchant_id merchant_id),
            ground (arith, eq_iff row.publication_state "WITHDRAWN"),
            found,
            ground arith,
          )
          | inr live ↦
              let again : get_listing listing_id (moved listing_id now "WITHDRAWN" db)
                  ≡ some (with_state "WITHDRAWN" now row) =
                get_listing-moved "WITHDRAWN" db row found in
              inr (
                with_state "WITHDRAWN" now row,
                moved listing_id now "WITHDRAWN" db,
                ground (arith, again),
                ground (arith, eq_iff row.merchant_id merchant_id),
                refl,
                again,
                ground (arith, again),
              )
        ]
      ]
