-- ===== src/Listings/Repository/Expiry.antt =====
-- What the lazy expiry of kiwi_catalog/listings/sqlite_repository.py turns, and what it leaves.
use kiwi_catalog.Prelude.{ℕ, String, ◌≡◌, refl, arith, eq_iff}
use kiwi_catalog.Prelude.Table.{update, count}
use kiwi_catalog.Prelude.Table.Laws.{count-update_none, count-update_eq}
use kiwi_catalog.Listings.Store.{Listing, Db}
use kiwi_catalog.Listings.Repository.{is_expired, expire_stale_listings}
use kiwi_catalog.Listings.Entitlements.{is_active_of, active_used}

abbrev turned : ℕ → Listing → Listing
turned now row = record row { listing_freshness_state = "STALE"; updated_at = now }

module _ (now : ℕ) (db : Db) where
  -- The call reports the number of fresh listings past their time and leaves none of them; done
  -- again at that time, it reports zero. A listing that it turned keeps its slot: no merchant has
  -- fewer or more active listings than before.
  pub expire_stale_listings-none_expired :
      ((expire_stale_listings now db).0 ≡ count (is_expired now) db.listings)
      × (count (is_expired now) (expire_stale_listings now db).1.listings ≡ 0)
      × ((expire_stale_listings now (expire_stale_listings now db).1).0 ≡ 0)
      × ((merchant_id : String)
          → active_used merchant_id (expire_stale_listings now db).1 ≡ active_used merchant_id db)
  unfolding expire_stale_listings active_used
  expire_stale_listings-none_expired =
      let gone : count (is_expired now) (update (is_expired now) (turned now) db.listings) ≡ 0 =
        count-update_none (is_expired now) (is_expired now) (turned now) db.listings
          (λ row _. ground (arith, eq_iff "STALE" "FRESH")) (λ row same. same) in
      (
        refl,
        gone,
        gone,
        λ m.
            count-update_eq (is_active_of m) (is_expired now) (turned now) db.listings
              (λ row _. refl),
      )
