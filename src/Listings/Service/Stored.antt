-- ===== src/Listings/Service/Stored.antt =====
-- What a publication stores (kiwi_catalog/listings/service.py).
use kiwi_catalog.Prelude.{
  ℕ, ◌+◌, String, ◌≡◌, inl, inr, refl, ap, ◌∙◌, ◌||◌, Bool, true, false, none, some, strip, arith,
  eq_iff, eq_refl, Option-cases, Bool-cases,
}
use kiwi_catalog.Prelude.Table.{find?, update, insert}
use kiwi_catalog.Prelude.Table.Laws.{find?-update, find?-insert_absent, find?-true, find?-none_le}
use kiwi_catalog.Action.{done}
use kiwi_catalog.Listings.Store.{Listing, Canonical, Db}
use kiwi_catalog.Listings.Repository.{
  has_id, get_listing, content_of, new_row, refreshed, insert_listing, update_listing, refused,
  clashes,
}
use kiwi_catalog.Listings.Service.{
  Setting, compute_listing_digest, default_fresh_until, update_existing,
}

-- What the caller gets and what is in the table afterwards.
pub record Stored (e : Setting) (c : Canonical) (row : Listing) (db : Db) : Type 0 where
  pub in_table : find? (has_id row.listing_id) db.listings ≡ some row
  pub active : row.publication_state ≡ "ACTIVE"
  pub fresh : row.listing_freshness_state ≡ "FRESH"
  pub content : row.content ≡ content_of c
  pub product : row.source_product_ref ≡ c.source_product_ref
  pub key : row.publisher_listing_key ≡ c.publisher_listing_key
  pub digest : row.listing_digest ≡ compute_listing_digest e c
  pub until : row.fresh_until ≡ default_fresh_until c.listing_type c.fresh_until e.now

module _ (e : Setting) (c : Canonical) where
  abbrev pub digest : String
  digest = compute_listing_digest e c

  abbrev pub until : ℕ
  until = default_fresh_until c.listing_type c.fresh_until e.now

  abbrev pub refresh : Listing → Listing
  refresh = refreshed c digest until e.now

  -- the update of a row that was read, where it succeeds
  pub update_existing-shape :
      (old : Listing) (db : Db) {row : Listing} {created : Bool} {db' : Db}
      → update_existing e c old db ≡ done (row, created) db'
      → (r : Listing) × (get_listing old.listing_id db ≡ some r)
        × (row ≡ refresh r)
        × (created ≡ false)
        × (db' ≡ record db { listings = update (has_id old.listing_id) refresh db.listings })
  unfolding update_existing update_listing
  update_existing-shape old db h = elim (Option-cases (get_listing old.listing_id db)) [
    | inl no_row ↦ absurd (ground arith)
    | inr (r, found) ↦ (r, found, ground arith, ground arith, ground arith)
  ]

  pub update_existing-Stored :
      (old : Listing) (db : Db) {row : Listing} {created : Bool} {db' : Db}
      → strip old.listing_id ≡ old.listing_id
      → update_existing e c old db ≡ done (row, created) db'
      → Stored e c row db'
  unfolding get_listing refreshed
  update_existing-Stored old db {row} stripped h =
      let (r, found, same, _, after) = update_existing-shape old db h in
      let by_id : find? (has_id old.listing_id) db.listings ≡ some r = rw stripped at found in
      let hit : has_id old.listing_id r ≡ true =
        find?-true (has_id old.listing_id) db.listings r by_id in
      let found_again : find? (has_id old.listing_id)
            (update (has_id old.listing_id) refresh db.listings)
          ≡ some (refresh r) =
        find?-update (has_id old.listing_id) (has_id old.listing_id) refresh db.listings
          (λ x _. refl)
        ∙ rw by_id (ground arith) in
      let id_eq : r.listing_id ≡ old.listing_id = (eq_iff r.listing_id old.listing_id).0 hit in
      record {
        in_table =
            rw (same, after)
              (ap (λ k. find? (has_id k) (update (has_id old.listing_id) refresh db.listings)) id_eq
                ∙ found_again);
        active = ground arith;
        fresh = ground arith;
        content = ground arith;
        product = ground arith;
        key = ground arith;
        digest = ground arith;
        until = ground arith;
      }

  abbrev pub inserted : Db → Listing
  inserted db = new_row db.next_id e.fresh_id c digest until e.now

  -- the insertion, where no constraint refuses it
  pub insert_listing-shape :
      (db : Db) {row : Listing} {db' : Db}
      → insert_listing e.fresh_id c digest until e.now db ≡ done row db'
      → (row ≡ inserted db)
        × (refused (inserted db) db.listings ≡ false)
        × (db'
            ≡ record db { listings = insert (inserted db) db.listings; next_id = db.next_id + 1 })
  unfolding insert_listing
  insert_listing-shape db h = elim (Bool-cases (refused (inserted db) db.listings)) [
    | inl no_room ↦ absurd (ground arith)
    | inr free ↦ (ground arith, free, ground arith)
  ]

  pub insert_listing-Stored :
      (db : Db) {row : Listing} {db' : Db}
      → insert_listing e.fresh_id c digest until e.now db ≡ done row db'
      → Stored e c row db'
  unfolding new_row
  insert_listing-Stored db h =
      let (same, free, after) = insert_listing-shape db h in
      let new = inserted db in
      let none_found : find? (λ old. has_id new.listing_id old || clashes new old) db.listings
          ≡ none =
        ground arith in
      let unused : find? (has_id new.listing_id) db.listings ≡ none =
        find?-none_le (has_id new.listing_id) (λ old. has_id new.listing_id old || clashes new old)
          db.listings (λ x k. ground arith) none_found in
      record {
        in_table =
            rw (same, after)
              (find?-insert_absent (has_id new.listing_id) new db.listings unused
                ∙ rw (eq_refl new.listing_id));
        active = ground arith;
        fresh = ground arith;
        content = ground arith;
        product = ground arith;
        key = ground arith;
        digest = ground arith;
        until = ground arith;
      }
