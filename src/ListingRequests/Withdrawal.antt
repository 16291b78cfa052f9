-- ===== src/ListingRequests/Withdrawal.antt =====
-- A withdrawal through its handler (kiwi_catalog/api/handlers/listings.py with
-- kiwi_catalog/listings/service.py and kiwi_catalog/api/idempotency.py).
use kiwi_catalog.Prelude.{
  ℕ, String, ◌≡◌, refl, inl, inr, true, false, none, some, List, strip, truthy, arith,
}
use kiwi_catalog.Prelude.Table.{insert}
use kiwi_catalog.Action.{done}
use kiwi_catalog.RateLimit.{Window, enforce_agent_catalog_rate_limit}
use kiwi_catalog.Listings.Store.{Listing}
use kiwi_catalog.Listings.Repository.{get_listing}
use kiwi_catalog.Listings.Service.Withdrawal.{withdraw_listing-withdrawn}
use kiwi_catalog.Idempotency.{Body, Response, Site, Call, Moment, catalog_write_idempotency_row}
use kiwi_catalog.Idempotency.Replay.{idempotent_write-done, finished}
use kiwi_catalog.ListingRequests.{
  Answer, withdrawn, Catalog, CatalogAudit, append_catalog_audit, withdraw_work,
  v1_withdraw_listing,
}

-- the entry that a withdrawal makes
abbrev withdrawal : ℕ → String → String → String → CatalogAudit
withdrawal now listing_id owner actor = record {
  catalog_agent_id = owner;
  actor = actor;
  event = "listing_withdrawn";
  listing_id = listing_id;
  created_at = now;
}

-- A merchant's request to withdraw its listing is answered with the listing as WITHDRAWN, the
-- listing is found so afterwards, and the audit has the entry of it after those it had. The request has a new key
-- and is within its budget, the listing is the merchant's, and its id has no space around it.
pub v1_withdraw_listing-withdrawn :
    (m : Moment) (call : Call) (listing_id owner merchant_id actor : String)
    (db : Site Answer Catalog) (ws : List Window) (row : Listing)
    → strip listing_id ≡ listing_id
    → truthy call.idempotency_key ≡ true
    → catalog_write_idempotency_row call db ≡ none
    → enforce_agent_catalog_rate_limit m.now call.actor_key m.budget none db.windows ≡ done tt ws
    → get_listing listing_id db.store.listings ≡ some row
    → row.merchant_id ≡ merchant_id
    → (row' : Listing) × (db' : Site Answer Catalog) × (v1_withdraw_listing m call listing_id owner
          merchant_id actor db
        ≡ done (record { body = Body.full (withdrawn row'); idempotent = false }) db')
      × (row'.publication_state ≡ "WITHDRAWN")
      × (get_listing listing_id db'.store.listings ≡ some row')
      × (db'.store.audits ≡ insert (withdrawal m.now listing_id owner actor) db.store.audits)
unfolding v1_withdraw_listing withdraw_work append_catalog_audit
v1_withdraw_listing-withdrawn m call listing_id owner merchant_id actor db ws row stripped keyed
      free room found own =
    elim (withdraw_listing-withdrawn listing_id stripped m.now merchant_id db.store.listings row
      found) [
        | inl (other, _) ↦ absurd (other own)
        | inr (row', listings', ran, _, gone, found', _) ↦
            let resp : Response Answer = record {
              body = Body.full (withdrawn row');
              idempotent = false;
            } in
            let cat : Catalog =
              append_catalog_audit (withdrawal m.now listing_id owner actor)
                (record db.store { listings = listings' }) in
            let worked : withdraw_work m.now listing_id owner merchant_id actor db.store
                ≡ done resp cat =
              ground (arith, ran) in
            let answered =
              idempotent_write-done m call keyed
                (withdraw_work m.now listing_id owner merchant_id actor) (λ s. done tt s) db ws resp
                cat cat free room worked refl in
            (row', finished m call keyed resp cat cat ws db, answered, gone, found', refl)
      ]
