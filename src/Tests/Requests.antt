-- ===== src/Tests/Requests.antt =====
-- Repeated and numerous write requests (kiwi_catalog/api/idempotency.py,
-- kiwi_catalog/services/rate_limit.py).
use kiwi_catalog.Prelude.{
  String, some, strip, eq_iff, arith, ◌≢◌, min, ◌-◌, ◌≡◌, ◌≢◌, refl, true, false, none, List, [],
  ◌∷◌, pos, arith,
}
use kiwi_catalog.Prelude.Table.{find?, insert, update, delete, count}
use kiwi_catalog.Result.{Error}
use kiwi_catalog.Action.{done, raised}
use kiwi_catalog.RateLimit.{
  enforce_agent_catalog_rate_limit, enforce_rate_limit, consume, fixed_window_start, upsert,
  prune_expired_windows,
}
use kiwi_catalog.RateLimit.Budget.{Request, used, asked, admitted, admitted_exactly}
use kiwi_catalog.Idempotency.{
  Body, Response, Stored, Site, Call, Moment, marked, catalog_write_idempotency_row,
  replay_catalog_write_idempotency, claim_catalog_write_idempotency,
  complete_catalog_write_idempotency, work_and_complete, idempotent_write,
}
use kiwi_catalog.Idempotency.Replay.{idempotent_write-once, idempotent_write-failed}
use kiwi_catalog.ListingRequests.Withdrawal.{v1_withdraw_listing-withdrawn}
use kiwi_catalog.Listings.Store.{Listing}
use kiwi_catalog.ListingRequests.{
  v1_withdraw_listing, withdrawn, Answer, published, Catalog, publish_work, publish_listing_inline,
  append_catalog_audit,
}
use kiwi_catalog.Listings.Repository.{
  get_listing, get_listing_by_upsert_key, has_upsert_key, insert_listing, new_row, content_of,
  clashes,
}
use kiwi_catalog.Listings.Entitlements.{
  active_used, capacity, capacity_of, require_publication_capacity,
}
use kiwi_catalog.Listings.Service.{
  find_existing, publish_listing, require_owner_active, owner_agent, check_capacity, store_listing,
  release, compute_listing_digest, default_fresh_until,
}
use kiwi_catalog.Tests.Publishing.{lamp, lamp_row, setting, shop, shop_with_lamp}

abbrev two_at_once : List Request
two_at_once =
    record { actor = "a"; at = 100000000 }
    ∷ record { actor = "b"; at = 100000001 }
    ∷ record { actor = "a"; at = 100000002 }
    ∷ record { actor = "a"; at = 100000003 }
    ∷ []

admitted_exactly_example :
    admitted 2 "a" 99999960 two_at_once []
    ≡ min (asked "a" 99999960 two_at_once) (2 - used "a" 99999960 [])
unfolding used find?
admitted_exactly_example =
    admitted_exactly 2 "a" 99999960 two_at_once [] (omega arith)
      (omega arith, (omega arith, (omega arith, (omega arith, tt)))) (omega arith)

abbrev moment : Moment
moment = record { now = 100000000; budget = pos 60; completions = 128 }

abbrev call : Call
call = record {
  endpoint = "/v1/listings/publish";
  actor_key = "m_1";
  idempotency_key = "k-1";
  request_hash = "h-1";
}

abbrev empty_site : Site Answer Catalog
empty_site = record {
  claims = [];
  windows = [];
  store = record { listings = shop; audits = []; usages = [] };
}

abbrev answer : Response Answer
answer = record { body = Body.full (published lamp_row true); idempotent = false }

abbrev site_with_lamp : Site Answer Catalog
site_with_lamp = record {
  claims =
      record {
        endpoint = "/v1/listings/publish";
        actor_key = "m_1";
        idempotency_key = "k-1";
        request_hash = "h-1";
        status = "completed";
        response_json = Stored.object answer;
        created_at = 100000000;
        updated_at = 100000000;
      }
      ∷ [];
  windows =
      record { key = "m_1"; window_start = 99999960; request_count = 1; updated_at = 100000000 }
      ∷ [];
  store = record {
    listings = shop_with_lamp;
    audits =
        record {
          catalog_agent_id = "agent_1";
          actor = "runtime:agent_1";
          event = "listing_published";
          listing_id = "lst_1";
          created_at = 1000;
        }
        ∷ [];
    usages = [];
  };
}

first_answered :
    idempotent_write moment call
      (publish_work setting lamp "runtime:agent_1")
      (λ s. done tt s)
      empty_site
    ≡ done answer site_with_lamp
unfolding idempotent_write replay_catalog_write_idempotency catalog_write_idempotency_row
    enforce_agent_catalog_rate_limit enforce_rate_limit consume fixed_window_start
    claim_catalog_write_idempotency work_and_complete complete_catalog_write_idempotency
    publish_work publish_listing_inline append_catalog_audit find? insert update delete
    publish_listing require_owner_active owner_agent find_existing get_listing_by_upsert_key
    has_upsert_key check_capacity require_publication_capacity capacity capacity_of active_used
    store_listing insert_listing new_row content_of clashes compute_listing_digest
    default_fresh_until release count upsert prune_expired_windows
first_answered = refl

other_content : ◌≢◌ {A = String} "h-2" "h-1"
other_content h = absurd (ground (arith, eq_iff "h-2" "h-1", h))

idempotent_write-once_example :
    (idempotent_write moment call
        (publish_work setting lamp "admin")
        (λ s. done tt s)
        site_with_lamp
      ≡ done (marked answer) site_with_lamp)
    × (idempotent_write moment
          (record call { request_hash = "h-2" })
          (publish_work setting lamp "admin")
          (λ s. done tt s)
          site_with_lamp
        ≡ raised Error.idempotency_conflict site_with_lamp)
unfolding catalog_write_idempotency_row find?
idempotent_write-once_example =
    idempotent_write-once moment call refl (publish_work setting lamp "runtime:agent_1")
      (λ s. done tt s) empty_site site_with_lamp answer refl first_answered moment
      (publish_work setting lamp "admin") (λ s. done tt s) "h-2" other_content

abbrev not_hers : Error
not_hers = Error.permission_denied

idempotent_write-failed_example :
    (db' : Site Answer Catalog) × (idempotent_write moment call
        (λ s. raised not_hers s)
        (λ s. done tt s)
        empty_site
      ≡ raised not_hers db')
    × (catalog_write_idempotency_row call db' ≡ none)
    × (db'.windows ≡ site_with_lamp.windows)
    × (db'.store ≡ empty_site.store)
unfolding catalog_write_idempotency_row enforce_agent_catalog_rate_limit enforce_rate_limit consume
    fixed_window_start upsert prune_expired_windows find? insert delete
idempotent_write-failed_example =
    idempotent_write-failed moment call refl (λ s. raised not_hers s) (λ s. done tt s) empty_site
      site_with_lamp.windows not_hers empty_site.store refl refl refl

abbrev stocked : Site Answer Catalog
stocked = record empty_site {
  store = record { listings = shop_with_lamp; audits = []; usages = [] };
}

lamp_kept : get_listing "lst_1" shop_with_lamp ≡ some lamp_row
unfolding get_listing find? strip
lamp_kept = refl

v1_withdraw_listing-withdrawn_example :
    (row' : Listing) × (db' : Site Answer Catalog) × (v1_withdraw_listing moment call "lst_1"
        "agent_1" "m_1" "m_1" stocked
      ≡ done (record { body = Body.full (withdrawn row'); idempotent = false }) db')
    × (row'.publication_state ≡ "WITHDRAWN")
    × (get_listing "lst_1" db'.store.listings ≡ some row')
    × (db'.store.audits
        ≡ insert
            (record {
              catalog_agent_id = "agent_1";
              actor = "m_1";
              event = "listing_withdrawn";
              listing_id = "lst_1";
              created_at = 100000000;
            })
            [])
unfolding catalog_write_idempotency_row enforce_agent_catalog_rate_limit enforce_rate_limit consume
    fixed_window_start upsert prune_expired_windows find? insert delete strip
v1_withdraw_listing-withdrawn_example =
    v1_withdraw_listing-withdrawn moment call "lst_1" "agent_1" "m_1" "m_1" stocked
      site_with_lamp.windows lamp_row refl refl refl refl lamp_kept refl
