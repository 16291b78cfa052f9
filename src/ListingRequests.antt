-- ===== src/ListingRequests.antt =====
-- kiwi_catalog/api/handlers/listings.py: the write transactions of publishing, withdrawing and
-- reinstating, once the caller is known. The audit of the catalog
-- (kiwi_catalog/agent_catalog/catalog_audit.py) and the usage counters
-- (kiwi_catalog/services/usage_metrics.py) are written with them.
pub mod Withdrawal
use kiwi_catalog.Prelude.{
  not, one_of, [], ◌∷◌, ℕ, suc, ◌/◌, String, Bool, false, ◌&&◌, List, ◌==◌, ◌=ₛ◌, is_some,
  if◌then◌else◌,
}
use kiwi_catalog.Prelude.Table.{find?, update, insert}
use kiwi_catalog.Action.{Action, Outcome, ◌>>=◌, ◌>>◌, pure, modify}
use kiwi_catalog.Listings.Store.{Listing, Canonical, Db}
use kiwi_catalog.Listings.Service.{Setting, publish_listing, reinstate_listing, withdraw_listing}
use kiwi_catalog.Idempotency.{Body, Response, Site, Call, Moment, idempotent_write}

-- `audit_events`, with the `listing_id` of its details
pub record CatalogAudit : Type 0 where
  pub catalog_agent_id : String
  pub actor : String
  pub event : String
  pub listing_id : String
  pub created_at : ℕ

pub record Usage : Type 0 where
  pub metric : String
  pub day : ℕ
  pub count : ℕ
  pub updated_at : ℕ

pub record Catalog : Type 0 where
  pub listings : Db
  pub audits : List CatalogAudit
  pub usages : List Usage

-- The key `listing` of a response, and `created` of a publication.
pub data Answer : Type 0 where
  published : Listing → Bool → Answer
  reinstated withdrawn : Listing → Answer

abbrev on_listings : {A : Type 0} → (Db → Outcome Db A) → Catalog → Outcome Catalog A
on_listings work cat = elim (work cat.listings) [
  | Outcome.done a db ↦ Outcome.done a (record cat { listings = db })
  | Outcome.raised e db ↦ Outcome.raised e (record cat { listings = db })
]

unfoldable pub append_catalog_audit : CatalogAudit → Catalog → Catalog
append_catalog_audit entry cat = record cat { audits = insert entry cat.audits }

abbrev all_metrics : List String
all_metrics =
    "buyer_agent_search" ∷ "buyer_listing_search" ∷ "merchant_self_check" ∷ "listing_publish"
    ∷ "merchant_access_near_cap" ∷ []

abbrev listing_publish : String
listing_publish = "listing_publish"

abbrev is_usage : String → ℕ → Usage → Bool
is_usage metric day u = u.metric =ₛ metric && u.day == day

-- The day is the first ten characters of the time's text; an unknown metric is skipped.
unfoldable pub record_usage : String → ℕ → Catalog → Catalog
record_usage metric now cat =
    if not (one_of all_metrics metric)
    then cat
    else let day = now / 86400 in
      if is_some (find? (is_usage metric day) cat.usages)
      then record cat {
        usages =
            update (is_usage metric day) (λ u. record u { count = suc u.count; updated_at = now })
              cat.usages;
      }
      else record cat {
        usages =
            insert (record { metric = metric; day = day; count = 1; updated_at = now }) cat.usages;
      }

unfoldable pub publish_listing_inline :
    Setting → Canonical → String → Action Catalog (Listing × Bool)
publish_listing_inline e c actor = do
  (row, created) ← on_listings (publish_listing e c actor)
  modify (
      append_catalog_audit (record {
        catalog_agent_id = row.owner_agent_id;
        actor = actor;
        event = if created then "listing_published" else "listing_republished";
        listing_id = row.listing_id;
        created_at = e.now;
      }))
  pure (row, created)

unfoldable pub publish_work : Setting → Canonical → String → Action Catalog (Response Answer)
publish_work e c actor = do
  (row, created) ← publish_listing_inline e c actor
  pure (record { body = Body.full (published row created); idempotent = false })

unfoldable pub v1_publish_listing :
    Moment → Call → Setting → Canonical → String → Action (Site Answer Catalog) (Response Answer)
v1_publish_listing m call e c actor =
    idempotent_write m call (publish_work e c actor) (modify (record_usage listing_publish m.now))

unfoldable pub reinstate_work :
    ℕ → String → String → String → String → Action Catalog (Response Answer)
reinstate_work now listing_id owner_agent_id merchant_id actor = do
  row ← on_listings (reinstate_listing listing_id actor merchant_id now)
  modify (
      append_catalog_audit (record {
        catalog_agent_id = owner_agent_id;
        actor = actor;
        event = "listing_reinstated";
        listing_id = listing_id;
        created_at = now;
      }))
  pure (record { body = Body.full (reinstated row); idempotent = false })

unfoldable pub v1_reinstate_listing :
    Moment
    → Call
    → String
    → String
    → String
    → String
    → Action (Site Answer Catalog) (Response Answer)
v1_reinstate_listing m call listing_id owner_agent_id merchant_id actor =
    idempotent_write m call (reinstate_work m.now listing_id owner_agent_id merchant_id actor)
      (pure tt)

unfoldable pub withdraw_work :
    ℕ → String → String → String → String → Action Catalog (Response Answer)
withdraw_work now listing_id owner_agent_id merchant_id actor = do
  row ← on_listings (withdraw_listing listing_id merchant_id now)
  modify (
      append_catalog_audit (record {
        catalog_agent_id = owner_agent_id;
        actor = actor;
        event = "listing_withdrawn";
        listing_id = listing_id;
        created_at = now;
      }))
  pure (record { body = Body.full (withdrawn row); idempotent = false })

unfoldable pub v1_withdraw_listing :
    Moment
    → Call
    → String
    → String
    → String
    → String
    → Action (Site Answer Catalog) (Response Answer)
v1_withdraw_listing m call listing_id owner_agent_id merchant_id actor =
    idempotent_write m call (withdraw_work m.now listing_id owner_agent_id merchant_id actor)
      (pure tt)
