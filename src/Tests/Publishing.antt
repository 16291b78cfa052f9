-- ===== src/Tests/Publishing.antt =====
-- Publishing, withdrawing and suspending on a small database (kiwi_catalog/listings).
use kiwi_catalog.Prelude.{◌≤◌, ◌≡◌, refl, true, none, some, [], ◌∷◌, strip, max}
use kiwi_catalog.Prelude.Table.{find?, insert, count}
use kiwi_catalog.Action.{done}
use kiwi_catalog.Listings.Store.{Listing, Plan, Entitlement, Canonical, Db}
use kiwi_catalog.Listings.Repository.{
  get_listing_by_upsert_key, has_upsert_key, insert_listing, new_row, content_of, clashes,
}
use kiwi_catalog.Listings.Entitlements.{
  active_used, capacity, capacity_of, require_publication_capacity,
}
use kiwi_catalog.Listings.Service.{
  Setting, find_existing, publish_listing, require_owner_active, owner_agent, check_capacity,
  store_listing, release, compute_listing_digest, default_fresh_until,
}
use kiwi_catalog.Listings.Service.Stored.{Stored}
use kiwi_catalog.Listings.Service.Steps.{IsKeyed, publish_listing-Stored}
use kiwi_catalog.Listings.Service.Room.{publish_listing-room}

abbrev pub lamp : Canonical
lamp = record {
  listing_type = "product";
  owner_agent_id = "agent_1";
  merchant_id = "m_1";
  source_product_ref = some "sku-1";
  publisher_listing_key = none;
  source_revision = none;
  title = "Lamp";
  summary = none;
  category = "home";
  brand = none;
  attributes = none;
  regions = none;
  tags = none;
  commercial_hints = none;
  handoff_destination_types = none;
  handoff_destination_ref = none;
  fresh_until = none;
}

abbrev pub setting : Setting
setting = record { hash = λ c. c.title; fresh_id = "lst_1"; now = 1000; others = λ db. db }

abbrev pub free_plan : Plan
free_plan = record { plan_code = "free"; active_limit = 20; updated_at = 0 }

abbrev pub free_entitlement : Entitlement
free_entitlement = record {
  merchant_id = "m_1";
  plan_code = "free";
  status = "active";
  limit_override = none;
  updated_at = 0;
}

abbrev pub shop : Db
shop = record {
  listings = [];
  next_id = 1;
  agents =
      record { catalog_agent_id = "agent_1"; merchant_id = "m_1"; administrative_state = "active" }
      ∷ [];
  accounts =
      record { account_id = 1; merchant_id = "m_1"; status = "active"; email_verified = 1 } ∷ [];
  merchants = "m_1" ∷ [];
  plans = free_plan ∷ [];
  entitlements = free_entitlement ∷ [];
  audits = [];
}

abbrev pub lamp_row : Listing
lamp_row = record {
  id = 1;
  listing_id = "lst_1";
  listing_type = "product";
  owner_agent_id = "agent_1";
  merchant_id = "m_1";
  source_product_ref = some "sku-1";
  publisher_listing_key = none;
  content = record {
    source_revision = "";
    title = "Lamp";
    summary = "";
    category = "home";
    brand = "";
    attributes_json = "{}";
    regions_json = "[]";
    tags_json = "[]";
    commercial_hints_json = "{}";
    handoff_destination_types_json = "[]";
    handoff_destination_ref = "";
  };
  listing_digest = "Lamp";
  publication_state = "ACTIVE";
  governance_hold = 0;
  listing_freshness_state = "FRESH";
  published_at = 1000;
  updated_at = 1000;
  fresh_until = 87400;
  created_at = 1000;
}

abbrev pub shop_with_lamp : Db
shop_with_lamp = record shop { listings = lamp_row ∷ []; next_id = 2 }

lamp_published :
    publish_listing setting lamp "runtime:agent_1" shop ≡ done (lamp_row, true) shop_with_lamp
unfolding publish_listing require_owner_active owner_agent find_existing get_listing_by_upsert_key
    has_upsert_key check_capacity require_publication_capacity capacity capacity_of active_used
    store_listing insert_listing new_row content_of clashes compute_listing_digest
    default_fresh_until release find? insert count
lamp_published = refl

shop-IsKeyed : IsKeyed shop
shop-IsKeyed = record { distinct = tt; stripped = tt }

with_lamp-IsKeyed : IsKeyed shop_with_lamp
unfolding strip count
with_lamp-IsKeyed = record { distinct = (refl, tt); stripped = (refl, tt) }

publish_listing-Stored_example : Stored setting lamp lamp_row shop_with_lamp
publish_listing-Stored_example =
    publish_listing-Stored setting lamp "runtime:agent_1" shop shop-IsKeyed shop-IsKeyed
      lamp_published

publish_listing-room_example : active_used "m_1" shop_with_lamp ≤ max (active_used "m_1" shop) 20
unfolding find?
publish_listing-room_example =
    publish_listing-room setting lamp "runtime:agent_1" shop free_entitlement free_plan shop-IsKeyed
      refl refl refl refl lamp_published

pub lamp_found : find_existing lamp shop_with_lamp ≡ some lamp_row
unfolding find_existing get_listing_by_upsert_key has_upsert_key find?
lamp_found = refl
