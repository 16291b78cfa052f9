-- ===== src/Listings/Repository.antt =====
-- kiwi_catalog/listings/sqlite_repository.py: the statements on `commerce_listings`. The two
-- partial unique indexes of kiwi_catalog/db/models.py are the test `clashes`.
pub mod Expiry
use kiwi_catalog.Prelude.{
  ℕ, ◌+◌, String, Bool, false, not, ◌&&◌, ◌||◌, Option, none, some, ◌=ₛ◌, ltb, one_of, is_some,
  strip, if◌then◌else◌, List, [], ◌∷◌,
}
use kiwi_catalog.Prelude.Table.{find?, update, insert, count}
use kiwi_catalog.Result.{Error}
use kiwi_catalog.Action.{Action, Outcome, ◌>>=◌, ◌>>◌}
use kiwi_catalog.Listings.Store.{Content, Listing, Canonical, Db}

-- `d.get(key, default)`
abbrev get_or : Option String → String → String
get_or none d = d
get_or (some s) d = s

-- The content columns of one publication, with the defaults for what the payload leaves out.
unfoldable pub content_of : Canonical → Content
content_of c = record {
  source_revision = get_or c.source_revision "";
  title = c.title;
  summary = get_or c.summary "";
  category = c.category;
  brand = get_or c.brand "";
  attributes_json = get_or c.attributes "{}";
  regions_json = get_or c.regions "[]";
  tags_json = get_or c.tags "[]";
  commercial_hints_json = get_or c.commercial_hints "{}";
  handoff_destination_types_json = get_or c.handoff_destination_types "[]";
  handoff_destination_ref = get_or c.handoff_destination_ref "";
}

-- `column = ?` on a column that may be null
abbrev pub column_is : Option String → String → Bool
column_is none s = false
column_is (some t) s = t =ₛ s

abbrev pub has_id : String → Listing → Bool
has_id listing_id row = row.listing_id =ₛ listing_id

unfoldable pub get_listing : String → Db → Option Listing
get_listing listing_id db = find? (has_id (strip listing_id)) db.listings

-- The clause of `get_listing_by_upsert_key`. The program orders the rows by `id desc`; the indexes
-- leave at most one.
unfoldable pub has_upsert_key : String → String → String → Listing → Bool
has_upsert_key listing_type owner_agent_id upsert_key row =
    row.owner_agent_id =ₛ owner_agent_id
    && row.listing_type =ₛ listing_type
    && (column_is row.source_product_ref upsert_key
        || column_is row.publisher_listing_key upsert_key)

unfoldable pub get_listing_by_upsert_key : String → String → String → Db → Option Listing
get_listing_by_upsert_key listing_type owner_agent_id upsert_key db =
    find? (has_upsert_key listing_type owner_agent_id upsert_key) db.listings

-- Two rows that one of the partial unique indexes keeps apart: equal in a key column that is set.
abbrev pub same_key : Option String → Option String → Bool
same_key none k = false
same_key (some s) none = false
same_key (some s) (some t) = s =ₛ t

unfoldable pub clashes : Listing → Listing → Bool
clashes a b =
    a.owner_agent_id =ₛ b.owner_agent_id
    && a.listing_type =ₛ b.listing_type
    && (same_key a.source_product_ref b.source_product_ref
        || same_key a.publisher_listing_key b.publisher_listing_key)

-- The row that `insert_listing` builds.
unfoldable pub new_row : ℕ → String → Canonical → String → ℕ → ℕ → Listing
new_row id listing_id c listing_digest fresh_until now = record {
  id = id;
  listing_id = listing_id;
  listing_type = c.listing_type;
  owner_agent_id = c.owner_agent_id;
  merchant_id = c.merchant_id;
  source_product_ref = c.source_product_ref;
  publisher_listing_key = c.publisher_listing_key;
  content = content_of c;
  listing_digest = listing_digest;
  publication_state = "ACTIVE";
  governance_hold = 0;
  listing_freshness_state = "FRESH";
  published_at = now;
  updated_at = now;
  fresh_until = fresh_until;
  created_at = now;
}

-- A unique constraint refuses the row: `sqlite3.IntegrityError`.
abbrev pub refused : Listing → List Listing → Bool
refused row rows = is_some (find? (λ old. has_id row.listing_id old || clashes row old) rows)

unfoldable pub insert_listing : String → Canonical → String → ℕ → ℕ → Action Db Listing
insert_listing listing_id c listing_digest fresh_until now db =
    let row = new_row db.next_id listing_id c listing_digest fresh_until now in
    if refused row db.listings
    then Outcome.raised Error.integrity db
    else Outcome.done row
        (record db { listings = insert row db.listings; next_id = db.next_id + 1 })

-- The assignments of `update_listing`; the governance hold and the owner stay.
unfoldable pub refreshed : Canonical → String → ℕ → ℕ → Listing → Listing
refreshed c listing_digest fresh_until now row = record row {
  source_product_ref = c.source_product_ref;
  publisher_listing_key = c.publisher_listing_key;
  content = content_of c;
  listing_digest = listing_digest;
  publication_state = "ACTIVE";
  listing_freshness_state = "FRESH";
  updated_at = now;
  fresh_until = fresh_until;
}

-- Another row that the unique indexes would keep apart from the updated one.
abbrev pub clashes_elsewhere : String → Listing → Listing → Bool
clashes_elsewhere listing_id row old = not (has_id listing_id old) && clashes row old

unfoldable pub update_listing : String → Canonical → String → ℕ → ℕ → Action Db (Option Listing)
update_listing listing_id c listing_digest fresh_until now db = elim (get_listing listing_id db) [
  | none ↦ Outcome.done none db
  | some row ↦
      let row' = refreshed c listing_digest fresh_until now row in
      if is_some (find? (clashes_elsewhere listing_id row') db.listings)
      then Outcome.raised Error.integrity db
      else Outcome.done (some row') (record db {
        listings =
            update (has_id listing_id) (refreshed c listing_digest fresh_until now) db.listings;
      })
]

abbrev pub publication_states : List String
publication_states = "ACTIVE" ∷ "WITHDRAWN" ∷ "SUSPENDED" ∷ []

abbrev pub with_state : String → ℕ → Listing → Listing
with_state state now row = record row { publication_state = state; updated_at = now }

-- `require_publication_state` of kiwi_catalog/listings/domain.py raises before the statement.
unfoldable pub set_publication_state : String → String → ℕ → Action Db Unit
set_publication_state listing_id publication_state now db =
    if one_of publication_states publication_state
    then Outcome.done tt (record db {
      listings = update (has_id listing_id) (with_state publication_state now) db.listings;
    })
    else Outcome.raised Error.value_error db

abbrev pub is_expired : ℕ → Listing → Bool
is_expired now row = row.listing_freshness_state =ₛ "FRESH" && ltb row.fresh_until now

-- Returns the number of rows that it turned.
unfoldable pub expire_stale_listings : ℕ → Db → ℕ × Db
expire_stale_listings now db = (
  count (is_expired now) db.listings,
  record db {
    listings =
        update (is_expired now)
          (λ row. record row { listing_freshness_state = "STALE"; updated_at = now }) db.listings;
  },
)
