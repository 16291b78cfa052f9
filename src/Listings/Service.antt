-- ===== src/Listings/Service.antt =====
-- kiwi_catalog/listings/service.py: publishing, withdrawing and reinstating a listing. Each runs in
-- the write transaction of its caller.
pub mod Stored
pub mod Steps
pub mod Held
pub mod Room
pub mod Withdrawal
pub mod Reinstatement
pub mod Restoration
use Prim.Native.Nat.{◌+◌}
use text.Mathlib.Text.{starts_with}
use kiwi_catalog.Prelude.{
  ℕ, ◌*◌, String, Bool, true, false, not, ◌&&◌, Option, none, some, [], ◌∷◌, ◌==◌, ◌=ₛ◌, one_of,
  is_some, truthy, or_else, if◌then◌else◌,
}
use kiwi_catalog.Prelude.Table.{find?, update}
use kiwi_catalog.Result.{Error}
use kiwi_catalog.Action.{Action, Outcome, ◌>>=◌, ◌>>◌, pure, gets, modify, raise_if, from_option}
use kiwi_catalog.Listings.Store.{Listing, Agent, Canonical, Db}
use kiwi_catalog.Listings.Repository.{
  has_id, get_listing, get_listing_by_upsert_key, insert_listing, update_listing,
  set_publication_state,
}
use kiwi_catalog.Listings.Entitlements.{require_publication_capacity}

-- `DEFAULT_TTL_HOURS` in seconds; any other type has the product's
abbrev default_ttl : String → ℕ
default_ttl listing_type = if listing_type =ₛ "capability" then 7 * 24 * 3600 else 24 * 3600

unfoldable pub default_fresh_until : String → Option ℕ → ℕ → ℕ
default_fresh_until listing_type (some t) now = t
default_fresh_until listing_type none now = now + default_ttl listing_type

unfoldable pub owner_agent : String → Db → Option Agent
owner_agent owner_agent_id db = find? (λ a. a.catalog_agent_id =ₛ owner_agent_id) db.agents

-- `str(row["administrative_state"] or "active")`
abbrev pub barred : Agent → Bool
barred a = one_of ("suspended" ∷ "rejected" ∷ []) (or_else a.administrative_state "active")

unfoldable pub require_owner_active : String → String → Action Db Unit
require_owner_active owner_agent_id merchant_id = do
  found ← gets (owner_agent owner_agent_id)
  row ← from_option Error.not_found found
  raise_if (barred row) Error.permission_denied
  raise_if (truthy row.merchant_id && not (row.merchant_id =ₛ merchant_id)) Error.permission_denied

-- `source_product_ref or publisher_listing_key`
abbrev pub first_set : Option String → Option String → Option String
first_set none k = k
first_set (some s) k = if truthy s then some s else k

-- the lookup is made only for a key that is neither missing nor empty
abbrev lookup_by : String → String → Option String → Db → Option Listing
lookup_by listing_type owner none db = none
lookup_by listing_type owner (some key) db =
    if truthy key then get_listing_by_upsert_key listing_type owner key db else none

unfoldable pub find_existing : Canonical → Db → Option Listing
find_existing c =
    lookup_by c.listing_type c.owner_agent_id
      (first_set c.source_product_ref c.publisher_listing_key)

abbrev pub hold_of : Option Listing → ℕ
hold_of none = 0
hold_of (some row) = row.governance_hold

abbrev pub state_of_listing : Option Listing → Option String
state_of_listing none = none
state_of_listing (some row) = some row.publication_state

abbrev pub quarantine_hold : ℕ
quarantine_hold = 2

-- What a publication is given from outside: the hash of the canonical content, a new id, the time,
-- and what other connections commit between the lookup and the insertion.
pub record Setting : Type 0 where
  pub hash : Canonical → String
  pub fresh_id : String
  pub now : ℕ
  pub others : Db → Db

-- `fresh_until` is no part of the content that is hashed.
unfoldable pub compute_listing_digest : Setting → Canonical → String
compute_listing_digest e c = e.hash (record c { fresh_until = none })

-- the `update_listing` of a row that was just read
unfoldable pub update_existing : Setting → Canonical → Listing → Action Db (Listing × Bool)
update_existing e c existing = do
  updated ←
      update_listing existing.listing_id c (compute_listing_digest e c)
        (default_fresh_until c.listing_type c.fresh_until e.now) e.now
  row ← from_option Error.assertion updated
  pure (row, false)

-- A lost race: the row that the other connection inserted is read again and updated; without one
-- the error is raised again.
abbrev pub retry : Setting → Canonical → Outcome Db Listing → Outcome Db (Listing × Bool)
retry e c (Outcome.done row db) = Outcome.done (row, true) db
retry e c (Outcome.raised err db) = elim (find_existing c db) [
  | none ↦ Outcome.raised err db
  | some raced ↦ update_existing e c raced db
]

unfoldable pub store_listing : Setting → Canonical → Option Listing → Action Db (Listing × Bool)
store_listing e c (some existing) db = update_existing e c existing db
store_listing e c none db = retry e c (
    insert_listing e.fresh_id c (compute_listing_digest e c)
      (default_fresh_until c.listing_type c.fresh_until e.now) e.now (e.others db))

abbrev pub released : Listing → Listing
released row = record row { governance_hold = 0; publication_state = "ACTIVE" }

-- A content quarantine ends with the publication of new content.
unfoldable pub release : Bool → Listing × Bool → Action Db (Listing × Bool)
release false (row, created) = pure (row, created)
release true (row, created) = do
  modify (λ (db : Db). record db {
    listings =
        update (λ r. has_id row.listing_id r && r.governance_hold == quarantine_hold) released
          db.listings;
  })
  pure (released row, created)

unfoldable pub check_capacity : String → String → Option Listing → Action Db Unit
check_capacity actor merchant_id existing =
    if starts_with actor "runtime:"
    then require_publication_capacity merchant_id (state_of_listing existing)
    else pure tt

unfoldable pub publish_listing : Setting → Canonical → String → Action Db (Listing × Bool)
publish_listing e c actor = do
  require_owner_active c.owner_agent_id c.merchant_id
  existing ← gets (find_existing c)
  raise_if (hold_of existing == 1) Error.permission_denied
  check_capacity actor c.merchant_id existing
  stored ← store_listing e c existing
  release (hold_of existing == quarantine_hold) stored

-- `repo.get_listing(conn, listing_id) or row`
abbrev reread : String → Listing → Db → Listing
reread listing_id row db = elim (get_listing listing_id db) [ none ↦ row | some r ↦ r ]

unfoldable pub withdraw_listing : String → String → ℕ → Action Db Listing
withdraw_listing listing_id merchant_id now = do
  found ← gets (get_listing listing_id)
  row ← from_option Error.not_found found
  raise_if (not (row.merchant_id =ₛ merchant_id)) Error.permission_denied
  if row.publication_state =ₛ "WITHDRAWN"
      then pure row
      else do set_publication_state listing_id "WITHDRAWN" now; gets (reread listing_id row)

-- accounts are asked for the merchant only where the merchant has one
unfoldable pub capacity_if_registered : String → Action Db Unit
capacity_if_registered merchant_id = do
  account ← gets (λ (db : Db). find? (λ a. a.merchant_id =ₛ merchant_id) db.accounts)
  if is_some account then require_publication_capacity merchant_id (some "SUSPENDED") else pure tt

abbrev pub clear_hold : String → Db → Db
clear_hold listing_id db = record db {
  listings = update (has_id listing_id) (λ r. record r { governance_hold = 0 }) db.listings;
}

unfoldable pub reinstate_listing : String → String → String → ℕ → Action Db Listing
reinstate_listing listing_id actor merchant_id now = do
  found ← gets (get_listing listing_id)
  row ← from_option Error.not_found found
  raise_if (not (row.merchant_id =ₛ merchant_id)) Error.permission_denied
  raise_if (not (row.publication_state =ₛ "SUSPENDED")) Error.permission_denied
  raise_if (row.governance_hold == quarantine_hold) Error.permission_denied
  raise_if (row.governance_hold == 1 && not (actor =ₛ "admin")) Error.permission_denied
  require_owner_active row.owner_agent_id merchant_id
  capacity_if_registered merchant_id
  modify (λ db. if row.governance_hold == 1 then clear_hold listing_id db else db)
  set_publication_state listing_id "ACTIVE" now
  gets (reread listing_id row)
