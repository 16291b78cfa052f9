-- ===== src/Listings/Policy.antt =====
-- kiwi_catalog/listings/policy.py: what the suspension of an agent does to its listings.
pub mod Suspension
use kiwi_catalog.Prelude.{ℕ, String, Bool, ◌&&◌, ◌=ₛ◌}
use kiwi_catalog.Prelude.Table.{update, count}
use kiwi_catalog.Listings.Store.{Listing, Db}

abbrev pub is_active_owned : String → Listing → Bool
is_active_owned owner_agent_id row =
    row.owner_agent_id =ₛ owner_agent_id && row.publication_state =ₛ "ACTIVE"

abbrev pub suspended : ℕ → Listing → Listing
suspended now row = record row {
  publication_state = "SUSPENDED";
  governance_hold = 1;
  updated_at = now;
}

-- Returns the number of rows that it suspended.
unfoldable pub suspend_owned_listings : String → ℕ → Db → ℕ × Db
suspend_owned_listings owner_agent_id now db = (
  count (is_active_owned owner_agent_id) db.listings,
  record db { listings = update (is_active_owned owner_agent_id) (suspended now) db.listings },
)
