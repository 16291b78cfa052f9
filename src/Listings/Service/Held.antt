-- ===== src/Listings/Service/Held.antt =====
-- What a governance hold does to a publication
-- (kiwi_catalog/listings/service.py).
use kiwi_catalog.Prelude.{String, ◌≡◌, ◌⊎◌, none, some, arith}
use kiwi_catalog.Result.{Error}
use kiwi_catalog.Action.{raised}
use kiwi_catalog.Listings.Store.{Listing, Canonical, Db}
use kiwi_catalog.Listings.Service.{
  Setting, owner_agent, require_owner_active, find_existing, publish_listing,
}

module _ (e : Setting) (c : Canonical) (actor : String) (db : Db) where
  -- A listing under an administrator's hold is published again by nobody: the call raises
  -- PermissionDenied, or NotFoundError where the owner is not registered, and writes nothing.
  pub publish_listing-held :
      (row : Listing)
      → find_existing c db ≡ some row
      → row.governance_hold ≡ 1
      → (publish_listing e c actor db ≡ raised Error.permission_denied db)
        ⊎ ((publish_listing e c actor db ≡ raised Error.not_found db)
            × (owner_agent c.owner_agent_id db ≡ none))
  unfolding publish_listing require_owner_active
  publish_listing-held row found held = ground arith
