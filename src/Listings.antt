-- ===== src/Listings.antt =====
-- kiwi_catalog/listings: what merchants publish.
pub mod Store
pub mod Repository
pub mod Entitlements
pub mod Service
pub mod Policy
