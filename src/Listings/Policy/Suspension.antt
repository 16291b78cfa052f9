-- ===== src/Listings/Policy/Suspension.antt =====
-- What holds after `suspend_owned_listings` of kiwi_catalog/listings/policy.py.
