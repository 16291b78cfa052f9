-- ===== src/Lib.antt =====
-- kiwi-catalog: a registry of commerce agents over SQLite, and the verification of its core.
--
-- Merchants register agents, publish listings for them through HTTP handlers, and hand over a share
-- code by which buyers reach a hosted runtime. The parts that are modelled, and where:
--
--   * Result, Action. The failures of kiwi_catalog/core/errors.py; a pure function that may raise is
--     a `Result`, one that writes to a connection an `Action`, which keeps what was written beside a
--     raised error. `db_session` is that of kiwi_catalog/db/session.py: it commits at a normal end
--     and drops everything at an exception.
--   * StateDomains. kiwi_catalog/agent_catalog/state_domains.py: the levels of verification, the
--     freshness and the administrative verdict of an agent, with their three state machines
--     (StateDomains.Level, .Freshness, .Administrative) and the folding into one shown status.
--   * Degradation. kiwi_catalog/services/verification_degradation.py: the level that evidence still
--     supports, and the plan for a failed profile.
--   * Listings. The table commerce_listings and what writes to it: the statements of
--     kiwi_catalog/listings/sqlite_repository.py (Listings.Repository), the plans and entitlements
--     of kiwi_catalog/services/listing_entitlements.py (Listings.Entitlements), publishing,
--     withdrawing and reinstating in kiwi_catalog/listings/service.py (Listings.Service), and the
--     suspension of an agent's listings in kiwi_catalog/listings/policy.py (Listings.Policy).
--   * RateLimit. kiwi_catalog/services/rate_limit.py, and the write budget of
--     kiwi_catalog/api/idempotency.py that is built on it.
--   * Idempotency. The ledger of kiwi_catalog/api/idempotency.py, and the five steps of the write
--     handlers: replay, rate limit, claim, work, completion.
--   * ListingRequests. The transactions of publishing, withdrawing and reinstating in
--     kiwi_catalog/api/handlers/listings.py, which run Listings.Service inside those steps.
--   * RequestNonces. The time window and the nonces of kiwi_catalog/a2a/request_signature.py.
--   * RuntimeAccess. kiwi_catalog/services/runtime_access.py: parsing a configuration (Parse), its
--     versions and the merchant's consent (Changes), and what is shown of them.
--   * AgentCatalog. The state columns of catalog_agents and the evidence in agent_verifications:
--     statements of kiwi_catalog/agent_catalog/sqlite_repository.py and verification_evidence.py,
--     the heartbeat, the freshness that kiwi_catalog/agent_catalog/freshness.py shows (Reading), and
--     the pages of a list with their cursors (Pages), of pagination.py and catalog_query.py there.
--   * BindingRequests. kiwi_catalog/services/binding_requests.py: requests for the binding of a
--     hosted runtime, which a merchant confirms or rejects, with what a confirmation writes in its
--     transaction: the binding, the endpoints of kiwi_catalog/services/agent_endpoints.py
--     (Endpoints), the evidence and the promotion (Evidence), and the configuration of
--     RuntimeAccess that came with the request.
--   * Enrollments. kiwi_catalog/services/enrollments.py, the pairing of a device, and the part of
--     kiwi_catalog/api/handlers/accounts.py that authorizes it.
--   * BindingHandlers. kiwi_catalog/api/handlers/cloud_binding.py: bindings that are made, rotated
--     and revoked by the holder of the key or by an administrator, and the exchange of an enrollment's
--     grant for a binding (Grants), around the network challenge that lies between its two
--     transactions; and the update of a runtime's configuration (Updates), whose staged version is
--     discarded when its challenge or its end fails. It shares the state of BindingRequests and
--     Enrollments.
--   * QueueLedger. kiwi_catalog/services/verification_queue_ledger.py: the rows by which the queue of
--     verifications survives a restart.
--   * BuyerFollows. kiwi_catalog/services/buyer_follows.py and merchant_public_events.py: merchants
--     emit events, buyers follow merchants and pull what is new.
--   * MerchantTokens. kiwi_catalog/services/merchant_tokens.py: applications, and tokens that are
--     issued, rotated and revoked.
--   * Prelude. Tests on numbers and texts, `str.strip`, and tables: a table is the list of its rows
--     in insertion order, `find?`, `select`, `update`, `delete`, `insert` and `count` are the
--     statements on it, and Prelude.Sorting is `order by`. Tests holds runs on concrete inputs.
--
-- Functions keep the names of the source. A function takes the time as an argument `now`, or in a
-- record (`Setting`, `Moment`, `Env`) with the other things that it is given from outside: a fresh
-- id, the hash of a content, what other connections commit meanwhile, the encryption of secrets.
-- These are arbitrary in every theorem. Times are whole seconds where the source has ISO texts, and
-- fractions of a second are dropped, but for BuyerFollows, which counts microseconds as the source.
-- JSON columns are their texts; the messages of errors are left out. Numbers are natural numbers,
-- and Python's integers where a caller may pass a negative one.
-- The loops of the modelled code are statements on tables and rounds over their rows, by recursion
-- on the list. Only the digits of a number (`decimal`, for an f-string) are written with fuel: n + 1
-- steps for the number n, which has fewer digits. A client that reads a list page by page
-- (AgentCatalog.Paging) follows a bounded number of cursors: as many as there are rows are enough.
--
-- Not modelled: the web framework and routing, authentication, fetching over the network, the schema
-- migrations, the command line, and the services for accounts, publications and the statistics of
-- buyers, with the verification pipeline around Degradation. Given as values or functions are the
-- verdicts on signatures, endpoints and the preview of a device's card, hashing and encryption, the
-- host in a url, and the sanitising of a payload.
pub mod Action
pub mod AgentCatalog
pub mod BindingHandlers
pub mod BindingRequests
pub mod BuyerFollows
pub mod Degradation
pub mod Enrollments
pub mod Idempotency
pub mod ListingRequests
pub mod Listings
pub mod MerchantTokens
pub mod Prelude
pub mod QueueLedger
pub mod RateLimit
pub mod RequestNonces
pub mod Result
pub mod RuntimeAccess
pub mod StateDomains
pub mod Tests
