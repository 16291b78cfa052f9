-- ===== src/Tests.antt =====
-- Runs on concrete inputs, and the theorems at inputs that meet their hypotheses.
mod Pages
mod Ledger
mod States
mod Publishing
mod Governance
mod Requests
mod Access
mod Nonces
mod Tokens
mod Evidence
mod Bindings
mod Catalog
mod Devices
mod Follows
mod Handlers
mod Updates
