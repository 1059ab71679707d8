-- ===== src/Modular.antt =====
-- The second implementation of the alert registry (contracts/alert-registry/src/contract.rs,
-- storage.rs and types.rs), which the crate does not build.
pub mod Types
pub mod Storage
pub mod Checks
pub mod Contract
pub mod Queries
pub mod Calls
pub mod Invariant
pub mod Renewal
pub mod Reachable
pub mod RateLimit
mod Tests
pub mod Registration
pub mod Pausing
pub mod Reads
