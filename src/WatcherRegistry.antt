-- ===== src/WatcherRegistry.antt =====
-- The watcher registry contract, contracts/watcher-registry/src/lib.rs.
pub mod Types
pub mod Store
pub mod Admins
pub mod Watchers
pub mod Queries
pub mod Revocation
pub mod Counting
pub mod Calls
pub mod Spec
pub mod AdminSet
pub mod Registration
mod Tests
