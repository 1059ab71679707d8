-- ===== src/AlertRegistry.antt =====
-- The alert registry contract, contracts/alert-registry/src/lib.rs.
pub mod Types
pub mod Validate
pub mod Store
pub mod Admin
pub mod Register
pub mod Update
pub mod Ttl
pub mod Queries
pub mod Invariant
pub mod Calls
pub mod Reachable
mod Tests
pub mod Lookup
pub mod Registration
pub mod Access
pub mod Renewal
pub mod AdminSet
pub mod Rotation
pub mod Spec
pub mod Gating
pub mod Removal
pub mod Admission
pub mod Pausing
pub mod Deactivation
