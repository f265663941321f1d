-- ===== src/Revocation.antt =====
-- internal/revocation: who may revoke, signed entries and lists, the cache, the registration index,
-- the cascade and the reconciliation.
pub mod Authority
pub mod Entry
pub mod Cache
pub mod Registration
pub mod Cascade
pub mod Reconciliation
pub mod Tests
