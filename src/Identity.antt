-- ===== src/Identity.antt =====
-- internal/identity: did:key identifiers and the key store.
pub mod Digits
pub mod Conversion
pub mod Base58
pub mod DidKey
pub mod KeyStore
pub mod Tests
