-- ===== src/Credential.antt =====
-- internal/credential: capability URIs, capabilities and caveats, and RESTRICT blocks.
pub mod Uri
pub mod Capability
pub mod Cid
pub mod Restrict
pub mod Ucan
