-- ===== src/Api.antt =====
-- api/v1 and pkg/adtp: the HTTP API over the components, on the backend in memory.
pub mod Messages
pub mod Service
pub mod Oidc
pub mod Middleware
pub mod Handlers
pub mod Outcome
pub mod Kept
pub mod Rooted
pub mod Delegated
pub mod Cascaded
mod Tests
mod Gates
pub mod Verification
pub mod Revocations
