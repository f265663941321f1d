-- ===== src/Verify.antt =====
-- internal/verify: the 13-step verification algorithm and proof of possession.
pub mod Errors
pub mod Codes
pub mod Caveats
pub mod Config
pub mod Pop
pub mod Elements
pub mod Unrevoked
pub mod Authorize
pub mod Steps
pub mod Run
pub mod Tests
