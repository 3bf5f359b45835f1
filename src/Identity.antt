-- ===== src/Identity.antt =====
-- src/identity: who makes a request, and what lets them.
pub mod Principal
pub mod Rows
pub mod RateLimit
pub mod Revocation
pub mod Users
pub mod Devices
pub mod Auth
