-- ===== src/System.antt =====
-- The order pipeline as a whole: what holds of the store under any interleaving of requests, jobs
-- and webhooks.
pub mod Invariant
pub mod Payments
pub mod Success
pub mod Orders
pub mod Step
pub mod Facts
pub mod Doors
pub mod History
pub mod Safety
