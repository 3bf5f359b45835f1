-- ===== src/Orders.antt =====
-- src/orders: the order pipeline.
pub mod State
pub mod Transition
pub mod Pricing
pub mod Summary
pub mod Query
pub mod Status
pub mod Idempotency
pub mod Checkout
pub mod Cancel
pub mod Expiry
pub mod Create
pub mod Number
pub mod BusinessDay
pub mod BusinessHours
