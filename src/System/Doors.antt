-- ===== src/System/Doors.antt =====
-- Every door through which the store changes keeps the invariant.
pub mod Moves
pub mod Kitchen
pub mod Release
pub mod Refund
pub mod Settle
pub mod Webhook
pub mod Create
pub mod Pay
pub mod Desk
