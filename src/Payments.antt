-- ===== src/Payments.antt =====
-- src/payments: the gateway's port, the webhook inbox and its processor, refunds.
pub mod Stripe
pub mod Reconciliation
pub mod Provider
pub mod Tables
pub mod Webhooks
pub mod Refunds
pub mod Create
