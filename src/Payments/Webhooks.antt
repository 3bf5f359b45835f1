-- ===== src/Payments/Webhooks.antt =====
-- src/payments/webhooks: the inbox, the judgement of an event, and the processor.
pub mod Decide
pub mod Judgement
pub mod Inbox
pub mod Processor
pub mod Settled
pub mod Success
