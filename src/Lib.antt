-- ===== src/Lib.antt =====
-- CafePOS: the order pipeline of a cafe's point of sale. Kiosks and tills create orders from a
-- basket, orders move through a state machine, payments are taken in cash or by a gateway that
-- reports by webhook, and everything happens in transactions on one database.
--
-- Around it stand the staff's sessions and accounts, the kiosks, the order list, the reports, the
-- reconciliation with the gateway and the clearing of old data.
--
-- The parts and how they interact. A handler reads what it needs, runs one transaction, and
-- announces what it buffered once that has committed. All moves of an order's status go through
-- one guarded update (`transitionOrder`), called by creation, checkout, the KDS route,
-- cancellation, expiry, cash payment, refund, and the processor of webhook events. Cancellation
-- and expiry ask the gateway before their transaction opens.
--
-- Which file models which part, with the functions it follows (paths from the root):
--   Schema/*                the rows of src/database/schema as records, the store `Db` as a list
--                           for each table, the unique constraints that the writes can meet
--   Prelude/*               numbers, lists, `ORDER BY` as a sort
--   Identity/Principal      src/identity/principal.ts
--   Identity/Rows           src/database/schema/identity.ts
--   Identity/Auth, /*       src/identity/auth/auth.service.ts: a request is cut at its `await`s,
--                           Sessions interleaves the statements of many, Login has the lockout
--   Identity/RateLimit      src/identity/rate-limit/login-attempt.limiter.ts
--   Identity/Revocation     src/identity/revocation/revocation.service.ts
--   Identity/Users, /*      src/identity/users/users.service.ts
--   Identity/Devices, /*    src/identity/devices
--   Tx, Tx/*                a transaction as a function from a `Session` (the store and the
--                           buffered events) to a result: src/realtime/events; `run` is
--                           `AfterCommit.run`, `transaction` is `db.transaction`
--   Orders/Pricing, /*      src/orders/pricing/order-pricing.ts, `priceOrder`
--   Orders/State, /*        src/orders/state/order-state.ts, the two tables
--   Orders/Transition, /*   src/orders/state/transition-order.ts, `transitionOrder`
--   Orders/Status, /*       src/orders/state/order-status.service.ts
--   Orders/Number, /*       src/orders/order-number.ts
--   Orders/Idempotency, /*  src/orders/idempotency
--   Orders/Create, /*       src/orders/orders.service.ts
--   Orders/Checkout, Cancel, Expiry   the services of the same names under src/orders
--   Orders/Summary          `toOrderSummary` of src/orders/query/orders-read.service.ts
--   Orders/Query, /*        the order list of the same file, with src/orders/query/cursor.ts
--   Orders/BusinessDay, BusinessHours   src/orders/business-day.ts, business-hours.ts
--   Reporting/Groups        joins, GROUP BY and sorts on lists
--   Reporting/Aggregate, Row, Books   src/reporting/rollup/aggregate-day.ts, build-rollup-row.ts
--   Reporting/Rollup, Nightly         src/reporting/rollup/daily-rollup.service.ts
--   Reporting/Shape, Leaderboard      src/reporting/reports/shape-reports.ts
--   Reporting/Reports       src/reporting/reports/reports.service.ts
--   Payments/Provider       src/payments/provider/payment-provider.ts: the gateway, a record of
--                           its answers during one request; in a history another for each
--   Payments/Create, /*     src/payments/create/create-payment.service.ts
--   Payments/Refunds        src/payments/refunds/create-refund.service.ts
--   Payments/Webhooks/*     src/payments/webhooks: the judgement, the inbox, the processor
--   Payments/Stripe         src/payments/provider/stripe-payment.provider.ts
--   Payments/Reconciliation, /*       src/payments/reconciliation/reconciliation.service.ts
--   Retention, /*           src/retention
--   System/*                the invariant of the store, each handler as a step that keeps it, and
--                           histories of requests (`serve`, `history_from`)
--   Tests, Tests/*          concrete runs
--
-- Concurrency. Transactions on the store run one after the other. What a handler reads before its
-- transaction is a second argument, `read`: any earlier store. So a history interleaves the reads
-- of one request with the transactions of others. A retry, or a second instance of the service, is
-- another request. The handlers of staff sessions have no transaction: `Sessions` interleaves
-- their single statements.
--
-- Numbers. Money is in whole minor units, a natural number; a price or delta of the catalog is an
-- integer. The source's numbers are doubles, exact up to 2^53, and the columns 32-bit integers:
-- neither bound is modelled. Ids, keys, texts and payloads that are only compared are numbers. The
-- fuel of `decimal` is one more than the number, which has fewer digits than that; `pages` follows
-- as many cursors as it is told, and more than there are rows is enough.
--
-- Not modelled: logs, metrics, controllers and DTOs, foreign keys, the catalog's tables (what a
-- query of them answers is an argument), the hash of a request (an argument), the catalog, access
-- tokens and guards, the throttler, sales reports, realtime sockets, and the clients of outside
-- services, whose answers are parameters (Stripe's client, argon2), as are ILIKE and localeCompare.
pub mod Prelude
pub mod Schema
pub mod Identity
pub mod Tx
pub mod Orders
pub mod Payments
pub mod Reporting
pub mod Retention
pub mod System
pub mod Tests
