-- ===== src/Reporting.antt =====
-- src/reporting: the daily rollup.
pub mod Groups
pub mod Aggregate
pub mod Row
pub mod Totals
pub mod Books
pub mod Rollup
pub mod Nightly
pub mod Shape
pub mod Reports
pub mod Leaderboard
