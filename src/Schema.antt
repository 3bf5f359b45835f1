-- ===== src/Schema.antt =====
-- The tables of src/database/schema: their enum values, rows and the store that holds them.
pub mod Enums
pub mod Rows
pub mod Views
pub mod Store
pub mod Constraints
