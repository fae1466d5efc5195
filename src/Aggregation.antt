-- ===== src/Aggregation.antt =====
-- internal/aggregation: the production batches of the shop's days and their shopping lists.
pub mod Batches
pub mod Shop
pub mod Totals
pub mod Rows
pub mod Engine
pub mod Purchasing
pub mod Production
mod Tests
