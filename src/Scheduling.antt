-- ===== src/Scheduling.antt =====
-- internal/scheduling: when an order can be picked up, and when the kitchen must shop, produce and be
-- paid.
pub mod Time
pub mod Plan
pub mod Ordered
pub mod Suggest
pub mod Service
mod Tests
