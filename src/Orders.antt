-- ===== src/Orders.antt =====
-- internal/orders: the lifecycle of an order, the rows it stands on, what the staff may do with it,
-- and what the worker does on its own.
pub mod Lifecycle
pub mod Store
pub mod Admin
pub mod Sound
pub mod Automation
pub mod Checkout
mod Tests
