-- ===== src/Inventory.antt =====
-- internal/inventory: lots of ingredients, the append-only ledger of what moved in and out of them, and
-- the checks of what is left.
pub mod Stock
pub mod Countable
pub mod Consume
pub mod Requests
pub mod Intake
pub mod Kitchen
pub mod Reader
mod Tests
