-- ===== src/Procurement.antt =====
-- internal/procurement: purchase orders made from a batch's shopping list, and what they bring.
pub mod Orders
pub mod Service
pub mod Closing
pub mod Ledger
pub mod Waiting
pub mod Keeps
mod Tests
