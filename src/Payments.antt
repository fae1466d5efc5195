-- ===== src/Payments.antt =====
-- internal/payments: how far an order is paid, the down payment, the fee of a payment method, and
-- the payment ledger.
pub mod Status
pub mod Dp
pub mod Fee
pub mod Ledger
pub mod Settings
mod Tests
