-- ===== src/Orders/Checkout.antt =====
-- internal/orders/checkout.go and internal/orders/place.go: pricing a cart, and placing an order.
pub mod Cart
pub mod Quote
pub mod Invoices
pub mod Place
mod Tests
