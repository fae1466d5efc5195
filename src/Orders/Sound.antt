-- ===== src/Orders/Sound.antt =====
-- What holds between an order's statuses and what it has paid, after every action.
pub mod Pay
pub mod Cancel
pub mod Rows
pub mod Actions
pub mod Calls
use kue_preorder.Prelude.{ℤ, pos, ◌≤ℤ◌, ◌<ℤ◌, ◌≡◌, ◌⊎◌}
use kue_preorder.Payments.Status.{
  Status as PaymentStatus, unpaid, dp_paid, paid_in_full, forfeited, refunded,
}
use kue_preorder.Payments.Dp.{max_order_total}
use kue_preorder.Orders.Lifecycle.{Status, awaiting_dp, confirmed, expired, cancelled}
use kue_preorder.Orders.Store.{Order}

-- The payment statuses that an order in a status may have.
abbrev pub StatusFits : Status → PaymentStatus → Type 0
StatusFits awaiting_dp p = p ≡ unpaid
StatusFits expired p = p ≡ unpaid
StatusFits confirmed p = (p ≡ dp_paid) ⊎ (p ≡ paid_in_full)
StatusFits cancelled p = (p ≡ forfeited) ⊎ (p ≡ refunded)
StatusFits _ p = p ≡ paid_in_full

-- The sums that an order with a payment status may have paid.
abbrev pub PaidFits : PaymentStatus → ℤ → ℤ → ℤ → Type 0
PaidFits unpaid total dp paid = paid ≡ pos 0
PaidFits dp_paid total dp paid = (dp ≤ℤ paid) × (paid <ℤ total)
PaidFits paid_in_full total dp paid = paid ≡ total
PaidFits forfeited total dp paid = (dp ≤ℤ paid) × (paid <ℤ total)
PaidFits refunded total dp paid = paid ≡ pos 0

-- An order that has paid `paid`.
pub record IsSound (o : Order) (paid : ℤ) : Type 0 where
  pub dp_low : pos 1 ≤ℤ o.dp_required_idr
  pub dp_high : o.dp_required_idr ≤ℤ o.total_idr
  pub total_high : o.total_idr ≤ℤ pos max_order_total
  pub status_fits : StatusFits o.status o.payment
  pub paid_fits : PaidFits o.payment o.total_idr o.dp_required_idr paid
