-- ===== src/Orders/Sound/Pay.antt =====
-- A manual payment and the soundness of its order.
use kue_preorder.Prelude.{
  ℤ, pos, negsuc, ◌+ℤ◌, ◌-ℤ◌, ◌≤ℤ◌, +ℤ_parts, -ℤ_parts, eq_of_parts, ◌≡◌, arith, false, ◌≢◌, ◌⊎◌,
  inl, inr, ◌<ℤ◌, +ℤ_bounds, -ℤ_bounds,
}
use kue_preorder.Prelude.Word.{◌+64◌, ◌-64◌, +64_exact, -64_exact}
use kue_preorder.Prelude.Result.{ok}
use kue_preorder.Payments.Status.{Status as PaymentStatus, dp_paid, paid_in_full, is_closed, settle}
use kue_preorder.Payments.Dp.{max_order_total}
use kue_preorder.Payments.Ledger.{Kind}
use kue_preorder.Orders.Lifecycle.{Status, awaiting_dp, confirmed}
use kue_preorder.Orders.Store.{Order}
use kue_preorder.Orders.Admin.Payment.{manual_kind, confirm, settled}
use kue_preorder.Orders.Sound.{IsSound}

-- What an order has paid lies between 0 and its total.
pub paid_bounds : (o : Order) (x : ℤ) → IsSound o x → (pos 0 ≤ℤ x) × (x ≤ℤ o.total_idr)
paid_bounds o x h = ground arith

-- Sums and differences of what the shop's bounds allow never wrap.
pub add_exact :
    (x a : ℤ)
    → pos 0 ≤ℤ x
    → x ≤ℤ pos max_order_total
    → pos 0 ≤ℤ a
    → a ≤ℤ pos max_order_total
    → x +64 a ≡ x +ℤ a
add_exact (pos x) (pos a) h k l m =
    let b = +ℤ_bounds (pos x) (pos a) in +64_exact (pos x) (pos a) (omega arith, omega arith)
add_exact (pos x) (negsuc a) h k l m = absurd (omega arith)
add_exact (negsuc x) a h k l m = absurd (omega arith)

pub sub_exact :
    (x a : ℤ)
    → pos 0 ≤ℤ x
    → x ≤ℤ pos max_order_total
    → pos 0 ≤ℤ a
    → a ≤ℤ pos max_order_total
    → x -64 a ≡ x -ℤ a
sub_exact (pos x) (pos a) h k l m =
    let b = -ℤ_bounds (pos x) (pos a) in -64_exact (pos x) (pos a) (omega arith, omega arith)
sub_exact (pos x) (negsuc a) h k l m = absurd (omega arith)
sub_exact (negsuc x) a h k l m = absurd (omega arith)

pub manual_kind_sound :
    (o : Order) (x a : ℤ) (k : Kind)
    → IsSound o x
    → pos 1 ≤ℤ a
    → a ≤ℤ pos max_order_total
    → manual_kind o x a ≡ ok k
    → (x +64 a ≡ x +ℤ a)
      × (x +ℤ a ≤ℤ o.total_idr)
      × (o.dp_required_idr ≤ℤ x +ℤ a)
      × (is_closed o.payment ≡ false)
      × (o.payment ≢ paid_in_full)
      × ((o.status ≡ awaiting_dp) ⊎ (o.status ≡ confirmed))
unfolding manual_kind is_closed
manual_kind_sound o x a k h l m e =
    let b = paid_bounds o x h in
    let add = add_exact x a b.0 (omega arith) (omega arith) m in
    let sub = sub_exact o.total_idr x (omega arith) h.total_high b.0 (omega arith) in
    ground (arith, add, sub, +ℤ_parts x a, -ℤ_parts o.total_idr x)

settle_pays :
    (p pay : PaymentStatus) (t d y : ℤ)
    → is_closed p ≡ false
    → p ≢ paid_in_full
    → settled (settle p (record { total_idr = t; dp_required_idr = d; paid_idr = y })) ≡ ok pay
    → pos 1 ≤ℤ d
    → d ≤ℤ y
    → y ≤ℤ t
    → ((pay ≡ dp_paid) × (y <ℤ t)) ⊎ ((pay ≡ paid_in_full) × (y ≡ t))
unfolding settle is_closed
settle_pays p pay t d y c n e h k l = ground (arith, eq_of_parts y t)

confirm_waits :
    (o : Order) (pay : PaymentStatus) (s : Status)
    → confirm o pay ≡ ok s
    → (o.status ≡ awaiting_dp) ⊎ (o.status ≡ confirmed)
    → s ≡ confirmed
unfolding confirm
confirm_waits o pay s e (inl w) = ground arith
confirm_waits o pay s e (inr c) = ground arith

-- The new statuses fit the new balance.
pub pay-IsSound :
    (o : Order) (x a : ℤ) (k : Kind) (pay : PaymentStatus) (s : Status)
    → IsSound o x
    → pos 1 ≤ℤ a
    → a ≤ℤ pos max_order_total
    → manual_kind o x a ≡ ok k
    → settled (
        settle o.payment (record {
          total_idr = o.total_idr;
          dp_required_idr = o.dp_required_idr;
          paid_idr = x +64 a;
        }))
      ≡ ok pay
    → confirm o pay ≡ ok s
    → IsSound (record o { status = s; payment = pay }) (x +64 a)
pay-IsSound o x a k pay s h l m e f g =
    let (exact, high, low, still_open, unpaid_yet, waits) = manual_kind_sound o x a k h l m e in
    let pays =
      settle_pays o.payment pay o.total_idr o.dp_required_idr (x +ℤ a) still_open unpaid_yet
        (rw exact at f) h.dp_low low high in
    let status = confirm_waits o pay s g waits in rw exact (ground (arith, pays, status))
