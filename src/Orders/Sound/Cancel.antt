-- ===== src/Orders/Sound/Cancel.antt =====
-- An early end and the soundness of its order.
use kue_preorder.Prelude.{ℤ, pos, ◌+ℤ◌, ◌-ℤ◌, ◌≤ℤ◌, ◌≡◌, ◌⊎◌, false, Bool, arith, if◌then◌else◌}
use kue_preorder.Prelude.Word.{wrap64, ◌+64◌}
use kue_preorder.Prelude.Result.{ok}
use kue_preorder.Platform.Errors.{Error}
use kue_preorder.Payments.Status.{
  Status as PaymentStatus, unpaid, dp_paid, paid_in_full, forfeited, refunded, close,
}
use kue_preorder.Payments.Dp.{max_order_total}
use kue_preorder.Orders.Lifecycle.{Status, expired, cancelled, transition}
use kue_preorder.Orders.Store.{Order}
use kue_preorder.Orders.Admin.{allowed}
use kue_preorder.Orders.Admin.Cancel.{
  CancelMode, cancel_unpaid, cancel_refund, is_refund, cancelled_as, cancelled_closing,
}
use kue_preorder.Orders.Sound.{IsSound}
use kue_preorder.Orders.Sound.Pay.{paid_bounds}

-- Giving back the whole balance leaves nothing.
pub refund_zero :
    (x : ℤ) → pos 0 ≤ℤ x → x ≤ℤ pos max_order_total → x +64 wrap64 (pos 0 -ℤ x) ≡ pos 0
unfolding ◌+64◌ wrap64 ◌-ℤ◌ ◌+ℤ◌
refund_zero x h k = ground arith

closing_lem :
    (o : Order) (closing : PaymentStatus) (e : Error) (b : Bool) (s : Status) (pay : PaymentStatus)
    → cancelled_closing o closing e b ≡ ok (s, pay)
    → (s ≡ cancelled)
      × (pay ≡ closing)
      × ((o.payment ≡ dp_paid) ⊎ ((closing ≡ refunded) × (o.payment ≡ paid_in_full)))
unfolding cancelled_closing close
closing_lem o closing e b s pay h = ground arith

allowed_expired :
    (o : Order) (pay : PaymentStatus) {u : Unit {0}} → allowed o pay expired ≡ ok u → pay ≡ unpaid
unfolding transition
allowed_expired o pay h = ground arith

unpaid_lem :
    (o : Order) (now : ℤ) (s : Status) (pay : PaymentStatus)
    → cancelled_as o cancel_unpaid now ≡ ok (s, pay)
    → (s ≡ expired) × (pay ≡ o.payment) × (o.payment ≡ unpaid)
unfolding cancelled_as
unpaid_lem o now s pay h = ground (arith, allowed_expired o o.payment)

-- The statuses that `cancelled` returns fit what the order has paid once a refund is taken off.
pub cancel-IsSound :
    (o : Order) (x : ℤ) (mode : CancelMode) (now : ℤ) (s : Status) (pay : PaymentStatus)
    → IsSound o x
    → cancelled_as o mode now ≡ ok (s, pay)
    → IsSound
        (record o { status = s; payment = pay })
        (if is_refund mode then x +64 wrap64 (pos 0 -ℤ x) else x)
unfolding cancelled_as
cancel-IsSound o x cancel_unpaid now s pay h e = let l = unpaid_lem o now s pay e in ground arith
cancel-IsSound o x cancel_refund now s pay h e =
    let l = closing_lem o refunded _ false s pay e in
    let b = paid_bounds o x h in let z = refund_zero x b.0 (omega arith) in rw z (ground arith)
cancel-IsSound o x _ now s pay h e = let l = closing_lem o forfeited _ _ s pay e in ground arith
