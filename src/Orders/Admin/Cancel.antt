-- ===== src/Orders/Admin/Cancel.antt =====
-- internal/orders/admin.go: `Cancel`, ending an order early.
use kue_preorder.Prelude.{ℕ, ℤ, pos, ◌-ℤ◌, ltb_ℤ, Bool, [], if◌then◌else◌, true, false}
use kue_preorder.Prelude.Text.{Text, trim_space}
use kue_preorder.Prelude.Word.{wrap64}
use kue_preorder.Prelude.Result.{Result, ok, err}
use kue_preorder.Platform.Errors.{Error, precondition, check, fields_err}
use kue_preorder.Platform.Caller.{Principal, authorize}
use kue_preorder.Payments.Status.{Status as PaymentStatus, forfeited, refunded, close}
use kue_preorder.Payments.Ledger.{refund, paid_idr}
use kue_preorder.Orders.Lifecycle.{Status, confirmed, expired, cancelled, eqb_status}
use kue_preorder.Orders.Store.{
  Order, World, Tx, ◌>>=◌, ◌>>◌, lift, done, transact, payments_of, audit, publish,
}
use kue_preorder.Orders.Admin.{Details, owners, load, lock, both, after, allowed}
use kue_preorder.Orders.Admin.Payment.{
  check_reference, check_reason, settled, manual_payment, on_ledger_add_manual, settle_order,
}

-- `CancelMode`; `other_mode` is any text that is no mode.
pub data CancelMode : Type 0 where
  cancel_unpaid cancel_forfeit cancel_refund other_mode : CancelMode

pub record CancelRequest : Type 0 where
  pub mode : CancelMode
  pub reason : Text
  pub refund_reference : Text

abbrev mode_known : CancelMode → Bool
mode_known other_mode = false
mode_known _ = true

abbrev pub is_refund : CancelMode → Bool
is_refund cancel_refund = true
is_refund _ = false

-- `cancelled`, after the unpaid mode: what the payments close as.
unfoldable pub cancelled_closing :
    Order → PaymentStatus → Error → Bool → Result Error (Status × PaymentStatus)
cancelled_closing o closing refusal early = elim (settled (close o.payment closing)) [
  | err e ↦ err refusal
  | ok pay ↦ elim (allowed o pay cancelled) [
    | err e ↦ err e
    | ok u ↦ if early then err (precondition "balance_not_due") else ok (cancelled, pay)
  ]
]

-- `cancelled`: where an order ends up, or why it cannot be cancelled so.
unfoldable pub cancelled_as : Order → CancelMode → ℤ → Result Error (Status × PaymentStatus)
unfolding cancelled_closing
cancelled_as o cancel_unpaid now =
    if eqb_status o.status confirmed
    then err (precondition "already_paid")
    else elim (allowed o o.payment expired) [ err e ↦ err e | ok u ↦ ok (expired, o.payment) ]
cancelled_as o cancel_refund now =
    cancelled_closing o refunded (precondition "nothing_to_refund") false
cancelled_as o _ now =
    cancelled_closing o forfeited (precondition "not_forfeitable") (ltb_ℤ now o.balance_due_at)

-- The refund of `Cancel`, where that is its mode.
unfoldable pub give_back : Principal → ℕ → CancelRequest → ℤ → Order → ℤ → Tx (Unit {0})
give_back p fresh input now o paid =
    if is_refund input.mode
    then on_ledger_add_manual
        (manual_payment fresh o.id refund (wrap64 (pos 0 -ℤ paid)) input.refund_reference
          input.reason p.auth_user_id)
        now
    else done

-- The writes that follow.
unfoldable pub end_order : Principal → ℤ → Order → Status → PaymentStatus → Tx (Unit {0})
end_order p now o status pay = do
  settle_order o.id status pay
  audit "orders.order.cancelled" o.id p.auth_user_id now
  publish (if eqb_status status expired then "order.expired" else "order.cancelled") o.id now

-- The transaction of `Cancel` on the order that it has locked.
unfoldable pub cancel_order : Principal → ℕ → CancelRequest → ℤ → Order → Tx (Unit {0})
cancel_order p fresh input now o = do
  ps ← payments_of o.id
  to ← lift (cancelled_as o input.mode now)
  give_back p fresh input now o (paid_idr ps)
  end_order p now o to.0 to.1

abbrev pub trimmed : CancelRequest → CancelRequest
trimmed i = record i {
  reason = trim_space i.reason;
  refund_reference = trim_space i.refund_reference;
}

-- The checks of `Cancel`.
unfoldable pub cancel_accepted : Result Error Principal → CancelRequest → Result Error Principal
cancel_accepted caller i =
    let fields = check_reason "reason" i.reason (check (mode_known i.mode) "mode" []) in
    both (authorize caller owners) (
      fields_err (
        if is_refund i.mode
        then check_reference "refund_reference" i.refund_reference fields
        else fields))

-- `Cancel`.
unfoldable pub cancel :
    (read : Result Error (Unit {0}))
    → Result Error Principal
    → Text
    → CancelRequest
    → ℕ
    → ℤ
    → World
    → Result Error Details × World
unfolding cancel_accepted cancel_order give_back end_order load lock
cancel read caller code input fresh now =
    let i = trimmed input in
    after (cancel_accepted caller i)
      (λ p. transact (lock code >>= cancel_order p fresh i now) (load read code))
