-- ===== src/Orders/Admin/Payment.antt =====
-- internal/orders/admin.go: `RecordPayment`, money that the owner received outside the provider.
use Prim.Native.String.{String}
use kue_preorder.Prelude.{
  ℕ, leb, ℤ, pos, ltb_ℤ, leb_ℤ, eqb_ℤ, not, ◌&&◌, [], ◌∷◌, length, Option, none, some,
  if◌then◌else◌,
}
use kue_preorder.Prelude.Text.{Text, is_empty, trim_space}
use kue_preorder.Prelude.Word.{◌+64◌, ◌-64◌}
use kue_preorder.Prelude.Result.{Result, ok, err}
use kue_preorder.Platform.Errors.{Error, precondition, validation, Fields, check, fields_err}
use kue_preorder.Platform.Caller.{Principal, authorize}
use kue_preorder.Payments.Status.{Status as PaymentStatus, is_closed, settle}
use kue_preorder.Payments.Dp.{max_order_total}
use kue_preorder.Payments.Fee.{blank}
use kue_preorder.Payments.Ledger.{
  Kind, dp, balance, full, pending, Payment, paid_idr, add_manual, expire_pending,
}
use kue_preorder.Orders.Lifecycle.{Status, awaiting_dp, confirmed, eqb_status, transition}
use kue_preorder.Orders.Store.{
  Order, World, Tx, ◌>>=◌, ◌>>◌, lift, done, transact, set_status, payments_of, audit, publish,
}
use kue_preorder.Orders.Admin.{Details, owners, load, lock, both, after}

pub record ManualPayment : Type 0 where
  pub amount_idr : ℤ
  pub reference : Text
  pub note : Text

-- `checkReference` and `checkReason`.
unfoldable pub check_reference : String → Text → Fields → Fields
check_reference field ref fs =
    check (leb (length ref) 100) field (check (not (is_empty ref)) field fs)

unfoldable pub check_reason : String → Text → Fields → Fields
check_reason field reason fs =
    check (leb (length reason) 500) field (check (not (is_empty reason)) field fs)

-- `manualKind`: what a manual payment is for, or why the order takes none.
unfoldable pub manual_kind : Order → ℤ → ℤ → Result Error Kind
manual_kind o paid amount =
    let owed = o.total_idr -64 paid in
    if is_closed o.payment
    then err (precondition "payments_closed")
    else if leb_ℤ owed (pos 0)
    then err (precondition "nothing_owed")
    else if not (eqb_status o.status awaiting_dp) && not (eqb_status o.status confirmed)
    then err (precondition "order_not_open")
    else if ltb_ℤ owed amount
    then err (validation ("amount_idr" ∷ []))
    else if eqb_status o.status confirmed
    then ok balance
    else if ltb_ℤ (paid +64 amount) o.dp_required_idr
    then err (validation ("amount_idr" ∷ []))
    else if eqb_ℤ (paid +64 amount) o.total_idr
    then ok full
    else ok dp

-- The payment that `RecordPayment` hands to `AddManual`; what it leaves unset is zero.
abbrev pub manual_payment : ℕ → ℕ → Kind → ℤ → Text → Text → ℕ → Payment
manual_payment id order kind amount reference note actor = record {
  id = id;
  order_id = order;
  kind = kind;
  provider = [];
  method = blank;
  external_id = [];
  amount_idr = amount;
  fee_idr = pos 0;
  state = pending;
  checkout_url = [];
  expires_at = none;
  paid_at = none;
  created_at = pos 0;
  manual = some (record { reference = reference; note = note; recorded_by = actor });
}

-- A ledger call inside the transaction.
abbrev pub on_ledger_add_manual : Payment → ℤ → Tx (Unit {0})
on_ledger_add_manual p at w = elim (add_manual p at w.ledger) [
  | ok l ↦ ok (tt, record w { ledger = l })
  | err e ↦ err e
]

-- `settle`: the new statuses, and the order's open invoices expire.
abbrev pub settle_order : ℕ → Status → PaymentStatus → Tx (Unit {0})
settle_order id status pay = do
  set_status id status pay
  λ w. ok (tt, record w { ledger = expire_pending id w.ledger })

-- The status after `Settle`: a waiting order is confirmed, if `Transition` allows it.
unfoldable pub confirm : Order → PaymentStatus → Result Error Status
confirm o pay =
    if eqb_status o.status awaiting_dp
    then (elim (transition
        (record { status = o.status; payment = pay; fulfillment = o.fulfillment }) confirmed) [
          | ok u ↦ ok confirmed
          | err e ↦ err e
        ])
    else ok o.status

abbrev pub settled : PaymentStatus × Option Error → Result Error PaymentStatus
settled (s, none) = ok s
settled (s, some e) = err e

-- The writes of `RecordPayment`, in their order.
unfoldable pub record_paid :
    Principal → ℕ → ManualPayment → ℤ → Order → Kind → PaymentStatus → Status → Tx (Unit {0})
record_paid p fresh input now o kind pay status = do
  on_ledger_add_manual
      (manual_payment fresh o.id kind input.amount_idr input.reference input.note p.auth_user_id)
      now
  settle_order o.id status pay
  audit "orders.payment.recorded_manually" o.id p.auth_user_id now
  publish "order.payment_received" o.id now
  if eqb_status status o.status then done else publish "order.confirmed" o.id now

-- The transaction of `RecordPayment` on the order that it has locked.
unfoldable pub pay_order : Principal → ℕ → ManualPayment → ℤ → Order → Tx (Unit {0})
pay_order p fresh input now o = do
  ps ← payments_of o.id
  let paid = paid_idr ps
  kind ← lift (manual_kind o paid input.amount_idr)
  pay ← lift (
      settled (
        settle o.payment (record {
          total_idr = o.total_idr;
          dp_required_idr = o.dp_required_idr;
          paid_idr = paid +64 input.amount_idr;
        })))
  status ← lift (confirm o pay)
  record_paid p fresh input now o kind pay status

abbrev pub trimmed : ManualPayment → ManualPayment
trimmed i = record i { reference = trim_space i.reference; note = trim_space i.note }

-- The checks of `RecordPayment`, in its order: the caller, the amount, the reference, the note.
unfoldable pub payment_accepted : Result Error Principal → ManualPayment → Result Error Principal
payment_accepted caller i = both (authorize caller owners) (
    fields_err (
      check_reason "note" i.note (
        check_reference "reference" i.reference (
          check (ltb_ℤ (pos 0) i.amount_idr && leb_ℤ i.amount_idr (pos max_order_total))
            "amount_idr" []))))

-- `RecordPayment`.
unfoldable pub record_payment :
    (read : Result Error (Unit {0}))
    → Result Error Principal
    → Text
    → ManualPayment
    → ℕ
    → ℤ
    → World
    → Result Error Details × World
unfolding payment_accepted pay_order record_paid load lock
record_payment read caller code input fresh now =
    let i = trimmed input in
    after (payment_accepted caller i)
      (λ p. transact (lock code >>= pay_order p fresh i now) (load read code))
