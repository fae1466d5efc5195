-- ===== src/Payments/Status.antt =====
-- internal/payments/status.go: the payment status of an order and how the ledger moves it.
pub mod Laws
use kue_preorder.Prelude.{
  ℤ, pos, negsuc, ltb_ℤ, leb_ℤ, Bool, true, false, ◌&&◌, ◌||◌, Option, some, none, if◌then◌else◌,
}
use kue_preorder.Platform.Errors.{Error, payments_closed, illegal_close}

pub data Status : Type 0 where
  unpaid dp_paid paid_in_full forfeited refunded : Status

abbrev pub eqb_status : Status → Status → Bool
eqb_status unpaid unpaid = true
eqb_status dp_paid dp_paid = true
eqb_status paid_in_full paid_in_full = true
eqb_status forfeited forfeited = true
eqb_status refunded refunded = true
eqb_status _ _ = false

-- `Closed`: no payment can change the status any more.
unfoldable pub is_closed : Status → Bool
is_closed s = eqb_status s forfeited || eqb_status s refunded

unfoldable pub rank : Status → ℤ
rank unpaid = pos 0
rank dp_paid = pos 1
rank paid_in_full = pos 2
rank _ = negsuc 0

pub record Amounts : Type 0 where
  pub total_idr : ℤ
  pub dp_required_idr : ℤ
  pub paid_idr : ℤ

-- The status that the amounts alone call for: `next` in `Settle`.
unfoldable pub due_status : Amounts → Status
due_status a =
    if leb_ℤ a.total_idr a.paid_idr && ltb_ℤ (pos 0) a.total_idr
    then paid_in_full
    else if leb_ℤ a.dp_required_idr a.paid_idr && ltb_ℤ (pos 0) a.paid_idr
    then dp_paid
    else unpaid

-- `Settle` returns the status with its error, if any.
unfoldable pub settle : Status → Amounts → Status × Option Error
unfolding is_closed rank due_status
settle current a =
    let next = due_status a in
    if is_closed current
    then (current, some payments_closed)
    else if ltb_ℤ (rank next) (rank current)
    then (current, none)
    else (next, none)

-- The statuses that `Close` may end in, by the status that it finds.
unfoldable pub may_close : Status → Status → Bool
may_close current forfeited = eqb_status current dp_paid
may_close current refunded = eqb_status current dp_paid || eqb_status current paid_in_full
may_close current _ = false

unfoldable pub close : Status → Status → Status × Option Error
unfolding may_close
close current to = if may_close current to then (to, none) else (current, some illegal_close)
