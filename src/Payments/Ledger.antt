-- ===== src/Payments/Ledger.antt =====
-- internal/payments/ledger.go, and the rows of the payments table behind it
-- (internal/payments/postgres/repo.go). The store is one tenant's; ids are numbers and 0 is the nil
-- UUID; instants are integers, in nanoseconds. `RecordedBy` and `Reference` are the proof's fields
-- that a guard reads.
pub mod Rows
pub mod Sum
pub mod Pending
use Prim.Native.String.{String}
use kue_preorder.Prelude.{
  ℕ, ◌==◌, ℤ, pos, ◌-ℤ◌, ltb_ℤ, leb_ℤ, eqb_ℤ, Bool, true, false, not, ◌&&◌, ◌||◌, List, [], ◌∷◌,
  ◌++◌, Option, none, some, if◌then◌else◌,
}
use kue_preorder.Prelude.Text.{Text, codes, is_empty}
use kue_preorder.Prelude.Word.{◌+64◌}
use kue_preorder.Prelude.Result.{Result, ok, err}
use kue_preorder.Platform.Errors.{Error, internal, invalid_amount, not_found}
use kue_preorder.Payments.Dp.{max_order_total}
use kue_preorder.Payments.Fee.{Method, qris, blank, eqb_method, is_valid}

pub data Kind : Type 0 where
  dp balance full refund : Kind

abbrev pub eqb_kind : Kind → Kind → Bool
eqb_kind dp dp = true
eqb_kind balance balance = true
eqb_kind full full = true
eqb_kind refund refund = true
eqb_kind _ _ = false

pub data State : Type 0 where
  pending paid expired failed : State

abbrev pub eqb_state : State → State → Bool
eqb_state pending pending = true
eqb_state paid paid = true
eqb_state expired expired = true
eqb_state failed failed = true
eqb_state _ _ = false

pub record ManualProof : Type 0 where
  pub reference : Text
  pub note : Text
  pub recorded_by : ℕ

pub record Payment : Type 0 where
  pub id : ℕ
  pub order_id : ℕ
  pub kind : Kind
  pub provider : Text
  pub method : Method
  pub external_id : Text
  pub amount_idr : ℤ
  pub fee_idr : ℤ
  pub state : State
  pub checkout_url : Text
  pub expires_at : Option ℤ
  pub paid_at : Option ℤ
  pub created_at : ℤ
  pub manual : Option ManualProof

-- The `payments` table, in the order of `order by created_at, id`.
abbrev pub Ledger : Type 0
Ledger = List Payment

-- `Paid`: the loop's sum over the paid payments.
unfoldable pub paid_from : ℤ → List Payment → ℤ
paid_from sum [] = sum
paid_from sum (p ∷ ps) = paid_from (if eqb_state p.state paid then sum +64 p.amount_idr else sum) ps

unfoldable pub paid_idr : List Payment → ℤ
unfolding paid_from
paid_idr ps = paid_from (pos 0) ps

-- `Repository.AddPayment`: the row gets the time of the insertion.
unfoldable pub add_payment : Payment → ℤ → Ledger → Ledger
add_payment p at l = l ++ record p { created_at = at } ∷ []

-- `OrderPayments`.
unfoldable pub order_payments : ℕ → Ledger → List Payment
order_payments order [] = []
order_payments order (p ∷ ps) =
    let rest = order_payments order ps in if p.order_id == order then p ∷ rest else rest

-- `ExpirePending`, with the number of rows.
unfoldable pub expire_pending : ℕ → Ledger → Ledger
expire_pending order [] = []
expire_pending order (p ∷ ps) =
    (if p.order_id == order && eqb_state p.state pending then record p { state = expired } else p)
    ∷ expire_pending order ps

-- `AddPending`: the guards in their order.
unfoldable pub add_pending : Payment → ℤ → Ledger → Result Error Ledger
unfolding add_payment
add_pending p at l =
    if eqb_kind p.kind refund
      || leb_ℤ p.amount_idr (pos 0)
      || ltb_ℤ (pos max_order_total) p.amount_idr
    then err invalid_amount
    else if p.id == 0 || p.order_id == 0 || is_empty p.provider || not (is_valid p.method)
    then err (internal "pending payment without an id, an order, a provider, or a method")
    else if ltb_ℤ p.fee_idr (pos 0) || (eqb_method p.method qris && not (eqb_ℤ p.fee_idr (pos 0)))
    then err invalid_amount
    else ok (add_payment (record p { state = pending }) at l)

-- The first guard of `AddManual`, by the kind of the payment.
unfoldable pub manual_amount_bad : Kind → ℤ → Bool
manual_amount_bad refund amount =
    leb_ℤ (pos 0) amount || ltb_ℤ amount (pos 0 -ℤ pos max_order_total)
manual_amount_bad _ amount = leb_ℤ amount (pos 0) || ltb_ℤ (pos max_order_total) amount

unfoldable pub proof_bad : Option ManualProof → Bool
proof_bad none = true
proof_bad (some proof) = proof.recorded_by == 0 || is_empty proof.reference

-- `AddManual`: paid as it is recorded, with no fee.
unfoldable pub add_manual : Payment → ℤ → Ledger → Result Error Ledger
unfolding add_payment manual_amount_bad proof_bad
add_manual p at l =
    if manual_amount_bad p.kind p.amount_idr
    then err invalid_amount
    else if p.id == 0 || p.order_id == 0 || proof_bad p.manual
    then err (internal "manual payment without an id, an order, or its proof")
    else ok (
        add_payment
          (record p {
            provider = codes "manual";
            method = blank;
            external_id = [];
            checkout_url = [];
            fee_idr = pos 0;
            state = paid;
            expires_at = none;
            paid_at = some at;
          })
          at l)

-- `SetInvoice`: only a pending payment takes its invoice.
has_pending : ℕ → Ledger → Bool
has_pending id [] = false
has_pending id (p ∷ ps) = (p.id == id && eqb_state p.state pending) || has_pending id ps

unfoldable pub put_invoice : ℕ → Text → Text → Ledger → Ledger
put_invoice id external url [] = []
put_invoice id external url (p ∷ ps) =
    (if p.id == id && eqb_state p.state pending
      then record p { external_id = external; checkout_url = url }
      else p)
    ∷ put_invoice id external url ps

unfoldable pub set_invoice : ℕ → Text → Text → Ledger → Result Error Ledger
unfolding has_pending put_invoice
set_invoice id external url l =
    if has_pending id l then ok (put_invoice id external url l) else err not_found
