-- ===== src/Payments/Ledger/Pending.antt =====
-- What an invoice does to the balances: neither the payment added for it nor its link counts.
use kue_preorder.Prelude.{ℕ, ℤ, pos, ◌≡◌, refl, [], ◌∷◌, arith}
use kue_preorder.Prelude.Word.{◌+64◌}
use kue_preorder.Prelude.Text.{Text}
use kue_preorder.Prelude.Result.{ok}
use kue_preorder.Payments.Ledger.{
  Payment, Ledger, pending, paid_from, paid_idr, add_payment, add_pending, order_payments,
  put_invoice, set_invoice,
}
use kue_preorder.Payments.Ledger.Rows.{paid_idr-add_payment}

add_pending_row :
    (p : Payment) (at : ℤ) (l l' : Ledger)
    → add_pending p at l ≡ ok l'
    → l' ≡ add_payment (record p { state = pending }) at l
unfolding add_pending
add_pending_row p at l l' e = ground arith

-- A payment that is yet to come changes no order's balance.
pub paid_idr-add_pending :
    (o : ℕ) (p : Payment) (at : ℤ) (l l' : Ledger)
    → add_pending p at l ≡ ok l'
    → paid_idr (order_payments o l') ≡ paid_idr (order_payments o l)
paid_idr-add_pending o p at l l' e =
    rw (add_pending_row p at l l' e)
      (ground (arith, paid_idr-add_payment o (record p { state = pending }) at l))

paid_from-put_invoice :
    (s : ℤ) (o id : ℕ) (external url : Text) (l : Ledger)
    → paid_from s (order_payments o (put_invoice id external url l))
      ≡ paid_from s (order_payments o l)
unfolding paid_from order_payments put_invoice
paid_from-put_invoice s o id external url [] = refl
paid_from-put_invoice s o id external url (p ∷ l) = ground (
  arith,
  paid_from-put_invoice s o id external url l,
  paid_from-put_invoice (s +64 p.amount_idr) o id external url l,
)

-- Nor does the link to its invoice.
pub paid_idr-set_invoice :
    (o id : ℕ) (external url : Text) (l l' : Ledger)
    → set_invoice id external url l ≡ ok l'
    → paid_idr (order_payments o l') ≡ paid_idr (order_payments o l)
unfolding paid_idr set_invoice
paid_idr-set_invoice o id external url l l' e =
    let same : l' ≡ put_invoice id external url l = ground arith in
    rw same (paid_from-put_invoice (pos 0) o id external url l)
