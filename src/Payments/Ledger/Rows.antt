-- ===== src/Payments/Ledger/Rows.antt =====
-- How the ledger's writes show in an order's payments.
use mathlib.Core.List.{append-nil}
use kue_preorder.Prelude.Word.{◌+64◌}
use kue_preorder.Prelude.{
  ◌≢◌, ◌∙◌, none, some, ℕ, ◌==◌, ℤ, pos, ◌&&◌, false, ◌≡◌, refl, List, [], ◌∷◌, ◌++◌, All, arith,
  if◌then◌else◌,
}
use kue_preorder.Prelude.Result.{ok}
use kue_preorder.Prelude.Text.{codes}
use kue_preorder.Payments.Fee.{blank}
use kue_preorder.Payments.Ledger.{
  add_manual, Payment, Ledger, pending, paid, eqb_state, paid_from, paid_idr, add_payment,
  order_payments, expire_pending,
}

order_payments-append :
    (o : ℕ) (l m : Ledger) → order_payments o (l ++ m) ≡ order_payments o l ++ order_payments o m
unfolding order_payments
order_payments-append o [] m = refl
order_payments-append o (p ∷ l) m = ground (arith, order_payments-append o l m)

-- A new row shows last among its order's payments, and among no other order's.
pub order_payments-add_payment :
    (o : ℕ) (p : Payment) (at : ℤ) (l : Ledger)
    → order_payments o (add_payment p at l) ≡ (
        if p.order_id == o
        then order_payments o l ++ record p { created_at = at } ∷ []
        else order_payments o l)
unfolding add_payment order_payments
order_payments-add_payment o p at l = ground (
  arith,
  order_payments-append o l (record p { created_at = at } ∷ []),
  append-nil (order_payments o l),
)

paid_from-append :
    (s : ℤ) (ps : List Payment) (p : Payment)
    → paid_from s (ps ++ p ∷ [])
      ≡ (if eqb_state p.state paid then paid_from s ps +64 p.amount_idr else paid_from s ps)
unfolding paid_from
paid_from-append s [] p = refl
paid_from-append s (q ∷ ps) p =
    paid_from-append (if eqb_state q.state paid then s +64 q.amount_idr else s) ps p

-- What an order has paid grows by the amount of a row added as paid, and by no other row.
pub paid_idr-add_payment :
    (o : ℕ) (p : Payment) (at : ℤ) (l : Ledger)
    → paid_idr (order_payments o (add_payment p at l)) ≡ (
        if p.order_id == o && eqb_state p.state paid
        then paid_idr (order_payments o l) +64 p.amount_idr
        else paid_idr (order_payments o l))
unfolding paid_idr
paid_idr-add_payment o p at l = ground (
  arith,
  order_payments-add_payment o p at l,
  paid_from-append (pos 0) (order_payments o l) (record p { created_at = at }),
)

paid_from-expire_pending :
    (s : ℤ) (o e : ℕ) (l : Ledger)
    → paid_from s (order_payments o (expire_pending e l)) ≡ paid_from s (order_payments o l)
unfolding paid_from order_payments expire_pending
paid_from-expire_pending s o e [] = refl
paid_from-expire_pending s o e (p ∷ l) =
    ground
      (arith, paid_from-expire_pending s o e l, paid_from-expire_pending (s +64 p.amount_idr) o e l)

-- Expiring open invoices changes no balance.
pub paid_idr-expire_pending :
    (o e : ℕ) (l : Ledger)
    → paid_idr (order_payments o (expire_pending e l)) ≡ paid_idr (order_payments o l)
unfolding paid_idr
paid_idr-expire_pending o e l = paid_from-expire_pending (pos 0) o e l

-- Once expired, the order has no open invoice.
pub expire_pending_closes :
    (o : ℕ) (l : Ledger)
    → All (λ p. eqb_state p.state pending ≡ false) (order_payments o (expire_pending o l))
unfolding order_payments expire_pending
expire_pending_closes o [] = tt
expire_pending_closes o (p ∷ l) = ground (arith, expire_pending_closes o l)

add_manual_row :
    (p : Payment) (at : ℤ) (l l' : Ledger)
    → add_manual p at l ≡ ok l'
    → l'
      ≡ add_payment
          (record p {
            provider = codes "manual";
            method = blank;
            external_id = [];
            checkout_url = [];
            fee_idr = pos 0;
            state = paid;
            expires_at = none;
            paid_at = some at;
          })
          at
          l
unfolding add_manual
add_manual_row p at l l' e = ground arith

-- A manual payment that `AddManual` accepts counts for its order at once and for no other, even
-- after open invoices expire.
pub paid_idr-add_manual :
    (o e : ℕ) (p : Payment) (at : ℤ) (l l' : Ledger)
    → add_manual p at l ≡ ok l'
    → paid_idr (order_payments o (expire_pending e l')) ≡ (
        if p.order_id == o
        then paid_idr (order_payments o l) +64 p.amount_idr
        else paid_idr (order_payments o l))
paid_idr-add_manual o e p at l l' h =
    paid_idr-expire_pending o e l'
    ∙ rw (add_manual_row p at l l' h) (
        rw
          (paid_idr-add_payment o
            (record p {
              provider = codes "manual";
              method = blank;
              external_id = [];
              checkout_url = [];
              fee_idr = pos 0;
              state = paid;
              expires_at = none;
              paid_at = some at;
            })
            at l)
          (ground arith))

-- The same, for the order that the payment is for and for another.
pub manual_balances :
    (o : ℕ) (p : Payment) (at : ℤ) (l m l' : Ledger)
    → p.order_id ≡ o
    → add_manual p at l ≡ ok m
    → l' ≡ expire_pending o m
    → (paid_idr (order_payments o l') ≡ paid_idr (order_payments o l) +64 p.amount_idr)
      × ((q : ℕ) → q ≢ o → paid_idr (order_payments q l') ≡ paid_idr (order_payments q l))
manual_balances o p at l m l' e h k = (
  rw k (paid_idr-add_manual o o p at l m h ∙ ground arith),
  λ q n. rw k (paid_idr-add_manual q o p at l m h ∙ ground arith),
)
