-- ===== src/Orders/Automation/Invoiced.antt =====
-- What the invoices made after the commit may change: the links of open payments.
use kue_preorder.Prelude.{
  ℕ, ℤ, ◌≡◌, ◌∙◌, refl, List, [], ◌∷◌, map, arith, inl, inr, Bool-cases, Option-cases,
  if◌then◌else◌,
}
use kue_preorder.Prelude.Text.{Text}
use kue_preorder.Prelude.Result.{Result, ok, err}
use kue_preorder.Platform.Errors.{Result-cases, Error}
use kue_preorder.Payments.Ledger.{
  Payment, Ledger, pending, eqb_state, order_payments, put_invoice, set_invoice,
}
use kue_preorder.Orders.Store.{Order, World, find, has_id}
use kue_preorder.Orders.Checkout.Invoices.{
  Provider, needs_none, request_for, ensure_one, ensure_each,
}
use kue_preorder.Orders.Automation.Billing.{billed, make_invoices}

-- A payment less the link to its invoice, when it is open.
pub unlinked : Payment → Payment
unlinked p =
    if eqb_state p.state pending then record p { external_id = []; checkout_url = [] } else p

-- The same payments in the same order, up to the links of the open ones.
abbrev pub SameUnlinked : Ledger → Ledger → Type 0
SameUnlinked l l' =
    (map unlinked l' ≡ map unlinked l)
    × ((o : ℕ) → billed (order_payments o l') ≡ billed (order_payments o l))

put_invoice-unlinked :
    (id : ℕ) (external url : Text) (l : Ledger)
    → map unlinked (put_invoice id external url l) ≡ map unlinked l
unfolding put_invoice unlinked
put_invoice-unlinked id external url [] = refl
put_invoice-unlinked id external url (p ∷ l) =
    ground (arith, put_invoice-unlinked id external url l)

put_invoice-billed :
    (o id : ℕ) (external url : Text) (l : Ledger)
    → billed (order_payments o (put_invoice id external url l)) ≡ billed (order_payments o l)
unfolding put_invoice order_payments billed
put_invoice-billed o id external url [] = refl
put_invoice-billed o id external url (p ∷ l) =
    ground (arith, put_invoice-billed o id external url l)

set_invoice-SameUnlinked :
    (id : ℕ) (external url : Text) (l l' : Ledger)
    → set_invoice id external url l ≡ ok l'
    → SameUnlinked l l'
unfolding set_invoice
set_invoice-SameUnlinked id external url l l' e =
    let same : l' ≡ put_invoice id external url l = ground arith in
    rw same (put_invoice-unlinked id external url l, λ o. put_invoice-billed o id external url l)

ensure_one-SameUnlinked :
    (v : Provider) (now : ℤ) (o : Order) (p : Payment) (l : Ledger)
    → SameUnlinked l ((ensure_one v now o p l).1)
unfolding ensure_one
ensure_one-SameUnlinked v now o p l = elim (Bool-cases (needs_none now p)) [
  | inl t ↦ rw t (refl, λ q. refl)
  | inr f ↦ elim (Result-cases (v.create_invoice (request_for o p))) [
    | inr (e, k) ↦ rw (f, k) (refl, λ q. refl)
    | inl (inv, k) ↦ elim (Result-cases (set_invoice p.id inv.external_id inv.url l)) [
      | inr (e, j) ↦ rw (f, k, j) (refl, λ q. refl)
      | inl (l', j) ↦ rw (f, k, j) (set_invoice-SameUnlinked p.id inv.external_id inv.url l l' j)
    ]
  ]
]

ensure_each-SameUnlinked :
    (v : Provider) (now : ℤ) (o : Order) (ps : List Payment) (l : Ledger)
    → SameUnlinked l (ensure_each v now o ps l).ledger
unfolding ensure_each
ensure_each-SameUnlinked v now o [] l = (refl, λ q. refl)
ensure_each-SameUnlinked v now o (p ∷ ps) l =
    let rest = ensure_each-SameUnlinked v now o ps (ensure_one v now o p l).1 in
    let first = ensure_one-SameUnlinked v now o p l in (rest.0 ∙ first.0, λ q. rest.1 q ∙ first.1 q)

-- The invoices leave the orders and the journals, and of the ledger all but the links of open payments.
pub make_invoices-SameUnlinked :
    (read : Result Error (Unit {0})) (v : Provider) (at : ℤ) (id : ℕ) (w : World)
    → ((make_invoices read v at id w).1
        ≡ record w { ledger = (make_invoices read v at id w).1.ledger })
      × SameUnlinked w.ledger (make_invoices read v at id w).1.ledger
unfolding make_invoices
make_invoices-SameUnlinked (err e) v at id w = (refl, (refl, λ q. refl))
make_invoices-SameUnlinked (ok u) v at id w = elim (Option-cases (find (has_id id) w.orders)) [
  | inl n ↦ rw (n, make_invoices) (refl, (refl, λ q. refl))
  | inr (o, e) ↦
      rw (e, make_invoices)
        (refl, ensure_each-SameUnlinked v at o (order_payments o.id w.ledger) w.ledger)
]
