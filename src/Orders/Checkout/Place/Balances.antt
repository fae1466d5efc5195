-- ===== src/Orders/Checkout/Place/Balances.antt =====
-- Loading an order makes its missing invoices, which touch no row of the orders and no balance.
use kue_preorder.Prelude.{◌≡◌, ◌∙◌, refl, List, [], ◌∷◌, inl, inr, Bool-cases, Option-cases, ℕ, ℤ}
use kue_preorder.Platform.Errors.{Result-cases}
use kue_preorder.Payments.Ledger.{Payment, Ledger, paid_idr, order_payments, set_invoice}
use kue_preorder.Payments.Ledger.Pending.{paid_idr-set_invoice}
use kue_preorder.Orders.Store.{Order, World, find, has_id}
use kue_preorder.Orders.Checkout.Invoices.{
  Provider, needs_none, request_for, ensure_one, ensure_each, with_payments,
}
use kue_preorder.Orders.Checkout.Place.{load}

-- Every order has paid the same.
abbrev pub SameBalances : Ledger → Ledger → Type 0
SameBalances l l' = (q : ℕ) → paid_idr (order_payments q l') ≡ paid_idr (order_payments q l)

-- The same orders, which have paid the same.
abbrev pub SameRows : World → World → Type 0
SameRows w w' = (w'.orders ≡ w.orders) × SameBalances w.ledger w'.ledger

ensure_one-SameBalances :
    (v : Provider) (now : ℤ) (o : Order) (p : Payment) (l : Ledger)
    → SameBalances l ((ensure_one v now o p l).1)
unfolding ensure_one
ensure_one-SameBalances v now o p l q = elim (Bool-cases (needs_none now p)) [
  | inl t ↦ rw t refl
  | inr f ↦ elim (Result-cases (v.create_invoice (request_for o p))) [
    | inr (e, k) ↦ rw (f, k) refl
    | inl (inv, k) ↦ elim (Result-cases (set_invoice p.id inv.external_id inv.url l)) [
      | inr (e, j) ↦ rw (f, k, j) refl
      | inl (l', j) ↦ rw (f, k, j) (paid_idr-set_invoice q p.id inv.external_id inv.url l l' j)
    ]
  ]
]

ensure_each-SameBalances :
    (v : Provider) (now : ℤ) (o : Order) (ps : List Payment) (l : Ledger)
    → SameBalances l (ensure_each v now o ps l).ledger
unfolding ensure_each
ensure_each-SameBalances v now o [] l q = refl
ensure_each-SameBalances v now o (p ∷ ps) l q =
    ensure_each-SameBalances v now o ps (ensure_one v now o p l).1 q
    ∙ ensure_one-SameBalances v now o p l q

pub with_payments-SameRows :
    (v : Provider) (now : ℤ) (o : Order) (w : World) → SameRows w (with_payments v now o w).1
unfolding with_payments
with_payments-SameRows v now o w =
    (refl, ensure_each-SameBalances v now o (order_payments o.id w.ledger) w.ledger)

pub load-SameRows : (v : Provider) (now : ℤ) (id : ℕ) (w : World) → SameRows w (load v now id w).1
unfolding load
load-SameRows v now id w = elim (Option-cases (find (has_id id) w.orders)) [
  | inl n ↦ rw (n, load) (refl, λ q. refl)
  | inr (o, e) ↦ rw (e, load) (with_payments-SameRows v now o w)
]
