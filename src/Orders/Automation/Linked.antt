-- ===== src/Orders/Automation/Linked.antt =====
-- After a call of `EnsureBalanceInvoice` that reports no error, every open payment of the order has its link.
use kue_preorder.Prelude.{
  ℕ, ℤ, ◌≡◌, ◌++◌, not, refl, List, [], ◌∷◌, All, Bool, true, false, arith, inl, inr, Bool-cases,
  Option-cases, some,
}
use kue_preorder.Prelude.Text.{is_empty}
use kue_preorder.Prelude.Result.{Result, ok, err}
use kue_preorder.Platform.Errors.{Result-cases, Error}
use kue_preorder.Payments.Fee.{FeeRules}
use kue_preorder.Payments.Ledger.{Payment, Ledger, order_payments, set_invoice}
use kue_preorder.Orders.Store.{Order, World, find, has_id}
use kue_preorder.Orders.Checkout.Invoices.{
  Invoice, InvoiceRequest, Provider, needs_none, request_for, ensure_one, ensure_each,
}
use kue_preorder.Orders.Automation.Billing.{joined, commit_balance, make_invoices, ensure_balance}
use kue_preorder.Orders.Automation.Awaited.{
  IsLinked, IsHandled, all_await, none_awaits, passed_over, linked_now, order_payments-put_invoice,
  set_invoice_row,
}

-- An invoice that the provider makes has a link.
abbrev pub links : Result Error Invoice → Bool
links (err e) = true
links (ok inv) = not (is_empty inv.url)

linking :
    (r : Result Error Invoice) (inv : Invoice)
    → links r ≡ true
    → r ≡ ok inv
    → is_empty inv.url ≡ false
linking r inv t e = let k : not (is_empty inv.url) ≡ true = rw e at t in ground (arith, k)

ensure_one-IsLinked :
    (v : Provider) (at : ℤ) (o : Order) (p : Payment) (ps : List Payment) (l : Ledger)
    → ((r : InvoiceRequest) → links (v.create_invoice r) ≡ true)
    → ((ensure_one v at o p l).2 ≡ [])
    → All (IsHandled at (p ∷ ps)) (order_payments o.id l)
    → All (IsHandled at ps) (order_payments o.id (ensure_one v at o p l).1)
unfolding ensure_one
ensure_one-IsLinked v at o p ps l provider fine h = elim (Bool-cases (needs_none at p)) [
  | inl t ↦ rw t (passed_over at p ps (order_payments o.id l) t h)
  | inr f ↦ elim (Result-cases (v.create_invoice (request_for o p))) [
    | inr (e, k) ↦ cc (rw (f, k) at fine)
    | inl (inv, k) ↦ elim (Result-cases (set_invoice p.id inv.external_id inv.url l)) [
      | inr (e, j) ↦ cc (rw (f, k, j) at fine)
      | inl (l', j) ↦
          rw (f, k, j)
            (rw (set_invoice_row p.id inv.external_id inv.url l l' j) (
              rw (order_payments-put_invoice o.id p.id inv.external_id inv.url l) (
                linked_now at p ps (order_payments o.id l) inv.external_id inv.url f
                  (linking _ inv (provider (request_for o p)) k) h)))
    ]
  ]
]

none_of : {A : Type 0} (xs ys : List A) → xs ++ ys ≡ [] → (xs ≡ []) × (ys ≡ [])
none_of [] ys e = (refl, e)
none_of (x ∷ xs) ys e = cc

ensure_each-IsLinked :
    (v : Provider) (at : ℤ) (o : Order) (ps : List Payment) (l : Ledger)
    → ((r : InvoiceRequest) → links (v.create_invoice r) ≡ true)
    → (ensure_each v at o ps l).failures ≡ []
    → All (IsHandled at ps) (order_payments o.id l)
    → All (IsLinked at) (order_payments o.id (ensure_each v at o ps l).ledger)
unfolding ensure_each
ensure_each-IsLinked v at o [] l provider fine h = none_awaits at (order_payments o.id l) h
ensure_each-IsLinked v at o (p ∷ ps) l provider fine h =
    let (first, rest) = none_of ((ensure_one v at o p l).2) _ fine in
    ensure_each-IsLinked v at o ps ((ensure_one v at o p l).1) provider rest
      (ensure_one-IsLinked v at o p ps l provider first h)

joined_ok : (es : List Error) → joined es ≡ ok tt → es ≡ []
joined_ok [] e = refl
joined_ok (x ∷ es) e = cc

make_invoices-IsLinked :
    (read : Result Error (Unit {0})) (v : Provider) (at : ℤ) (id : ℕ) (w : World)
    → ((r : InvoiceRequest) → links (v.create_invoice r) ≡ true)
    → (make_invoices read v at id w).0 ≡ ok tt
    → (o : Order) × (find (has_id id) (make_invoices read v at id w).1.orders ≡ some o)
      × All (IsLinked at) (order_payments o.id (make_invoices read v at id w).1.ledger)
unfolding make_invoices
make_invoices-IsLinked (err e) v at id w provider fine = cc
make_invoices-IsLinked (ok u) v at id w provider fine =
    elim (Option-cases (find (has_id id) w.orders)) [
      | inl n ↦ cc (rw (n, make_invoices) at fine)
      | inr (o, e) ↦
          (let ps = order_payments o.id w.ledger in
            let none_failed =
              joined_ok ((ensure_each v at o ps w.ledger).failures)
                (rw (e, make_invoices) at fine) in
            (
              o,
              rw (e, make_invoices) e,
              rw (e, make_invoices)
                  (ensure_each-IsLinked v at o ps w.ledger provider none_failed (all_await at ps)),
            ))
    ]

-- When a call of `EnsureBalanceInvoice` reports no error, the order is there, and each of its payments is
-- closed, has the link to its invoice, or had lapsed when the invoices were made, if an invoice that
-- the provider makes has a link.
pub ensure_balance_invoices :
    (read : Result Error (Unit {0})) (fresh : ℕ) (v : Provider) (rules : FeeRules) (now at : ℤ)
    (id : ℕ) (w : World)
    → ((r : InvoiceRequest) → links (v.create_invoice r) ≡ true)
    → (ensure_balance read fresh v rules now at id w).0 ≡ ok tt
    → (let w' = (ensure_balance read fresh v rules now at id w).1 in
        (o : Order) × (find (has_id id) w'.orders ≡ some o)
        × All (IsLinked at) (order_payments o.id w'.ledger))
unfolding ensure_balance
ensure_balance_invoices read fresh v rules now at id w provider fine =
    let c = commit_balance fresh v.name rules now id w in
    elim (Result-cases (c.0)) [
      | inr (e, k) ↦ cc (rw (k, ensure_balance) at fine)
      | inl (u, k) ↦
          rw (k, ensure_balance)
            (make_invoices-IsLinked read v at id (c.1) provider (rw (k, ensure_balance) at fine))
    ]
