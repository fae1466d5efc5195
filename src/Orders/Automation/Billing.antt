-- ===== src/Orders/Automation/Billing.antt =====
-- internal/orders/automation.go: `EnsureBalanceInvoice`, its transaction and the invoices that follow the
-- commit. The provider and the fee rules are given.
use kue_preorder.Prelude.{
  ℕ, ℤ, pos, ltb_ℤ, leb_ℤ, Bool, not, ◌&&◌, ◌||◌, List, [], ◌∷◌, none, some, contains_func,
  if◌then◌else◌,
}
use kue_preorder.Prelude.Text.{Text}
use kue_preorder.Prelude.Word.{◌-64◌}
use kue_preorder.Prelude.Result.{Result, ok, err}
use kue_preorder.Platform.Errors.{Error, internal, not_found}
use kue_preorder.Payments.Status.{dp_paid, eqb_status as eqb_payment}
use kue_preorder.Payments.Fee.{Method, blank, eqb_method, methods, FeeRules, fee}
use kue_preorder.Payments.Ledger.{
  balance, eqb_kind, pending, eqb_state, Payment, order_payments, paid_idr, add_pending,
}
use kue_preorder.Orders.Lifecycle.{confirmed, eqb_status}
use kue_preorder.Orders.Store.{
  Order, World, Tx, ◌>>=◌, lift, done, find, has_id, committed, lock_by_id,
}
use kue_preorder.Orders.Checkout.Invoices.{Provider, ensure_each}

-- `billed`.
unfoldable pub billed : List Payment → Bool
billed ps = contains_func (λ p. eqb_state p.state pending && eqb_kind p.kind balance) ps

-- The method of the first payment that has one.
unfoldable pub chosen : List Payment → Method
chosen [] = blank
chosen (p ∷ ps) = let rest = chosen ps in if eqb_method p.method blank then rest else p.method

-- The first method that is on, with its fee.
unfoldable pub first_enabled : FeeRules → ℤ → List Method → Result Error (Method × ℤ)
first_enabled rules owed [] = err (internal "no payment method on offer")
first_enabled rules owed (m ∷ ms) =
    let rest = first_enabled rules owed ms in
    elim (rules m) [
      | none ↦ rest
      | some rule ↦
          if rule.enabled then elim (fee rule owed) [ err e ↦ err e | ok f ↦ ok (m, f) ] else rest
    ]

-- `balanceMethod`.
unfoldable pub balance_method : FeeRules → List Payment → ℤ → Result Error (Method × ℤ)
unfolding chosen first_enabled
balance_method rules ps owed = first_enabled rules owed (chosen ps ∷ methods)

abbrev pub balance_payment : ℕ → Text → Order → Method → ℤ → ℤ → Payment
balance_payment id provider o method owed fee_idr = record {
  id = id;
  order_id = o.id;
  kind = balance;
  provider = provider;
  method = method;
  external_id = [];
  amount_idr = owed;
  fee_idr = fee_idr;
  state = pending;
  checkout_url = [];
  expires_at = some o.balance_due_at;
  paid_at = none;
  created_at = pos 0;
  manual = none;
}

abbrev pub on_ledger_add_pending : Payment → ℤ → Tx (Unit {0})
on_ledger_add_pending p at w = elim (add_pending p at w.ledger) [
  | ok l ↦ ok (tt, record w { ledger = l })
  | err e ↦ err e
]

-- Past the guards: the method, and the pending payment.
unfoldable pub add_balance : ℕ → Text → FeeRules → ℤ → Order → List Payment → ℤ → Tx (Unit {0})
unfolding balance_method
add_balance fresh provider rules now o ps owed = do
  choice ← lift (balance_method rules ps owed)
  on_ledger_add_pending (balance_payment fresh provider o choice.0 owed choice.1) now

-- The transaction on the order that it has locked.
unfoldable pub bill_order : ℕ → Text → FeeRules → ℤ → Order → Tx (Unit {0})
unfolding billed add_balance
bill_order fresh provider rules now o w =
    let ps = order_payments o.id w.ledger in
    let owed = o.total_idr -64 paid_idr ps in
    if not (eqb_status o.status confirmed)
      || not (eqb_payment o.payment dp_paid)
      || not (ltb_ℤ now o.balance_due_at)
    then done w
    else if leb_ℤ owed (pos 0) || billed ps
    then done w
    else add_balance fresh provider rules now o ps owed w

-- The transaction of `EnsureBalanceInvoice`.
unfoldable pub commit_balance :
    ℕ → Text → FeeRules → ℤ → ℕ → World → Result Error (Unit {0}) × World
unfolding bill_order
commit_balance fresh provider rules now id w =
    committed ((lock_by_id id >>= bill_order fresh provider rules now) w) w

-- `errors.Join`: nothing went wrong, or all that did.
abbrev pub joined : List Error → Result (List Error) (Unit {0})
joined [] = ok tt
joined (e ∷ es) = err (e ∷ es)

-- What follows the commit: the order is read again, and each of its open payments gets its invoice.
-- `read` is what the database makes of the reads.
unfoldable pub make_invoices :
    (read : Result Error (Unit {0}))
    → Provider
    → ℤ
    → ℕ
    → World
    → Result (List Error) (Unit {0}) × World
unfolding ensure_each
make_invoices (err e) v at id w = (err (e ∷ []), w)
make_invoices (ok _) v at id w = elim (find (has_id id) w.orders) [
  | none ↦ (err (not_found ∷ []), w)
  | some o ↦
      (let e = ensure_each v at o (order_payments o.id w.ledger) w.ledger in
        (joined e.failures, record w { ledger = e.ledger }))
]

-- `EnsureBalanceInvoice`. `invoiced_at` is what the clock says after the commit.
unfoldable pub ensure_balance :
    (read : Result Error (Unit {0})) (fresh : ℕ) (v : Provider) (rules : FeeRules)
    (now invoiced_at : ℤ) (id : ℕ)
    → World
    → Result (List Error) (Unit {0}) × World
unfolding commit_balance make_invoices
ensure_balance read fresh v rules now invoiced_at id w =
    let (r, w') = commit_balance fresh v.name rules now id w in
    elim r [ err e ↦ (err (e ∷ []), w') | ok _ ↦ make_invoices read v invoiced_at id w' ]
