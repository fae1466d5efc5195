-- ===== src/Orders/Automation/Billed.antt =====
-- What billing an order writes, and what `billed` then says.
use kue_preorder.Prelude.{
  ℕ, ℤ, ◌<ℤ◌, ◌≡◌, ◌⊎◌, ◌∙◌, refl, sym, List, [], ◌∷◌, ◌++◌, Bool, true, false, arith, inl, inr,
  contains_func,
}
use kue_preorder.Prelude.Text.{Text}
use kue_preorder.Prelude.Word.{◌-64◌}
use kue_preorder.Prelude.Result.{ok}
use kue_preorder.Platform.Errors.{Result-cases}
use kue_preorder.Payments.Status.{dp_paid}
use kue_preorder.Payments.Fee.{Method, FeeRules}
use kue_preorder.Payments.Ledger.{
  pending, Payment, Ledger, order_payments, add_payment, add_pending,
}
use kue_preorder.Payments.Ledger.Rows.{order_payments-add_payment}
use kue_preorder.Orders.Lifecycle.{confirmed}
use kue_preorder.Orders.Store.{Order, World}
use kue_preorder.Orders.Sound.Actions.{lift_ok, paid_by}
use kue_preorder.Orders.Automation.Billing.{
  billed, balance_method, add_balance, balance_payment, on_ledger_add_pending, bill_order,
}

-- The pending payment added to the ledger, for what the order owes.
abbrev pub Billed : ℕ → Text → ℤ → Order → World → World → Type 0
Billed fresh provider now o w w' =
    (m : Method) × (f : ℤ) × (w' ≡ record w {
      ledger =
          add_payment (balance_payment fresh provider o m (o.total_idr -64 paid_by w.ledger o) f)
            now w.ledger;
    })

add_pending_ok :
    (p : Payment) (at : ℤ) (l l' : Ledger)
    → p.state ≡ pending
    → add_pending p at l ≡ ok l'
    → l' ≡ add_payment p at l
unfolding add_pending
add_pending_ok p at l l' s h = ground arith

add_balance_lem :
    (fresh : ℕ) (provider : Text) (rules : FeeRules) (now : ℤ) (o : Order) (ps : List Payment)
    (owed : ℤ) (w w' : World) {u : Unit {0}}
    → add_balance fresh provider rules now o ps owed w ≡ ok (u, w')
    → (m : Method) × (f : ℤ) × (w' ≡ record w {
      ledger = add_payment (balance_payment fresh provider o m owed f) now w.ledger;
    })
unfolding add_balance
add_balance_lem fresh provider rules now o ps owed w w' h =
    let ((m, f), e, h1) = lift_ok (balance_method rules ps owed) _ w h in
    elim (Result-cases (add_pending (balance_payment fresh provider o m owed f) now w.ledger)) [
      | inl (l, k) ↦
          (let same : record w { ledger = l } ≡ w' = cc (rw (k, on_ledger_add_pending) at h1) in
            (m, f, sym same ∙ rw (add_pending_ok _ now w.ledger l refl k) refl))
      | inr (x, k) ↦ cc (rw (k, on_ledger_add_pending) at h1)
    ]

pub bill_order_lem :
    (fresh : ℕ) (provider : Text) (rules : FeeRules) (now : ℤ) (o : Order) (w w' : World)
    {u : Unit {0}}
    → bill_order fresh provider rules now o w ≡ ok (u, w')
    → (w' ≡ w)
      ⊎ ((o.status ≡ confirmed)
          × (o.payment ≡ dp_paid)
          × (now <ℤ o.balance_due_at)
          × (billed (order_payments o.id w.ledger) ≡ false)
          × Billed fresh provider now o w w')
unfolding bill_order
bill_order_lem fresh provider rules now o w w' h = ground (
  arith,
  add_balance_lem fresh provider rules now o (order_payments o.id w.ledger)
      (o.total_idr -64 paid_by w.ledger o) w w',
)

contains_last :
    (ps : List Payment) (p : Payment) (test : Payment → Bool)
    → test p ≡ true
    → contains_func test (ps ++ p ∷ []) ≡ true
contains_last [] p test t = ground (arith, t)
contains_last (q ∷ ps) p test t = ground (arith, contains_last ps p test t)

-- Once the balance is billed, `billed` says so.
pub billed_after :
    (fresh : ℕ) (provider : Text) (now : ℤ) (o : Order) (w w' : World)
    → Billed fresh provider now o w w'
    → billed (order_payments o.id w'.ledger) ≡ true
unfolding billed
billed_after fresh provider now o w w' (m, f, e) =
    let p = balance_payment fresh provider o m (o.total_idr -64 paid_by w.ledger o) f in
    let rows : order_payments o.id (add_payment p now w.ledger)
        ≡ order_payments o.id w.ledger ++ record p { created_at = now } ∷ [] =
      order_payments-add_payment o.id p now w.ledger ∙ ground arith in
    rw (e, rows)
      (contains_last (order_payments o.id w.ledger) (record p { created_at = now }) _ refl)

-- An order that is billed already stays as it is, whatever the rules and the time.
pub bill_again :
    (fresh : ℕ) (provider : Text) (rules : FeeRules) (now : ℤ) (o : Order) (w w' : World)
    {u : Unit {0}}
    → billed (order_payments o.id w.ledger) ≡ true
    → bill_order fresh provider rules now o w ≡ ok (u, w')
    → w' ≡ w
bill_again fresh provider rules now o w w' b h =
    elim (bill_order_lem fresh provider rules now o w w' h) [
      | inl same ↦ same
      | inr (s, y, d, n, x) ↦ cc
    ]
