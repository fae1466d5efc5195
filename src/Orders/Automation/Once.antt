-- ===== src/Orders/Automation/Once.antt =====
-- When and for what the balance is billed.
use mathlib.Core.Path.{subst}
use kue_preorder.Prelude.{
  ℕ, ℤ, ◌+ℤ◌, ◌<ℤ◌, ◌≡◌, ◌⊎◌, int_laws, ◌∙◌, refl, map, ap, some, true, false, arith, inl, inr,
}
use kue_preorder.Prelude.Text.{Text}
use kue_preorder.Prelude.Word.{◌-64◌}
use kue_preorder.Prelude.Result.{Result, ok, err}
use kue_preorder.Platform.Errors.{Result-cases, Error}
use kue_preorder.Payments.Status.{dp_paid}
use kue_preorder.Payments.Fee.{Method, FeeRules}
use kue_preorder.Payments.Ledger.{order_payments, add_payment}
use kue_preorder.Orders.Lifecycle.{confirmed}
use kue_preorder.Orders.Store.{Order, World, ◌>>=◌, find, found, has_id, committed, lock_by_id}
use kue_preorder.Orders.Sound.{IsSound}
use kue_preorder.Orders.Sound.Pay.{paid_bounds, sub_exact}
use kue_preorder.Orders.Sound.Rows.{IsSoundWorld, find-All}
use kue_preorder.Orders.Sound.Actions.{lift_ok, paid_by}
use kue_preorder.Orders.Sound.Calls.{found_ok}
use kue_preorder.Orders.Automation.Billing.{
  billed, balance_payment, bill_order, commit_balance, ensure_balance,
}
use kue_preorder.Orders.Checkout.Invoices.{Provider}
use kue_preorder.Orders.Automation.Invoiced.{unlinked, make_invoices-SameUnlinked}
use kue_preorder.Orders.Automation.Billed.{bill_order_lem, billed_after, bill_again}

commit_ok :
    (r : Result Error (Unit {0} × World)) (w w' : World) {u : Unit {0}}
    → r ≡ ok (u, w')
    → (committed r w).1 ≡ w'
commit_ok (ok (u, v)) w w' e = cc
commit_ok (err x) w w' e = cc

commit_err :
    (r : Result Error (Unit {0} × World)) (w : World) (x : Error)
    → r ≡ err x
    → (committed r w).1 ≡ w
commit_err (ok (u, v)) w x e = cc
commit_err (err y) w x e = refl

-- What the transaction leaves, whether it commits or not.
commit_cases :
    (fresh : ℕ) (provider : Text) (rules : FeeRules) (now : ℤ) (id : ℕ) (w : World)
    → ((commit_balance fresh provider rules now id w).1 ≡ w)
      ⊎ ((o : Order) × (find (has_id id) w.orders ≡ some o)
          × (bill_order fresh provider rules now o w
              ≡ ok (tt, (commit_balance fresh provider rules now id w).1)))
unfolding commit_balance
commit_cases fresh provider rules now id w =
    elim (Result-cases ((lock_by_id id >>= bill_order fresh provider rules now) w)) [
      | inl ((u, w'), e) ↦
          (let (o, eo, run) =
              lift_ok (found (find (has_id id) w.orders)) (bill_order fresh provider rules now) w
                e in
            inr (o, found_ok _ o eo, rw (commit_ok _ w _ e) run))
      | inr (x, e) ↦ inl (commit_err _ w _ e)
    ]

-- The transaction bills nothing, or exactly what is owed.
commit_balance_exact :
    (fresh : ℕ) (provider : Text) (rules : FeeRules) (now : ℤ) (id : ℕ) (w : World)
    → IsSoundWorld w
    → ((commit_balance fresh provider rules now id w).1 ≡ w)
      ⊎ ((o : Order) × (m : Method) × (f : ℤ) × (owed : ℤ) × (find (has_id id) w.orders ≡ some o)
          × (o.status ≡ confirmed)
          × (o.payment ≡ dp_paid)
          × (now <ℤ o.balance_due_at)
          × (billed (order_payments o.id w.ledger) ≡ false)
          × (paid_by w.ledger o +ℤ owed ≡ o.total_idr)
          × ((commit_balance fresh provider rules now id w).1 ≡ record w {
            ledger = add_payment (balance_payment fresh provider o m owed f) now w.ledger;
          }))
commit_balance_exact fresh provider rules now id w h =
    elim (commit_cases fresh provider rules now id w) [
      | inl same ↦ inl same
      | inr (o, e, run) ↦ elim (bill_order_lem fresh provider rules now o w _ run) [
        | inl same ↦ inl same
        | inr (s, y, d, n, (m, f, made)) ↦
            (let i =
                find-All (λ q. IsSound q (paid_by w.ledger q)) (has_id id) w.orders o e h.sound in
              let b = paid_bounds o (paid_by w.ledger o) i in
              let exact =
                sub_exact o.total_idr (paid_by w.ledger o) (omega arith) i.total_high b.0
                  (omega arith) in
              inr (
                o,
                m,
                f,
                o.total_idr -64 paid_by w.ledger o,
                e,
                s,
                y,
                d,
                n,
                rw exact (omega int_laws),
                made,
              ))
      ]
    ]

-- Orders, journals and what is unlinked stay; the invoices alone may come.
abbrev pub OnlyInvoices : World → World → Type 0
OnlyInvoices w w' =
    (w' ≡ record w { ledger = w'.ledger }) × (map unlinked w'.ledger ≡ map unlinked w.ledger)

-- The call leaves what its transaction left, up to invoices.
ensure_commit :
    (read : Result Error (Unit {0})) (fresh : ℕ) (v : Provider) (rules : FeeRules) (now at : ℤ)
    (id : ℕ) (w : World)
    → (let c = (commit_balance fresh v.name rules now id w).1 in
        let w' = (ensure_balance read fresh v rules now at id w).1 in
        OnlyInvoices c w'
        × ((o : ℕ) → billed (order_payments o w'.ledger) ≡ billed (order_payments o c.ledger)))
unfolding ensure_balance
ensure_commit read fresh v rules now at id w =
    elim (Result-cases ((commit_balance fresh v.name rules now id w).0)) [
      | inr (e, k) ↦ rw (k, ensure_balance) ((refl, refl), λ o. refl)
      | inl (u, k) ↦
          (let (rest, (same, bills)) =
              make_invoices-SameUnlinked read v at id
                ((commit_balance fresh v.name rules now id w).1) in
            rw (k, ensure_balance) ((rest, same), bills))
    ]

-- What `EnsureBalanceInvoice` leaves of a sound store, the invoices of open payments aside (their
-- external ids and links): orders, journals and payments are as they were; or the order is confirmed,
-- has its DP paid and no open balance payment, its balance is not yet due, and the payments are those of
-- before and one new pending balance payment, for exactly what the order still owes. This holds
-- whatever the provider answers and the database to the reads after the commit, and whether the call reports an error or not.
pub ensure_balance_exact :
    (read : Result Error (Unit {0})) (fresh : ℕ) (v : Provider) (rules : FeeRules) (now at : ℤ)
    (id : ℕ) (w : World)
    → IsSoundWorld w
    → (let w' = (ensure_balance read fresh v rules now at id w).1 in
        OnlyInvoices w w'
        ⊎ ((o : Order) × (m : Method) × (f : ℤ) × (owed : ℤ) × (find (has_id id) w.orders ≡ some o)
            × (o.status ≡ confirmed)
            × (o.payment ≡ dp_paid)
            × (now <ℤ o.balance_due_at)
            × (billed (order_payments o.id w.ledger) ≡ false)
            × (paid_by w.ledger o +ℤ owed ≡ o.total_idr)
            × OnlyInvoices
                (record w {
                  ledger = add_payment (balance_payment fresh v.name o m owed f) now w.ledger;
                })
                w'))
ensure_balance_exact read fresh v rules now at id w h =
    let (left, bills) = ensure_commit read fresh v rules now at id w in
    elim (commit_balance_exact fresh v.name rules now id w h) [
      | inl same ↦
          inl (
            subst (λ c. OnlyInvoices c (ensure_balance read fresh v rules now at id w).1) same left)
      | inr (o, m, f, owed, e, s, y, d, n, x, made) ↦ inr (
        o,
        m,
        f,
        owed,
        e,
        s,
        y,
        d,
        n,
        x,
        subst (λ c. OnlyInvoices c (ensure_balance read fresh v rules now at id w).1) made left,
      )
    ]

-- An order whose balance is billed already stays as it is in every later transaction.
billed_stays :
    (fresh : ℕ) (provider : Text) (rules : FeeRules) (now : ℤ) (id : ℕ) (w : World) (o : Order)
    → find (has_id id) w.orders ≡ some o
    → billed (order_payments o.id w.ledger) ≡ true
    → (commit_balance fresh provider rules now id w).1 ≡ w
billed_stays fresh provider rules now id w o e b =
    elim (commit_cases fresh provider rules now id w) [
      | inl same ↦ same
      | inr (q, k, run) ↦
          (let same : q ≡ o = cc in bill_again fresh provider rules now q w _ (rw same b) run)
    ]

-- After a call of `EnsureBalanceInvoice` that added a payment, a later one adds none: whatever the time,
-- the rules and the provider then are, and whatever the providers answer, it leaves orders, journals
-- and payments as they are, the invoices of open payments aside (their external ids and links).
pub ensure_balance_once :
    (read reread : Result Error (Unit {0})) (fresh again : ℕ) (v other : Provider)
    (rules new_rules : FeeRules) (now at later later_at : ℤ) (id : ℕ) (w : World)
    → (let w1 = (ensure_balance read fresh v rules now at id w).1 in
        OnlyInvoices w w1
        ⊎ OnlyInvoices w1 ((ensure_balance reread again other new_rules later later_at id w1).1))
ensure_balance_once read reread fresh again v other rules new_rules now at later later_at id w =
    let w1 = (ensure_balance read fresh v rules now at id w).1 in
    let (left, bills) = ensure_commit read fresh v rules now at id w in
    let (next, later_bills) = ensure_commit reread again other new_rules later later_at id w1 in
    elim (commit_cases fresh v.name rules now id w) [
      | inl same ↦ inl (subst (λ c. OnlyInvoices c w1) same left)
      | inr (o, e, run) ↦ elim (bill_order_lem fresh v.name rules now o w _ run) [
        | inl same ↦ inl (subst (λ c. OnlyInvoices c w1) same left)
        | inr (s, y, d, n, (m, f, made)) ↦
            (let here : find (has_id id) w1.orders ≡ some o =
                ap (λ x. find (has_id id) x.orders) left.0
                ∙ ap (λ x. find (has_id id) x.orders) made
                ∙ e in
              let billed_now : billed (order_payments o.id w1.ledger) ≡ true =
                bills o.id ∙ billed_after fresh v.name now o w _ (m, f, made) in
              let stays = billed_stays again other.name new_rules later id w1 o here billed_now in
              inr (
                subst
                  (λ c.
                    OnlyInvoices c
                      ((ensure_balance reread again other new_rules later later_at id w1).1))
                  stays next))
      ]
    ]
