-- ===== src/Orders/Tests.antt =====
-- The theorems on orders at concrete data, and runs of the calls. The shop has one confirmed order of
-- Rp200.000 whose DP of Rp100.000 is paid.
use kue_preorder.Prelude.Word.{wrap64, ◌+64◌, ◌-64◌}
use kue_preorder.Prelude.{
  ◌+ℤ◌, ◌-ℤ◌, ℤ, pos, ◌≡◌, ◌↔◌, ◌⊎◌, ◌<ℤ◌, refl, [], ◌∷◌, none, some, map, All, arith, false, inl,
}
use kue_preorder.Prelude.Text.{codes, trim_space, trim_left, is_space, is_empty, eqb_text}
use kue_preorder.Prelude.Result.{Result, ok, err}
use kue_preorder.Platform.Errors.{Error, internal, fields_err, check}
use kue_preorder.Platform.Caller.{Principal, owner, authorize}
use kue_preorder.Payments.Status.{
  Amounts, dp_paid, paid_in_full, close, is_closed, settle, due_status, rank,
}
use kue_preorder.Payments.Fee.{Method, qris, default_fee_rules, fee, is_valid}
use kue_preorder.Payments.Ledger.{
  Payment, add_payment, add_pending, set_invoice, dp, paid, paid_idr, order_payments, add_manual,
  expire_pending,
}
use kue_preorder.Orders.Lifecycle.{confirmed, in_production, pickup, transition}
use kue_preorder.Orders.Store.{has_id, Order, World, find, normalize_code, set_status_in}
use kue_preorder.Orders.Admin.{advance}
use kue_preorder.Orders.Admin.Payment.{
  ManualPayment, record_payment, check_reason, check_reference, manual_kind, confirm,
}
use kue_preorder.Orders.Admin.Cancel.{CancelRequest, cancel_refund, cancel, cancel_forfeit}
use kue_preorder.Orders.Sound.Rows.{IsSoundWorld}
use kue_preorder.Orders.Sound.Calls.{record_payment_keeps, cancel_keeps, advance_keeps}
use kue_preorder.Orders.Automation.{expire_unpaid, forfeit_unpaid}
use kue_preorder.Orders.Automation.Keeps.{RowByRow}
use kue_preorder.Orders.Automation.Effect.{
  Lapsed, Forfeits, expire_unpaid_effect, forfeit_unpaid_effect,
}
use kue_preorder.Orders.Sound.Actions.{paid_by}
use kue_preorder.Orders.Automation.Billing.{billed, balance_payment, ensure_balance}
use kue_preorder.Orders.Automation.Linked.{ensure_balance_invoices}
use kue_preorder.Orders.Automation.Awaited.{IsLinked}
use kue_preorder.Orders.Automation.Once.{OnlyInvoices, ensure_balance_exact, ensure_balance_once}
use kue_preorder.Orders.Checkout.Invoices.{Provider}
use kue_preorder.Orders.Lifecycle.Paths.{Step, transition_iff}

abbrev cake : Order
cake = record {
  id = 1;
  customer_id = 3;
  code = codes "ABC234";
  status = confirmed;
  payment = dp_paid;
  fulfillment = pickup;
  items = [];
  subtotal_idr = pos 200000;
  tax_idr = pos 0;
  total_idr = pos 200000;
  dp_required_idr = pos 100000;
  full_payment_required = false;
  pickup_at = pos 9000;
  production_start = pos 5000;
  production_date = pos 0;
  shopping_cutoff_at = pos 3000;
  dp_due_at = pos 1000;
  balance_due_at = pos 2000;
  notes = [];
  customer_name = codes "Siti";
  customer_phone = codes "+628123";
  customer_email = [];
  terms_version = codes "dp-draft-1";
  idempotency_key = 77;
}

abbrev deposit : Payment
deposit = record {
  id = 9;
  order_id = 1;
  kind = dp;
  provider = codes "xendit";
  method = qris;
  external_id = codes "inv-9";
  amount_idr = pos 100000;
  fee_idr = pos 0;
  state = paid;
  checkout_url = [];
  expires_at = some (pos 1000);
  paid_at = some (pos 900);
  created_at = pos 100;
  manual = none;
}

abbrev shop : World
shop = record { orders = cake ∷ []; ledger = deposit ∷ []; audits = []; events = [] }

shop-IsSoundWorld : IsSoundWorld shop
unfolding order_payments paid_idr ◌+64◌ ◌+ℤ◌ wrap64
shop-IsSoundWorld = record {
  distinct = (tt, tt);
  sound = (
    record {
      dp_low = omega arith;
      dp_high = omega arith;
      total_high = omega arith;
      status_fits = inl refl;
      paid_fits = (omega arith, omega arith);
    },
    tt,
  );
}

abbrev boss : Result Error Principal
boss = ok (record { auth_user_id = 5; roles = owner ∷ []; customer_id = none })

abbrev cash : ManualPayment
cash = record { amount_idr = pos 100000; reference = codes "K-1"; note = codes "tunai" }

abbrev give_back_all : CancelRequest
give_back_all = record {
  mode = cancel_refund;
  reason = codes "sakit";
  refund_reference = codes "T-2";
}

record_payment_keeps_example :
    IsSoundWorld ((record_payment (ok tt) boss (codes "abc234") cash 7 (pos 1500) shop).1)
record_payment_keeps_example =
    record_payment_keeps (ok tt) boss (codes "abc234") cash 7 (pos 1500) shop shop-IsSoundWorld

cancel_keeps_example :
    IsSoundWorld ((cancel (ok tt) boss (codes "abc234") give_back_all 7 (pos 1500) shop).1)
cancel_keeps_example =
    cancel_keeps (ok tt) boss (codes "abc234") give_back_all 7 (pos 1500) shop shop-IsSoundWorld

advance_keeps_example :
    IsSoundWorld ((advance (ok tt) boss (codes "abc234") in_production (pos 1500) shop).1)
advance_keeps_example =
    advance_keeps (ok tt) boss (codes "abc234") in_production (pos 1500) shop shop-IsSoundWorld

expire_unpaid_effect_example :
    IsSoundWorld ((expire_unpaid (pos 9000000000000) shop).1)
    × RowByRow
        (Lapsed (pos 9000000000000))
        shop.orders
        ((expire_unpaid (pos 9000000000000) shop).1.orders)
expire_unpaid_effect_example = expire_unpaid_effect (pos 9000000000000) shop shop-IsSoundWorld

forfeit_unpaid_effect_example :
    IsSoundWorld ((forfeit_unpaid (pos 9000000000000) shop).1)
    × RowByRow
        (Forfeits (pos 9000000000000))
        shop.orders
        ((forfeit_unpaid (pos 9000000000000) shop).1.orders)
forfeit_unpaid_effect_example = forfeit_unpaid_effect (pos 9000000000000) shop shop-IsSoundWorld

-- The forfeit is counted, and the order has ended.
forfeited_test : (forfeit_unpaid (pos 9000000000000) shop).0.0 ≡ 1
unfolding forfeit_unpaid ◌-ℤ◌ ◌+ℤ◌ find close transition
forfeited_test = refl

paid_test :
    (record_payment (ok tt) boss (codes "abc234") cash 7 (pos 1500) shop).0
    ≡ ok (
      record cake { payment = paid_in_full },
      order_payments 1
          (record_payment (ok tt) boss (codes "abc234") cash 7 (pos 1500) shop).1.ledger,
    )
unfolding record_payment authorize fields_err check_reason check trim_space is_empty check_reference
    normalize_code find eqb_text manual_kind is_closed ◌-64◌ ◌+64◌ wrap64 ◌-ℤ◌ ◌+ℤ◌ order_payments
    paid_idr settle due_status rank confirm add_manual expire_pending set_status_in trim_left
    is_space
paid_test = refl

-- Two providers: one makes an invoice of each request, the other cannot be reached.
abbrev xendit : Provider
xendit = record {
  name = codes "xendit";
  create_invoice = λ r. ok (record { external_id = codes "x-1"; url = codes "https://pay" });
}

abbrev down : Provider
down = record { name = codes "manual"; create_invoice = λ r. err (internal "unreachable") }

ensure_balance_once_example :
    (let w1 = (ensure_balance (ok tt) 7 xendit default_fee_rules (pos 1500) (pos 1501) 1 shop).1 in
      OnlyInvoices shop w1
      ⊎ OnlyInvoices w1 (
          (ensure_balance
            (err (internal "no connection"))
            8
            down
            default_fee_rules
            (pos 1600)
            (pos 1601)
            1
            w1).1))
ensure_balance_once_example =
    ensure_balance_once (ok tt) (err (internal "no connection")) 7 8 xendit down default_fee_rules
      default_fee_rules (pos 1500) (pos 1501) (pos 1600) (pos 1601) 1 shop

ensure_balance_exact_example :
    (let w' = (ensure_balance (ok tt) 7 xendit default_fee_rules (pos 1500) (pos 1501) 1 shop).1 in
      OnlyInvoices shop w'
      ⊎ ((o : Order) × (m : Method) × (f : ℤ) × (owed : ℤ) × (find (has_id 1) shop.orders ≡ some o)
          × (o.status ≡ confirmed)
          × (o.payment ≡ dp_paid)
          × (pos 1500 <ℤ o.balance_due_at)
          × (billed (order_payments o.id shop.ledger) ≡ false)
          × (paid_by shop.ledger o +ℤ owed ≡ o.total_idr)
          × OnlyInvoices
              (record shop {
                ledger =
                    add_payment
                      (balance_payment 7 (codes "xendit") o m owed f)
                      (pos 1500)
                      shop.ledger;
              })
              w'))
ensure_balance_exact_example =
    ensure_balance_exact (ok tt) 7 xendit default_fee_rules (pos 1500) (pos 1501) 1 shop
      shop-IsSoundWorld

ensure_balance_invoices_example :
    (let w' = (ensure_balance (ok tt) 7 xendit default_fee_rules (pos 1500) (pos 1501) 1 shop).1 in
      (o : Order) × (find (has_id 1) w'.orders ≡ some o)
      × All (IsLinked (pos 1501)) (order_payments o.id w'.ledger))
unfolding ensure_balance order_payments ◌-64◌ ◌+64◌ wrap64 ◌-ℤ◌ ◌+ℤ◌ find paid_idr default_fee_rules
    fee add_pending is_empty is_valid set_invoice
ensure_balance_invoices_example =
    ensure_balance_invoices (ok tt) 7 xendit default_fee_rules (pos 1500) (pos 1501) 1 shop
      (λ r. refl) refl

-- The balance is billed and its invoice made: the shop then has a link to pay it.
invoiced_test :
    map
      (λ p. p.checkout_url)
      (order_payments 1
        (ensure_balance (ok tt) 7 xendit default_fee_rules (pos 1500) (pos 1501) 1 shop).1.ledger)
    ≡ [] ∷ codes "https://pay" ∷ []
unfolding ensure_balance order_payments ◌-64◌ ◌+64◌ wrap64 ◌-ℤ◌ ◌+ℤ◌ find paid_idr default_fee_rules
    fee add_pending is_empty is_valid set_invoice
invoiced_test = refl

transition_iff_example :
    (transition
        (record { status = confirmed; payment = paid_in_full; fulfillment = pickup })
        in_production
      ≡ ok tt)
    ↔ Step confirmed paid_in_full pickup in_production
transition_iff_example = transition_iff confirmed paid_in_full pickup in_production

-- The order is paid in full at once, then confirmed and made.
abbrev all_of_it : Amounts
all_of_it = record { total_idr = pos 200000; dp_required_idr = pos 100000; paid_idr = pos 200000 }

-- More than the order owes.
abbrev too_much : ManualPayment
too_much = record cash { amount_idr = pos 150000 }

-- A forfeit before the balance is due.
abbrev too_soon : CancelRequest
too_soon = record { mode = cancel_forfeit; reason = codes "batal"; refund_reference = [] }
