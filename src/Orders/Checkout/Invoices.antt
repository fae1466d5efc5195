-- ===== src/Orders/Checkout/Invoices.antt =====
-- The invoicer of internal/orders/place.go: the provider's invoice for every open payment that has
-- none. The provider is outside the program and is a parameter.
use kue_preorder.Prelude.{
  ℕ, ℤ, ltb_ℤ, Bool, false, not, ◌||◌, List, [], ◌∷◌, ◌++◌, Option, none, some, if◌then◌else◌,
}
use kue_preorder.Prelude.Text.{Text, codes, is_empty}
use kue_preorder.Prelude.Result.{Result, ok, err}
use kue_preorder.Platform.Errors.{Error}
use kue_preorder.Payments.Fee.{Method}
use kue_preorder.Payments.Ledger.{
  Kind, balance, full, Payment, Ledger, pending, eqb_state, order_payments, set_invoice,
}
use kue_preorder.Orders.Store.{Order, World}
use kue_preorder.Orders.Checkout.Cart.{zero_time}

pub record InvoiceRequest : Type 0 where
  pub payment_id : ℕ
  pub order_code : Text
  pub description : Text
  pub method : Method
  pub amount_idr : ℤ
  pub fee_idr : ℤ
  pub expires_at : ℤ
  pub customer_name : Text
  pub customer_phone : Text
  pub customer_email : Text

pub record Invoice : Type 0 where
  pub external_id : Text
  pub url : Text

-- `payments.Provider`.
pub record Provider : Type 0 where
  pub name : Text
  pub create_invoice : InvoiceRequest → Result Error Invoice

unfoldable pub invoice_description : Kind → Text → Text
invoice_description full code = codes "Pembayaran penuh pesanan " ++ code
invoice_description balance code = codes "Pelunasan pesanan " ++ code
invoice_description _ code = codes "DP pesanan " ++ code

-- `derefTime`.
abbrev deref_time : Option ℤ → ℤ
deref_time none = zero_time
deref_time (some t) = t

abbrev pub lapsed : Option ℤ → ℤ → Bool
lapsed none now = false
lapsed (some t) now = not (ltb_ℤ now t)

-- A payment that `ensure` passes over.
unfoldable pub needs_none : ℤ → Payment → Bool
needs_none now p =
    not (eqb_state p.state pending) || not (is_empty p.checkout_url) || lapsed p.expires_at now

unfoldable pub request_for : Order → Payment → InvoiceRequest
unfolding invoice_description
request_for o p = record {
  payment_id = p.id;
  order_code = o.code;
  description = invoice_description p.kind o.code;
  method = p.method;
  amount_idr = p.amount_idr;
  fee_idr = p.fee_idr;
  expires_at = deref_time p.expires_at;
  customer_name = o.customer_name;
  customer_phone = o.customer_phone;
  customer_email = o.customer_email;
}

-- The payments as the caller sees them, the ledger, and the failures so far.
pub record Ensured : Type 0 where
  pub payments : List Payment
  pub ledger : Ledger
  pub failures : List Error

-- The loop's body: one payment, with the ledger and its failure, if it has one.
unfoldable pub ensure_one : Provider → ℤ → Order → Payment → Ledger → Payment × Ledger × List Error
unfolding needs_none request_for
ensure_one v now o p l =
    if needs_none now p then (p, l, []) else elim (v.create_invoice (request_for o p)) [
      | err e ↦ (p, l, e ∷ [])
      | ok inv ↦ elim (set_invoice p.id inv.external_id inv.url l) [
        | err e ↦ (p, l, e ∷ [])
        | ok l' ↦ (record p { external_id = inv.external_id; checkout_url = inv.url }, l', [])
      ]
    ]

unfoldable pub ensure_each : Provider → ℤ → Order → List Payment → Ledger → Ensured
unfolding ensure_one
ensure_each v now o [] l = record { payments = []; ledger = l; failures = [] }
ensure_each v now o (p ∷ ps) l =
    let (p', l', e) = ensure_one v now o p l in
    let rest = ensure_each v now o ps l' in
    record { payments = p' ∷ rest.payments; ledger = rest.ledger; failures = e ++ rest.failures }

-- `withPayments`: the order with its payments; a missing invoice is logged and not an error.
unfoldable pub with_payments : Provider → ℤ → Order → World → (Order × List Payment) × World
unfolding ensure_each
with_payments v now o w =
    let e = ensure_each v now o (order_payments o.id w.ledger) w.ledger in
    ((o, e.payments), record w { ledger = e.ledger })
