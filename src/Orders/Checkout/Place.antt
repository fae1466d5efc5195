-- ===== src/Orders/Checkout/Place.antt =====
-- `Checkout.Place` and what it reads and writes (internal/orders/place.go). A transaction runs alone,
-- so the lock on the customer only marks where it begins.
pub mod Balances
pub mod Stored
pub mod Outcome
pub mod Keeps
pub mod Replay
pub mod Waiting
pub mod Billed
use kue_preorder.Prelude.{
  ℕ, zero, suc, ◌+◌, ◌==◌, leb, ℤ, pos, Bool, true, false, not, ◌&&◌, ◌||◌, List, [], ◌∷◌, ◌++◌,
  length, contains_func, Option, none, some, if◌then◌else◌,
}
use kue_preorder.Prelude.Text.{Text, trim_space, eqb_text}
use kue_preorder.Prelude.Result.{Result, ok, err}
use kue_preorder.Platform.Errors.{
  Error, not_found, precondition, validation, internal, check, fields_err,
}
use kue_preorder.Platform.Caller.{Principal, Customer, CustomerInput}
use kue_preorder.Payments.Status.{unpaid}
use kue_preorder.Payments.Fee.{Method, eqb_method}
use kue_preorder.Payments.Ledger.{Payment, Kind, dp, full, pending, add_pending}
use kue_preorder.Orders.Lifecycle.{Status, awaiting_dp, pickup, eqb_status}
use kue_preorder.Scheduling.Plan.{Plan}
use kue_preorder.Orders.Store.{
  Order, World, Tx, ◌>>=◌, ◌>>◌, lift, done, find, found, has_code, has_id, publish, normalize_code,
}
use kue_preorder.Orders.Checkout.Cart.{QuoteRequest}
use kue_preorder.Orders.Checkout.Quote.{Sources, PaymentOption, Quote, quote, terms_version_text}
use kue_preorder.Orders.Checkout.Invoices.{Provider, with_payments}

abbrev pub max_awaiting_dp : ℕ
max_awaiting_dp = 2

abbrev pub max_notes : ℕ
max_notes = 500

abbrev pub code_attempts : ℕ
code_attempts = 5

pub record PlaceRequest : Type 0 where
  pub cart : QuoteRequest
  pub pay_in_full : Bool
  pub method : Method
  pub terms_version : Text
  pub customer : CustomerInput
  pub notes : Text
  pub idempotency_key : ℕ

-- What a call draws: the clock's times, `uuid.New` and the random codes.
pub record Draws : Type 0 where
  pub now : ℤ
  pub quoted_at : ℤ
  pub invoiced_at : ℤ
  pub order_id : ℕ
  pub payment_id : ℕ
  pub code : ℕ → Text

-- What checkout works with: what it reads, identity's `EnsureCustomer`, and the provider.
pub record Deps : Type 0 where
  pub sources : Sources
  pub ensure_customer : CustomerInput → ℤ → Result Error Customer
  pub provider : Provider

-- `FindByIdempotencyKey`.
abbrev pub has_key : ℕ → ℕ → Order → Bool
has_key customer key o = o.customer_id == customer && o.idempotency_key == key

-- `CountByStatus`.
unfoldable pub count_by_status : ℕ → Status → List Order → ℕ
count_by_status customer s [] = 0
count_by_status customer s (o ∷ os) =
    let rest = count_by_status customer s os in
    if o.customer_id == customer && eqb_status o.status s then suc rest else rest

-- `Repository.Insert`: false for a code that is taken, an error for an id or a key that is.
unfoldable pub insert_order : Order → ℤ → Tx Bool
insert_order o at w =
    if contains_func (has_code o.code) w.orders
    then ok (false, w)
    else if contains_func (has_id o.id) w.orders
        || contains_func (has_key o.customer_id o.idempotency_key) w.orders
    then err (internal "duplicate key")
    else (do publish "order.placed" o.id at; λ v. ok (true, v))
        (record w { orders = w.orders ++ o ∷ [] })

-- `insert`: up to so many codes from the `i`-th on.
unfoldable pub insert_within : ℕ → (ℕ → Text) → ℕ → Order → ℤ → Tx (Unit {0})
unfolding insert_order
insert_within zero code i o at = lift (err (internal "no free order code"))
insert_within (suc n) code i o at = do
  stored ← insert_order (record o { code = code i }) at
  if stored then done else insert_within n code (i + 1) o at

-- `optionFor`.
unfoldable pub option_for : List PaymentOption → Method → Option PaymentOption
option_for [] m = none
option_for (o ∷ os) m = let rest = option_for os m in if eqb_method o.method m then some o else rest

-- The order that a quote with a schedule becomes.
unfoldable pub new_order : PlaceRequest → Draws → Customer → Quote → Plan → Order
new_order req d customer q p = record {
  id = d.order_id;
  customer_id = customer.id;
  code = [];
  status = awaiting_dp;
  payment = unpaid;
  fulfillment = pickup;
  items = q.items;
  subtotal_idr = q.subtotal_idr;
  tax_idr = q.tax_idr;
  total_idr = q.total_idr;
  dp_required_idr = q.dp_required_idr;
  full_payment_required = q.full_payment_required;
  pickup_at = p.pickup_at;
  production_start = p.production_start;
  production_date = p.production_date;
  shopping_cutoff_at = p.cutoff;
  dp_due_at = p.dp_deadline;
  balance_due_at = p.balance_due;
  notes = trim_space req.notes;
  customer_name = customer.name;
  customer_phone = customer.phone;
  customer_email = customer.email;
  terms_version = terms_version_text;
  idempotency_key = req.idempotency_key;
}

abbrev fee_or_zero : Option ℤ → ℤ
fee_or_zero none = pos 0
fee_or_zero (some f) = f

-- The kind, the amount and the fee of the first payment. The DP's fee is there whenever full payment
-- is not required.
unfoldable pub first_terms : PlaceRequest → Order → PaymentOption → Kind × ℤ × ℤ
first_terms req o option =
    if not o.full_payment_required && not req.pay_in_full
    then (dp, o.dp_required_idr, fee_or_zero option.dp_fee_idr)
    else (full, o.total_idr, option.full_fee_idr)

unfoldable pub first_payment : PlaceRequest → Draws → Provider → Order → PaymentOption → Payment
unfolding first_terms
first_payment req d provider o option =
    let (kind, amount, fee) = first_terms req o option in
    record {
      id = d.payment_id;
      order_id = o.id;
      kind = kind;
      provider = provider.name;
      method = req.method;
      external_id = [];
      amount_idr = amount;
      fee_idr = fee;
      state = pending;
      checkout_url = [];
      expires_at = some o.dp_due_at;
      paid_at = none;
      created_at = d.now;
      manual = none;
    }

abbrev pub on_ledger_add_pending : Payment → ℤ → Tx (Unit {0})
on_ledger_add_pending p at w = elim (add_pending p at w.ledger) [
  | err e ↦ err e
  | ok l ↦ ok (tt, record w { ledger = l })
]

-- The transaction once no twin was found.
unfoldable pub place_fresh : Draws → Order → Payment → Tx ℕ
unfolding count_by_status insert_within
place_fresh d o first w =
    if leb max_awaiting_dp (count_by_status o.customer_id awaiting_dp w.orders)
    then err (precondition "too_many_unpaid")
    else (do
      insert_within code_attempts d.code 0 o d.now
      on_ledger_add_pending first d.now
      λ v. ok (o.id, v))
        w

-- The transaction, with the id of the order placed. A twin may have committed meanwhile.
unfoldable pub place_tx : Draws → Order → Payment → Tx ℕ
unfolding place_fresh
place_tx d o first w = elim (find (has_key o.customer_id o.idempotency_key) w.orders) [
  | some twin ↦ ok (twin.id, w)
  | none ↦ place_fresh d o first w
]

abbrev pub Placed : Type 0
Placed = Order × List Payment

-- `load`: the order with its payments, making any missing invoice.
unfoldable pub load : Provider → ℤ → ℕ → World → Result Error Placed × World
unfolding with_payments
load v now id w = elim (found (find (has_id id) w.orders)) [
  | err e ↦ (err e, w)
  | ok o ↦ (let (placed, w') = with_payments v now o w in (ok placed, w'))
]

-- The checks of the fields.
unfoldable pub place_fields : PlaceRequest → Result Error (Unit {0})
place_fields req = fields_err (
    check (not (req.idempotency_key == 0)) "idempotency_key" (
      check (leb (length (trim_space req.notes)) max_notes) "notes"
        (check (eqb_text req.terms_version terms_version_text) "terms_version" [])))

-- The order and its first payment, from a quote.
unfoldable pub order_from :
    PlaceRequest → Draws → Provider → Customer → Quote → Result Error (Order × Payment)
unfolding new_order first_payment option_for
order_from req d provider customer q = elim q.schedule [
  | none ↦ err (validation ("pickup_at" ∷ []))
  | some p ↦ elim (option_for q.payment_options req.method) [
    | none ↦ err (validation ("payment_method" ∷ []))
    | some option ↦
        (let o = new_order req d customer q p in ok (o, first_payment req d provider o option))
  ]
]

-- The transaction and the answer.
unfoldable pub commit : Deps → Draws → Order → Payment → World → Result Error Placed × World
unfolding place_tx load
commit deps d o first w = elim (place_tx d o first w) [
  | err e ↦ (err e, w)
  | ok (id, w') ↦ load deps.provider d.invoiced_at id w'
]

-- After the first look at the key: the order from the quote, and its storing.
unfoldable pub commit_quote :
    Deps → Draws → PlaceRequest → Customer → Quote → World → Result Error Placed × World
unfolding order_from commit
commit_quote deps d req customer q w = elim (order_from req d deps.provider customer q) [
  | err e ↦ (err e, w)
  | ok (o, first) ↦ commit deps d o first w
]

unfoldable pub place_new :
    Deps → Draws → PlaceRequest → Customer → World → Result Error Placed × World
unfolding commit_quote
place_new deps d req customer w = elim (quote deps.sources w.orders d.quoted_at req.cart) [
  | err e ↦ (err e, w)
  | ok q ↦ commit_quote deps d req customer q w
]

unfoldable pub place_as :
    Deps → Draws → PlaceRequest → Customer → World → Result Error Placed × World
unfolding place_new
place_as deps d req customer w = elim (find (has_key customer.id req.idempotency_key) w.orders) [
  | some o ↦ load deps.provider d.invoiced_at o.id w
  | none ↦ place_new deps d req customer w
]

-- `Place`.
unfoldable pub place : Deps → Draws → PlaceRequest → World → Result Error Placed × World
unfolding place_fields place_as
place deps d req w = elim (place_fields req) [
  | err e ↦ (err e, w)
  | ok u ↦ elim (deps.ensure_customer req.customer d.now) [
    | err e ↦ (err e, w)
    | ok customer ↦ place_as deps d req customer w
  ]
]

-- `FindCustomerOrder`.
abbrev pub is_theirs : ℕ → Text → Order → Bool
is_theirs customer code o = o.customer_id == customer && has_code code o

-- `MyOrder`.
unfoldable pub my_order :
    Provider → ℤ → Result Error Principal → Text → World → Result Error Placed × World
unfolding with_payments
my_order v now (err e) code w = (err e, w)
my_order v now (ok p) code w = elim p.customer_id [
  | none ↦ (err not_found, w)
  | some customer ↦ elim (normalize_code code) [
    | none ↦ (err not_found, w)
    | some c ↦ elim (found (find (is_theirs customer c) w.orders)) [
      | err e ↦ (err e, w)
      | ok o ↦ (let (placed, w') = with_payments v now o w in (ok placed, w'))
    ]
  ]
]
