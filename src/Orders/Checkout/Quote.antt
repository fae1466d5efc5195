-- ===== src/Orders/Checkout/Quote.antt =====
-- `Checkout.Quote` (internal/orders/checkout.go). What checkout reads from the catalog, scheduling,
-- payments and identity are the functions of the interfaces there, gathered in `Sources`.
pub mod Amounts
pub mod Options
use Prim.Native.String.{String}
use kue_preorder.Prelude.{
  ◌==◌, ℤ, pos, negsuc, ◌+ℤ◌, ltb_ℤ, leb_ℤ, eqb_ℤ, min_ℤ, ℕ, Bool, true, false, not, ◌&&◌, List, [],
  ◌∷◌, map, Option, none, some, if◌then◌else◌,
}
use kue_preorder.Prelude.Text.{Text, codes}
use kue_preorder.Prelude.Result.{Result, ok, err, ◌>>=◌, ◌>>◌}
use kue_preorder.Platform.Errors.{Error, validation, rejection}
use kue_preorder.Payments.Dp.{Policy, dp_allowed, dp_required, dp_invoice_valid_for}
use kue_preorder.Payments.Fee.{Method, FeeRule, FeeRules, methods, fee}
use kue_preorder.Scheduling.Time.{date_of}
use kue_preorder.Scheduling.Plan.{Settings, Item, Request, Plan, plan}
use kue_preorder.Scheduling.Suggest.{suggest_days, suggest}
use kue_preorder.Orders.Lifecycle.{counts_for_production}
use kue_preorder.Orders.Store.{Order, QuotedItem}
use kue_preorder.Orders.Checkout.Cart.{
  ItemRequest, QuoteRequest, VariantSummary, IngredientCost, Priced, validate_cart, price,
  ingredient_cost,
}

pub record Sources : Type 0 where
  pub variants : List ℕ → Result Error (List VariantSummary)
  pub ingredient_costs : List ℕ → Result Error (ℕ → IngredientCost)
  pub settings : Result Error Settings
  pub closed_dates : ℤ → ℤ → Result Error (ℤ → Bool)
  pub policy : Result Error Policy
  pub fee_rules : Result Error FeeRules

pub data FullPaymentReason : Type 0 where
  small_order schedule : FullPaymentReason

pub record PaymentOption : Type 0 where
  pub method : Method
  pub dp_fee_idr : Option ℤ
  pub full_fee_idr : ℤ

pub record Quote : Type 0 where
  pub items : List QuotedItem
  pub subtotal_idr : ℤ
  pub tax_idr : ℤ
  pub total_idr : ℤ
  pub schedule : Option Plan
  pub rejection : Option String
  pub suggestion : Option Plan
  pub dp_required_idr : ℤ
  pub full_payment_required : Bool
  pub full_payment_reason : Option FullPaymentReason
  pub payment_options : List PaymentOption
  pub terms_version : Text

abbrev pub terms_version_text : Text
terms_version_text = codes "dp-draft-1"

-- `suggestHorizon + 1`: the days after the first that the maps cover.
abbrev pub map_days : ℤ
map_days = pos suggest_days +ℤ pos 2

-- The earliest cutoff of a production date among the orders that count for production.
unfoldable pub earliest_cutoff : ℤ → List Order → Option ℤ
earliest_cutoff date [] = none
earliest_cutoff date (o ∷ os) =
    let rest = earliest_cutoff date os in
    if counts_for_production o.status && eqb_ℤ o.production_date date
    then elim rest [
      | none ↦ some o.shopping_cutoff_at
      | some c ↦ some (min_ℤ o.shopping_cutoff_at c)
    ]
    else rest

-- `Repository.BatchCutoffs` of the statuses of `committed`: a map over the dates from `from` to `to`.
unfoldable pub batch_cutoffs : List Order → ℤ → ℤ → ℤ → Option ℤ
unfolding earliest_cutoff
batch_cutoffs os from to date =
    if leb_ℤ from date && leb_ℤ date to then earliest_cutoff date os else none

-- The option of a method with a rule; none if the method is off.
unfoldable pub option_under : FeeRule → Quote → Method → Result Error (Option PaymentOption)
option_under rule q m = if not rule.enabled then ok none else (do
  full ← fee rule q.total_idr
  dp ← if q.full_payment_required then ok none else (do f ← fee rule q.dp_required_idr; ok (some f))
  ok (some (record { method = m; dp_fee_idr = dp; full_fee_idr = full })))

-- The body of the loop for one method.
unfoldable pub payment_option : FeeRules → Quote → Method → Result Error (Option PaymentOption)
unfolding option_under
payment_option rules q m = elim (rules m) [ none ↦ ok none | some rule ↦ option_under rule q m ]

abbrev pub add_option : Option PaymentOption → List PaymentOption → List PaymentOption
add_option none os = os
add_option (some o) os = o ∷ os

-- The loop of `paymentOptions`.
unfoldable pub options_of : FeeRules → Quote → List Method → Result Error (List PaymentOption)
unfolding payment_option
options_of rules q [] = ok []
options_of rules q (m ∷ ms) = do
  o ← payment_option rules q m
  rest ← options_of rules q ms
  ok (add_option o rest)

-- `paymentOptions`.
unfoldable pub payment_options_of :
    Result Error FeeRules → Quote → Result Error (List PaymentOption)
unfolding options_of
payment_options_of read q = do rules ← read; options_of rules q methods

-- A quote without a schedule.
unfoldable pub unscheduled : Priced → Quote
unscheduled p = record {
  items = p.items;
  subtotal_idr = p.subtotal_idr;
  tax_idr = p.tax_idr;
  total_idr = p.total_idr;
  schedule = none;
  rejection = none;
  suggestion = none;
  dp_required_idr = pos 0;
  full_payment_required = false;
  full_payment_reason = none;
  payment_options = [];
  terms_version = terms_version_text;
}

-- Why the first payment is the total, if it is.
unfoldable pub reason_for : Policy → ℤ → Plan → Option FullPaymentReason
reason_for policy total p =
    if not (dp_allowed policy total)
    then some small_order
    else if p.full_payment_required
    then some schedule
    else none

abbrev is_some : Option FullPaymentReason → Bool
is_some none = false
is_some (some r) = true

-- The quote of a pickup that works, up to its payment options.
unfoldable pub with_schedule : Policy → ℤ → Plan → Quote → Quote
unfolding reason_for
with_schedule policy dp p q =
    let reason = reason_for policy q.total_idr p in
    record q {
      schedule = some p;
      full_payment_required = is_some reason;
      full_payment_reason = reason;
      dp_required_idr = if is_some reason then q.total_idr else dp;
    }

unfoldable pub with_options : Result Error FeeRules → Quote → Result Error Quote
unfolding payment_options_of
with_options read q = do
  options ← payment_options_of read q
  ok (record q { payment_options = options })

-- The answer, by what `Plan` says: a rejection is part of the quote, any other error is the call's.
unfoldable pub answered :
    Result Error FeeRules
    → Policy
    → Settings
    → Request
    → ℤ
    → Quote
    → Result Error Plan
    → Result Error Quote
unfolding with_schedule with_options
answered read policy settings sr dp q (ok p) = with_options read (with_schedule policy dp p q)
answered read policy settings sr dp q (err (rejection reason)) =
    ok (record q { rejection = some reason; suggestion = suggest settings sr })
answered read policy settings sr dp q (err e) = err e

unfoldable pub schedule_request :
    Policy → ℤ → ℤ → (ℤ → Bool) → (ℤ → Option ℤ) → List QuotedItem → Request
schedule_request policy now pickup closed cutoffs items = record {
  now = now;
  pickup_at = pickup;
  items =
      map
        (λ (it : QuotedItem). record {
          production_minutes = it.production_minutes;
          min_notice_hours = it.min_notice_hours;
        })
        items;
  closed = closed;
  batch_cutoffs = cutoffs;
  load_minutes = pos 0;
  order_minutes = pos 0;
  balance_due_hours_before = policy.balance_due_hours_before;
  dp_valid_for = dp_invoice_valid_for policy;
}

-- `policy.MinOrderIDR > 0 && q.TotalIDR < policy.MinOrderIDR`.
unfoldable pub below_minimum : Policy → ℤ → Bool
below_minimum policy total = ltb_ℤ (pos 0) policy.min_order_idr && ltb_ℤ total policy.min_order_idr

-- The part of `Quote` after the cart is priced.
unfoldable pub quote_priced :
    Sources → List Order → ℤ → QuoteRequest → Priced → Policy → Result Error Quote
unfolding below_minimum schedule_request batch_cutoffs unscheduled answered
quote_priced src os now req priced policy =
    if below_minimum policy priced.total_idr then err (validation ("items" ∷ [])) else (do
      ingredients ← ingredient_cost src.ingredient_costs req.items
      dp ← dp_required policy priced.total_idr ingredients
      settings ← src.settings
      let from = date_of req.pickup_at +ℤ negsuc 0
      closed ← src.closed_dates from (from +ℤ map_days)
      let sr =
          schedule_request policy now req.pickup_at closed
            (batch_cutoffs os from (from +ℤ map_days)) priced.items
      answered src.fee_rules policy settings sr dp (unscheduled priced) (plan settings sr))

-- `Checkout.Quote`, over the orders stored and at the time of the clock.
unfoldable pub quote : Sources → List Order → ℤ → QuoteRequest → Result Error Quote
unfolding quote_priced
quote src os now req = do
  validate_cart req
  priced ← price src.variants req.items
  policy ← src.policy
  quote_priced src os now req priced policy
