-- ===== src/Orders/Checkout/Tests.antt =====
-- The theorems on the checkout at concrete data: two cakes of Rp100.000 for noon of the day 7.
use kue_preorder.Scheduling.Time.{time_sub, time_of_day, date_of, floor_div, floor_mod}
use kue_preorder.Prelude.Word.{◌+64◌, wrap64, ◌*64◌, quo, wrap32, ◌-64◌}
use kue_preorder.Orders.Checkout.Place.Billed.{IsBilled, order_from-IsBilled}
use kue_preorder.Orders.Checkout.Place.Waiting.{FewWaiting, place-FewWaiting}
use kue_preorder.Orders.Checkout.Place.Replay.{place_replay}
use kue_preorder.Orders.Checkout.Place.Keeps.{place_keeps}
use kue_preorder.Orders.Checkout.Place.Balances.{SameRows}
use kue_preorder.Orders.Checkout.Quote.Amounts.{IsPayable, quote-IsPayable}
use kue_preorder.Orders.Checkout.Cart.Total.{IsPrice, IsExactPrice, price-IsExactPrice}
use kue_preorder.Orders.Lifecycle.{awaiting_dp, pickup}
use kue_preorder.Payments.Ledger.{Payment, dp, pending, order_payments, set_invoice, add_pending}
use kue_preorder.Payments.Status.{unpaid}
use mathlib.Core.Path.{subst}
use kue_preorder.Prelude.{
  ℕ, pos, refl, List, [], ◌∷◌, All, none, some, arith, true, false, ◌≡◌, ◌+ℤ◌, ◌*ℤ◌, ◌-ℤ◌,
}
use kue_preorder.Prelude.Text.{codes, trim_space, trim_left, is_space, eqb_text, is_empty}
use kue_preorder.Prelude.Result.{ok}
use kue_preorder.Platform.Errors.{fields_err, check}
use kue_preorder.Platform.Caller.{Customer}
use kue_preorder.Payments.Dp.{
  default_policy, dp_required, dp_invoice_valid_for, ceil_div, dp_allowed,
}
use kue_preorder.Payments.Fee.{
  Method, qris, bank_transfer, ewallet, minimarket, FeeRules, default_fee_rules, cut, den, fee, num,
  first_gross, raise_gross, validate_rule,
}
use kue_preorder.Scheduling.Plan.{Plan, default_settings, plan}
use kue_preorder.Orders.Store.{QuotedItem, Order, World, find}
use kue_preorder.Orders.Sound.Rows.{IsSoundWorld}
use kue_preorder.Orders.Checkout.Cart.{
  VariantSummary, QuoteRequest, Priced, validate_cart, price, ingredient_cost,
}
use kue_preorder.Orders.Checkout.Quote.{Sources, PaymentOption, Quote, quote}
use kue_preorder.Orders.Checkout.Invoices.{Provider}
use kue_preorder.Orders.Checkout.Place.{
  Deps, Draws, PlaceRequest, place_fields, order_from, count_by_status, place,
}

abbrev sponge : VariantSummary
sponge = record {
  id = 4;
  product_name = codes "Bolu";
  name = codes "Pandan";
  price_idr = pos 100000;
  production_minutes = pos 120;
  min_notice_hours = pos 24;
  active = true;
  product_active = true;
}

abbrev sources : Sources
sources = record {
  variants = λ ids. ok (sponge ∷ []);
  ingredient_costs = λ ids. ok (λ id. record { per_item_idr = pos 30000; unpriced = [] });
  settings = ok default_settings;
  closed_dates = λ from to. ok (λ d. false);
  policy = ok default_policy;
  fee_rules = ok default_fee_rules;
}

abbrev cart : QuoteRequest
cart = record {
  items = record { variant_id = 4; quantity = pos 2 } ∷ [];
  pickup_at = pos 622800000000000;
}

abbrev siti : Customer
siti = record { id = 3; name = codes "Siti"; phone = codes "+628123"; email = [] }

abbrev provider : Provider
provider = record {
  name = codes "dev";
  create_invoice = λ r. ok (record { external_id = codes "dev-8"; url = codes "https://pay" });
}

abbrev deps : Deps
deps = record { sources = sources; ensure_customer = λ c at. ok siti; provider = provider }

abbrev draws : Draws
draws = record {
  now = pos 0;
  quoted_at = pos 0;
  invoiced_at = pos 0;
  order_id = 7;
  payment_id = 8;
  code = λ i. codes "ABC234";
}

abbrev request : PlaceRequest
request = record {
  cart = cart;
  pay_in_full = false;
  method = qris;
  terms_version = codes "dp-draft-1";
  customer = record { name = codes "Siti"; email = [] };
  notes = codes "Selamat";
  idempotency_key = 99;
}

abbrev empty_shop : World
empty_shop = record { orders = []; ledger = []; audits = []; events = [] }

abbrev lines : List QuotedItem
lines =
    record {
      variant_id = 4;
      product_name = codes "Bolu";
      variant_name = codes "Pandan";
      quantity = pos 2;
      unit_price_idr = pos 100000;
      line_total_idr = pos 200000;
      production_minutes = pos 120;
      min_notice_hours = pos 24;
    }
    ∷ []

abbrev placed_plan : Plan
placed_plan = record {
  pickup_at = pos 622800000000000;
  production_start = pos 615600000000000;
  production_date = pos 7;
  cutoff = pos 572400000000000;
  dp_deadline = pos 10800000000000;
  balance_due = pos 572400000000000;
  full_payment_required = false;
}

abbrev fee_option : Method → ℕ → ℕ → PaymentOption
fee_option m down full = record {
  method = m;
  dp_fee_idr = some (pos down);
  full_fee_idr = pos full;
}

abbrev placed_quote : Quote
placed_quote = record {
  items = lines;
  subtotal_idr = pos 200000;
  tax_idr = pos 0;
  total_idr = pos 200000;
  schedule = some placed_plan;
  rejection = none;
  suggestion = none;
  dp_required_idr = pos 100000;
  full_payment_required = false;
  full_payment_reason = none;
  payment_options =
      fee_option qris 0 0
      ∷ fee_option bank_transfer 4440 4440
      ∷ fee_option ewallet 2041 4082
      ∷ fee_option minimarket 5550 5550
      ∷ [];
  terms_version = codes "dp-draft-1";
}

abbrev asked_order : Order
asked_order = record {
  id = 7;
  customer_id = 3;
  code = [];
  status = awaiting_dp;
  payment = unpaid;
  fulfillment = pickup;
  items = lines;
  subtotal_idr = pos 200000;
  tax_idr = pos 0;
  total_idr = pos 200000;
  dp_required_idr = pos 100000;
  full_payment_required = false;
  pickup_at = pos 622800000000000;
  production_start = pos 615600000000000;
  production_date = pos 7;
  shopping_cutoff_at = pos 572400000000000;
  dp_due_at = pos 10800000000000;
  balance_due_at = pos 572400000000000;
  notes = codes "Selamat";
  customer_name = codes "Siti";
  customer_phone = codes "+628123";
  customer_email = [];
  terms_version = codes "dp-draft-1";
  idempotency_key = 99;
}

abbrev asked_payment : Payment
asked_payment = record {
  id = 8;
  order_id = 7;
  kind = dp;
  provider = codes "dev";
  method = qris;
  external_id = [];
  amount_idr = pos 100000;
  fee_idr = pos 0;
  state = pending;
  checkout_url = [];
  expires_at = some (pos 10800000000000);
  paid_at = none;
  created_at = pos 0;
  manual = none;
}

abbrev placed_order : Order
placed_order = record asked_order { code = codes "ABC234" }

abbrev placed_payment : Payment
placed_payment = record asked_payment {
  external_id = codes "dev-8";
  checkout_url = codes "https://pay";
}

abbrev placed_shop : World
placed_shop = record {
  orders = placed_order ∷ [];
  ledger = placed_payment ∷ [];
  audits = [];
  events = record { type_name = "order.placed"; entity_id = 7; at = pos 0 } ∷ [];
}

empty_shop-IsSoundWorld : IsSoundWorld empty_shop
empty_shop-IsSoundWorld = record { distinct = tt; sound = tt }

placed : place deps draws request empty_shop ≡ (ok (placed_order, placed_payment ∷ []), placed_shop)
unfolding fields_err check ◌+64◌ wrap64 ◌+ℤ◌ ◌*64◌ ◌*ℤ◌ dp_required dp_invoice_valid_for time_sub
    ◌-ℤ◌ time_of_day default_settings ingredient_cost validate_cart price ceil_div dp_allowed cut
    den fee num first_gross raise_gross validate_rule default_fee_rules quo wrap32 ◌-64◌ plan
    date_of floor_div floor_mod quote trim_space trim_left is_space eqb_text is_empty find
    set_invoice add_pending order_payments place
placed = refl

quoted : quote sources [] (pos 0) cart ≡ ok placed_quote
unfolding fields_err check ◌+64◌ wrap64 ◌+ℤ◌ ◌*64◌ ◌*ℤ◌ dp_required dp_invoice_valid_for time_sub
    ◌-ℤ◌ time_of_day default_settings ingredient_cost validate_cart price ceil_div dp_allowed cut
    den fee num first_gross raise_gross validate_rule default_fee_rules quo wrap32 ◌-64◌ plan
    date_of floor_div floor_mod quote
quoted = refl

place_keeps_example : IsSoundWorld (place deps draws request empty_shop).1
unfolding order_payments
place_keeps_example = place_keeps deps draws request empty_shop refl empty_shop-IsSoundWorld

place-FewWaiting_example : FewWaiting (place deps draws request empty_shop).1
unfolding count_by_status
place-FewWaiting_example = place-FewWaiting deps draws request empty_shop (λ c. omega arith)

-- Sent again when the cake has become dearer, and under other drawn ids.
dearer : Deps
dearer = record {
  sources = record sources { variants = λ ids. ok (record sponge { price_idr = pos 120000 } ∷ []) };
  ensure_customer = λ c at. ok siti;
  provider = provider;
}

place_replay_example :
    SameRows placed_shop
      (place dearer (record draws { order_id = 17; payment_id = 18 }) request placed_shop).1
    × ((again : List Payment) × ((place dearer
            (record draws { order_id = 17; payment_id = 18 })
            request
            placed_shop).0
          ≡ ok (placed_order, again)))
unfolding order_payments place_fields dearer fields_err check trim_space trim_left is_space eqb_text
place_replay_example =
    place_replay deps dearer draws (record draws { order_id = 17; payment_id = 18 }) request request
      siti siti empty_shop placed_shop placed_order (placed_payment ∷ []) empty_shop-IsSoundWorld
      refl refl placed refl refl refl refl

quote-IsPayable_example : IsPayable default_policy placed_quote placed_plan
quote-IsPayable_example =
    quote-IsPayable sources [] (pos 0) cart default_policy placed_quote placed_plan refl quoted refl

order_from-IsBilled_example :
    (rules : FeeRules) × (sources.fee_rules ≡ ok rules)
    × IsBilled rules request asked_order asked_payment
unfolding order_from trim_space trim_left is_space
order_from-IsBilled_example =
    order_from-IsBilled sources [] (pos 0) request draws provider siti placed_quote asked_order
      asked_payment quoted refl

abbrev priced : Priced
priced = record {
  items = lines;
  subtotal_idr = pos 200000;
  tax_idr = pos 0;
  total_idr = pos 200000;
}

price-IsExactPrice_example : IsExactPrice cart.items priced
unfolding validate_cart price fields_err check ◌+64◌ ◌*64◌ ◌+ℤ◌ ◌*ℤ◌ wrap64
price-IsExactPrice_example =
    price-IsExactPrice sources.variants cart priced
      (λ ids vs e.
        let same : sponge ∷ [] ≡ vs = cc in
        subst (All IsPrice) same ((omega arith, omega arith), tt))
      refl refl
