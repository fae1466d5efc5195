-- ===== src/Aggregation/Tests.antt =====
-- The theorems on the batches at concrete data: a day that needs 700 g of flour and the 800 g that the
-- stock has, with one order that is confirmed for it.
mod Computed
use kue_preorder.Prelude.{
  max_ℤ, ◌+◌, ◌*◌, ◌/◌, ltb, pos_part, Option, true, false, if◌then◌else◌, ◌==◌, ℕ, ℤ, pos, ◌≤ℤ◌,
  ◌+ℤ◌, ◌-ℤ◌, ◌≡◌, ◌≢◌, refl, false, List, [], ◌∷◌, All, none, some, arith,
}
use kue_preorder.Prelude.Word.{wrap64, ◌-64◌}
use kue_preorder.Prelude.Float.{float_one}
use kue_preorder.Prelude.Float.Sample.{floats}
use kue_preorder.Prelude.Text.{codes}
use kue_preorder.Prelude.Result.{Result, ok, err}
use kue_preorder.Platform.Errors.{Error}
use kue_preorder.Platform.Caller.{Principal, kitchen, authorize}
use kue_preorder.Payments.Status.{paid_in_full}
use kue_preorder.Orders.Lifecycle.{confirmed, pickup, counts_for_production}
use kue_preorder.Orders.Store.{Order}
use kue_preorder.Orders.Checkout.Quote.{batch_cutoffs, earliest_cutoff}
use kue_preorder.Scheduling.Time.{date_of, floor_div}
use kue_preorder.Inventory.Stock.{
  Lot, Movement, Stock, available, manual, receive, balance_of, lots_of,
}
use kue_preorder.Inventory.Consume.{Used, consume_all, sorted}
use kue_preorder.Inventory.Consume.Whole.{IsSoundStock, AccountsAll, positive}
use kue_preorder.Inventory.Consume.Moved.{moved, consumed_of}
use kue_preorder.Aggregation.Batches.{
  batch_open, batch_done, ProductionBatch, DefaultPack, line_needed, line_ordered, Line, Kitchen,
  batch_on, set_status, open_dates, lines,
}
use mathlib.Core.List.{Permᴰ}
use kue_preorder.Orders.Store.{QuotedItem}
use kue_preorder.Inventory.Countable.{auto}
use kue_preorder.Inventory.Reader.{usable_on}
use kue_preorder.Aggregation.Engine.{Labels, Catalog, recompute}
use kue_preorder.Aggregation.Engine.Claims.{recompute_claims}
use kue_preorder.Aggregation.Rows.{claimed_before, batch_with}
use kue_preorder.Aggregation.Rows.Saved.{row_of, IsWithin}
use kue_preorder.Recipe.Models.{affine}
use kue_preorder.Recipe.Quantity.{round_up}
use kue_preorder.Aggregation.Totals.{CommittedItem, ComponentUse, RecipeModel, totals}
use kue_preorder.Aggregation.Totals.Order.{totals-Perm}
use kue_preorder.Aggregation.Shop.{Need, shop}
use kue_preorder.Aggregation.Shop.Lookup.{line_of, or_else, need_of, touched_of}
use kue_preorder.Aggregation.Shop.Covers.{Covers, shop-Covers, shop_keeps}
use kue_preorder.Aggregation.Production.{last_of, lock_due, uses_of, complete}
use kue_preorder.Aggregation.Production.Once.{complete_once, complete_accounts}
use kue_preorder.Aggregation.Production.Due.{awaits_lock, lock_due_complete}

abbrev day : ℤ
day = pos 7

abbrev delivered : ℕ → ℤ → Movement
delivered lot qty = record {
  lot_id = lot;
  ingredient_id = 3;
  kind = receive;
  qty = qty;
  batch_id = none;
  reason = [];
  actor_id = 5;
  at = pos 10;
}

abbrev bag : ℕ → ℤ → Lot
bag id at = record {
  id = id;
  ingredient_id = 3;
  received_at = at;
  expires_at = none;
  status = available;
  source = manual;
  procurement_item_id = none;
  note = [];
  balance = pos 0;
  last_ok_at = none;
  created_at = at;
}

abbrev bags : Stock
bags = record {
  lots = bag 1 (pos 10) ∷ bag 2 (pos 20) ∷ [];
  movements = delivered 1 (pos 300) ∷ delivered 2 (pos 500) ∷ [];
  checks = [];
  requests = [];
  audits = [];
  events = [];
}

bags-nonneg : (k : ℕ) → pos 0 ≤ℤ balance_of k bags.movements
unfolding balance_of ◌+ℤ◌
bags-nonneg k = ground arith

bags-IsSoundStock : IsSoundStock bags
bags-IsSoundStock = record { apart = (((λ e. ground arith), tt), (tt, tt)); nonneg = bags-nonneg }

abbrev today : ProductionBatch
today = record { id = 40; date = day; status = batch_open; computed_at = none; failed = false }

abbrev flour_line : Line
flour_line = record {
  batch_id = 40;
  ingredient_id = 3;
  needed = pos 700;
  usable_stock = pos 700;
  ordered = pos 0;
  received = pos 0;
  to_buy = pos 0;
  pack = none;
  packs = pos 0;
  status = line_needed;
}

abbrev bakery : Kitchen
bakery = record {
  batches = today ∷ [];
  components = [];
  requirements = flour_line ∷ [];
  stock = bags;
}

abbrev cook : Result Error Principal
cook = ok (record { auth_user_id = 5; roles = kitchen ∷ []; customer_id = none })

-- Noon of the day.
abbrev noon : ℤ
noon = pos 622800000000000

abbrev taken : List Used
taken = record { ingredient_id = 3; consumed = pos 700; missing = pos 0 } ∷ []

abbrev after : Kitchen
after = (complete cook day noon bakery).1

completes : complete cook day noon bakery ≡ (ok taken, after)
unfolding complete authorize date_of floor_div batch_on lines uses_of consume_all lots_of balance_of
    ◌+ℤ◌ ◌-ℤ◌ ◌-64◌ wrap64
completes = refl

complete_once_example :
    (e : Error) × (complete cook day (pos 700000000000000) after ≡ (err e, after))
complete_once_example =
    complete_once cook cook day noon (pos 700000000000000) bakery after taken completes

complete_accounts_example :
    (b : ProductionBatch) × (batch_on day bakery.batches ≡ some b)
    × (b.status ≢ batch_done)
    × (batch_on day after.batches ≡ some (record b { status = batch_done }))
    × ((d' : ℤ) → day ≢ d' → batch_on d' after.batches ≡ batch_on d' bakery.batches)
    × IsSoundStock after.stock
    × AccountsAll (positive (sorted (uses_of (lines b.id bakery.requirements)))) taken
    × ((j : ℕ)
        → moved j after.stock.movements ≡ moved j bakery.stock.movements -ℤ consumed_of j taken)
complete_accounts_example =
    complete_accounts cook day noon bakery after taken bags-IsSoundStock (omega arith, tt) completes

abbrev cakes : Order
cakes = record {
  id = 7;
  customer_id = 3;
  code = codes "ABC234";
  status = confirmed;
  payment = paid_in_full;
  fulfillment = pickup;
  items = [];
  subtotal_idr = pos 200000;
  tax_idr = pos 0;
  total_idr = pos 200000;
  dp_required_idr = pos 100000;
  full_payment_required = false;
  pickup_at = pos 622800000000000;
  production_start = pos 615600000000000;
  production_date = day;
  shopping_cutoff_at = pos 572400000000000;
  dp_due_at = pos 10800000000000;
  balance_due_at = pos 572400000000000;
  notes = [];
  customer_name = codes "Siti";
  customer_phone = codes "+628123";
  customer_email = [];
  terms_version = codes "dp-draft-1";
  idempotency_key = 99;
}

lock_due_complete_example :
    All
      (λ b. awaits_lock (λ d. earliest_cutoff d (cakes ∷ [])) (pos 580000000000000) b ≡ false)
      ((lock_due (cakes ∷ []) (pos 580000000000000) bakery).1.batches)
lock_due_complete_example = lock_due_complete (cakes ∷ []) (pos 580000000000000) bakery

-- One batch is locked.
lock_due_test : (lock_due (cakes ∷ []) (pos 580000000000000) bakery).0 ≡ 1
unfolding lock_due batch_cutoffs earliest_cutoff counts_for_production open_dates last_of set_status
lock_due_test = refl
