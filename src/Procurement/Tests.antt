-- ===== src/Procurement/Tests.antt =====
-- The theorems on the purchase orders at concrete data: a batch that still needs flour, of which 60 g are
-- ordered.
use kue_preorder.Prelude.{
  contains_func, ◌+◌, ◌*◌, ◌/◌, ltb, pos_part, Option, true, false, if◌then◌else◌, ◌==◌, ℕ, ℤ, pos,
  ◌+ℤ◌, ◌-ℤ◌, ◌≡◌, refl, List, [], ◌∷◌, All, none, some, arith, inr,
}
use kue_preorder.Prelude.Float.Sample.{floats}
use kue_preorder.Prelude.Text.{codes}
use kue_preorder.Prelude.Result.{Result, ok, err}
use kue_preorder.Platform.Errors.{Error, not_found}
use kue_preorder.Platform.Caller.{Principal, kitchen}
use kue_preorder.Inventory.Stock.{Stock}
use kue_preorder.Inventory.Intake.{Ingredients}
use kue_preorder.Inventory.Countable.{auto}
use kue_preorder.Aggregation.Engine.{Failure}
use kue_preorder.Procurement.Closing.Once.{cancel_once}
use kue_preorder.Aggregation.Batches.{batch_open, ProductionBatch, line_ordered, Line, Kitchen}
use kue_preorder.Aggregation.Engine.{Catalog}
use kue_preorder.Procurement.Orders.{
  order_cancelled, item_cancelled, is_open, is_waiting, order_ordered, item_ordered, Item,
  PurchaseOrder, Purchases, manual_adapter,
}
use kue_preorder.Procurement.Service.{Deps, create}
use kue_preorder.Procurement.Closing.{ReceiveInput, receive, cancel}
use kue_preorder.Procurement.Ledger.{ordered_of}
use kue_preorder.Procurement.Ledger.Recorded.{id_on}
use kue_preorder.Procurement.Waiting.{items_waiting, waiting}
use kue_preorder.Procurement.Keeps.{IsSettled}
use kue_preorder.Procurement.Keeps.Calls.{purchases_keep}

abbrev known : Ingredients
known i = if i == 3 then some (record { leftover_policy = auto; shelf_life_days = none }) else none

abbrev catalog : Catalog
catalog = record {
  component_uses = λ ids. ok [];
  recipe_models = λ ids. ok [];
  default_packs = λ ids. ok [];
  labels = ok (record { suppliers = λ s. false; ingredients = known });
}

abbrev deps : Deps
deps = record {
  floats = floats;
  catalog = catalog;
  adapter = manual_adapter;
  orders = [];
  draw = λ n. 70 + n;
  new_batch_id = 41;
  now = pos 500000000000000;
  read = ok tt;
}

abbrev day : ℤ
day = pos 7

abbrev today : ProductionBatch
today = record { id = 40; date = day; status = batch_open; computed_at = none; failed = false }

abbrev flour_line : Line
flour_line = record {
  batch_id = 40;
  ingredient_id = 3;
  needed = pos 700;
  usable_stock = pos 0;
  ordered = pos 60;
  received = pos 0;
  to_buy = pos 640;
  pack = none;
  packs = pos 0;
  status = line_ordered;
}

abbrev no_stock : Stock
no_stock = record {
  lots = [];
  movements = [];
  checks = [];
  requests = [];
  audits = [];
  events = [];
}

abbrev flour : Item
flour = record {
  id = 61;
  ingredient_id = 3;
  qty = pos 60;
  pack = none;
  status = item_ordered;
  qty_received = none;
  received_at = none;
}

abbrev first_order : PurchaseOrder
first_order = record {
  id = 60;
  batch_id = 40;
  batch_date = day;
  supplier_id = none;
  adapter = codes "manual";
  external_ref = [];
  status = order_ordered;
  note = [];
  created_by = 5;
  created_at = pos 100;
  items = flour ∷ [];
}

abbrev shop : Purchases
shop = record {
  orders = first_order ∷ [];
  kitchen = record {
    batches = today ∷ [];
    components = [];
    requirements = flour_line ∷ [];
    stock = no_stock;
  };
}

shop-ledger : (b i : ℕ) → ordered_of b i (flour_line ∷ []) ≡ waiting b i (first_order ∷ [])
unfolding ordered_of waiting items_waiting ◌+ℤ◌
shop-ledger b i = ground arith

shop-IsSettled : IsSettled shop
unfolding id_on
shop-IsSettled = record { ledger = shop-ledger; clean = ((λ e. cc), tt); fit = ((refl, refl), tt) }

abbrev cook : Result Error Principal
cook = ok (record { auth_user_id = 5; roles = kitchen ∷ []; customer_id = none })

abbrev bag : ReceiveInput
bag = record {
  items = record { item_id = 61; qty = pos 60; expires_at = none } ∷ [];
  received_at = none;
}

purchases_keep_example :
    IsSettled ((create deps cook day none (codes "flour") shop).1)
    × IsSettled ((receive deps cook 60 bag shop).1)
    × IsSettled ((cancel deps cook 60 (codes "late") shop).1)
purchases_keep_example =
    purchases_keep deps cook day none (codes "flour") 60 bag (codes "late") shop shop-IsSettled

abbrev cancelled : Purchases
cancelled = (cancel deps cook 60 (codes "late") shop).1

abbrev cancelled_order : PurchaseOrder
cancelled_order = record first_order {
  status = order_cancelled;
  items = record flour { status = item_cancelled } ∷ [];
}

cancels : cancel deps cook 60 (codes "late") shop ≡ (ok cancelled_order, cancelled)
unfolding cancel kue_preorder.Platform.Caller.authorize kue_preorder.Platform.Errors.fields_err
    kue_preorder.Platform.Errors.check kue_preorder.Prelude.Text.trim_space
    kue_preorder.Prelude.Text.trim_left kue_preorder.Prelude.Text.is_space
    kue_preorder.Prelude.Text.is_empty kue_preorder.Aggregation.Batches.batch_on
    kue_preorder.Aggregation.Rows.add_procured ◌+ℤ◌ ◌-ℤ◌ kue_preorder.Aggregation.Rows.ensure_batch
    kue_preorder.Aggregation.Batches.lines
cancels = refl

cancel_once_example :
    (is_open cancelled_order.status ≡ false)
    × (contains_func (λ it. is_waiting it.status) cancelled_order.items ≡ false)
    × ((f : Failure) × (receive deps cook 60 bag cancelled ≡ (err f, cancelled)))
    × ((f : Failure) × (cancel deps cook 60 (codes "again") cancelled ≡ (err f, cancelled)))
cancel_once_example =
    cancel_once deps deps cook cook 60 (codes "late") (codes "again") bag shop cancelled
      cancelled_order cancels
