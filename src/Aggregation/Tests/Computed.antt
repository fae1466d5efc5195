-- ===== src/Aggregation/Tests/Computed.antt =====
-- The shopping list, the totals and a computation at concrete data.
use kue_preorder.Prelude.{
  max_ℤ, ◌+◌, ◌*◌, ◌/◌, ltb, pos_part, Option, true, false, if◌then◌else◌, ◌==◌, ℕ, ℤ, pos, ◌≤ℤ◌,
  ◌+ℤ◌, ◌-ℤ◌, ◌≡◌, ◌≢◌, refl, false, List, [], ◌∷◌, All, none, some, arith,
}
use kue_preorder.Prelude.Word.{wrap64, ◌-64◌}
use kue_preorder.Prelude.Float.{float_one}
use kue_preorder.Prelude.Float.Sample.{floats}
use kue_preorder.Prelude.Text.{codes}
use kue_preorder.Prelude.Result.{ok}
use kue_preorder.Orders.Lifecycle.{counts_for_production}
use kue_preorder.Orders.Store.{Order}
use kue_preorder.Aggregation.Batches.{
  batch_open, ProductionBatch, DefaultPack, line_ordered, Line, Kitchen, batch_on, lines,
}
use mathlib.Core.List.{Permᴰ}
use kue_preorder.Orders.Store.{QuotedItem}
use kue_preorder.Inventory.Countable.{auto}
use kue_preorder.Inventory.Reader.{usable_on}
use kue_preorder.Aggregation.Engine.{Labels, Catalog, recompute}
use kue_preorder.Aggregation.Engine.Claims.{recompute_claims}
use kue_preorder.Aggregation.Rows.{claimed_before, batch_with}
use kue_preorder.Aggregation.Rows.Saved.{row_of, IsWithin}
use kue_preorder.Recipe.Models.{affine}
use kue_preorder.Recipe.Quantity.{round_up}
use kue_preorder.Aggregation.Totals.{CommittedItem, ComponentUse, RecipeModel, totals}
use kue_preorder.Aggregation.Totals.Order.{totals-Perm}
use kue_preorder.Aggregation.Shop.{Need, shop}
use kue_preorder.Aggregation.Shop.Lookup.{line_of, or_else, need_of, touched_of}
use kue_preorder.Aggregation.Shop.Covers.{Covers, shop-Covers, shop_keeps}
use kue_preorder.Aggregation.Tests.{flour_line, bakery, cakes, today, noon}

abbrev no_packs : ℕ → Option DefaultPack
no_packs i = none

abbrev flour_needed : List Need
flour_needed = record { ingredient_id = 3; qty = pos 900 } ∷ []

abbrev in_stock : ℕ → ℤ
in_stock i = if i == 3 then pos 800 else pos 0

-- 60 g of flour and some sugar are on their way.
abbrev ordered_lines : List Line
ordered_lines =
    record flour_line { ordered = pos 60; status = line_ordered }
    ∷ record flour_line { ingredient_id = 4; ordered = pos 50; status = line_ordered }
    ∷ []

shop-Covers_example :
    (l : Line) × (line_of 3 (shop floats no_packs 40 flour_needed in_stock ordered_lines) ≡ some l)
    × (l.needed ≡ pos 900)
    × Covers (pos 800) l
unfolding need_of or_else
shop-Covers_example =
    shop-Covers floats no_packs 40 flour_needed in_stock ordered_lines 3 (pos 900)
      ((omega arith, omega arith), ((omega arith, omega arith), tt)) (omega arith, omega arith) refl

shop_keeps_example :
    (l : Line) × (line_of 4 (shop floats no_packs 40 flour_needed in_stock ordered_lines) ≡ some l)
    × (l.ordered ≡ pos 50)
    × (l.received ≡ pos 0)
    × (l.status ≡ line_ordered)
unfolding touched_of or_else
shop_keeps_example =
    shop_keeps floats no_packs 40 flour_needed in_stock ordered_lines 4
      (record flour_line { ingredient_id = 4; ordered = pos 50; status = line_ordered }) refl

-- Two orders of a cake with flour, which is also in the bread, and their two recipes.
abbrev cake_items : CommittedItem
cake_items = record { variant_id = 1; quantity = pos 2 }

abbrev bread_items : CommittedItem
bread_items = record { variant_id = 2; quantity = pos 5 }

abbrev cake_use : ComponentUse
cake_use = record { variant_id = 1; component_id = 8; units_per_item = 3 }

abbrev bread_use : ComponentUse
bread_use = record { variant_id = 2; component_id = 8; units_per_item = 1 }

abbrev flour_model : RecipeModel
flour_model = record {
  component_id = 8;
  ingredient_id = 3;
  model = affine 10 2;
  waste_factor = float_one;
  rounding = round_up;
}

abbrev sugar_model : RecipeModel
sugar_model = record flour_model { ingredient_id = 4 }

totals-Perm_example :
    totals floats
      (cake_items ∷ bread_items ∷ [])
      (cake_use ∷ bread_use ∷ [])
      (flour_model ∷ sugar_model ∷ [])
    ≡ totals floats
        (bread_items ∷ cake_items ∷ [])
        (bread_use ∷ cake_use ∷ [])
        (sugar_model ∷ flour_model ∷ [])
totals-Perm_example =
    totals-Perm floats (Permᴰ.swap refl refl) (Permᴰ.swap refl refl) (Permᴰ.swap refl refl)
      (((λ e. refl), tt), (tt, tt)) (((λ e. refl), tt), (tt, tt))

-- The day after also needs flour, for two cakes; the first day counts on 700 g of the 800 g already.
abbrev next_day : ProductionBatch
next_day = record { id = 41; date = pos 8; status = batch_open; computed_at = none; failed = false }

abbrev two_days : Kitchen
two_days = record bakery { batches = today ∷ next_day ∷ [] }

abbrev two_cakes : QuotedItem
two_cakes = record {
  variant_id = 1;
  product_name = codes "Cake";
  variant_name = codes "Large";
  quantity = pos 2;
  unit_price_idr = pos 100000;
  line_total_idr = pos 200000;
  production_minutes = pos 120;
  min_notice_hours = pos 24;
}

abbrev later_cakes : Order
later_cakes = record cakes { production_date = pos 8; items = two_cakes ∷ [] }

abbrev labels : Labels
labels = record {
  suppliers = λ s. false;
  ingredients = λ i.
      if i == 3 then some (record { leftover_policy = auto; shelf_life_days = none }) else none;
}

abbrev catalog : Catalog
catalog = record {
  component_uses = λ ids. ok (cake_use ∷ []);
  recipe_models = λ ids. ok (record flour_model { model = affine 100 100 } ∷ []);
  default_packs = λ ids. ok [];
  labels = ok labels;
}

abbrev computed : Kitchen
computed = (recompute floats catalog (later_cakes ∷ []) 42 (pos 8) noon two_days).1

computes : recompute floats catalog (later_cakes ∷ []) 42 (pos 8) noon two_days ≡ (ok tt, computed)
unfolding recompute batch_on counts_for_production totals kue_preorder.Prelude.Sort.sort_by
    kue_preorder.Prelude.Word.◌+64◌ wrap64 ◌+ℤ◌ kue_preorder.Recipe.Quantity.quantity
    kue_preorder.Recipe.Models.resolve lines kue_preorder.Aggregation.Totals.positive_needs
computes = refl

recompute_claims_example :
    IsWithin
      (max_ℤ
        (usable_on labels.ingredients (pos 8) noon computed.stock 3
          -ℤ claimed_before (pos 8) computed.batches 3 computed.requirements)
        (pos 0))
      (row_of 41 3 computed.requirements)
unfolding batch_on batch_with
recompute_claims_example =
    recompute_claims floats catalog (later_cakes ∷ []) 42 (pos 8) noon labels next_day two_days
      computed 3 refl refl refl computes
