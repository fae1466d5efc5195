-- ===== src/Aggregation/Totals.antt =====
-- internal/aggregation/compute.go: `Totals`, the units of each component of a batch and what their
-- recipes need of each ingredient, whole batch at once. A Go map that is only read by its keys is a
-- function; the map of needs, which the code ranges over, is a list with each ingredient at most once.
pub mod Order
use kue_preorder.Prelude.{
  ℕ, ltb, ◌==◌, ℤ, pos, ltb_ℤ, leb_ℤ, Bool, true, not, ◌&&◌, ◌||◌, List, [], ◌∷◌, Option, none,
  some, if◌then◌else◌,
}
use kue_preorder.Prelude.Float.{Float, Floats, float_zero}
use kue_preorder.Prelude.Sort.{insert_by, sort_by}
use kue_preorder.Prelude.Word.{◌+64◌}
use kue_preorder.Prelude.Result.{Result, ok, err}
use kue_preorder.Recipe.Models.{Model}
use kue_preorder.Recipe.Quantity.{Rounding, quantity}
use kue_preorder.Aggregation.Batches.{ComponentTotal}
use kue_preorder.Aggregation.Shop.{Need}

-- `orders.CommittedItem`.
pub record CommittedItem : Type 0 where
  pub variant_id : ℕ
  pub quantity : ℤ

-- `catalog.ComponentUse` and `catalog.RecipeModel`.
pub record ComponentUse : Type 0 where
  pub variant_id : ℕ
  pub component_id : ℕ
  pub units_per_item : Float

pub record RecipeModel : Type 0 where
  pub component_id : ℕ
  pub ingredient_id : ℕ
  pub model : Model
  pub waste_factor : Float
  pub rounding : Rounding

pub record RecipeError : Type 0 where
  pub component_id : ℕ
  pub ingredient_id : ℕ

-- `cmp.Or` of two comparisons of ids.
abbrev pub at_most : ℕ → ℕ → ℕ → ℕ → Bool
at_most a b c d = ltb a c || a == c && not (ltb d b)

abbrev pub use_before : ComponentUse → ComponentUse → Bool
use_before a b = at_most a.component_id a.variant_id b.component_id b.variant_id

abbrev pub model_before : RecipeModel → RecipeModel → Bool
model_before a b = at_most a.component_id a.ingredient_id b.component_id b.ingredient_id

abbrev pub need_before : Need → Need → Bool
need_before a b = not (ltb b.ingredient_id a.ingredient_id)

abbrev pub or_zero : Option ℤ → ℤ
or_zero none = pos 0
or_zero (some q) = q

-- The loop over the items: `quantity[it.VariantID] += it.Quantity`.
unfoldable pub add_quantity : CommittedItem → (ℕ → Option ℤ) → ℕ → Option ℤ
add_quantity it m v = if it.variant_id == v then some (or_zero (m v) +64 it.quantity) else m v

unfoldable pub quantities : List CommittedItem → (ℕ → Option ℤ) → ℕ → Option ℤ
unfolding add_quantity
quantities [] m = m
quantities (it ∷ its) m = quantities its (add_quantity it m)

-- The units by component, and the components in the order in which they were first seen.
pub record Units : Type 0 where
  pub by_component : ℕ → Option Float
  pub components : List ℕ

abbrev pub no_units : Units
no_units = record { by_component = λ c. none; components = [] }

abbrev or_float_zero : Option Float → Float
or_float_zero none = float_zero
or_float_zero (some x) = x

abbrev seen_now : ℕ → Option Float → List ℕ → List ℕ
seen_now c none cs = c ∷ cs
seen_now c (some x) cs = cs

module _ (F : Floats) where
  -- The body of the loop over the uses. The components stand newest first until the loop is over.
  unfoldable pub add_use : (ℕ → Option ℤ) → ComponentUse → Units → Units
  add_use quantity u s = elim (quantity u.variant_id) [
    | none ↦ s
    | some q ↦ if leb_ℤ q (pos 0) then s else record {
      by_component = λ c.
          if c == u.component_id
          then some (F.add (or_float_zero (s.by_component c)) (F.mul (F.of_int q) u.units_per_item))
          else s.by_component c;
      components = seen_now u.component_id (s.by_component u.component_id) s.components;
    }
  ]

  unfoldable pub add_uses : (ℕ → Option ℤ) → List ComponentUse → Units → Units
  unfolding add_use
  add_uses quantity [] s = s
  add_uses quantity (u ∷ us) s = add_uses quantity us (add_use quantity u s)

-- `append` at the end of the components.
unfoldable pub totals_of : (ℕ → Option Float) → List ℕ → List ComponentTotal → List ComponentTotal
totals_of units [] acc = acc
totals_of units (c ∷ cs) acc =
    totals_of units cs (record { component_id = c; units = or_float_zero (units c) } ∷ acc)

-- `needed[m.IngredientID] += q`.
unfoldable pub add_need : ℕ → ℤ → List Need → List Need
add_need i q [] = record { ingredient_id = i; qty = q } ∷ []
add_need i q (n ∷ ns) =
    let rest = add_need i q ns in
    if n.ingredient_id == i then record n { qty = n.qty +64 q } ∷ ns else n ∷ rest

-- `if q > 0`.
unfoldable pub positive_needs : List Need → List Need
positive_needs [] = []
positive_needs (n ∷ ns) =
    let rest = positive_needs ns in if ltb_ℤ (pos 0) n.qty then n ∷ rest else rest

module _ (F : Floats) where
  -- The loop over the recipes.
  unfoldable pub add_models :
      (ℕ → Option Float) → List RecipeModel → List Need → Result RecipeError (List Need)
  unfolding add_need
  add_models units [] needed = ok needed
  add_models units (m ∷ ms) needed = elim (units m.component_id) [
    | none ↦ add_models units ms needed
    | some u ↦ elim (quantity F m.model u m.waste_factor m.rounding) [
      | err e ↦ err (record { component_id = m.component_id; ingredient_id = m.ingredient_id })
      | ok q ↦ add_models units ms (add_need m.ingredient_id q needed)
    ]
  ]

  abbrev pub level_one : List CommittedItem → List ComponentUse → Units
  level_one items uses =
      add_uses F (quantities items (λ v. none)) (sort_by use_before uses) no_units

  level_two : Units → List RecipeModel → Result RecipeError (List ComponentTotal × List Need)
  unfolding add_models totals_of
  level_two s models = elim (add_models s.by_component (sort_by model_before models) []) [
    | err e ↦ err e
    | ok needed ↦
        ok (totals_of s.by_component s.components [], sort_by need_before (positive_needs needed))
  ]

  -- `Totals`.
  unfoldable pub totals :
      List CommittedItem
      → List ComponentUse
      → List RecipeModel
      → Result RecipeError (List ComponentTotal × List Need)
  unfolding level_two add_uses quantities
  totals items uses models = level_two (level_one items uses) models
