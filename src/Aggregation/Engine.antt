-- ===== src/Aggregation/Engine.antt =====
-- internal/aggregation/engine.go: `Recompute` and the computations over several dates. What the catalog
-- answers is a parameter, the record `Catalog`; the orders are those stored. The words that say which
-- recipe failed are left out.
pub mod Claims
use kue_preorder.Prelude.{
  ◌≡◌, ℕ, suc, ltb, ◌==◌, ℤ, pos, ◌+ℤ◌, ◌-ℤ◌, eqb_ℤ, max_ℤ, Bool, true, false, ◌&&◌, List, [], ◌∷◌,
  ◌++◌, map, contains_func, Option, none, some, if◌then◌else◌,
}
use kue_preorder.Prelude.Float.{Floats}
use kue_preorder.Prelude.Result.{Result, ok, err, ◌>>=◌}
use kue_preorder.Platform.Errors.{Error, not_found}
use kue_preorder.Payments.Status.{Status, dp_paid, paid_in_full}
use kue_preorder.Orders.Lifecycle.{counts_for_production}
use kue_preorder.Orders.Store.{Order, QuotedItem}
use kue_preorder.Scheduling.Time.{date_of}
use kue_preorder.Inventory.Intake.{Ingredients}
use kue_preorder.Inventory.Reader.{usable_on}
use kue_preorder.Aggregation.Batches.{
  ProductionBatch, DefaultPack, ComponentTotal, Line, Kitchen, batch_on, lines,
}
use kue_preorder.Aggregation.Rows.{
  ensure_batch, mark_failed, upcoming_dates, save_result, claimed_before,
}
use kue_preorder.Aggregation.Shop.{Need, shop}
use kue_preorder.Aggregation.Totals.{CommittedItem, ComponentUse, RecipeModel, RecipeError, totals}

-- An error of a computation; `errors.As` tells a broken recipe from another.
pub data Failure : Type 0 where
  broken : RecipeError → Failure
  other : Error → Failure

-- `catalog.Labels`, as far as the code reads more than names: the known suppliers and the ingredients.
pub record Labels : Type 0 where
  pub suppliers : ℕ → Bool
  pub ingredients : Ingredients

pub record Catalog : Type 0 where
  pub component_uses : List ℕ → Result Error (List ComponentUse)
  pub recipe_models : List ℕ → Result Failure (List RecipeModel)
  pub default_packs : List ℕ → Result Error (List DefaultPack)
  pub labels : Result Error Labels

abbrev pub lift : {A : Type 0} → Result Error A → Result Failure A
lift (ok a) = ok a
lift (err e) = err (other e)

pub lift_ok : {A : Type 0} (m : Result Error A) (a : A) → lift m ≡ ok a → m ≡ ok a
lift_ok (ok a) b e = cc
lift_ok (err x) b e = cc

abbrev lift_recipe : {A : Type 0} → Result RecipeError A → Result Failure A
lift_recipe (ok a) = ok a
lift_recipe (err e) = err (broken e)

-- `CommittedItems`: the quantities by variant, in the order of the variants.
abbrev is_in : Status → Bool
is_in dp_paid = true
is_in paid_in_full = true
is_in _ = false

add_item : QuotedItem → List CommittedItem → List CommittedItem
add_item it [] = record { variant_id = it.variant_id; quantity = it.quantity } ∷ []
add_item it (c ∷ cs) =
    let rest = add_item it cs in
    if c.variant_id == it.variant_id
    then record c { quantity = c.quantity +ℤ it.quantity } ∷ cs
    else if ltb it.variant_id c.variant_id
    then record { variant_id = it.variant_id; quantity = it.quantity } ∷ c ∷ cs
    else c ∷ rest

add_items : List QuotedItem → List CommittedItem → List CommittedItem
unfolding add_item
add_items [] acc = acc
add_items (it ∷ its) acc = add_items its (add_item it acc)

unfoldable pub committed_items : ℤ → List Order → List CommittedItem
unfolding add_items
committed_items date [] = []
committed_items date (o ∷ os) =
    let rest = committed_items date os in
    if eqb_ℤ o.production_date date && counts_for_production o.status && is_in o.payment
    then add_items o.items rest
    else rest

-- `totals`: nothing where there are no items or none of them has components.
unfoldable pub batch_totals :
    Floats → Catalog → List CommittedItem → Result Failure (List ComponentTotal × List Need)
batch_totals F cat [] = ok ([], [])
batch_totals F cat (it ∷ its) = do
  uses ← lift (cat.component_uses (map (λ i. i.variant_id) (it ∷ its)))
  elim uses [
    | [] ↦ ok ([], [])
    | u ∷ us ↦ do
      models ← cat.recipe_models (map (λ c. c.component_id) (u ∷ us))
      lift_recipe (totals F (it ∷ its) (u ∷ us) models)
  ]

-- `ingredientIDs`.
add_id : ℕ → List ℕ → List ℕ
add_id i ids = if contains_func (λ j. j == i) ids then ids else ids ++ i ∷ []

add_need_ids : List Need → List ℕ → List ℕ
unfolding add_id
add_need_ids [] ids = ids
add_need_ids (n ∷ ns) ids = add_need_ids ns (add_id n.ingredient_id ids)

add_line_ids : List Line → List ℕ → List ℕ
unfolding add_id
add_line_ids [] ids = ids
add_line_ids (l ∷ ls) ids = add_line_ids ls (add_id l.ingredient_id ids)

unfoldable pub ingredient_ids : List Need → List Line → List ℕ
unfolding add_need_ids add_line_ids
ingredient_ids needs ls = add_line_ids ls (add_need_ids needs [])

-- `available`, of one ingredient: a map with nothing in it answers 0.
unfoldable pub available : Ingredients → ℤ → ℤ → Kitchen → ℕ → ℤ
unfolding usable_on claimed_before
available ingredients date now k i =
    max_ℤ
      (usable_on ingredients date now k.stock i -ℤ claimed_before date k.batches i k.requirements)
      (pos 0)

-- The labels that `Usable` reads; without ids it is not asked.
abbrev pub ingredients_for : Catalog → List ℕ → Result Failure Ingredients
ingredients_for cat [] = ok (λ i. none)
ingredients_for cat (i ∷ is) = lift cat.labels >>= λ l. ok l.ingredients

-- `byIngredient`: the last pack of an ingredient.
pack_of : List DefaultPack → ℕ → Option DefaultPack
pack_of [] i = none
pack_of (p ∷ ps) i = elim (pack_of ps i) [
  | some q ↦ some q
  | none ↦ if p.ingredient_id == i then some p else none
]

-- The transaction of `Recompute`, with the batch found.
unfoldable pub compute :
    Floats → Catalog → List Order → ℤ → ℤ → ProductionBatch → Kitchen → Result Failure Kitchen
unfolding committed_items batch_totals ingredient_ids available pack_of
compute F cat os date now b k = do
  (components, needs) ← batch_totals F cat (committed_items date os)
  let existing = lines b.id k.requirements
  ingredients ← ingredients_for cat (ingredient_ids needs existing)
  packs ← lift (cat.default_packs (ingredient_ids needs existing))
  ok (
      save_result b.id components
        (shop F (pack_of packs) b.id needs (available ingredients date now k) existing) now k)

unfoldable pub compute_on : Floats → Catalog → List Order → ℤ → ℤ → Kitchen → Result Failure Kitchen
unfolding compute
compute_on F cat os date now k = elim (batch_on date k.batches) [
  | none ↦ err (other not_found)
  | some b ↦ compute F cat os date now b k
]

unfoldable pub recompute_tx :
    Floats → Catalog → List Order → ℕ → ℤ → ℤ → Kitchen → Result Failure Kitchen
unfolding compute_on
recompute_tx F cat os fresh date now k =
    compute_on F cat os date now (record k { batches = ensure_batch fresh date k.batches })

-- `Recompute`: a broken recipe leaves its mark on the batch.
unfoldable pub recompute :
    Floats → Catalog → List Order → ℕ → ℤ → ℤ → Kitchen → Result Failure (Unit {0}) × Kitchen
unfolding recompute_tx mark_failed
recompute F cat os fresh date now k = elim (recompute_tx F cat os fresh date now k) [
  | ok k' ↦ (ok tt, k')
  | err (broken e) ↦ (err (broken e), record k { batches = mark_failed fresh date k.batches })
  | err (other e) ↦ (err (other e), k)
]

-- `recomputeAll`: how many were computed, and every failure; `draw` is the id of a date's new batch.
unfoldable pub recompute_all :
    Floats → Catalog → List Order → (ℤ → ℕ) → ℤ → List ℤ → Kitchen → ℕ × List Failure × Kitchen
unfolding recompute
recompute_all F cat os draw now [] k = (0, [], k)
recompute_all F cat os draw now (d ∷ ds) k =
    let (r, k') = recompute F cat os (draw d) d now k in
    let (n, errs, k'') = recompute_all F cat os draw now ds k' in
    elim r [ ok u ↦ (suc n, errs, k'') | err e ↦ (n, e ∷ errs, k'') ]

-- `RecomputeFrom`.
abbrev from_date : ℤ → List ℤ → List ℤ
from_date date [] = date ∷ []
from_date date (d ∷ ds) = if eqb_ℤ d date then d ∷ ds else date ∷ d ∷ ds

unfoldable pub recompute_from :
    Floats → Catalog → List Order → (ℤ → ℕ) → ℤ → ℤ → Kitchen → ℕ × List Failure × Kitchen
unfolding recompute_all
recompute_from F cat os draw date now k =
    recompute_all F cat os draw now (from_date date (upcoming_dates date k.batches)) k

-- `RecomputeUpcoming`.
unfoldable pub recompute_upcoming :
    Floats → Catalog → List Order → (ℤ → ℕ) → ℤ → Kitchen → ℕ × List Failure × Kitchen
unfolding recompute_all
recompute_upcoming F cat os draw now k =
    recompute_all F cat os draw now (upcoming_dates (date_of now) k.batches) k
