-- ===== src/Aggregation/Purchasing.antt =====
-- internal/aggregation/purchasing.go: procurement's way into the shopping lists.
use kue_preorder.Prelude.{ℕ, ℤ, List, [], ◌∷◌, none, some}
use kue_preorder.Prelude.Float.{Floats}
use kue_preorder.Prelude.Result.{Result, ok, err, ◌>>=◌}
use kue_preorder.Platform.Errors.{Error, not_found}
use kue_preorder.Orders.Store.{Order}
use kue_preorder.Aggregation.Batches.{ProductionBatch, Line, Kitchen, batch_on, lines}
use kue_preorder.Aggregation.Rows.{add_procured}
use kue_preorder.Aggregation.Engine.{Failure, other, Catalog, lift, recompute_tx}

-- A change as deltas.
pub record Procured : Type 0 where
  pub ingredient_id : ℕ
  pub ordered : ℤ
  pub received : ℤ

-- `LockShoppingList`.
unfoldable pub lock_shopping_list : ℤ → Kitchen → Result Error (ProductionBatch × List Line)
lock_shopping_list date k = elim (batch_on date k.batches) [
  | none ↦ err not_found
  | some b ↦ ok (b, lines b.id k.requirements)
]

-- The loop of `Record`.
unfoldable pub add_all : ℕ → List Procured → List Line → Result Failure (List Line)
add_all batch_id [] rows = ok rows
add_all batch_id (c ∷ cs) rows = do
  rows' ← lift (add_procured batch_id c.ingredient_id c.ordered c.received rows)
  add_all batch_id cs rows'

-- `Record`, in the caller's transaction, which an error rolls back with the mark of a broken recipe.
unfoldable pub record_changes :
    Floats → Catalog → List Order → ℕ → ℤ → ℤ → List Procured → Kitchen → Result Failure Kitchen
unfolding add_all recompute_tx
record_changes F cat os fresh date now changes k = elim (batch_on date k.batches) [
  | none ↦ err (other not_found)
  | some b ↦ do
    rows ← add_all b.id changes k.requirements
    recompute_tx F cat os fresh date now (record k { requirements = rows })
]
