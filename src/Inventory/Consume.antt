-- ===== src/Inventory/Consume.antt =====
-- internal/inventory/service.go: `Consumer.Consume`, what a finished batch takes out of the stock, the
-- oldest lot first.
pub mod Taken
pub mod Moved
pub mod Nonneg
pub mod Apart
pub mod Whole
use kue_preorder.Prelude.{
  ℕ, ltb, ℤ, pos, negsuc, ◌-ℤ◌, ltb_ℤ, leb_ℤ, eqb_ℤ, min_ℤ, Bool, true, false, List, [], ◌∷◌,
  Option, none, some, if◌then◌else◌,
}
use kue_preorder.Prelude.Word.{◌-64◌}
use kue_preorder.Inventory.Stock.{
  Lot, Movement, Stock, consume, available, exhausted, lots_of, insert_movement, set_lot_status,
  publish,
}

pub record Use : Type 0 where
  pub ingredient_id : ℕ
  pub qty : ℤ

pub record Used : Type 0 where
  pub ingredient_id : ℕ
  pub consumed : ℤ
  pub missing : ℤ

-- The batch that a consumption is for, who recorded it, and when.
pub record Batch : Type 0 where
  pub id : ℕ
  pub actor_id : ℕ
  pub at : ℤ

-- The consume movement of `take` from a lot.
abbrev pub taking : Batch → ℕ → Lot → ℤ → Movement
taking b ingredient l take = record {
  lot_id = l.id;
  ingredient_id = ingredient;
  kind = consume;
  qty = pos 0 -ℤ take;
  batch_id = some b.id;
  reason = [];
  actor_id = b.actor_id;
  at = b.at;
}

-- Takes from one lot; a lot that is used up is exhausted.
unfoldable pub take_from : (Lot → ℤ → Movement) → Lot → ℤ → Stock → Stock
take_from move l take s =
    let s' = insert_movement (move l take) s in
    if eqb_ℤ take l.balance then set_lot_status l.id exhausted s' else s'

-- The loop over the lots, with what remains to take. It ends when nothing remains.
unfoldable pub draw : (Lot → ℤ → Movement) → List Lot → ℤ → Stock → ℤ × Stock
unfolding take_from
draw move [] remaining s = (remaining, s)
draw move (l ∷ ls) remaining s =
    let take = min_ℤ l.balance remaining in
    let skip = draw move ls remaining s in
    let s' = take_from move l take s in
    let rest = draw move ls (remaining -64 take) s' in
    if leb_ℤ take (pos 0)
    then skip
    else if eqb_ℤ (remaining -64 take) (pos 0)
    then (remaining -64 take, s')
    else rest

-- `slices.SortFunc` by the ingredient's id.
unfoldable pub insert : Use → List Use → List Use
insert u [] = u ∷ []
insert u (v ∷ vs) =
    let rest = insert u vs in if ltb v.ingredient_id u.ingredient_id then v ∷ rest else u ∷ v ∷ vs

unfoldable pub sorted : List Use → List Use
unfolding insert
sorted [] = []
sorted (u ∷ us) = insert u (sorted us)

-- What one ingredient's consumption gives back.
abbrev pub used_of : Use → ℤ → Used
used_of u remaining = record {
  ingredient_id = u.ingredient_id;
  consumed = u.qty -64 remaining;
  missing = remaining;
}

-- The loop over the ingredients: the results, whether any stock changed, and the stock.
unfoldable pub consume_each : Batch → List Use → Stock → List Used × Bool × Stock
unfolding draw lots_of
consume_each b [] s = ([], false, s)
consume_each b (u ∷ us) s =
    let one =
      draw (taking b u.ingredient_id) (lots_of u.ingredient_id (available ∷ []) s) u.qty s in
    let skip = consume_each b us s in
    let (out, changed, s') = consume_each b us one.1 in
    if leb_ℤ u.qty (pos 0)
    then skip
    else (used_of u one.0 ∷ out, (if ltb_ℤ one.0 u.qty then true else changed), s')

-- The event, if any stock changed.
abbrev pub told : Bool → Batch → Stock → Stock
told true b s =
    publish (record { type_name = "inventory.stock_changed"; entity_id = b.id; at = b.at }) s
told false b s = s

-- `Consume`.
unfoldable pub consume_all : Batch → List Use → Stock → List Used × Stock
unfolding sorted consume_each
consume_all b uses s =
    let (out, changed, s') = consume_each b (sorted uses) s in (out, told changed b s')
