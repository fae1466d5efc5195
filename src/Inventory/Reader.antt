-- ===== src/Inventory/Reader.antt =====
-- internal/inventory/service.go: what the other modules ask of the stock, `Receiver.ReceiveOrdered`,
-- `Reader.Usable` and `Reader.ExpireLots`. The labels of the catalog are a map of ingredients.
use kue_preorder.Prelude.{
  ℕ, suc, ℤ, pos, ltb_ℤ, leb_ℤ, Bool, false, not, ◌&&◌, ◌||◌, List, [], ◌∷◌, Option, none, some,
  if◌then◌else◌,
}
use kue_preorder.Prelude.Text.{Text}
use kue_preorder.Prelude.Result.{Result, ok, err, ◌>>=◌}
use kue_preorder.Platform.Errors.{Error, validation, internal}
use kue_preorder.Inventory.Countable.{LeftoverPolicy, usable}
use kue_preorder.Inventory.Stock.{Lot, Stock, procurement, available, expired, eqb_status, lots_of}
use kue_preorder.Inventory.Requests.{get_lot}
use kue_preorder.Inventory.Intake.{
  Ingredient, Ingredients, max_qty, expires_after, expiry, new_lot, intake,
}

pub record Delivery : Type 0 where
  pub ingredient_id : ℕ
  pub qty : ℤ
  pub received_at : ℤ
  pub expires_at : Option ℤ
  pub procurement_item_id : ℕ
  pub note : Text

-- The lot of a delivery that a purchase order brought.
abbrev pub delivered_lot : Ingredient → Delivery → ℕ → Lot
delivered_lot ing d fresh =
    new_lot fresh d.ingredient_id d.received_at (expiry ing d.received_at d.expires_at) procurement
      (some d.procurement_item_id) d.note

-- `ReceiveOrdered` with the ingredient found; `fresh` is the id that `uuid.New` draws. Every failure of a
-- delivery that names no field is internal.
unfoldable pub receive_known :
    Ingredient → Delivery → ℕ → ℕ → ℤ → Stock → Result Error (Lot × Stock)
unfolding intake expiry get_lot
receive_known ing d fresh actor at s =
    if leb_ℤ d.qty (pos 0) || ltb_ℤ (pos max_qty) d.qty
    then err (internal "delivery")
    else if not (expires_after d.expires_at d.received_at)
    then err (validation ("expires_at" ∷ []))
    else (do
      let s' = intake ing (delivered_lot ing d fresh) d.qty actor at s
      lot ← get_lot fresh s'
      ok (lot, s'))

-- `ReceiveOrdered`.
unfoldable pub receive_ordered :
    Ingredients → Delivery → ℕ → ℕ → ℤ → Stock → Result Error (Lot × Stock)
unfolding receive_known
receive_ordered ingredients d fresh actor at s = elim (ingredients d.ingredient_id) [
  | none ↦ err (internal "delivery")
  | some ing ↦ receive_known ing d fresh actor at s
]

abbrev policy_of : Option Ingredient → Option LeftoverPolicy
policy_of none = none
policy_of (some ing) = some ing.leftover_policy

-- `Reader.Usable`, of one ingredient.
unfoldable pub usable_on : Ingredients → ℤ → ℤ → Stock → ℕ → ℤ
unfolding lots_of usable
usable_on ingredients date now s i =
    usable (lots_of i (available ∷ []) s) (λ j. policy_of (ingredients j)) date now i

abbrev is_past : ℤ → Lot → Bool
is_past now l =
    eqb_status l.status available && elim l.expires_at [ none ↦ false | some e ↦ leb_ℤ e now ]

expire_rows : ℤ → List Lot → ℕ × List Lot
expire_rows now [] = (0, [])
expire_rows now (l ∷ ls) =
    let (n, rest) = expire_rows now ls in
    if is_past now l then (suc n, record l { status = expired } ∷ rest) else (n, l ∷ rest)

-- `ExpireLots`: how many, and the stock.
unfoldable pub expire_lots : ℤ → Stock → ℕ × Stock
unfolding expire_rows
expire_lots now s = let (n, lots) = expire_rows now s.lots in (n, record s { lots = lots })
