-- ===== src/Procurement/Closing.antt =====
-- internal/procurement/service.go: `Receive` and `Cancel`, each one transaction over the orders, the shopping
-- list and the stock. The rows of the items change in the order as it was read, which is written back
-- at the end: nothing reads them from the table in between. The database keeps every ordered quantity
-- above 0, so its negation does not wrap.
pub mod Once
use Prim.Native.String.{String}
use kue_preorder.Prelude.{
  ℕ, suc, leb, ◌==◌, ℤ, pos, ◌+ℤ◌, ◌-ℤ◌, ltb_ℤ, leb_ℤ, Bool, true, false, not, ◌&&◌, ◌||◌, List, [],
  ◌∷◌, ◌++◌, length, contains_func, Option, none, some, if◌then◌else◌,
}
use kue_preorder.Prelude.Text.{Text, trim_space, is_empty}
use kue_preorder.Prelude.Result.{Result, ok, err, ◌>>=◌, ◌>>◌}
use kue_preorder.Platform.Errors.{Error, precondition, validation, Fields, check, fields_err}
use kue_preorder.Platform.Caller.{Principal, authorize}
use kue_preorder.Inventory.Stock.{Stock, Lot}
use kue_preorder.Inventory.Intake.{Ingredients}
use kue_preorder.Inventory.Reader.{Delivery, receive_ordered}
use kue_preorder.Aggregation.Batches.{Kitchen}
use kue_preorder.Aggregation.Engine.{Failure, other, Labels, lift}
use kue_preorder.Aggregation.Purchasing.{Procured, record_changes}
use kue_preorder.Procurement.Orders.{
  OrderStatus, order_received, order_cancelled, ItemStatus, item_ordered, item_received,
  item_cancelled, is_waiting, is_open, Item, PurchaseOrder, Purchases, order_with, received_item,
  cancelled_item, close_item, put_order,
}
use kue_preorder.Procurement.Service.{staff, max_note, max_qty, Deps, ended, record_in, answered}

-- `closeIfDone`: none while an item waits.
unfoldable pub closing : OrderStatus → List Item → Option OrderStatus
closing s [] = some s
closing s (it ∷ its) = elim it.status [
  | item_ordered ↦ none
  | item_received ↦ closing order_received its
  | item_cancelled ↦ closing s its
]

unfoldable pub closed_status : OrderStatus → List Item → OrderStatus
unfolding closing
closed_status s items = elim (closing order_cancelled items) [ none ↦ s | some t ↦ t ]

-- The order with its items as the call leaves them, closed if none of them waits.
abbrev pub settled : List Item → PurchaseOrder → PurchaseOrder
settled items o = record o { items = items; status = closed_status o.status items }

pub record Received : Type 0 where
  pub item_id : ℕ
  pub qty : ℤ
  pub expires_at : Option ℤ

-- `ReceiveInput`; no time of receipt stands for now.
pub record ReceiveInput : Type 0 where
  pub items : List Received
  pub received_at : Option ℤ

abbrev pub or_now : Option ℤ → ℤ → ℤ
or_now none now = now
or_now (some t) now = t

abbrev thirty_days : ℤ
thirty_days = pos 2592000000000000

-- The loop of the checks, with the items seen before.
checklist_fields : List ℕ → List Received → Fields → Fields
checklist_fields seen [] fs = fs
checklist_fields seen (r ∷ rs) fs = checklist_fields (r.item_id ∷ seen) rs (
    check (not (contains_func (λ i. i == r.item_id) seen)) "items"
      (check (leb_ℤ (pos 0) r.qty && leb_ℤ r.qty (pos max_qty)) "items" fs))

abbrev is_cons : List Received → Bool
is_cons [] = false
is_cons (r ∷ rs) = true

unfoldable pub receive_fields : List Received → ℤ → ℤ → Fields
unfolding checklist_fields
receive_fields rs at now = checklist_fields [] rs (
    check (leb_ℤ (now -ℤ thirty_days) at) "received_at"
      (check (leb_ℤ at (now +ℤ pos 300000000000)) "received_at" (check (is_cons rs) "items" [])))

-- `items[r.ItemID]`.
unfoldable pub item_with : ℕ → List Item → Option Item
item_with id [] = none
item_with id (it ∷ its) = let rest = item_with id its in if it.id == id then some it else rest

abbrev delivery : Item → Received → ℤ → Delivery
delivery it r at = record {
  ingredient_id = it.ingredient_id;
  qty = r.qty;
  received_at = at;
  expires_at = r.expires_at;
  procurement_item_id = it.id;
  note = [];
}

-- What arrived of an item goes into the stock.
unfoldable pub stocked :
    Ingredients → Item → Received → ℤ → ℕ → ℕ → ℤ → Stock → Result Failure Stock
unfolding receive_ordered
stocked ingredients it r at fresh actor now s =
    if ltb_ℤ (pos 0) r.qty
    then (do
      (lot, s') ← lift (receive_ordered ingredients (delivery it r at) fresh actor now s)
      ok s')
    else ok s

-- What the checklist closes: the items of the order, the stock, and the changes of the shopping list.
pub record Closed : Type 0 where
  pub items : List Item
  pub stock : Stock
  pub changes : List Procured

abbrev pub arrived : Item → ℤ → Procured
arrived it qty = record {
  ingredient_id = it.ingredient_id;
  ordered = pos 0 -ℤ it.qty;
  received = qty;
}

-- One entry of the checklist; `n` counts the ids drawn.
unfoldable pub receive_item :
    Deps → Ingredients → ℕ → ℤ → ℕ → Received → Closed → Result Failure Closed
unfolding item_with stocked close_item
receive_item d ingredients actor at n r c = elim (item_with r.item_id c.items) [
  | none ↦ err (other (validation ("items" ∷ [])))
  | some it ↦ if not (is_waiting it.status) then err (other (precondition "item_closed")) else (do
    s ← stocked ingredients it r at (d.draw n) actor d.now c.stock
    ok (record {
      items = close_item r.item_id (received_item r.qty at) c.items;
      stock = s;
      changes = c.changes ++ arrived it r.qty ∷ [];
    }))
]

unfoldable pub receive_items :
    Deps → Ingredients → ℕ → ℤ → ℕ → List Received → Closed → Result Failure Closed
unfolding receive_item
receive_items d ingredients actor at n [] c = ok c
receive_items d ingredients actor at n (r ∷ rs) c = do
  c' ← receive_item d ingredients actor at n r c
  receive_items d ingredients actor at (suc n) rs c'

-- The end of both transactions.
unfoldable pub settle :
    Deps
    → Principal
    → String
    → String
    → PurchaseOrder
    → Closed
    → Purchases
    → Result Failure Purchases
unfolding record_changes put_order closed_status
settle d p action event o c s = do
  k ← record_in d o.batch_date c.changes (record s.kitchen { stock = c.stock })
  ok (record {
    orders = put_order o.id (settled c.items) s.orders;
    kitchen = ended action event o.id p.auth_user_id d.now k;
  })

abbrev pub begun : PurchaseOrder → Purchases → Closed
begun o s = record { items = o.items; stock = s.kitchen.stock; changes = [] }

-- The order of a change, which must be open.
unfoldable pub open_order : ℕ → List PurchaseOrder → Result Failure PurchaseOrder
unfolding order_with
open_order id os = do
  o ← lift (order_with id os)
  if is_open o.status then ok o else err (other (precondition "order_closed"))

-- The transaction of `Receive`.
unfoldable pub receive_tx :
    Deps → Principal → Ingredients → ℕ → List Received → ℤ → Purchases → Result Failure Purchases
unfolding open_order receive_items settle
receive_tx d p ingredients id rs at s = do
  o ← open_order id s.orders
  c ← receive_items d ingredients p.auth_user_id at 0 rs (begun o s)
  settle d p "procurement.order.received" "procurement.order_received" o c s

abbrev pub receive_ready :
    Deps → Result Error Principal → List Received → ℤ → Result Error (Principal × Ingredients)
receive_ready d caller rs at = do
  p ← authorize caller staff
  fields_err (receive_fields rs at d.now)
  l ← d.catalog.labels
  ok (p, l.ingredients)

-- `Receive`.
unfoldable pub receive :
    Deps
    → Result Error Principal
    → ℕ
    → ReceiveInput
    → Purchases
    → Result Failure PurchaseOrder × Purchases
unfolding receive_fields receive_tx order_with
receive d caller id input s =
    let at = or_now input.received_at d.now in
    elim (receive_ready d caller input.items at) [
      | err e ↦ (err (other e), s)
      | ok (p, ingredients) ↦ answered d.read id (receive_tx d p ingredients id input.items at s) s
    ]

-- The loop of `Cancel`.
unfoldable pub cancel_items : List Item → List Item
cancel_items [] = []
cancel_items (it ∷ its) =
    (if is_waiting it.status then cancelled_item it else it) ∷ cancel_items its

unfoldable pub cancel_changes : List Item → List Procured
cancel_changes [] = []
cancel_changes (it ∷ its) =
    let rest = cancel_changes its in
    if is_waiting it.status then arrived it (pos 0) ∷ rest else rest

-- The transaction of `Cancel`.
unfoldable pub cancel_tx : Deps → Principal → ℕ → Purchases → Result Failure Purchases
unfolding open_order cancel_items cancel_changes settle
cancel_tx d p id s = do
  o ← open_order id s.orders
  let c : Closed = record {
    items = cancel_items o.items;
    stock = s.kitchen.stock;
    changes = cancel_changes o.items;
  }
  settle d p "procurement.order.cancelled" "procurement.order_cancelled" o c s

unfoldable pub cancel_fields : Text → Fields
cancel_fields reason =
    check (leb (length reason) max_note) "reason" (check (not (is_empty reason)) "reason" [])

abbrev pub cancel_ready : Deps → Result Error Principal → Text → Result Error Principal
cancel_ready d caller reason = do
  p ← authorize caller staff
  fields_err (cancel_fields reason)
  l ← d.catalog.labels
  ok p

-- `Cancel`.
unfoldable pub cancel :
    Deps → Result Error Principal → ℕ → Text → Purchases → Result Failure PurchaseOrder × Purchases
unfolding cancel_fields cancel_tx order_with
cancel d caller id reason s = elim (cancel_ready d caller (trim_space reason)) [
  | err e ↦ (err (other e), s)
  | ok p ↦ answered d.read id (cancel_tx d p id s) s
]
