-- ===== src/Procurement/Orders.antt =====
-- internal/procurement/domain.go, and the statements of internal/procurement/postgres/repo.go. An order
-- holds its items, in the order of their ingredients as it was inserted, and an id names one order and
-- one of its items: the first that stands.
use kue_preorder.Prelude.{
  ℕ, ◌==◌, ℤ, pos, ltb_ℤ, Bool, true, false, ◌&&◌, List, [], ◌∷◌, ◌++◌, Option, none, some,
  if◌then◌else◌,
}
use kue_preorder.Prelude.Float.{Float}
use kue_preorder.Prelude.Text.{Text}
use kue_preorder.Prelude.Result.{Result, ok, err}
use kue_preorder.Platform.Errors.{Error, not_found, internal}
use kue_preorder.Aggregation.Batches.{Kitchen}

pub data OrderStatus : Type 0 where
  order_ordered order_received order_cancelled : OrderStatus

pub data ItemStatus : Type 0 where
  item_ordered item_received item_cancelled : ItemStatus

abbrev pub is_waiting : ItemStatus → Bool
is_waiting item_ordered = true
is_waiting _ = false

abbrev pub is_open : OrderStatus → Bool
is_open order_ordered = true
is_open _ = false

pub record Pack : Type 0 where
  pub count : ℤ
  pub size : Float
  pub unit : Text
  pub price_idr : Option ℤ

pub record Item : Type 0 where
  pub id : ℕ
  pub ingredient_id : ℕ
  pub qty : ℤ
  pub pack : Option Pack
  pub status : ItemStatus
  pub qty_received : Option ℤ
  pub received_at : Option ℤ

-- `Order`; no supplier is the kitchen's own shopping.
pub record PurchaseOrder : Type 0 where
  pub id : ℕ
  pub batch_id : ℕ
  pub batch_date : ℤ
  pub supplier_id : Option ℕ
  pub adapter : Text
  pub external_ref : Text
  pub status : OrderStatus
  pub note : Text
  pub created_by : ℕ
  pub created_at : ℤ
  pub items : List Item

-- `Adapter`; a sent order answers with its reference.
pub record Adapter : Type 0 where
  pub key : Text
  pub send : PurchaseOrder → Result Error Text

-- `ManualAdapter`.
abbrev pub manual_adapter : Adapter
manual_adapter = record { key = 109 ∷ 97 ∷ 110 ∷ 117 ∷ 97 ∷ 108 ∷ []; send = λ o. ok [] }

-- The purchase orders beside the tables of the kitchen.
pub record Purchases : Type 0 where
  pub orders : List PurchaseOrder
  pub kitchen : Kitchen

-- `LockOrder` and `GetOrder`.
unfoldable pub order_with : ℕ → List PurchaseOrder → Result Error PurchaseOrder
order_with id [] = err not_found
order_with id (o ∷ os) = let rest = order_with id os in if o.id == id then ok o else rest

-- `SetItemReceived` and `SetItemCancelled`, on an item that is still ordered.
abbrev pub received_item : ℤ → ℤ → Item → Item
received_item qty at it = record it {
  status = item_received;
  qty_received = some qty;
  received_at = some at;
}

abbrev pub cancelled_item : Item → Item
cancelled_item it = record it { status = item_cancelled }

unfoldable pub close_item : ℕ → (Item → Item) → List Item → List Item
close_item id f [] = []
close_item id f (it ∷ its) =
    let rest = close_item id f its in
    if it.id == id then (if is_waiting it.status then f it ∷ its else it ∷ its) else it ∷ rest

-- `SetOrderStatus`, and the items of the order as the transaction leaves them.
unfoldable pub put_order :
    ℕ → (PurchaseOrder → PurchaseOrder) → List PurchaseOrder → List PurchaseOrder
put_order id f [] = []
put_order id f (o ∷ os) = let rest = put_order id f os in if o.id == id then f o ∷ os else o ∷ rest

-- `InsertOrder`: the table takes no quantity and no number of packs below 1.
abbrev pack_fits : Option Pack → Bool
pack_fits none = true
pack_fits (some p) = ltb_ℤ (pos 0) p.count

unfoldable pub items_fit : List Item → Bool
items_fit [] = true
items_fit (it ∷ its) = let rest = items_fit its in ltb_ℤ (pos 0) it.qty && pack_fits it.pack && rest

unfoldable pub insert_order : PurchaseOrder → List PurchaseOrder → Result Error (List PurchaseOrder)
unfolding items_fit
insert_order o os =
    if items_fit o.items
    then ok (os ++ record o { status = order_ordered } ∷ [])
    else err (internal "check")
