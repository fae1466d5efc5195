-- ===== src/Procurement/Service.antt =====
-- internal/procurement/service.go: what its calls share, and `Create`, one transaction over the orders and
-- the shopping list. `draw n` is the n-th id that `uuid.New` draws in the call; the database would draw
-- `new_batch_id` for a batch that is missing. The names and
-- the cost that an answer shows are left out.
use Prim.Native.String.{String}
use kue_preorder.Prelude.{
  ℕ, suc, leb, ◌==◌, ℤ, pos, leb_ℤ, Bool, true, false, not, ◌||◌, List, [], ◌∷◌, length, Option,
  none, some, if◌then◌else◌,
}
use kue_preorder.Prelude.Float.{Floats, float_1e_minus_9}
use kue_preorder.Prelude.Text.{Text, trim_space}
use kue_preorder.Prelude.Result.{Result, ok, err, ◌>>=◌, ◌>>◌}
use kue_preorder.Platform.Errors.{Error, precondition, Fields, check, fields_err}
use kue_preorder.Platform.Caller.{Role, owner, kitchen, Principal, authorize}
use kue_preorder.Orders.Store.{Order}
use kue_preorder.Inventory.Stock.{publish, audit}
use kue_preorder.Aggregation.Batches.{batch_done, eqb_status, ProductionBatch, Line, Kitchen}
use kue_preorder.Aggregation.Engine.{Failure, other, Catalog, Labels, lift}
use kue_preorder.Aggregation.Purchasing.{Procured, lock_shopping_list, record_changes}
use kue_preorder.Procurement.Orders.{
  order_ordered, item_ordered, Item, PurchaseOrder, Adapter, Purchases, order_with, insert_order,
}

abbrev pub staff : List Role
staff = owner ∷ kitchen ∷ []

abbrev pub max_note : ℕ
max_note = 500

abbrev pub max_qty : ℕ
max_qty = 100000000

-- What a call works with besides its arguments.
pub record Deps : Type 0 where
  pub floats : Floats
  pub catalog : Catalog
  pub adapter : Adapter
  pub orders : List Order
  pub draw : ℕ → ℕ
  pub new_batch_id : ℕ
  pub now : ℤ
  -- What the database makes of the read that follows a commit.
  pub read : Result Error (Unit {0})

-- `sameSupplier`.
abbrev pub same_supplier : Line → Option ℕ → Bool
same_supplier l supplier = elim l.pack [
  | none ↦ elim supplier [ none ↦ true | some s ↦ false ]
  | some p ↦ elim supplier [ none ↦ false | some s ↦ p.supplier_id == s ]
]

-- The audit entry and the event that end a transaction.
abbrev pub ended : String → String → ℕ → ℕ → ℤ → Kitchen → Kitchen
ended action event id actor now k = record k {
  stock =
      publish (record { type_name = event; entity_id = id; at = now })
        (audit (record { action = action; entity_id = id; actor_id = actor; at = now }) k.stock);
}

-- An item as it is ordered.
unfoldable pub item_of : Floats → ℕ → Line → Item
item_of F id l =
    let plain : Item = record {
      id = id;
      ingredient_id = l.ingredient_id;
      qty = l.to_buy;
      pack = none;
      status = item_ordered;
      qty_received = none;
      received_at = none;
    } in
    elim l.pack [
      | none ↦ plain
      | some p ↦ record plain {
        qty = F.to_int (F.ceil (F.sub (F.mul (F.of_int l.packs) p.size) float_1e_minus_9));
        pack =
            some
              (record { count = l.packs; size = p.size; unit = p.unit; price_idr = p.price_idr });
      }
    ]

-- The loop of `Create` over the lines; the ids of the items are the n-th drawn and those after it.
unfoldable pub items_for : Floats → (ℕ → ℕ) → Option ℕ → ℕ → List Line → List Item
unfolding item_of
items_for F draw supplier n [] = []
items_for F draw supplier n (l ∷ ls) =
    if leb_ℤ l.to_buy (pos 0) || not (same_supplier l supplier)
    then items_for F draw supplier n ls
    else item_of F (draw n) l ∷ items_for F draw supplier (suc n) ls

unfoldable pub ordered_changes : List Item → List Procured
ordered_changes [] = []
ordered_changes (it ∷ its) =
    record { ingredient_id = it.ingredient_id; ordered = it.qty; received = pos 0 }
    ∷ ordered_changes its

unfoldable pub new_order :
    Deps → Principal → ℤ → Option ℕ → Text → ProductionBatch → List Item → PurchaseOrder
new_order d p date supplier note b items = record {
  id = d.draw 0;
  batch_id = b.id;
  batch_date = date;
  supplier_id = supplier;
  adapter = d.adapter.key;
  external_ref = [];
  status = order_ordered;
  note = note;
  created_by = p.auth_user_id;
  created_at = d.now;
  items = items;
}

-- `s.shopping.Record`.
abbrev pub record_in : Deps → ℤ → List Procured → Kitchen → Result Failure Kitchen
record_in d date changes k =
    record_changes d.floats d.catalog d.orders d.new_batch_id date d.now changes k

-- What follows the choice of the items.
unfoldable pub place_order : Deps → Principal → PurchaseOrder → Purchases → Result Failure Purchases
unfolding ordered_changes insert_order record_changes
place_order d p o s = do
  ref ← lift (d.adapter.send o)
  orders ← lift (insert_order (record o { external_ref = ref }) s.orders)
  k ← record_in d o.batch_date (ordered_changes o.items) s.kitchen
  ok (record {
    orders = orders;
    kitchen =
        ended "procurement.order.created" "procurement.order_created" o.id p.auth_user_id d.now k;
  })

-- The transaction of `Create`.
unfoldable pub create_tx :
    Deps → Principal → ℤ → Option ℕ → Text → Purchases → Result Failure Purchases
unfolding lock_shopping_list items_for new_order place_order
create_tx d p date supplier note s = do
  (b, ls) ← lift (lock_shopping_list date s.kitchen)
  let items = items_for d.floats d.draw supplier 1 ls
  if eqb_status b.status batch_done then err (other (precondition "batch_done")) else elim items [
    | [] ↦ err (other (precondition "nothing_to_order"))
    | it ∷ its ↦ place_order d p (new_order d p date supplier note b (it ∷ its)) s
  ]

abbrev known_supplier : Labels → Option ℕ → Bool
known_supplier l none = true
known_supplier l (some s) = l.suppliers s

unfoldable pub create_fields : Labels → Option ℕ → Text → Fields
create_fields l supplier note =
    check (leb (length note) max_note) "note" (check (known_supplier l supplier) "supplier_id" [])

-- A transaction, followed by `view`: the read of the order, which may fail when the changes stand.
abbrev pub answered :
    (read : Result Error (Unit {0}))
    → ℕ
    → Result Failure Purchases
    → Purchases
    → Result Failure PurchaseOrder × Purchases
answered read id (err e) s = (err e, s)
answered (ok u) id (ok s') s = (lift (order_with id s'.orders), s')
answered (err e) id (ok s') s = (err (other e), s')

-- `Create`.
abbrev pub create_ready : Deps → Result Error Principal → Option ℕ → Text → Result Error Principal
create_ready d caller supplier note = do
  p ← authorize caller staff
  l ← d.catalog.labels
  fields_err (create_fields l supplier note)
  ok p

unfoldable pub create :
    Deps
    → Result Error Principal
    → ℤ
    → Option ℕ
    → Text
    → Purchases
    → Result Failure PurchaseOrder × Purchases
unfolding create_fields create_tx order_with
create d caller date supplier note s = elim (create_ready d caller supplier (trim_space note)) [
  | err e ↦ (err (other e), s)
  | ok p ↦ answered d.read (d.draw 0) (create_tx d p date supplier (trim_space note) s) s
]
