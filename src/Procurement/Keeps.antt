-- ===== src/Procurement/Keeps.antt =====
-- What holds between the purchase orders and the shopping lists, and the end of a receipt or a cancellation.
pub mod Calls
use mathlib.Core.Path.{subst}
use Prim.Native.String.{String}
use kue_preorder.Prelude.{
  ℕ, ◌==◌, ℤ, pos, ◌+ℤ◌, ◌≡◌, ◌⊎◌, refl, sym, ap, ◌∙◌, Bool, true, false, ◌||◌, List, [], ◌∷◌, ◌++◌,
  contains_func, All, All-map, All-append, Option, none, some, arith, inl, inr, Bool-cases,
  Option-cases, int_laws, pos_part, neg_part, if◌then◌else◌,
}
use kue_preorder.Prelude.Text.{Text, trim_space}
use kue_preorder.Prelude.Result.{Result, ok, err, ◌>>=◌, bind_ok, ok_eq}
use kue_preorder.Platform.Errors.{Error, Result-cases, precondition}
use kue_preorder.Platform.Caller.{Principal}
use kue_preorder.Inventory.Intake.{Ingredients}
use kue_preorder.Aggregation.Batches.{
  ProductionBatch, batch_done, eqb_status, Line, Kitchen, batch_on, lines,
}
use kue_preorder.Aggregation.Engine.{Failure, other, lift, lift_ok}
use kue_preorder.Aggregation.Purchasing.{Procured, lock_shopping_list}
use kue_preorder.Procurement.Orders.{
  order_ordered, order_received, order_cancelled, item_ordered, item_received, item_cancelled,
  is_waiting, is_open, Item, PurchaseOrder, Purchases, order_with, put_order, insert_order,
  items_fit,
}
use kue_preorder.Procurement.Service.{
  Deps, record_in, items_for, ordered_changes, new_order, place_order, create_tx, create,
  create_ready, ended, answered,
}
use kue_preorder.Procurement.Closing.{
  closing, closed_status, settled, Received, ReceiveInput, Closed, begun, receive_items, settle,
  open_order, receive_tx, receive_ready, receive, cancel_items, cancel_changes, cancel_tx,
  cancel_ready, cancel, or_now,
}
use kue_preorder.Procurement.Ledger.{ordered_of, IsClean, part, add_zero}
use kue_preorder.Procurement.Ledger.Recorded.{
  id_on, batch_on-id_on, changed, Records, record_changes-Records,
}
use kue_preorder.Procurement.Waiting.{
  items_waiting, order_waiting, waiting, zero_plus, receive_items-Reports,
}
use kue_preorder.Procurement.Waiting.Placed.{
  cancel_items-waiting, items_for-wait, ordered_changes-waiting, put_order-waiting, put_order-All,
  order_with-All, waiting-append,
}

-- An order names the batch of its day, and is open exactly while one of its items waits.
abbrev pub IsFit : List ProductionBatch → PurchaseOrder → Type 0
IsFit bs o =
    (id_on o.batch_date bs ≡ some o.batch_id)
    × (is_open o.status ≡ contains_func (λ it. is_waiting it.status) o.items)

-- What every shopping list says is ordered is what the orders for its batch wait for.
pub record IsSettled (s : Purchases) : Type 0 where
  pub ledger : (b i : ℕ) → ordered_of b i s.kitchen.requirements ≡ waiting b i s.orders
  pub clean : All IsClean s.kitchen.requirements
  pub fit : All (IsFit s.kitchen.batches) s.orders

-- `closeIfDone` closes an order exactly if none of its items waits.
closing_lem :
    (items : List Item)
    → ((contains_func (λ it. is_waiting it.status) items ≡ true)
        × (closing order_cancelled items ≡ none)
        × (closing order_received items ≡ none))
      ⊎ ((contains_func (λ it. is_waiting it.status) items ≡ false)
          × ((closing order_cancelled items ≡ some order_cancelled)
              ⊎ (closing order_cancelled items ≡ some order_received))
          × (closing order_received items ≡ some order_received))
unfolding closing
closing_lem [] = inr (refl, inl refl, refl)
closing_lem (it ∷ its) = ground (arith, closing_lem its)

settled-open :
    (items : List Item) (o : PurchaseOrder)
    → is_open o.status ≡ true
    → is_open (closed_status o.status items) ≡ contains_func (λ it. is_waiting it.status) items
unfolding closed_status
settled-open items o h = ground (arith, closing_lem items)

-- The arithmetic of a change that is recorded on both sides.
pub both_sides :
    (r r' w w' x y ch : ℤ) → r ≡ w → r' ≡ r +ℤ ch → w' +ℤ x ≡ w +ℤ y → y ≡ x +ℤ ch → r' ≡ w'
both_sides r r' w w' x y ch a b c d = omega (
  int_laws,
  ap pos_part a,
  ap neg_part a,
  ap pos_part b,
  ap neg_part b,
  ap pos_part c,
  ap neg_part c,
  ap pos_part d,
  ap neg_part d,
)

pub changed_false :
    (t : Bool) (j : ℕ) (cs : List Procured) → changed t j cs ≡ part t (changed true j cs)
unfolding changed
changed_false true j cs = refl
changed_false false j [] = refl
changed_false false j (c ∷ cs) = zero_plus (changed false j cs) ∙ changed_false false j cs

pub part_sum : (t : Bool) (x y ch : ℤ) → y ≡ x +ℤ ch → part t y ≡ part t x +ℤ part t ch
part_sum true x y ch e = e
part_sum false x y ch e = sym (add_zero (pos 0))

pub some_id : (x y : ℕ) → some x ≡ some y → x ≡ y
some_id x y e = cc

pub IsFit-ids :
    (bs bs' : List ProductionBatch)
    → ((d : ℤ) → id_on d bs' ≡ id_on d bs)
    → (o : PurchaseOrder) → IsFit bs o
    → IsFit bs' o
IsFit-ids bs bs' same o h = (same o.batch_date ∙ h.0, h.1)

pub settle-IsSettled :
    (d : Deps) (p : Principal) (action event : String) (o : PurchaseOrder) (c : Closed)
    (s s' : Purchases)
    → IsSettled s
    → order_with o.id s.orders ≡ ok o
    → is_open o.status ≡ true
    → ((j : ℕ) → items_waiting j c.items ≡ items_waiting j o.items +ℤ changed true j c.changes)
    → settle d p action event o c s ≡ ok s'
    → IsSettled s'
unfolding settle
settle-IsSettled d p action event o c s s' h found is_o reports e =
    let k0 : Kitchen = record s.kitchen { stock = c.stock } in
    let (k, r, e') = bind_ok (record_in d o.batch_date c.changes k0) _ s' e in
    let rec =
      record_changes-Records d.floats d.catalog d.orders d.new_batch_id o.batch_date d.now c.changes
        k0 k r h.clean in
    let own = order_with-All (IsFit s.kitchen.batches) o.id s.orders o found h.fit in
    let same_id = some_id rec.batch_id o.batch_id (sym rec.found ∙ own.0) in
    subst IsSettled (ok_eq _ _ e') (record {
      ledger = λ b i.
          both_sides (ordered_of b i s.kitchen.requirements) (ordered_of b i k.requirements)
            (waiting b i s.orders) (waiting b i (put_order o.id (settled c.items) s.orders))
            (order_waiting b i o) (order_waiting b i (settled c.items o))
            (part (b == o.batch_id) (changed true i c.changes)) (h.ledger b i)
            (rec.sums b i
              ∙ ap (λ z. ordered_of b i s.kitchen.requirements +ℤ z)
                  (changed_false (b == rec.batch_id) i c.changes
                    ∙ ap (λ z. part (b == z) (changed true i c.changes)) same_id))
            (put_order-waiting o.id (settled c.items) s.orders o b i found)
            (part_sum (b == o.batch_id) (items_waiting i o.items) (items_waiting i c.items)
              (changed true i c.changes) (reports i));
      clean = rec.clean;
      fit =
          All-map (IsFit s.kitchen.batches) (IsFit k.batches) _
            (IsFit-ids s.kitchen.batches k.batches rec.ids)
            (put_order-All (IsFit s.kitchen.batches) o.id (settled c.items) s.orders o found h.fit
              (own.0, settled-open c.items o is_o));
    })
