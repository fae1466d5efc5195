-- ===== src/Procurement/Keeps/Calls.antt =====
-- `Create`, `Receive` and `Cancel` keep the purchase orders and the shopping lists together.
use mathlib.Core.Path.{subst}
use kue_preorder.Prelude.{
  ℕ, ◌==◌, ℤ, ◌+ℤ◌, ◌≡◌, ◌≢◌, refl, sym, ap, ◌∙◌, true, ◌||◌, List, [], ◌∷◌, contains_func, All,
  All-map, All-append, Option, some, inl, inr, Bool-cases, Option-cases,
}
use kue_preorder.Prelude.Text.{Text, trim_space}
use kue_preorder.Prelude.Result.{Result, ok, err, bind_ok, ok_eq}
use kue_preorder.Platform.Errors.{Error, precondition}
use kue_preorder.Platform.Caller.{Principal}
use kue_preorder.Inventory.Intake.{Ingredients}
use kue_preorder.Aggregation.Batches.{
  ProductionBatch, batch_done, eqb_status, Line, Kitchen, batch_on, lines,
}
use kue_preorder.Aggregation.Engine.{Failure, other, lift, lift_ok}
use kue_preorder.Aggregation.Purchasing.{lock_shopping_list}
use kue_preorder.Procurement.Orders.{
  order_ordered, item_ordered, is_waiting, Item, PurchaseOrder, Purchases, insert_order,
}
use kue_preorder.Procurement.Service.{
  Deps, record_in, items_for, ordered_changes, new_order, place_order, create_tx, create,
  create_ready, answered,
}
use kue_preorder.Procurement.Closing.{
  Received, ReceiveInput, Closed, begun, receive_items, open_order, receive_tx, receive_ready,
  receive, cancel_tx, cancel_ready, cancel, or_now,
}
use kue_preorder.Procurement.Closing.Once.{open_order_lem, insert_order_lem}
use kue_preorder.Procurement.Ledger.{part, add_zero}
use kue_preorder.Procurement.Ledger.Recorded.{
  id_on, batch_on-id_on, changed, record_changes-Records,
}
use kue_preorder.Procurement.Waiting.{Reports, items_waiting, waiting, receive_items-Reports}
use kue_preorder.Procurement.Waiting.Placed.{
  cancel_items-waiting, items_for-wait, ordered_changes-waiting, waiting-append,
}
use kue_preorder.Procurement.Keeps.{
  IsFit, IsSettled, IsFit-ids, changed_false, some_id, settle-IsSettled,
}

answered_keeps :
    (P : Purchases → Type 0) (read : Result Error (Unit {0})) (id : ℕ)
    (m : Result Failure Purchases) (s : Purchases)
    → P s
    → ((s' : Purchases) → m ≡ ok s' → P s')
    → P ((answered read id m s).1)
answered_keeps P (ok u) id (ok s') s h k = k s' refl
answered_keeps P (err x) id (ok s') s h k = k s' refl
answered_keeps P read id (err e) s h k = h

begun-Reports :
    (j : ℕ) (o : PurchaseOrder) (s : Purchases) (c : Closed)
    → Reports j (begun o s) c
    → items_waiting j c.items ≡ items_waiting j o.items +ℤ changed true j c.changes
unfolding changed
begun-Reports j o s c h = sym (add_zero (items_waiting j c.items)) ∙ h

receive_tx-IsSettled :
    (d : Deps) (p : Principal) (ing : Ingredients) (id : ℕ) (rs : List Received) (at : ℤ)
    (s s' : Purchases)
    → IsSettled s
    → receive_tx d p ing id rs at s ≡ ok s'
    → IsSettled s'
unfolding receive_tx
receive_tx-IsSettled d p ing id rs at s s' h e =
    let (o, r, e1) = bind_ok (open_order id s.orders) _ s' e in
    let (c, q, e2) = bind_ok (receive_items d ing p.auth_user_id at 0 rs (begun o s)) _ s' e1 in
    let opened = open_order_lem id s.orders o r in
    settle-IsSettled d p "procurement.order.received" "procurement.order_received" o c s s' h
      opened.0 opened.1
      (λ j.
        begun-Reports j o s c
          (receive_items-Reports d ing p.auth_user_id at 0 rs (begun o s) c j q))
      e2

cancel_tx-IsSettled :
    (d : Deps) (p : Principal) (id : ℕ) (s s' : Purchases)
    → IsSettled s
    → cancel_tx d p id s ≡ ok s'
    → IsSettled s'
unfolding cancel_tx
cancel_tx-IsSettled d p id s s' h e =
    let (o, r, e1) = bind_ok (open_order id s.orders) _ s' e in
    let opened = open_order_lem id s.orders o r in
    settle-IsSettled d p "procurement.order.cancelled" "procurement.order_cancelled" o _ s s' h
      opened.0 opened.1 (λ j. cancel_items-waiting j o.items) e1

-- An order whose items all wait.
new_order-open :
    (items : List Item)
    → All (λ it. it.status ≡ item_ordered) items
    → (items ≢ [])
    → contains_func (λ it. is_waiting it.status) items ≡ true
new_order-open [] h ne = absurd (ne refl)
new_order-open (it ∷ its) h ne =
    ap (λ x. is_waiting x || contains_func (λ y. is_waiting y.status) its) h.0

place_order-IsSettled :
    (d : Deps) (p : Principal) (o : PurchaseOrder) (s s' : Purchases)
    → IsSettled s
    → id_on o.batch_date s.kitchen.batches ≡ some o.batch_id
    → All (λ it. it.status ≡ item_ordered) o.items
    → o.items ≢ []
    → place_order d p o s ≡ ok s'
    → IsSettled s'
unfolding place_order insert_order
place_order-IsSettled d p o s s' h own wait ne e =
    let (ref, _, e1) = bind_ok (lift (d.adapter.send o)) _ s' e in
    let row : PurchaseOrder = record o { external_ref = ref; status = order_ordered } in
    let (orders, q, e2) =
      bind_ok (lift (insert_order (record o { external_ref = ref }) s.orders)) _ s' e1 in
    let (k, r, e3) =
      bind_ok (record_in d o.batch_date (ordered_changes o.items) s.kitchen) _ s' e2 in
    let rec =
      record_changes-Records d.floats d.catalog d.orders d.new_batch_id o.batch_date d.now
        (ordered_changes o.items) s.kitchen k r h.clean in
    let same_id = some_id rec.batch_id o.batch_id (sym rec.found ∙ own) in
    let placed =
      insert_order_lem (record o { external_ref = ref }) s.orders orders (lift_ok _ orders q) in
    subst IsSettled (ok_eq _ _ e3) (record {
      ledger = λ b i.
          rec.sums b i
          ∙ ap (λ z. z +ℤ changed (b == rec.batch_id) i (ordered_changes o.items)) (h.ledger b i)
          ∙ ap (λ z. waiting b i s.orders +ℤ z)
              (changed_false (b == rec.batch_id) i (ordered_changes o.items)
                ∙ ap (λ z. part (b == z) (changed true i (ordered_changes o.items))) same_id
                ∙ ap (part (b == o.batch_id)) (sym (ordered_changes-waiting i o.items wait)))
          ∙ sym (waiting-append b i s.orders row)
          ∙ ap (waiting b i) placed;
      clean = rec.clean;
      fit = subst (All (IsFit k.batches)) placed (
          All-append (IsFit k.batches) s.orders (row ∷ [])
            (All-map (IsFit s.kitchen.batches) (IsFit k.batches) s.orders
              (IsFit-ids s.kitchen.batches k.batches rec.ids) h.fit)
            ((rec.ids o.batch_date ∙ own, sym (new_order-open o.items wait ne)), tt));
    })

lock_list-id_on :
    (date : ℤ) (k : Kitchen) (b : ProductionBatch) (ls : List Line)
    → lock_shopping_list date k ≡ ok (b, ls)
    → id_on date k.batches ≡ some b.id
unfolding lock_shopping_list
lock_list-id_on date k b ls e = elim (Option-cases (batch_on date k.batches)) [
  | inl n ↦ cc (rw (n, lock_shopping_list) at e)
  | inr (x, q) ↦
      batch_on-id_on date k.batches x q
      ∙ ap (λ y. some y.0.id)
          (ok_eq (x, lines x.id k.requirements) (b, ls) (rw (q, lock_shopping_list) at e))
]

place_some :
    (d : Deps) (p : Principal) (date : ℤ) (supplier : Option ℕ) (note : Text) (b : ProductionBatch)
    (s s' : Purchases) (items : List Item)
    → IsSettled s
    → id_on date s.kitchen.batches ≡ some b.id
    → All (λ it. it.status ≡ item_ordered) items
    → (elim items [
      | [] ↦ err (other (precondition "nothing_to_order"))
      | it ∷ its ↦ place_order d p (new_order d p date supplier note b (it ∷ its)) s
    ])
      ≡ ok s'
    → IsSettled s'
unfolding new_order
place_some d p date supplier note b s s' [] h own wait e = cc
place_some d p date supplier note b s s' (it ∷ its) h own wait e =
    place_order-IsSettled d p (new_order d p date supplier note b (it ∷ its)) s s' h own wait
      (λ q. cc) e

create_tx-IsSettled :
    (d : Deps) (p : Principal) (date : ℤ) (supplier : Option ℕ) (note : Text) (s s' : Purchases)
    → IsSettled s
    → create_tx d p date supplier note s ≡ ok s'
    → IsSettled s'
unfolding create_tx
create_tx-IsSettled d p date supplier note s s' h e =
    let ((b, ls), r, e1) = bind_ok (lift (lock_shopping_list date s.kitchen)) _ s' e in
    elim (Bool-cases (eqb_status b.status batch_done)) [
      | inl t ↦ cc (rw t at e1)
      | inr f ↦
          place_some d p date supplier note b s s' (items_for d.floats d.draw supplier 1 ls) h
            (lock_list-id_on date s.kitchen b ls (lift_ok _ (b, ls) r))
            (items_for-wait d.floats d.draw supplier 1 ls) (rw f at e1)
    ]

call_keeps :
    {A : Type 0} (P : Purchases → Type 0) (ready : Result Error A) (read : Result Error (Unit {0}))
    (id : ℕ) (f : A → Result Failure Purchases) (s : Purchases)
    → P s
    → ((a : A) (s' : Purchases) → f a ≡ ok s' → P s')
    → P (
        (elim ready as (λ x. Result Failure PurchaseOrder × Purchases) [
          | err e ↦ (err (other e), s)
          | ok a ↦ answered read id (f a) s
        ]).1)
call_keeps P (err e) read id f s h k = h
call_keeps P (ok a) read id f s h k = answered_keeps P read id (f a) s h (k a)

-- Suppose every shopping list says of each ingredient that as much is ordered as the purchase orders for its
-- batch wait for, a line that is still only needed has nothing ordered, and every order names the batch
-- of its day and is open exactly while one of its items waits. Then all of this holds after any call of
-- Create, of Receive or of Cancel, whether it succeeds or fails.
pub purchases_keep :
    (d : Deps) (caller : Result Error Principal) (date : ℤ) (supplier : Option ℕ) (note : Text)
    (id : ℕ) (input : ReceiveInput) (reason : Text) (s : Purchases)
    → IsSettled s
    → IsSettled ((create d caller date supplier note s).1)
      × IsSettled ((receive d caller id input s).1)
      × IsSettled ((cancel d caller id reason s).1)
unfolding create receive cancel
purchases_keep d caller date supplier note id input reason s h = (
  call_keeps IsSettled (create_ready d caller supplier (trim_space note)) d.read (d.draw 0)
      (λ p. create_tx d p date supplier (trim_space note) s) s h
      (λ p s' e. create_tx-IsSettled d p date supplier (trim_space note) s s' h e),
  call_keeps IsSettled (receive_ready d caller input.items (or_now input.received_at d.now)) d.read
      id (λ q. receive_tx d q.0 q.1 id input.items (or_now input.received_at d.now) s) s h
      (λ q s' e.
        receive_tx-IsSettled d q.0 q.1 id input.items (or_now input.received_at d.now) s s' h e),
  call_keeps IsSettled (cancel_ready d caller (trim_space reason)) d.read id
      (λ p. cancel_tx d p id s) s h (λ p s' e. cancel_tx-IsSettled d p id s s' h e),
)
