-- ===== src/Procurement/Closing/Once.antt =====
-- A purchase order that is closed stays as it is.
use mathlib.Core.Path.{subst}
use Prim.Native.String.{String}
use kue_preorder.Prelude.{
  ℕ, ◌==◌, ◌≡◌, refl, sym, ap, ◌∙◌, ◌⊎◌, true, false, List, [], ◌∷◌, ◌++◌, contains_func, some,
  arith, inl, inr, Bool-cases,
}
use kue_preorder.Prelude.Text.{Text, trim_space}
use kue_preorder.Prelude.Result.{Result, ok, err, bind_ok, ok_eq}
use kue_preorder.Platform.Errors.{Error, precondition, Result-cases}
use kue_preorder.Platform.Caller.{Principal}
use kue_preorder.Aggregation.Engine.{Failure, other, lift, lift_ok}
use kue_preorder.Procurement.Orders.{
  order_received, order_cancelled, is_waiting, is_open, Item, PurchaseOrder, Purchases, order_with,
  put_order, insert_order, items_fit, order_ordered,
}
use kue_preorder.Procurement.Service.{Deps, answered, record_in}
use kue_preorder.Procurement.Closing.{
  closing, closed_status, settled, ReceiveInput, Closed, settle, open_order, receive_tx,
  receive_ready, receive, cancel_items, cancel_changes, cancel_tx, cancel_ready, cancel, or_now,
}

order_with-id :
    (id : ℕ) (os : List PurchaseOrder) (o : PurchaseOrder) → order_with id os ≡ ok o → o.id ≡ id
unfolding order_with
order_with-id id [] o e = cc
order_with-id id (x ∷ xs) o e = elim (Bool-cases (x.id == id)) [
  | inl t ↦ ap (λ y. y.id) (sym (ok_eq x o (rw t at e))) ∙ ground (arith, t)
  | inr n ↦ order_with-id id xs o (rw n at e)
]

-- An order that is open, under its own id.
pub open_order_lem :
    (id : ℕ) (os : List PurchaseOrder) (o : PurchaseOrder)
    → open_order id os ≡ ok o
    → (order_with o.id os ≡ ok o) × (is_open o.status ≡ true) × (o.id ≡ id)
unfolding open_order
open_order_lem id os o e =
    let (x, r, e') = bind_ok (lift (order_with id os)) _ o e in
    let found = lift_ok (order_with id os) x r in
    elim (Bool-cases (is_open x.status)) [
      | inr f ↦ cc (rw f at e')
      | inl t ↦
          let same = ok_eq x o (rw t at e') in
          (
            subst (λ y. order_with y.id os ≡ ok y) same
                (subst (λ i. order_with i os ≡ ok x) (sym (order_with-id id os x found)) found),
            subst (λ y. is_open y.status ≡ true) same t,
            subst (λ y. y.id ≡ id) same (order_with-id id os x found),
          )
    ]

-- Nothing of a cancelled order waits, so it is closed.
cancel_items-closing :
    (items : List Item)
    → ((closing order_cancelled (cancel_items items) ≡ some order_cancelled)
        ⊎ (closing order_cancelled (cancel_items items) ≡ some order_received))
      × (closing order_received (cancel_items items) ≡ some order_received)
unfolding closing cancel_items
cancel_items-closing [] = (inl refl, refl)
cancel_items-closing (it ∷ its) = ground (arith, cancel_items-closing its)

cancel_items-closed :
    (o : PurchaseOrder) → is_open (settled (cancel_items o.items) o).status ≡ false
unfolding closed_status
cancel_items-closed o = ground (arith, cancel_items-closing o.items)

cancel_items-rest :
    (items : List Item) → contains_func (λ it. is_waiting it.status) (cancel_items items) ≡ false
unfolding cancel_items
cancel_items-rest [] = refl
cancel_items-rest (it ∷ its) = ground (arith, cancel_items-rest its)

pub order_with-put :
    (id : ℕ) (f : PurchaseOrder → PurchaseOrder) (os : List PurchaseOrder) (o : PurchaseOrder)
    → ((x : PurchaseOrder) → (f x).id ≡ x.id)
    → order_with id os ≡ ok o
    → order_with id (put_order id f os) ≡ ok (f o)
unfolding order_with put_order
order_with-put id f [] o h e = cc
order_with-put id f (x ∷ xs) o h e = elim (Bool-cases (x.id == id)) [
  | inl t ↦ rw t (rw (ap (λ y. y == id) (h x) ∙ t) (ap (λ z. ok (f z)) (ok_eq x o (rw t at e))))
  | inr n ↦ rw n (rw n (order_with-put id f xs o h (rw n at e)))
]

-- An inserted order stands last.
pub insert_order_lem :
    (o : PurchaseOrder) (os os' : List PurchaseOrder)
    → insert_order o os ≡ ok os'
    → os ++ record o { status = order_ordered } ∷ [] ≡ os'
unfolding insert_order
insert_order_lem o os os' e = elim (Bool-cases (items_fit o.items)) [
  | inl t ↦ ok_eq _ _ (rw t at e)
  | inr f ↦ cc (rw f at e)
]

-- No call opens or changes a closed order.
open_order-closed :
    (id : ℕ) (os : List PurchaseOrder) (o : PurchaseOrder)
    → order_with id os ≡ ok o
    → is_open o.status ≡ false
    → open_order id os ≡ err (other (precondition "order_closed"))
unfolding open_order
open_order-closed id os o e c = rw (e, c) refl

pub settle-orders :
    (d : Deps) (p : Principal) (action event : String) (o : PurchaseOrder) (c : Closed)
    (s s' : Purchases)
    → settle d p action event o c s ≡ ok s'
    → put_order o.id (settled c.items) s.orders ≡ s'.orders
unfolding settle
settle-orders d p action event o c s s' e =
    let (k, _, e') =
      bind_ok (record_in d o.batch_date c.changes (record s.kitchen { stock = c.stock })) _ s' e in
    ap (λ x. x.orders) (ok_eq _ _ e')

-- A closed order, in which nothing waits.
abbrev pub IsClosed : PurchaseOrder → Type 0
IsClosed o =
    (is_open o.status ≡ false) × (contains_func (λ it. is_waiting it.status) o.items ≡ false)

cancel_tx-IsClosed :
    (d : Deps) (p : Principal) (id : ℕ) (s s' : Purchases) (o : PurchaseOrder)
    → cancel_tx d p id s ≡ ok s'
    → order_with id s'.orders ≡ ok o
    → IsClosed o
unfolding cancel_tx
cancel_tx-IsClosed d p id s s' o e found =
    let (o0, r, e1) = bind_ok (open_order id s.orders) _ s' e in
    let opened = open_order_lem id s.orders o0 r in
    let c : Closed = record {
      items = cancel_items o0.items;
      stock = s.kitchen.stock;
      changes = cancel_changes o0.items;
    } in
    let put =
      settle-orders d p "procurement.order.cancelled" "procurement.order_cancelled" o0 c s s' e1 in
    subst IsClosed
      (ok_eq (settled (cancel_items o0.items) o0) o (
        sym
          (order_with-put o0.id (settled (cancel_items o0.items)) s.orders o0 (λ x. refl) opened.0)
        ∙ ap (order_with o0.id) put
        ∙ subst (λ i. order_with i s'.orders ≡ ok o) (sym opened.2) found))
      (cancel_items-closed o0, cancel_items-rest o0.items)

-- A call that answers has done its transaction.
answered_ok :
    (read : Result Error (Unit {0})) (id : ℕ) (m : Result Failure Purchases) (s s' : Purchases)
    (o : PurchaseOrder)
    → answered read id m s ≡ (ok o, s')
    → (m ≡ ok s') × (order_with id s'.orders ≡ ok o)
answered_ok read id (err x) s s' o e = cc
answered_ok (err x) id (ok y) s s' o e = cc
answered_ok (ok u) id (ok x) s s' o e =
    let same = ap (λ y. y.1) e in
    (ap ok same, lift_ok _ o (ap (λ z. lift (order_with id z.orders)) (sym same) ∙ ap (λ y. y.0) e))

call_refused :
    {A : Type 0} (ready : Result Error A) (read : Result Error (Unit {0})) (id : ℕ)
    (f : A → Result Failure Purchases) (s : Purchases) (x : Failure)
    → ((a : A) → f a ≡ err x)
    → (g : Failure) × ((elim ready as (λ y. Result Failure PurchaseOrder × Purchases) [
      | err e ↦ (err (other e), s)
      | ok a ↦ answered read id (f a) s
    ])
        ≡ (err g, s))
call_refused (err e) read id f s x h = (other e, refl)
call_refused (ok a) read id f s x h = (x, ap (λ m. answered read id m s) (h a))

receive_closed :
    (d : Deps) (caller : Result Error Principal) (id : ℕ) (input : ReceiveInput) (s : Purchases)
    (o : PurchaseOrder)
    → order_with id s.orders ≡ ok o
    → is_open o.status ≡ false
    → (f : Failure) × (receive d caller id input s ≡ (err f, s))
unfolding receive receive_tx
receive_closed d caller id input s o h c =
    let at = or_now input.received_at d.now in
    call_refused (receive_ready d caller input.items at) d.read id
      (λ q. receive_tx d q.0 q.1 id input.items at s) s (other (precondition "order_closed"))
      (λ q. rw (open_order-closed id s.orders o h c) refl)

cancel_closed :
    (d : Deps) (caller : Result Error Principal) (id : ℕ) (reason : Text) (s : Purchases)
    (o : PurchaseOrder)
    → order_with id s.orders ≡ ok o
    → is_open o.status ≡ false
    → (f : Failure) × (cancel d caller id reason s ≡ (err f, s))
unfolding cancel cancel_tx
cancel_closed d caller id reason s o h c =
    call_refused (cancel_ready d caller (trim_space reason)) d.read id (λ p. cancel_tx d p id s) s
      (other (precondition "order_closed")) (λ p. rw (open_order-closed id s.orders o h c) refl)

cancel-IsClosed :
    (d : Deps) (caller : Result Error Principal) (id : ℕ) (reason : Text) (s s' : Purchases)
    (o : PurchaseOrder)
    → cancel d caller id reason s ≡ (ok o, s')
    → (order_with id s'.orders ≡ ok o) × IsClosed o
unfolding cancel
cancel-IsClosed d caller id reason s s' o e =
    elim (Result-cases (cancel_ready d caller (trim_space reason))) [
      | inr (x, q) ↦ cc (rw (q, cancel) at e)
      | inl (p, q) ↦
          let (done, found) =
            answered_ok d.read id (cancel_tx d p id s) s s' o (rw (q, cancel) at e) in
          (found, cancel_tx-IsClosed d p id s s' o done found)
    ]

-- Once Cancel has answered with an order, the order is closed and none of its items waits. Every later
-- Receive or Cancel of it is refused and changes nothing, whoever calls, with what input and at any time.
pub cancel_once :
    (d d' : Deps) (caller caller' : Result Error Principal) (id : ℕ) (reason reason' : Text)
    (input : ReceiveInput) (s s' : Purchases) (o : PurchaseOrder)
    → cancel d caller id reason s ≡ (ok o, s')
    → (is_open o.status ≡ false)
      × (contains_func (λ it. is_waiting it.status) o.items ≡ false)
      × ((f : Failure) × (receive d' caller' id input s' ≡ (err f, s')))
      × ((f : Failure) × (cancel d' caller' id reason' s' ≡ (err f, s')))
cancel_once d d' caller caller' id reason reason' input s s' o e =
    let (found, (closed, rest)) = cancel-IsClosed d caller id reason s s' o e in
    (
      closed,
      rest,
      receive_closed d' caller' id input s' o found closed,
      cancel_closed d' caller' id reason' s' o found closed,
    )
