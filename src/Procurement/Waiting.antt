-- ===== src/Procurement/Waiting.antt =====
-- What waits in the purchase orders, and how a receipt changes it.
pub mod Placed
use mathlib.Core.Path.{subst}
use kue_preorder.Prelude.{
  ℕ, suc, ◌==◌, ℤ, pos, ◌+ℤ◌, ◌-ℤ◌, +ℤ_assoc, pos_part, neg_part, ltb_ℤ, leb_ℤ, ◌≡◌, refl, sym, ap,
  ◌∙◌, Bool, true, false, not, ◌&&◌, ◌||◌, List, [], ◌∷◌, ◌++◌, contains_func, All, Option, none,
  some, arith, inl, inr, Bool-cases, Option-cases, int_laws, if◌then◌else◌,
}
use kue_preorder.Prelude.Float.{Floats}
use kue_preorder.Prelude.Result.{Result, ok, err, ◌>>=◌, bind_ok, ok_eq}
use kue_preorder.Platform.Errors.{Error, not_found, precondition}
use kue_preorder.Inventory.Intake.{Ingredients}
use kue_preorder.Aggregation.Batches.{Line}
use kue_preorder.Aggregation.Purchasing.{Procured}
use kue_preorder.Aggregation.Engine.{Failure, other}
use kue_preorder.Procurement.Orders.{
  ItemStatus, item_ordered, item_received, item_cancelled, is_waiting, Item, PurchaseOrder,
  order_with, received_item, cancelled_item, close_item, put_order,
}
use kue_preorder.Procurement.Service.{Deps, same_supplier, item_of, items_for, ordered_changes}
use kue_preorder.Procurement.Closing.{
  Received, Closed, arrived, item_with, stocked, receive_item, receive_items, cancel_items,
  cancel_changes,
}
use kue_preorder.Procurement.Ledger.{part, add_zero, swap_middle, +ℤ_comm}
use kue_preorder.Procurement.Ledger.Recorded.{changed}

abbrev pub item_waiting : ℕ → Item → ℤ
item_waiting j it = part (is_waiting it.status && j == it.ingredient_id) it.qty

unfoldable pub items_waiting : ℕ → List Item → ℤ
items_waiting j [] = pos 0
items_waiting j (it ∷ its) = item_waiting j it +ℤ items_waiting j its

abbrev pub order_waiting : ℕ → ℕ → PurchaseOrder → ℤ
order_waiting c j o = part (c == o.batch_id) (items_waiting j o.items)

-- The quantities of an ingredient that the orders for a batch still wait for.
unfoldable pub waiting : ℕ → ℕ → List PurchaseOrder → ℤ
waiting c j [] = pos 0
waiting c j (o ∷ os) = order_waiting c j o +ℤ waiting c j os

-- A difference, as the sum that the code adds.
some_eq : (x y : Item) → some x ≡ some y → x ≡ y
some_eq x y e = cc

minus_sum : (a b : ℤ) → a +ℤ b +ℤ (pos 0 -ℤ a) ≡ b
minus_sum a b = omega int_laws

closed_sum : (a b : ℤ) → pos 0 +ℤ b ≡ a +ℤ b +ℤ (pos 0 -ℤ a)
closed_sum a b = omega int_laws

pub zero_plus : (b : ℤ) → pos 0 +ℤ b ≡ b
zero_plus b = omega int_laws

-- The item that stops waiting.
stops_waiting :
    (j : ℕ) (it it' : Item) (rest : ℤ)
    → is_waiting it.status ≡ true
    → is_waiting it'.status ≡ false
    → item_waiting j it' +ℤ rest
      ≡ item_waiting j it +ℤ rest +ℤ part (j == it.ingredient_id) (pos 0 -ℤ it.qty)
stops_waiting j it it' rest w w' = ground (arith, closed_sum it.qty rest, add_zero (pos 0 +ℤ rest))

close_item-head :
    (id : ℕ) (f : Item → Item) (x : Item) (xs : List Item)
    → (x.id == id) ≡ true
    → is_waiting x.status ≡ true
    → close_item id f (x ∷ xs) ≡ f x ∷ xs
unfolding close_item
close_item-head id f x xs t w = rw (t, w) refl

close_item-waiting :
    (j id : ℕ) (f : Item → Item) (items : List Item) (it : Item)
    → ((x : Item) → is_waiting (f x).status ≡ false)
    → item_with id items ≡ some it
    → is_waiting it.status ≡ true
    → items_waiting j (close_item id f items)
      ≡ items_waiting j items +ℤ part (j == it.ingredient_id) (pos 0 -ℤ it.qty)
unfolding item_with close_item items_waiting
close_item-waiting j id f [] it h e w = cc
close_item-waiting j id f (x ∷ xs) it h e w = elim (Bool-cases (x.id == id)) [
  | inl t ↦
      let same = some_eq x it (rw t at e) in
      let wx = ap (λ y. is_waiting y.status) same ∙ w in
      ap (items_waiting j) (close_item-head id f x xs t wx)
      ∙ (stops_waiting j x (f x) (items_waiting j xs) wx (h x)
          ∙ ap
              (λ y.
                item_waiting j x
                +ℤ items_waiting j xs
                +ℤ part (j == y.ingredient_id) (pos 0 -ℤ y.qty))
              same)
  | inr n ↦ rw n (
      ap (λ z. item_waiting j x +ℤ z) (close_item-waiting j id f xs it h (rw n at e) w)
      ∙ sym (
          +ℤ_assoc (item_waiting j x) (items_waiting j xs)
            (part (j == it.ingredient_id) (pos 0 -ℤ it.qty))))
]

changed-append :
    (j : ℕ) (cs : List Procured) (c : Procured)
    → changed true j (cs ++ c ∷ []) ≡ changed true j cs +ℤ part (j == c.ingredient_id) c.ordered
unfolding changed
changed-append j [] c = omega int_laws
changed-append j (x ∷ xs) c =
    ap (λ z. part (j == x.ingredient_id) x.ordered +ℤ z) (changed-append j xs c)
    ∙ sym (
        +ℤ_assoc (part (j == x.ingredient_id) x.ordered) (changed true j xs)
          (part (j == c.ingredient_id) c.ordered))

-- What the checklist closes is what it reports.
abbrev pub Reports : ℕ → Closed → Closed → Type 0
Reports j c c' =
    items_waiting j c'.items +ℤ changed true j c.changes
    ≡ items_waiting j c.items +ℤ changed true j c'.changes

shift : (w p a : ℤ) → w +ℤ p +ℤ a ≡ w +ℤ (a +ℤ p)
shift w p a = omega int_laws

receive_found :
    (d : Deps) (ing : Ingredients) (actor : ℕ) (at : ℤ) (n : ℕ) (r : Received) (c c' : Closed)
    (it : Item) (j : ℕ)
    → item_with r.item_id c.items ≡ some it
    → (if not (is_waiting it.status) then err (other (precondition "item_closed")) else (do
      s ← stocked ing it r at (d.draw n) actor d.now c.stock
      ok (record {
        items = close_item r.item_id (received_item r.qty at) c.items;
        stock = s;
        changes = c.changes ++ arrived it r.qty ∷ [];
      })))
      ≡ ok c'
    → Reports j c c'
receive_found d ing actor at n r c c' it j found e = elim (Bool-cases (is_waiting it.status)) [
  | inr f ↦ cc (rw f at e)
  | inl t ↦
      let (s, _, e') =
        bind_ok (stocked ing it r at (d.draw n) actor d.now c.stock) _ c' (rw t at e) in
      subst (Reports j c) (ok_eq _ _ e') (
        ap (λ z. z +ℤ changed true j c.changes)
          (close_item-waiting j r.item_id (received_item r.qty at) c.items it (λ x. refl) found t)
        ∙ shift (items_waiting j c.items) (part (j == it.ingredient_id) (pos 0 -ℤ it.qty))
            (changed true j c.changes)
        ∙ ap (λ z. items_waiting j c.items +ℤ z)
            (sym (changed-append j c.changes (arrived it r.qty))))
]

receive_item-Reports :
    (d : Deps) (ing : Ingredients) (actor : ℕ) (at : ℤ) (n : ℕ) (r : Received) (c c' : Closed)
    (j : ℕ)
    → receive_item d ing actor at n r c ≡ ok c'
    → Reports j c c'
unfolding receive_item
receive_item-Reports d ing actor at n r c c' j e =
    elim (Option-cases (item_with r.item_id c.items)) [
      | inl k ↦ cc (rw (k, receive_item) at e)
      | inr (it, k) ↦ receive_found d ing actor at n r c c' it j k (rw (k, receive_item) at e)
    ]

chain : (x y z a b c : ℤ) → y +ℤ a ≡ x +ℤ b → z +ℤ b ≡ y +ℤ c → z +ℤ a ≡ x +ℤ c
chain x y z a b c h k = omega (int_laws, ap pos_part h, ap neg_part h, ap pos_part k, ap neg_part k)

pub receive_items-Reports :
    (d : Deps) (ing : Ingredients) (actor : ℕ) (at : ℤ) (n : ℕ) (rs : List Received) (c c' : Closed)
    (j : ℕ)
    → receive_items d ing actor at n rs c ≡ ok c'
    → Reports j c c'
unfolding receive_items
receive_items-Reports d ing actor at n [] c c' j e = subst (Reports j c) (ok_eq c c' e) refl
receive_items-Reports d ing actor at n (r ∷ rs) c c' j e =
    let (m, h, e') = bind_ok (receive_item d ing actor at n r c) _ c' e in
    chain (items_waiting j c.items) (items_waiting j m.items) (items_waiting j c'.items)
      (changed true j c.changes) (changed true j m.changes) (changed true j c'.changes)
      (receive_item-Reports d ing actor at n r c m j h)
      (receive_items-Reports d ing actor at (suc n) rs m c' j e')
