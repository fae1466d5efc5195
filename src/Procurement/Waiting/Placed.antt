-- ===== src/Procurement/Waiting/Placed.antt =====
-- What a new order, a cancelled one and one that is written back leave waiting.
use mathlib.Core.Path.{subst}
use kue_preorder.Prelude.{
  ℕ, suc, ◌==◌, ℤ, pos, ◌+ℤ◌, ◌-ℤ◌, +ℤ_assoc, pos_part, neg_part, leb_ℤ, ◌≡◌, refl, sym, ap, ◌∙◌,
  Bool, true, false, not, ◌&&◌, ◌||◌, List, [], ◌∷◌, ◌++◌, All, Option, arith, inl, inr, Bool-cases,
  Option-cases, int_laws, if◌then◌else◌,
}
use kue_preorder.Prelude.Float.{Floats}
use kue_preorder.Prelude.Result.{ok, ok_eq}
use kue_preorder.Aggregation.Batches.{Line}
use kue_preorder.Procurement.Orders.{
  item_ordered, is_waiting, Item, PurchaseOrder, order_with, cancelled_item, put_order,
}
use kue_preorder.Procurement.Service.{same_supplier, item_of, items_for, ordered_changes}
use kue_preorder.Procurement.Closing.{cancel_items, cancel_changes}
use kue_preorder.Procurement.Ledger.{part, add_zero}
use kue_preorder.Procurement.Ledger.Recorded.{changed}
use kue_preorder.Procurement.Waiting.{
  item_waiting, items_waiting, order_waiting, waiting, zero_plus,
}

-- `Cancel`.
cancelled_sum : (q rest ch : ℤ) → pos 0 +ℤ (rest +ℤ ch) ≡ q +ℤ rest +ℤ (pos 0 -ℤ q +ℤ ch)
cancelled_sum q rest ch = omega int_laws

kept_sum : (w rest ch : ℤ) → w +ℤ (rest +ℤ ch) ≡ w +ℤ rest +ℤ ch
kept_sum w rest ch = omega int_laws

cancel_head :
    (j : ℕ) (it : Item) (rest ch : ℤ)
    → is_waiting it.status ≡ true
    → item_waiting j (cancelled_item it) +ℤ (rest +ℤ ch)
      ≡ item_waiting j it +ℤ rest +ℤ (part (j == it.ingredient_id) (pos 0 -ℤ it.qty) +ℤ ch)
cancel_head j it rest ch t = ground (
  arith,
  cancelled_sum it.qty rest ch,
  cancelled_sum (pos 0) rest ch,
  kept_sum (pos 0) rest (pos 0 +ℤ ch),
  kept_sum (pos 0) (pos 0) ch,
  zero_plus ch,
)

if_false : (t : Bool) (x y : Item) → t ≡ false → (if t then x else y) ≡ y
if_false t x y f = rw f refl

cancel_step :
    (j : ℕ) (it : Item) (its : List Item)
    → is_waiting it.status ≡ true
    → items_waiting j (cancel_items (it ∷ its))
      ≡ item_waiting j (cancelled_item it) +ℤ items_waiting j (cancel_items its)
unfolding cancel_items items_waiting
cancel_step j it its t = rw t refl

cancel_skip :
    (j : ℕ) (it : Item) (its : List Item)
    → is_waiting it.status ≡ false
    → items_waiting j (cancel_items (it ∷ its))
      ≡ item_waiting j it +ℤ items_waiting j (cancel_items its)
unfolding cancel_items items_waiting
cancel_skip j it its f =
    ap (λ x. item_waiting j x +ℤ items_waiting j (cancel_items its))
      (if_false (is_waiting it.status) (cancelled_item it) it f)

cancel_changes-head :
    (j : ℕ) (it : Item) (its : List Item)
    → is_waiting it.status ≡ true
    → part (j == it.ingredient_id) (pos 0 -ℤ it.qty) +ℤ changed true j (cancel_changes its)
      ≡ changed true j (cancel_changes (it ∷ its))
unfolding cancel_changes changed
cancel_changes-head j it its t = rw t refl

cancel_changes-skip :
    (j : ℕ) (it : Item) (its : List Item)
    → is_waiting it.status ≡ false
    → changed true j (cancel_changes its) ≡ changed true j (cancel_changes (it ∷ its))
unfolding cancel_changes changed
cancel_changes-skip j it its f = rw f refl

pub cancel_items-waiting :
    (j : ℕ) (items : List Item)
    → items_waiting j (cancel_items items)
      ≡ items_waiting j items +ℤ changed true j (cancel_changes items)
unfolding cancel_items cancel_changes items_waiting changed
cancel_items-waiting j [] = sym (add_zero (pos 0))
cancel_items-waiting j (it ∷ its) = elim (Bool-cases (is_waiting it.status)) [
  | inl t ↦
      cancel_step j it its t
      ∙ ap (λ z. item_waiting j (cancelled_item it) +ℤ z) (cancel_items-waiting j its)
      ∙ cancel_head j it (items_waiting j its) (changed true j (cancel_changes its)) t
      ∙ ap (λ z. item_waiting j it +ℤ items_waiting j its +ℤ z) (cancel_changes-head j it its t)
  | inr f ↦
      cancel_skip j it its f
      ∙ ap (λ z. item_waiting j it +ℤ z) (cancel_items-waiting j its)
      ∙ kept_sum (item_waiting j it) (items_waiting j its) (changed true j (cancel_changes its))
      ∙ ap (λ z. item_waiting j it +ℤ items_waiting j its +ℤ z) (cancel_changes-skip j it its f)
]

-- `Create`.
item_of-waits : (F : Floats) (id : ℕ) (l : Line) → (item_of F id l).status ≡ item_ordered
unfolding item_of
item_of-waits F id l = elim (Option-cases l.pack) [ inl n ↦ rw n refl | inr (p, e) ↦ rw e refl ]

pub items_for-wait :
    (F : Floats) (draw : ℕ → ℕ) (supplier : Option ℕ) (n : ℕ) (ls : List Line)
    → All (λ it. it.status ≡ item_ordered) (items_for F draw supplier n ls)
unfolding items_for
items_for-wait F draw supplier n [] = tt
items_for-wait F draw supplier n (l ∷ ls) =
    elim (Bool-cases (leb_ℤ l.to_buy (pos 0) || not (same_supplier l supplier))) [
      | inl t ↦ rw t (items_for-wait F draw supplier n ls)
      | inr f ↦ rw f (item_of-waits F (draw n) l, items_for-wait F draw supplier (suc n) ls)
    ]

waits : (it : Item) → it.status ≡ item_ordered → is_waiting it.status ≡ true
waits it e = ap is_waiting e

pub ordered_changes-waiting :
    (j : ℕ) (items : List Item)
    → All (λ it. it.status ≡ item_ordered) items
    → items_waiting j items ≡ changed true j (ordered_changes items)
unfolding ordered_changes items_waiting changed
ordered_changes-waiting j [] h = refl
ordered_changes-waiting j (it ∷ its) h =
    ap (λ t. part (t && j == it.ingredient_id) it.qty +ℤ items_waiting j its) (waits it h.0)
    ∙ ap (λ z. part (j == it.ingredient_id) it.qty +ℤ z) (ordered_changes-waiting j its h.1)

-- An order that is written back.
put_step : (a b c d e : ℤ) → b +ℤ c ≡ d +ℤ e → a +ℤ b +ℤ c ≡ a +ℤ d +ℤ e
put_step a b c d e h = omega (int_laws, ap pos_part h, ap neg_part h)

put_head : (x y w : ℤ) → y +ℤ w +ℤ x ≡ x +ℤ w +ℤ y
put_head x y w = omega int_laws

pub put_order-waiting :
    (id : ℕ) (f : PurchaseOrder → PurchaseOrder) (os : List PurchaseOrder) (o : PurchaseOrder)
    (c j : ℕ)
    → order_with id os ≡ ok o
    → waiting c j (put_order id f os) +ℤ order_waiting c j o
      ≡ waiting c j os +ℤ order_waiting c j (f o)
unfolding put_order order_with waiting
put_order-waiting id f [] o c j e = cc
put_order-waiting id f (x ∷ xs) o c j e = elim (Bool-cases (x.id == id)) [
  | inl t ↦
      let same = ok_eq x o (rw t at e) in
      rw t (
        ap (λ z. order_waiting c j (f x) +ℤ waiting c j xs +ℤ order_waiting c j z) (sym same)
        ∙ put_head (order_waiting c j x) (order_waiting c j (f x)) (waiting c j xs)
        ∙ ap (λ z. order_waiting c j x +ℤ waiting c j xs +ℤ order_waiting c j (f z)) same)
  | inr n ↦ rw n (
      put_step (order_waiting c j x) (waiting c j (put_order id f xs)) (order_waiting c j o)
        (waiting c j xs) (order_waiting c j (f o)) (put_order-waiting id f xs o c j (rw n at e)))
]

pub put_order-All :
    (P : PurchaseOrder → Type 0) (id : ℕ) (f : PurchaseOrder → PurchaseOrder)
    (os : List PurchaseOrder) (o : PurchaseOrder)
    → order_with id os ≡ ok o
    → All P os
    → P (f o)
    → All P (put_order id f os)
unfolding put_order order_with
put_order-All P id f [] o e h k = cc
put_order-All P id f (x ∷ xs) o e h k = elim (Bool-cases (x.id == id)) [
  | inl t ↦ rw t (subst (λ z. P (f z)) (sym (ok_eq x o (rw t at e))) k, h.1)
  | inr n ↦ rw n (h.0, put_order-All P id f xs o (rw n at e) h.1 k)
]

pub order_with-All :
    (P : PurchaseOrder → Type 0) (id : ℕ) (os : List PurchaseOrder) (o : PurchaseOrder)
    → order_with id os ≡ ok o
    → All P os
    → P o
unfolding order_with
order_with-All P id [] o e h = cc
order_with-All P id (x ∷ xs) o e h = elim (Bool-cases (x.id == id)) [
  | inl t ↦ subst P (ok_eq x o (rw t at e)) h.0
  | inr n ↦ order_with-All P id xs o (rw n at e) h.1
]

pub waiting-append :
    (c j : ℕ) (os : List PurchaseOrder) (o : PurchaseOrder)
    → waiting c j (os ++ o ∷ []) ≡ waiting c j os +ℤ order_waiting c j o
unfolding waiting
waiting-append c j [] o = omega int_laws
waiting-append c j (x ∷ xs) o =
    ap (λ z. order_waiting c j x +ℤ z) (waiting-append c j xs o)
    ∙ sym (+ℤ_assoc (order_waiting c j x) (waiting c j xs) (order_waiting c j o))
