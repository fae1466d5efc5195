-- ===== src/Orders/Checkout/Cart.antt =====
-- The cart of a checkout (internal/orders/checkout.go): its checks and its prices.
pub mod Total
use kue_preorder.Prelude.{
  ℕ, ◌==◌, leb, ℤ, pos, negsuc, ltb_ℤ, leb_ℤ, eqb_ℤ, Bool, true, false, not, ◌&&◌, ◌||◌, List, [],
  ◌∷◌, map, length, Option, none, some, if◌then◌else◌,
}
use kue_preorder.Prelude.Word.{◌+64◌, ◌*64◌}
use kue_preorder.Prelude.Text.{Text}
use kue_preorder.Prelude.Result.{Result, ok, err, ◌>>=◌, ◌>>◌}
use kue_preorder.Platform.Errors.{Error, Fields, validation, check, fields_err}
use kue_preorder.Payments.Dp.{max_order_total}
use kue_preorder.Orders.Store.{QuotedItem}

abbrev pub max_cart_lines : ℕ
max_cart_lines = 30

abbrev pub max_line_items : ℕ
max_line_items = 1000

pub record ItemRequest : Type 0 where
  pub variant_id : ℕ
  pub quantity : ℤ

pub record QuoteRequest : Type 0 where
  pub items : List ItemRequest
  pub pickup_at : ℤ

-- `catalog.VariantSummary` and `catalog.IngredientCost`, as checkout reads them.
pub record VariantSummary : Type 0 where
  pub id : ℕ
  pub product_name : Text
  pub name : Text
  pub price_idr : ℤ
  pub production_minutes : ℤ
  pub min_notice_hours : ℤ
  pub active : Bool
  pub product_active : Bool

pub record IngredientCost : Type 0 where
  pub per_item_idr : ℤ
  pub unpriced : List ℕ

-- `VariantSummary.OnSale`.
unfoldable pub on_sale : VariantSummary → Bool
on_sale v = v.active && v.product_active

-- The zero `time.Time`, midnight of 1 January of the year 1.
abbrev pub zero_time : ℤ
zero_time = negsuc 62135596799999999999

contains_id : ℕ → List ℕ → Bool
contains_id id [] = false
contains_id id (x ∷ xs) = x == id || contains_id id xs

-- The loop of `validateCart` over the lines, with the variants seen so far.
check_lines : List ℕ → List ItemRequest → Fields → Fields
unfolding contains_id
check_lines seen [] f = f
check_lines seen (it ∷ items) f = check_lines (it.variant_id ∷ seen) items (
    check (leb_ℤ (pos 1) it.quantity && leb_ℤ it.quantity (pos max_line_items)) "items" (
      check (not (contains_id it.variant_id seen)) "items"
        (check (not (it.variant_id == 0)) "items" f)))

-- `validateCart`.
unfoldable pub validate_cart : QuoteRequest → Result Error (Unit {0})
unfolding check_lines
validate_cart req = fields_err (
    check (not (eqb_ℤ req.pickup_at zero_time)) "pickup_at" (
      check_lines [] req.items (
        check (leb (length req.items) max_cart_lines) "items"
          (check (not (length req.items == 0)) "items" []))))

-- The map by id: the last variant with an id stands.
unfoldable pub by_id : List VariantSummary → ℕ → Option VariantSummary
by_id [] id = none
by_id (v ∷ vs) id = elim (by_id vs id) [
  | some later ↦ some later
  | none ↦ if v.id == id then some v else none
]

unfoldable pub quoted : ItemRequest → VariantSummary → QuotedItem
quoted it v = record {
  variant_id = v.id;
  product_name = v.product_name;
  variant_name = v.name;
  quantity = it.quantity;
  unit_price_idr = v.price_idr;
  line_total_idr = it.quantity *64 v.price_idr;
  production_minutes = v.production_minutes;
  min_notice_hours = v.min_notice_hours;
}

-- The variant of a line, if it is sold.
unfoldable pub sold : List VariantSummary → ItemRequest → Result Error VariantSummary
unfolding by_id on_sale
sold variants it = elim (by_id variants it.variant_id) [
  | none ↦ err (validation ("items" ∷ []))
  | some v ↦ if on_sale v then ok v else err (validation ("items" ∷ []))
]

-- The loop of `price`, with the subtotal so far.
unfoldable pub price_lines :
    List VariantSummary → ℤ → List ItemRequest → Result Error (List QuotedItem × ℤ)
unfolding sold quoted
price_lines variants sum [] = ok ([], sum)
price_lines variants sum (it ∷ items) = do
  v ← sold variants it
  let line = quoted it v
  (lines, total) ← price_lines variants (sum +64 line.line_total_idr) items
  ok (line ∷ lines, total)

-- What `price` fills in of a quote; the tax is 0.
pub record Priced : Type 0 where
  pub items : List QuotedItem
  pub subtotal_idr : ℤ
  pub tax_idr : ℤ
  pub total_idr : ℤ

unfoldable pub total_checked : Priced → Result Error Priced
total_checked q = do
  fields_err (
      check (leb_ℤ q.total_idr (pos max_order_total)) "items"
        (check (ltb_ℤ (pos 0) q.total_idr) "items" []))
  ok q

-- `price`, with `catalog.Variants` as an argument.
unfoldable pub price :
    (List ℕ → Result Error (List VariantSummary)) → List ItemRequest → Result Error Priced
unfolding price_lines total_checked
price read items = do
  variants ← read (map (λ it. it.variant_id) items)
  (lines, subtotal) ← price_lines variants (pos 0) items
  total_checked (record {
    items = lines;
    subtotal_idr = subtotal;
    tax_idr = pos 0;
    total_idr = subtotal +64 pos 0;
  })

-- The sum of `ingredientCost`. An ingredient without a price is left out, and logged.
unfoldable pub ingredient_sum : (ℕ → IngredientCost) → ℤ → List ItemRequest → ℤ
ingredient_sum costs sum [] = sum
ingredient_sum costs sum (it ∷ items) =
    ingredient_sum costs (sum +64 (it.quantity *64 (costs it.variant_id).per_item_idr)) items

-- `ingredientCost`, with `catalog.IngredientCosts` as an argument: a map whose missing entries are 0.
unfoldable pub ingredient_cost :
    (List ℕ → Result Error (ℕ → IngredientCost)) → List ItemRequest → Result Error ℤ
unfolding ingredient_sum
ingredient_cost read items = do
  costs ← read (map (λ it. it.variant_id) items)
  ok (ingredient_sum costs (pos 0) items)
