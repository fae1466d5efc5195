-- ===== src/Orders/Checkout/Cart/Total.antt =====
-- The total of a cart beside the plain sum of its lines.
use mathlib.Core.Path.{subst}
use kue_preorder.Prelude.{
  ℕ, suc, ◌+◌, ◌*◌, ◌≤◌, ℤ, pos, negsuc, ◌≤ℤ◌, ◌+ℤ◌, ◌*ℤ◌, int_laws, ◌≡◌, ◌∙◌, List, [], ◌∷◌, All,
  map, length, some, arith, refl, sym, ap, +ℤ_assoc, Option-cases, inl, inr,
}
use kue_preorder.Prelude.Word.{wrap64_exact, ◌+64◌, ◌*64◌, +64_exact, pos_add64}
use kue_preorder.Prelude.Result.{Result, ok}
use kue_preorder.Platform.Errors.{Error, Fields, fields_err, >>=_ok, fields_err-eq-ok, check-eq-nil}
use kue_preorder.Payments.Dp.{max_order_total}
use kue_preorder.Orders.Store.{QuotedItem}
use kue_preorder.Orders.Checkout.Cart.{
  ItemRequest, QuoteRequest, VariantSummary, Priced, max_line_items, max_cart_lines, by_id, quoted,
  sold, price_lines, price, total_checked, validate_cart, check_lines,
}

-- A price that the catalog may hold.
abbrev pub IsPrice : VariantSummary → Type 0
IsPrice v = (pos 0 ≤ℤ v.price_idr) × (v.price_idr ≤ℤ pos max_order_total)

-- A quantity that a line may have.
abbrev pub IsQuantity : ItemRequest → Type 0
IsQuantity it = (pos 1 ≤ℤ it.quantity) × (it.quantity ≤ℤ pos max_line_items)

check_lines-nil :
    (seen : List ℕ) (items : List ItemRequest) (f : Fields)
    → check_lines seen items f ≡ []
    → (f ≡ []) × All IsQuantity items
unfolding check_lines
check_lines-nil seen [] f h = (h, tt)
check_lines-nil seen (it ∷ items) f h =
    let (now, rest) = check_lines-nil (it.variant_id ∷ seen) items _ h in
    let c1 = check-eq-nil _ "items" _ now in
    let c2 = check-eq-nil _ "items" _ c1.1 in
    let c3 = check-eq-nil _ "items" _ c2.1 in
    (c3.1, ((ground (arith, c1.0), ground (arith, c1.0)), rest))

cart_bounds :
    (req : QuoteRequest) {u : Unit {0}}
    → validate_cart req ≡ ok u
    → (length req.items ≤ max_cart_lines) × All IsQuantity req.items
unfolding validate_cart
cart_bounds req h =
    let c1 = check-eq-nil _ "pickup_at" _ (fields_err-eq-ok _ h) in
    let (f, quantities) = check_lines-nil [] req.items _ c1.1 in
    let c2 = check-eq-nil _ "items" _ f in (ground (arith, c2.0), quantities)

abbrev max_line : ℕ
max_line = max_line_items * max_order_total

product_bound : (a b : ℕ) → a ≤ max_line_items → b ≤ max_order_total → a * b ≤ max_line
product_bound a b h k = grind arith

line_exact :
    (q p : ℤ)
    → pos 1 ≤ℤ q
    → q ≤ℤ pos max_line_items
    → pos 0 ≤ℤ p
    → p ≤ℤ pos max_order_total
    → (q *64 p ≡ q *ℤ p) × (pos 0 ≤ℤ q *ℤ p) × (q *ℤ p ≤ℤ pos max_line)
unfolding ◌*64◌ ◌*ℤ◌
line_exact (pos a) (pos b) h1 h2 h3 h4 =
    let bound = product_bound a b (omega arith) (omega arith) in
    (wrap64_exact _ (ground (arith, bound)), ground arith, ground (arith, bound))
line_exact (pos a) (negsuc b) h1 h2 h3 h4 = absurd (omega arith)
line_exact (negsuc a) p h1 h2 h3 h4 = absurd (omega arith)

by_id-All :
    (P : VariantSummary → Type 0) (vs : List VariantSummary) (id : ℕ) (v : VariantSummary)
    → by_id vs id ≡ some v
    → All P vs
    → P v
unfolding by_id
by_id-All P [] id v e h = cc
by_id-All P (x ∷ vs) id v e h = elim (Option-cases (by_id vs id)) [
  | inl n ↦ (let same : x ≡ v = ground (arith, n) in subst P same h.0)
  | inr (y, k) ↦ by_id-All P vs id v (k ∙ cc (rw k at e)) h.1
]

sold-All :
    (P : VariantSummary → Type 0) (vs : List VariantSummary) (it : ItemRequest) (v : VariantSummary)
    → sold vs it ≡ ok v
    → All P vs
    → P v
unfolding sold
sold-All P vs it v e h = elim (Option-cases (by_id vs it.variant_id)) [
  | inl n ↦ cc (rw (n, sold) at e)
  | inr (x, k) ↦
      (let same : x ≡ v = ground (arith, k) in subst P same (by_id-All P vs it.variant_id x k h))
]

-- The sum of the lines as integers.
pub sum_lines : List QuotedItem → ℤ
sum_lines [] = pos 0
sum_lines (it ∷ items) = it.quantity *ℤ it.unit_price_idr +ℤ sum_lines items

-- A line's total is its quantity times its price.
abbrev pub IsExact : QuotedItem → Type 0
IsExact it = it.line_total_idr ≡ it.quantity *ℤ it.unit_price_idr

abbrev quantities : List ItemRequest → List ℤ
quantities items = map (λ (it : ItemRequest). it.quantity) items

abbrev quoted_quantities : List QuotedItem → List ℤ
quoted_quantities items = map (λ (it : QuotedItem). it.quantity) items

-- The subtotal after a line.
next_sum :
    (s l : ℤ) (k : ℕ)
    → pos 0 ≤ℤ s
    → s ≤ℤ pos (max_line * k)
    → pos 0 ≤ℤ l
    → l ≤ℤ pos max_line
    → suc k ≤ max_cart_lines
    → (s +64 l ≡ s +ℤ l) × (pos 0 ≤ℤ s +ℤ l) × (s +ℤ l ≤ℤ pos (max_line * suc k))
unfolding ◌+ℤ◌
next_sum (pos s) (pos l) k h1 h2 h3 h4 few =
    (+64_exact (pos s) (pos l) (ground arith, ground arith), ground arith, ground arith)
next_sum (pos s) (negsuc l) k h1 h2 h3 h4 few = absurd (omega arith)
next_sum (negsuc s) l k h1 h2 h3 h4 few = absurd (omega arith)

-- What pricing the lines from a subtotal gives.
abbrev Summed : ℤ → List ItemRequest → List QuotedItem → ℤ → Type 0
Summed s items lines total =
    (total ≡ s +ℤ sum_lines lines)
    × All IsExact lines
    × (quoted_quantities lines ≡ quantities items)
    × (pos 0 ≤ℤ total)
    × (total ≤ℤ pos (max_line * max_cart_lines))

first_line :
    (vs : List VariantSummary) (s : ℤ) (it : ItemRequest) (items : List ItemRequest)
    (lines : List QuotedItem) (total : ℤ)
    → price_lines vs s (it ∷ items) ≡ ok (lines, total)
    → (v : VariantSummary) × (rest : List QuotedItem) × (sold vs it ≡ ok v)
      × (price_lines vs (s +64 (it.quantity *64 v.price_idr)) items ≡ ok (rest, total))
      × (lines ≡ quoted it v ∷ rest)
unfolding price_lines quoted
first_line vs s it items lines total h =
    let (v, ev, h1) = >>=_ok (sold vs it) _ h in
    let ((rest, sum), er, h2) =
      >>=_ok (price_lines vs (s +64 (it.quantity *64 v.price_idr)) items) _ h1 in
    let same : sum ≡ total = cc in (v, rest, ev, rw (sym same) er, cc)

price_lines-Summed :
    (vs : List VariantSummary) (s : ℤ) (items : List ItemRequest) (k : ℕ) (lines : List QuotedItem)
    (total : ℤ)
    → pos 0 ≤ℤ s
    → s ≤ℤ pos (max_line * k)
    → k + length items ≤ max_cart_lines
    → All IsPrice vs
    → All IsQuantity items
    → price_lines vs s items ≡ ok (lines, total)
    → Summed s items lines total
unfolding price_lines sum_lines quoted
price_lines-Summed vs s [] k lines total low high few prices many h =
    let none_left : [] ≡ lines = cc in
    let same : s ≡ total = cc in
    subst (λ l. Summed s [] l total) none_left
      (sym same ∙ omega int_laws, tt, refl, ground (arith, same), ground (arith, same))
price_lines-Summed vs s (it ∷ items) k lines total low high few prices many h =
    let (v, rest, ev, er, same) = first_line vs s it items lines total h in
    let price = sold-All IsPrice vs it v ev prices in
    let l = it.quantity *ℤ v.price_idr in
    let (exact, line_low, line_high) =
      line_exact it.quantity v.price_idr many.0.0 many.0.1 price.0 price.1 in
    let (add, sum_low, sum_high) = next_sum s l k low high line_low line_high (omega arith) in
    let (ih, exacts, kept, low', high') =
      price_lines-Summed vs (s +ℤ l) items (suc k) rest total sum_low sum_high (omega arith) prices
        many.1 (rw (exact, add) at er) in
    subst (λ x. Summed s (it ∷ items) x total) (sym same)
      (
        ih ∙ +ℤ_assoc s l (sum_lines rest),
        (exact, exacts),
        ap (λ x. it.quantity ∷ x) kept,
        low',
        high',
      )

-- What a price is in terms of its lines.
pub record IsExactPrice (items : List ItemRequest) (q : Priced) : Type 0 where
  pub total : q.total_idr ≡ sum_lines q.items
  pub lines : All IsExact q.items
  pub same_quantities : quoted_quantities q.items ≡ quantities items

total_checked_lem : (q r : Priced) → total_checked q ≡ ok r → q ≡ r
unfolding total_checked
total_checked_lem q r h =
    let (u, e, k) = >>=_ok (fields_err _) (λ _. ok q) h in cc (let same : ok q ≡ ok r = k in same)

no_tax : (s : ℤ) → pos 0 ≤ℤ s → s ≤ℤ pos (max_line * max_cart_lines) → s +64 pos 0 ≡ s
no_tax (pos n) low high = pos_add64 n 0 (omega arith) ∙ ground arith
no_tax (negsuc n) low high = absurd (omega arith)

Summed-IsExactPrice :
    (items : List ItemRequest) (lines : List QuotedItem) (subtotal : ℤ) (q : Priced)
    → Summed (pos 0) items lines subtotal
    → record {
      items = lines;
      subtotal_idr = subtotal;
      tax_idr = pos 0;
      total_idr = subtotal +64 pos 0;
    }
      ≡ q
    → IsExactPrice items q
Summed-IsExactPrice items lines subtotal q (sum, exact, kept, low, high) same =
    subst (IsExactPrice items) same (record {
      total = no_tax subtotal low high ∙ sum ∙ omega int_laws;
      lines = exact;
      same_quantities = kept;
    })

-- For a cart that passes its checks, and a catalog whose prices lie between 0 and 2^40 rupiah, `price`
-- multiplies and adds without overflow: every line is its quantity times its price, the total is the
-- plain sum of the lines, and the quantities are those asked for.
pub price-IsExactPrice :
    (read : List ℕ → Result Error (List VariantSummary)) (req : QuoteRequest) (q : Priced)
    → ((ids : List ℕ) (vs : List VariantSummary) → read ids ≡ ok vs → All IsPrice vs)
    → validate_cart req ≡ ok tt
    → price read req.items ≡ ok q
    → IsExactPrice req.items q
unfolding price
price-IsExactPrice read req q prices valid h =
    let (vs, ev, h1) = >>=_ok (read _) _ h in
    let ((lines, subtotal), e, h2) = >>=_ok (price_lines vs (pos 0) req.items) _ h1 in
    let (few, many) = cart_bounds req valid in
    Summed-IsExactPrice req.items lines subtotal q
      (price_lines-Summed vs (pos 0) req.items 0 lines subtotal (omega arith) (omega arith)
        (omega arith) (prices _ vs ev) many e)
      (total_checked_lem _ q h2)
