-- ===== src/Inventory/Kitchen/Recounted.antt =====
-- A stock count brings the ledger to what was counted.
use kue_preorder.Prelude.{
  ℕ, ◌==◌, ℤ, pos, negsuc, ◌+ℤ◌, ◌-ℤ◌, ◌≤ℤ◌, ◌^◌, ltb_ℤ, eqb_ℤ, min_ℤ, max_ℤ, +ℤ_parts, -ℤ_parts,
  +ℤ_assoc, eq_of_parts, ◌≡◌, ◌≢◌, refl, ap, ◌∙◌, Bool, true, false, List, [], ◌∷◌, All, arith, inl,
  inr, Bool-cases, Option-cases, int_laws, pos_part, neg_part,
}
use kue_preorder.Prelude.Word.{wrap64, ◌+64◌, ◌-64◌, -64_exact, InInt64}
use kue_preorder.Platform.Caller.{Principal}
use kue_preorder.Inventory.Stock.{Lot, Stock, lots_of}
use kue_preorder.Inventory.Consume.{draw}
use kue_preorder.Inventory.Consume.Taken.{held, held_nonneg, draw_remaining}
use kue_preorder.Inventory.Consume.Moved.{moved, plus_if, moved-append, draw-moved}
use kue_preorder.Inventory.Consume.Whole.{IsSoundStock}
use kue_preorder.Inventory.Intake.{Ingredient, max_qty}
use kue_preorder.Inventory.Kitchen.{
  CountInput, counted, adjusting, count_down, count_up, newest_available, total_from, apply_count,
}
use kue_preorder.Inventory.Kitchen.Counted.{count_down-draw, apply_count_sound}

zero_more : (t : ℤ) → t ≡ t +ℤ pos 0
zero_more t = omega int_laws

max_low : (b : ℤ) → pos 0 ≤ℤ max_ℤ b (pos 0)
max_low b = ground arith

add_exact :
    (t x h : ℤ)
    → pos 0 ≤ℤ t
    → pos 0 ≤ℤ x
    → pos 0 ≤ℤ h
    → t +ℤ (x +ℤ h) ≤ℤ pos (2 ^ 62)
    → (t +64 x ≡ t +ℤ x) × (pos 0 ≤ℤ t +ℤ x) × (t +ℤ x +ℤ h ≤ℤ pos (2 ^ 62))
unfolding ◌+64◌ wrap64 ◌+ℤ◌
add_exact (pos t) (pos x) (pos h) a b c d = ground arith
add_exact (negsuc t) x h a b c d = absurd (omega arith)
add_exact (pos t) (negsuc x) h a b c d = absurd (omega arith)
add_exact (pos t) (pos x) (negsuc h) a b c d = absurd (omega arith)

-- The wrapped sum of the loop is the plain one.
total_from-held :
    (t : ℤ) (ls : List Lot)
    → pos 0 ≤ℤ t
    → t +ℤ held ls ≤ℤ pos (2 ^ 62)
    → total_from t ls ≡ t +ℤ held ls
unfolding total_from held
total_from-held t [] low high = zero_more t
total_from-held t (l ∷ ls) low high =
    let x = max_ℤ l.balance (pos 0) in
    let (exact, next, whole) =
      add_exact t x (held ls) low (max_low l.balance) (held_nonneg ls) high in
    rw exact (total_from-held (t +ℤ x) ls next whole ∙ +ℤ_assoc t x (held ls))

count_up-moved :
    (p : Principal) (ing : Ingredient) (i : CountInput) (fresh : ℕ) (now diff : ℤ) (lots : List Lot)
    (s : Stock) (j : ℕ)
    → moved j (count_up p ing i fresh now diff lots s).movements
      ≡ plus_if (i.ingredient_id == j) (moved j s.movements) diff
unfolding count_up
count_up-moved p ing i fresh now diff lots s j = elim (Option-cases (newest_available lots)) [
  | inl e ↦ rw (e, count_up) (moved-append j s.movements _)
  | inr (l, e) ↦ rw (e, count_up) (moved-append j s.movements _)
]

no_change : (t : Bool) (x d : ℤ) → d ≡ pos 0 → x ≡ plus_if t x d
no_change true x d e = omega (int_laws, ap pos_part e, ap neg_part e)
no_change false x d e = refl

min_first : (r h : ℤ) → r ≤ℤ h → min_ℤ r h ≡ r
min_first (pos r) (pos h) e = ground arith
min_first (pos r) (negsuc h) e = ground arith
min_first (negsuc r) (pos h) e = ground arith
min_first (negsuc r) (negsuc h) e = ground arith

below : (a h r : ℤ) → pos 0 ≤ℤ a → r ≡ pos 0 -ℤ (a -ℤ h) → r ≤ℤ h
below a h r low e =
    omega (arith, low, ap pos_part e, ap neg_part e, -ℤ_parts a h, -ℤ_parts (pos 0) (a -ℤ h))

all_taken :
    (a h r left : ℤ)
    → pos 0 ≤ℤ a
    → r ≡ pos 0 -ℤ (a -ℤ h)
    → left ≡ r -ℤ min_ℤ r h
    → left -ℤ r ≡ a -ℤ h
all_taken a h r left low er el =
    let whole : left ≡ r -ℤ r = el ∙ ap (λ m. r -ℤ m) (min_first r h (below a h r low er)) in
    omega (int_laws, ap pos_part whole, ap neg_part whole, ap pos_part er, ap neg_part er)

count_down-moved :
    (p : Principal) (i : CountInput) (now r : ℤ) (lots : List Lot) (s : Stock) (j : ℕ)
    → pos 0 ≤ℤ i.actual
    → pos 0 ≤ℤ r
    → InInt64 r
    → r ≡ pos 0 -ℤ (i.actual -ℤ held lots)
    → moved j (count_down (λ l t. adjusting p i now l (pos 0 -ℤ t)) lots r s).1.movements
      ≡ plus_if (i.ingredient_id == j) (moved j s.movements) (i.actual -ℤ held lots)
count_down-moved p i now r lots s j low r_low range e =
    let move = λ (l : Lot) (t : ℤ). adjusting p i now l (pos 0 -ℤ t) in
    rw (count_down-draw move lots r s) (
      draw-moved i.ingredient_id j move lots r s (record { own = λ l t. refl; out = λ l t. refl })
        r_low range
      ∙ ap (plus_if (i.ingredient_id == j) (moved j s.movements)) (
          all_taken i.actual (held lots) r (draw move lots r s).0 low e
            (draw_remaining move lots r s r_low range)))

zero_before : (h : ℤ) → h ≤ℤ pos (2 ^ 62) → pos 0 +ℤ h ≤ℤ pos (2 ^ 62)
zero_before h e = omega (arith, +ℤ_parts (pos 0) h, e)

zero_sum : (h : ℤ) → pos 0 +ℤ h ≡ h
zero_sum h = omega int_laws

neg_low : (d : ℤ) → ltb_ℤ d (pos 0) ≡ true → pos 0 ≤ℤ pos 0 -ℤ d
neg_low d t = ground (arith, -ℤ_parts (pos 0) d)

range_of :
    (a h : ℤ)
    → pos 0 ≤ℤ a
    → a ≤ℤ pos max_qty
    → pos 0 ≤ℤ h
    → h ≤ℤ pos (2 ^ 62)
    → InInt64 (a -ℤ h) × InInt64 (pos 0 -ℤ (a -ℤ h))
unfolding ◌-ℤ◌
range_of (pos a) (pos h) low high h_low few = ground arith
range_of (negsuc a) h low high h_low few = absurd (omega arith)
range_of (pos a) (negsuc h) low high h_low few = absurd (omega arith)

apply_count-moved :
    (p : Principal) (ing : Ingredient) (i : CountInput) (fresh : ℕ) (now : ℤ) (s : Stock)
    → pos 0 ≤ℤ i.actual
    → i.actual ≤ℤ pos max_qty
    → held (lots_of i.ingredient_id counted s) ≤ℤ pos (2 ^ 62)
    → (j : ℕ)
    → moved j (apply_count p ing i fresh now s).movements
      ≡ plus_if
          (i.ingredient_id == j)
          (moved j s.movements)
          (i.actual -ℤ held (lots_of i.ingredient_id counted s))
unfolding apply_count
apply_count-moved p ing i fresh now s low high few j =
    let lots = lots_of i.ingredient_id counted s in
    let (in_range, out_range) = range_of i.actual (held lots) low high (held_nonneg lots) few in
    let total =
      total_from-held (pos 0) lots (omega arith) (zero_before (held lots) few)
      ∙ zero_sum (held lots) in
    let exact = ap (λ x. i.actual -64 x) total ∙ -64_exact i.actual (held lots) in_range in
    let diff = i.actual -ℤ held lots in
    elim (Bool-cases (eqb_ℤ diff (pos 0))) [
      | inl z ↦
          rw (exact, z)
            (no_change (i.ingredient_id == j) (moved j s.movements) diff
              (eq_of_parts diff (pos 0) (ground (arith, z))))
      | inr n ↦ elim (Bool-cases (ltb_ℤ diff (pos 0))) [
        | inl t ↦
            (let neg = -64_exact (pos 0) diff out_range in
              rw (exact, n, t, neg)
                (count_down-moved p i now (pos 0 -ℤ diff) lots s j low (neg_low diff t) out_range
                  refl))
        | inr f ↦ rw (exact, n, f) (count_up-moved p ing i fresh now diff lots s j)
      ]
    ]

-- From a stock in which no lot has given more than it got and no lot stands twice, a stock count leaves such a
-- stock, and the movements of the ingredient add up to what they did before, and what was counted in
-- addition, less what its lots held; those of every other ingredient add up to the same. What was
-- counted is within the bounds that the call checks, the lots hold at most 2^62, and the id that a new
-- lot would get is not in use.
pub apply_count_exact :
    (p : Principal) (ing : Ingredient) (i : CountInput) (fresh : ℕ) (now : ℤ) (s : Stock)
    → IsSoundStock s
    → All (λ q. q.id ≢ fresh) s.lots
    → pos 0 ≤ℤ i.actual
    → i.actual ≤ℤ pos max_qty
    → held (lots_of i.ingredient_id counted s) ≤ℤ pos (2 ^ 62)
    → IsSoundStock (apply_count p ing i fresh now s)
      × ((j : ℕ)
          → moved j (apply_count p ing i fresh now s).movements
            ≡ plus_if
                (i.ingredient_id == j)
                (moved j s.movements)
                (i.actual -ℤ held (lots_of i.ingredient_id counted s)))
apply_count_exact p ing i fresh now s h new low high few = (
  apply_count_sound p ing i fresh now s h new,
  apply_count-moved p ing i fresh now s low high few,
)
