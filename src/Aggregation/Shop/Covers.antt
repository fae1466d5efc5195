-- ===== src/Aggregation/Shop/Covers.antt =====
-- What `Shop` leaves on the list for each ingredient.
use mathlib.Core.Path.{subst}
use kue_preorder.Prelude.{
  ℕ, ◌==◌, ℤ, pos, ◌+ℤ◌, ◌-ℤ◌, -ℤ_bounds, +ℤ_parts, -ℤ_parts, ◌^◌, ◌≤ℤ◌, min_ℤ, max_ℤ, ◌≡◌, ◌≢◌,
  refl, sym, ap, ◌∙◌, Bool, true, false, ◌&&◌, List, [], ◌∷◌, Option, none, some, All, arith, inl,
  inr, Bool-cases, Option-cases, leb_ℤ, eq_of_parts, if◌then◌else◌,
}
use kue_preorder.Prelude.Float.{Floats}
use kue_preorder.Prelude.Word.{◌-64◌, -64_exact}
use kue_preorder.Aggregation.Batches.{DefaultPack, Line}
use kue_preorder.Aggregation.Shop.{Need, is_touched, new_line, kept, served, shop}
use kue_preorder.Aggregation.Shop.Lookup.{
  line_of, or_else, need_of, touched_of, or_new, wanted, kept_of, served_of, shop-line_of,
}

-- What a line gives for its need.
pub record Covers (stock : ℤ) (l : Line) : Type 0 where
  pub in_stock : l.usable_stock ≤ℤ max_ℤ stock (pos 0)
  pub of_need : l.usable_stock ≤ℤ l.needed
  pub enough : l.needed ≤ℤ l.usable_stock +ℤ l.ordered +ℤ l.to_buy
  pub no_more : pos 0 ≢ l.to_buy → l.needed ≡ l.usable_stock +ℤ l.ordered +ℤ l.to_buy

abbrev pub InAmounts : ℤ → Type 0
InAmounts q = (pos 0 ≤ℤ q) × (q ≤ℤ pos (2 ^ 62))

left_exact : (n u o : ℤ) → InAmounts n → InAmounts u → InAmounts o → n -64 u -64 o ≡ n -ℤ u -ℤ o
left_exact n u o hn hu ho =
    let b = -ℤ_bounds n u in
    let c = -ℤ_bounds (n -ℤ u) o in
    let one = -64_exact n u (ground arith, ground arith) in
    ap (λ x. x -64 o) one ∙ -64_exact (n -ℤ u) o (ground arith, ground arith)

-- What is bought covers what is left of the need, and no more than that.
bought_lem :
    (n u o : ℤ)
    → let x = max_ℤ (n -ℤ u -ℤ o) (pos 0) in (n ≤ℤ u +ℤ o +ℤ x) × (pos 0 ≢ x → n ≡ u +ℤ o +ℤ x)
bought_lem n u o =
    let a = -ℤ_parts n u in
    let b = -ℤ_parts (n -ℤ u) o in
    let c = +ℤ_parts u o in
    elim (Bool-cases (leb_ℤ (n -ℤ u -ℤ o) (pos 0))) [
      | inl t ↦ let d = +ℤ_parts (u +ℤ o) (pos 0) in rw t (ground arith, (λ ne. absurd (ne refl)))
      | inr f ↦
          let d = +ℤ_parts (u +ℤ o) (n -ℤ u -ℤ o) in
          rw f (ground arith, (λ ne. eq_of_parts _ _ (ground arith)))
    ]

served-Covers :
    (F : Floats) (packs : ℕ → Option DefaultPack) (stock : ℕ → ℤ) (l : Line)
    → InAmounts l.needed
    → InAmounts l.ordered
    → Covers (stock l.ingredient_id) (served F packs stock l)
unfolding served
served-Covers F packs stock l hn ho =
    let usable = min_ℤ (max_ℤ (stock l.ingredient_id) (pos 0)) l.needed in
    let exact = left_exact l.needed usable l.ordered hn (ground arith) ho in
    record {
      in_stock = ground arith;
      of_need = ground arith;
      enough =
          subst (λ x. l.needed ≤ℤ usable +ℤ l.ordered +ℤ max_ℤ x (pos 0)) (sym exact)
            (bought_lem l.needed usable l.ordered).0;
      no_more =
          subst (λ x. pos 0 ≢ max_ℤ x (pos 0) → l.needed ≡ usable +ℤ l.ordered +ℤ max_ℤ x (pos 0))
            (sym exact) (bought_lem l.needed usable l.ordered).1;
    }

or_else-All :
    (P : Line → Type 0) (o o' : Option Line) (l : Line)
    → ((l : Line) → o ≡ some l → P l)
    → ((l : Line) → o' ≡ some l → P l)
    → or_else o o' ≡ some l
    → P l
unfolding or_else
or_else-All P none o' l h h' e = h' l e
or_else-All P (some x) o' l h h' e = h l e

some_inj : (x y : Line) → some x ≡ some y → x ≡ y
some_inj x y e = cc

touched_of-All :
    (P : Line → Type 0) (i : ℕ) (es : List Line) (l : Line)
    → All P es
    → touched_of i es ≡ some l
    → P l
unfolding touched_of
touched_of-All P i [] l h e = cc
touched_of-All P i (x ∷ xs) l h e =
    or_else-All P (touched_of i xs) _ l (λ y k. touched_of-All P i xs y h.1 k)
      (λ y k. one (is_touched x.status && x.ingredient_id == i) y k) e
  where
    one : (t : Bool) (y : Line) → (if t then some x else none) ≡ some y → P y
    one true y k = subst P (some_inj x y k) h.0
    one false y k = cc

-- A touched line is one of its ingredient.
touched_of-ingredient :
    (i : ℕ) (es : List Line) (l : Line) → touched_of i es ≡ some l → l.ingredient_id ≡ i
unfolding touched_of
touched_of-ingredient i [] l e = cc
touched_of-ingredient i (x ∷ xs) l e =
    or_else-All (λ y. y.ingredient_id ≡ i) (touched_of i xs) _ l (touched_of-ingredient i xs)
      (λ y k. ground arith) e

-- An ingredient that is needed has its line on the list, with the need that counts. The stock that the
-- line counts on is within what there is and within the need, and with what is ordered and what is to
-- be bought it covers the need; nothing is bought beyond it. A need and an ordered quantity lie between
-- 0 and 2^62, the stock is any number.
pub shop-Covers :
    (F : Floats) (packs : ℕ → Option DefaultPack) (b : ℕ) (needs : List Need) (stock : ℕ → ℤ)
    (existing : List Line) (i : ℕ) (q : ℤ)
    → All (λ e. InAmounts e.ordered) existing
    → InAmounts q
    → need_of i needs ≡ some q
    → (l : Line) × (line_of i (shop F packs b needs stock existing) ≡ some l)
      × (l.needed ≡ q)
      × Covers (stock i) l
unfolding served_of wanted kept_of or_new served
shop-Covers F packs b needs stock existing i q fits small e =
    elim (Option-cases (touched_of i existing)) [
      | inl n ↦ (
        served F packs stock (record (new_line b i) { needed = q }),
        shop-line_of F packs b needs stock existing i ∙ rw (e, n) refl,
        refl,
        served-Covers F packs stock (record (new_line b i) { needed = q }) small
            (omega arith, omega arith),
      )
      | inr (t, k) ↦ (
        served F packs stock (record (kept b t) { needed = q }),
        shop-line_of F packs b needs stock existing i ∙ rw (e, k) refl,
        refl,
        subst (λ j. Covers (stock j) (served F packs stock (record (kept b t) { needed = q })))
            (touched_of-ingredient i existing t k)
            (served-Covers F packs stock (record (kept b t) { needed = q }) small
              (touched_of-All _ i existing t fits k)),
      )
    ]

-- A line that procurement has touched stays on the list, whatever is needed: what was ordered, what
-- was received and the status stay.
pub shop_keeps :
    (F : Floats) (packs : ℕ → Option DefaultPack) (b : ℕ) (needs : List Need) (stock : ℕ → ℤ)
    (existing : List Line) (i : ℕ) (e : Line)
    → touched_of i existing ≡ some e
    → (l : Line) × (line_of i (shop F packs b needs stock existing) ≡ some l)
      × (l.ordered ≡ e.ordered)
      × (l.received ≡ e.received)
      × (l.status ≡ e.status)
unfolding served_of wanted kept_of or_new served
shop_keeps F packs b needs stock existing i e k = elim (Option-cases (need_of i needs)) [
  | inl n ↦ (
    served F packs stock (kept b e),
    shop-line_of F packs b needs stock existing i ∙ rw (n, k) refl,
    refl,
    refl,
    refl,
  )
  | inr (q, n) ↦ (
    served F packs stock (record (kept b e) { needed = q }),
    shop-line_of F packs b needs stock existing i ∙ rw (n, k) refl,
    refl,
    refl,
    refl,
  )
]
