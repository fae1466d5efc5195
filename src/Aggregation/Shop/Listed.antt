-- ===== src/Aggregation/Shop/Listed.antt =====
-- The stock that `Shop` counts on, and the lines that it keeps.
use kue_preorder.Prelude.{
  ℕ, ◌==◌, ℤ, pos, min_ℤ, max_ℤ, ◌≤ℤ◌, ltb, ◌≡◌, refl, sym, ◌∙◌, Bool, false, ◌&&◌, ◌||◌, List, [],
  ◌∷◌, contains_func, Option, none, some, All, arith, inl, inr, Bool-cases,
}
use kue_preorder.Prelude.Float.{Floats}
use kue_preorder.Aggregation.Batches.{DefaultPack, Line, insert_line, lines}
use kue_preorder.Aggregation.Rows.Saved.{in_list, IsUntouched}
use kue_preorder.Aggregation.Shop.{Need, is_touched, served, listed, shop, carried, with_needs}
use kue_preorder.Aggregation.Shop.Lookup.{
  line_of, or_else, need_of, touched_of, wanted, kept_of, served_of, shop-line_of,
}

-- `Shop` counts on no more than the stock that it is given.
abbrev pub CountsOn : (ℕ → ℤ) → Line → Type 0
CountsOn stock l = l.usable_stock ≤ℤ max_ℤ (stock l.ingredient_id) (pos 0)

insert_line-All :
    (P : Line → Type 0) (l : Line) (ls : List Line) → P l → All P ls → All P (insert_line l ls)
unfolding insert_line
insert_line-All P l [] h k = (h, tt)
insert_line-All P l (x ∷ xs) h k = elim (Bool-cases (ltb x.ingredient_id l.ingredient_id)) [
  | inl t ↦ rw t (k.0, insert_line-All P l xs h k.1)
  | inr f ↦ rw f (h, k)
]

min_left : (a b : ℤ) → min_ℤ a b ≤ℤ a
min_left a b = ground arith

listed-CountsOn :
    (F : Floats) (packs : ℕ → Option DefaultPack) (stock : ℕ → ℤ) (ls : List Line)
    → All (CountsOn stock) (listed F packs stock ls)
unfolding listed served
listed-CountsOn F packs stock [] = tt
listed-CountsOn F packs stock (l ∷ ls) =
    insert_line-All (CountsOn stock) (served F packs stock l) (listed F packs stock ls)
      (min_left (max_ℤ (stock l.ingredient_id) (pos 0)) l.needed) (listed-CountsOn F packs stock ls)

pub shop-CountsOn :
    (F : Floats) (packs : ℕ → Option DefaultPack) (b : ℕ) (needs : List Need) (stock : ℕ → ℤ)
    (existing : List Line)
    → All (CountsOn stock) (shop F packs b needs stock existing)
unfolding shop
shop-CountsOn F packs b needs stock existing =
    listed-CountsOn F packs stock (with_needs b needs (carried b existing []))

-- A line that procurement has touched stays on the list.
abbrev touches : ℕ → List Line → Bool
touches i es = contains_func (λ e. is_touched e.status && e.ingredient_id == i) es

line_of-in_list : (i : ℕ) (ls : List Line) → in_list i ls ≡ false → line_of i ls ≡ none
line_of-in_list i [] e = refl
line_of-in_list i (l ∷ ls) e = ground (arith, line_of-in_list i ls)

served_of-none :
    (F : Floats) (packs : ℕ → Option DefaultPack) (stock : ℕ → ℤ) (b i : ℕ) (q : Option ℤ)
    (t : Option Line)
    → served_of F packs stock (wanted b i q (kept_of b t)) ≡ none
    → t ≡ none
unfolding served_of wanted kept_of
served_of-none F packs stock b i q none e = refl
served_of-none F packs stock b i none (some l) e = cc
served_of-none F packs stock b i (some q) (some l) e = cc

or_else-none_left : (x y : Option Line) → or_else x y ≡ none → (x ≡ none) × (y ≡ none)
unfolding or_else
or_else-none_left none y e = (refl, e)
or_else-none_left (some l) y e = cc

touched_of-touches : (i : ℕ) (es : List Line) → touched_of i es ≡ none → touches i es ≡ false
unfolding touched_of
touched_of-touches i [] e = refl
touched_of-touches i (x ∷ xs) e =
    let (rest, here) = or_else-none_left (touched_of i xs) _ e in
    ground (arith, here, touched_of-touches i xs rest)

insert_line-touches :
    (i : ℕ) (l : Line) (ls : List Line)
    → touches i (insert_line l ls) ≡ (is_touched l.status && l.ingredient_id == i || touches i ls)
unfolding insert_line
insert_line-touches i l [] = refl
insert_line-touches i l (x ∷ xs) = ground (arith, insert_line-touches i l xs)

lines-IsUntouched :
    (b i : ℕ) (rows : List Line) → touches i (lines b rows) ≡ false → All (IsUntouched b i) rows
unfolding lines
lines-IsUntouched b i [] e = tt
lines-IsUntouched b i (row ∷ rows) e = elim (Bool-cases (row.batch_id == b)) [
  | inl t ↦
      let both = sym (insert_line-touches i row (lines b rows)) ∙ rw t at e in
      ((λ r. ground (arith, both, r)), lines-IsUntouched b i rows (ground (arith, both)))
  | inr f ↦ ((λ r. ground (arith, r, f)), lines-IsUntouched b i rows (rw f at e))
]

pub shop-IsUntouched :
    (F : Floats) (packs : ℕ → Option DefaultPack) (b : ℕ) (needs : List Need) (stock : ℕ → ℤ)
    (rows : List Line) (i : ℕ)
    → in_list i (shop F packs b needs stock (lines b rows)) ≡ false
    → All (IsUntouched b i) rows
shop-IsUntouched F packs b needs stock rows i e = lines-IsUntouched b i rows (
    touched_of-touches i (lines b rows) (
      served_of-none F packs stock b i (need_of i needs) (touched_of i (lines b rows))
        (sym (shop-line_of F packs b needs stock (lines b rows) i) ∙ line_of-in_list i _ e)))
