-- ===== src/Aggregation/Totals/Order.antt =====
-- `Totals` does not depend on the order in which the items, the uses and the recipes come.
use mathlib.Core.Path.{fun_ext}
use mathlib.Core.List.{Permᴰ}
use kue_preorder.Prelude.{
  ℕ, ℤ, ◌+ℤ◌, ◌≡◌, refl, sym, ap, ◌∙◌, true, ◌||◌, List, Option, none, arith, int_laws,
}
use kue_preorder.Prelude.Float.{Floats}
use kue_preorder.Prelude.Sort.{IsOrder, AllApart, sort_by, sort_by-Perm}
use kue_preorder.Prelude.Word.{wrap64, ◌+64◌}
use kue_preorder.Aggregation.Totals.{
  CommittedItem, ComponentUse, RecipeModel, at_most, use_before, model_before, or_zero,
  add_quantity, quantities, Units, level_one, level_two, add_uses, no_units, totals,
}

wrap64_add : (a b : ℤ) → wrap64 (wrap64 a +ℤ b) ≡ wrap64 (a +ℤ b)
unfolding wrap64 ◌+ℤ◌
wrap64_add a b = ground arith

+64_swap : (a x y : ℤ) → a +64 x +64 y ≡ a +64 y +64 x
unfolding ◌+64◌
+64_swap a x y = wrap64_add (a +ℤ x) y ∙ ap wrap64 (omega int_laws) ∙ sym (wrap64_add (a +ℤ y) x)

add_quantity_comm :
    (x y : CommittedItem) (m : ℕ → Option ℤ)
    → add_quantity x (add_quantity y m) ≡ add_quantity y (add_quantity x m)
unfolding add_quantity
add_quantity_comm x y m =
    fun_ext (λ v. ground (arith, +64_swap (or_zero (m v)) x.quantity y.quantity))

quantities-Perm :
    {xs ys : List CommittedItem} (m : ℕ → Option ℤ)
    → Permᴰ xs ys
    → quantities xs m ≡ quantities ys m
unfolding quantities
quantities-Perm m Permᴰ.nil = refl
quantities-Perm m (Permᴰ.cons {b = b} {l₁ = l} e d) =
    ap (λ x. quantities l (add_quantity x m)) e ∙ quantities-Perm (add_quantity b m) d
quantities-Perm m (Permᴰ.swap {a = a} {b = b} {a' = a'} {l = l} e f) =
    ap (quantities l) (add_quantity_comm b a m)
    ∙ ap (λ x. quantities l (add_quantity a (add_quantity x m))) f
    ∙ ap (λ x. quantities l (add_quantity x (add_quantity a' m))) e
quantities-Perm m (Permᴰ.trans d e) = quantities-Perm m d ∙ quantities-Perm m e

at_most_total : (a b c d : ℕ) → (at_most a b c d || at_most c d a b) ≡ true
at_most_total a b c d = ground arith

at_most_trans :
    (a b c d e f : ℕ) → at_most a b c d ≡ true → at_most c d e f ≡ true → at_most a b e f ≡ true
at_most_trans a b c d e f h k = ground arith

use_before-IsOrder : IsOrder use_before
use_before-IsOrder = record {
  total = λ x y. at_most_total x.component_id x.variant_id y.component_id y.variant_id;
  trans = λ x y z.
      at_most_trans x.component_id x.variant_id y.component_id y.variant_id z.component_id
        z.variant_id;
}

model_before-IsOrder : IsOrder model_before
model_before-IsOrder = record {
  total = λ x y. at_most_total x.component_id x.ingredient_id y.component_id y.ingredient_id;
  trans = λ x y z.
      at_most_trans x.component_id x.ingredient_id y.component_id y.ingredient_id z.component_id
        z.ingredient_id;
}

level_two-eq :
    (F : Floats) (s : Units) (ms ms' : List RecipeModel)
    → sort_by model_before ms ≡ sort_by model_before ms'
    → level_two F s ms ≡ level_two F s ms'
unfolding level_two
level_two-eq F s ms ms' e = rw (e, level_two) refl

-- Totals gives the same components and the same needs, or the same error, whatever the order in which
-- the items, the uses and the recipes come, if a component is used once by a variant and has one
-- recipe line for an ingredient. The arithmetic on float64 is any.
pub totals-Perm :
    (F : Floats) {items items' : List CommittedItem} {uses uses' : List ComponentUse}
    {models models' : List RecipeModel}
    → Permᴰ items items'
    → Permᴰ uses uses'
    → Permᴰ models models'
    → AllApart use_before uses
    → AllApart model_before models
    → totals F items uses models ≡ totals F items' uses' models'
unfolding totals
totals-Perm F {items} {items'} {uses} {uses'} {models} {models'} p q r apart apart' =
    let qs = quantities-Perm (λ v. none) p in
    let us = sort_by-Perm use_before use_before-IsOrder q apart in
    let ms = sort_by-Perm model_before model_before-IsOrder r apart' in
    level_two-eq F (level_one F items uses) models models' ms
    ∙ ap (λ s. level_two F s models')
        (ap (λ f. add_uses F f (sort_by use_before uses) no_units) qs
          ∙ ap (λ l. add_uses F (quantities items' (λ v. none)) l no_units) us)
