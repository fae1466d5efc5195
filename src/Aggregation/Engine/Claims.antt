-- ===== src/Aggregation/Engine/Claims.antt =====
-- What a computation lets a batch count on, beside what the earlier batches count on.
use mathlib.Core.Path.{subst}
use kue_preorder.Prelude.{
  ℕ, ◌==◌, ℤ, pos, ◌-ℤ◌, max_ℤ, ltb_ℤ, ◌≤ℤ◌, eqb_ℤ, ◌≡◌, ◌≢◌, refl, sym, ap, ◌∙◌, ◌⊎◌, true, false,
  List, [], ◌∷◌, contains_func, Option, some, All, All-map, arith, inl, inr, Bool-cases,
}
use kue_preorder.Prelude.Float.{Floats}
use kue_preorder.Prelude.Result.{Result, ok, err, bind_ok, ok_eq}
use kue_preorder.Orders.Store.{Order}
use kue_preorder.Inventory.Intake.{Ingredients}
use kue_preorder.Inventory.Reader.{usable_on}
use kue_preorder.Aggregation.Batches.{
  ProductionBatch, ComponentTotal, DefaultPack, Line, Kitchen, is_on, batch_on, lines,
}
use kue_preorder.Aggregation.Rows.{mark_failed, batch_with, save_result, claimed_before}
use kue_preorder.Aggregation.Rows.Saved.{row_of, IsWithin, saved-IsWithin, ensure_batch-same}
use kue_preorder.Aggregation.Rows.Claimed.{claimed-saved}
use kue_preorder.Aggregation.Shop.{Need, listed, shop, carried, with_needs}
use kue_preorder.Aggregation.Shop.Listed.{CountsOn, shop-CountsOn, shop-IsUntouched}
use kue_preorder.Aggregation.Engine.{
  broken, other, Failure, Labels, Catalog, lift, lift_ok, batch_totals, committed_items,
  ingredient_ids, add_id, add_need_ids, add_line_ids, available, ingredients_for, pack_of, compute,
  compute_on, recompute_tx, recompute,
}

-- The labels that the stock is read with: those of the catalog, or none where nothing is asked.
ids_nonempty : (i : ℕ) (ids : List ℕ) → (ids ≢ []) → add_id i ids ≢ []
unfolding add_id
ids_nonempty i [] h e = h refl
ids_nonempty i (j ∷ js) h e = elim (Bool-cases (contains_func (λ x. x == i) (j ∷ js))) [
  | inl t ↦ cc (rw t at e)
  | inr f ↦ cc (rw f at e)
]

add_need_ids_nonempty : (ns : List Need) (ids : List ℕ) → (ids ≢ []) → add_need_ids ns ids ≢ []
unfolding add_need_ids
add_need_ids_nonempty [] ids h = h
add_need_ids_nonempty (n ∷ ns) ids h =
    add_need_ids_nonempty ns (add_id n.ingredient_id ids) (ids_nonempty n.ingredient_id ids h)

add_line_ids_nonempty : (ls : List Line) (ids : List ℕ) → (ids ≢ []) → add_line_ids ls ids ≢ []
unfolding add_line_ids
add_line_ids_nonempty [] ids h = h
add_line_ids_nonempty (l ∷ ls) ids h =
    add_line_ids_nonempty ls (add_id l.ingredient_id ids) (ids_nonempty l.ingredient_id ids h)

no_ids :
    (needs : List Need) (ls : List Line) → ingredient_ids needs ls ≡ [] → (needs ≡ []) × (ls ≡ [])
unfolding ingredient_ids add_need_ids add_line_ids add_id
no_ids [] [] e = (refl, refl)
no_ids [] (l ∷ ls) e = absurd (add_line_ids_nonempty ls (l.ingredient_id ∷ []) (λ q. cc) e)
no_ids (n ∷ ns) ls e =
    absurd
      (add_line_ids_nonempty ls _ (add_need_ids_nonempty ns (n.ingredient_id ∷ []) (λ q. cc)) e)

labels_used :
    (cat : Catalog) (l : Labels) (ids : List ℕ) (ing : Ingredients)
    → cat.labels ≡ ok l
    → ingredients_for cat ids ≡ ok ing
    → (ids ≡ []) ⊎ (ing ≡ l.ingredients)
labels_used cat l [] ing h e = inl refl
labels_used cat l (i ∷ is) ing h e =
    let (x, r, e') = bind_ok (lift cat.labels) _ ing e in
    inr
      (sym (ok_eq _ _ e') ∙ ap (λ y. y.ingredients) (ok_eq x l (sym (lift_ok cat.labels x r) ∙ h)))

max_again : (x : ℤ) → max_ℤ (max_ℤ x (pos 0)) (pos 0) ≡ max_ℤ x (pos 0)
max_again x = ground arith

-- What a batch may count on.
abbrev pub may_claim : Ingredients → ℤ → ℤ → Kitchen → ℕ → ℤ
may_claim ing date now k i =
    max_ℤ (usable_on ing date now k.stock i -ℤ claimed_before date k.batches i k.requirements)
      (pos 0)

not_before : (a d : ℤ) → eqb_ℤ a d ≡ true → ltb_ℤ a d ≡ false
not_before a d t = ground (arith, t)

some_batch : (x y : ProductionBatch) → some x ≡ some y → x ≡ y
some_batch x y e = cc

batch_on-date :
    (d : ℤ) (bs : List ProductionBatch) (b : ProductionBatch)
    → batch_on d bs ≡ some b
    → ltb_ℤ b.date d ≡ false
unfolding batch_on
batch_on-date d [] b e = cc
batch_on-date d (x ∷ xs) b e = elim (Bool-cases (is_on d x)) [
  | inl t ↦
      let same = some_batch x b (rw t at e) in
      subst (λ y. ltb_ℤ y.date d ≡ false) same (not_before x.date d t)
  | inr f ↦ batch_on-date d xs b (rw f at e)
]

save_result-may_claim :
    (ing : Ingredients) (b : ProductionBatch) (ts : List ComponentTotal) (ls : List Line)
    (date now : ℤ) (k : Kitchen) (i : ℕ)
    → batch_with b.id k.batches ≡ some b
    → ltb_ℤ b.date date ≡ false
    → may_claim ing date now (save_result b.id ts ls now k) i ≡ may_claim ing date now k i
unfolding save_result
save_result-may_claim ing b ts ls date now k i h d =
    ap (λ z. max_ℤ (usable_on ing date now k.stock i -ℤ z) (pos 0))
      (claimed-saved date now k.batches b i ls k.requirements h d)

empty_list :
    (F : Floats) (packs : ℕ → Option DefaultPack) (b : ℕ) (stock : ℕ → ℤ)
    → shop F packs b [] stock [] ≡ []
unfolding shop carried with_needs listed
empty_list F packs b stock = refl

ended_ok :
    (fresh : ℕ) (date : ℤ) (k k' : Kitchen) (m : Result Failure Kitchen)
    → (elim m as (λ x. Result Failure (Unit {0}) × Kitchen) [
      | ok x ↦ (ok tt, x)
      | err (broken f) ↦ (err (broken f), record k { batches = mark_failed fresh date k.batches })
      | err (other f) ↦ (err (other f), k)
    ])
      ≡ (ok tt, k')
    → m ≡ ok k'
ended_ok fresh date k k' (ok x) e = ap (λ y. ok y.1) e
ended_ok fresh date k k' (err (broken f)) e = cc
ended_ok fresh date k k' (err (other f)) e = cc

recompute_ok :
    (F : Floats) (cat : Catalog) (os : List Order) (fresh : ℕ) (date now : ℤ) (k k' : Kitchen)
    → recompute F cat os fresh date now k ≡ (ok tt, k')
    → recompute_tx F cat os fresh date now k ≡ ok k'
unfolding recompute
recompute_ok F cat os fresh date now k k' e =
    ended_ok fresh date k k' (recompute_tx F cat os fresh date now k) e

-- The list of the batch, whichever labels its stock was read with.
list_CountsOn :
    (F : Floats) (packs : ℕ → Option DefaultPack) (l : Labels) (b : ℕ) (needs : List Need)
    (existing : List Line) (date now : ℤ) (k : Kitchen) (ing : Ingredients)
    → (ingredient_ids needs existing ≡ []) ⊎ (ing ≡ l.ingredients)
    → All
        (λ x. x.usable_stock ≤ℤ may_claim l.ingredients date now k x.ingredient_id)
        (shop F packs b needs (available ing date now k) existing)
unfolding available
list_CountsOn F packs l b needs existing date now k ing (inr e) =
    All-map (CountsOn (available ing date now k)) _
      (shop F packs b needs (available ing date now k) existing)
      (λ x h.
        subst (λ g. x.usable_stock ≤ℤ may_claim g date now k x.ingredient_id) e
          (subst (λ z. x.usable_stock ≤ℤ z)
            (max_again (
              usable_on ing date now k.stock x.ingredient_id
              -ℤ claimed_before date k.batches x.ingredient_id k.requirements))
            h))
      (shop-CountsOn F packs b needs (available ing date now k) existing)
list_CountsOn F packs l b needs existing date now k ing (inl e) =
    let (no_needs, no_lines) = no_ids needs existing e in
    subst (All (λ x. x.usable_stock ≤ℤ may_claim l.ingredients date now k x.ingredient_id))
      (sym (empty_list F packs b (available ing date now k))
        ∙ ap (λ n. shop F packs b n (available ing date now k) []) (sym no_needs)
        ∙ ap (shop F packs b needs (available ing date now k)) (sym no_lines))
      tt

compute_claims :
    (F : Floats) (cat : Catalog) (os : List Order) (date now : ℤ) (l : Labels) (b : ProductionBatch)
    (k k' : Kitchen) (i : ℕ)
    → cat.labels ≡ ok l
    → batch_with b.id k.batches ≡ some b
    → ltb_ℤ b.date date ≡ false
    → compute F cat os date now b k ≡ ok k'
    → IsWithin (may_claim l.ingredients date now k' i) (row_of b.id i k'.requirements)
unfolding compute save_result
compute_claims F cat os date now l b k k' i known own d e =
    let ((components, needs), r, e1) =
      bind_ok (batch_totals F cat (committed_items date os)) _ k' e in
    let existing = lines b.id k.requirements in
    let ids = ingredient_ids needs existing in
    let (ing, r1, e2) = bind_ok (ingredients_for cat ids) _ k' e1 in
    let (packs, r2, e3) = bind_ok (lift (cat.default_packs ids)) _ k' e2 in
    let ls = shop F (pack_of packs) b.id needs (available ing date now k) existing in
    subst (λ x. IsWithin (may_claim l.ingredients date now x i) (row_of b.id i x.requirements))
      (ok_eq _ _ e3)
      (subst (λ z. IsWithin z (row_of b.id i ((save_result b.id components ls now k).requirements)))
        (sym (save_result-may_claim l.ingredients b components ls date now k i own d))
        (saved-IsWithin (may_claim l.ingredients date now k) b.id i ls k.requirements
          (list_CountsOn F (pack_of packs) l b.id needs existing date now k ing
            (labels_used cat l ids ing known r1))
          (shop-IsUntouched F (pack_of packs) b.id needs (available ing date now k) k.requirements
            i)))

-- After a computation of a day that has its batch, under the id that the rows go by, the batch counts of no
-- ingredient on more than the usable stock that the batches of earlier days, those that are not done,
-- leave, and on nothing where they leave none. Both are what the tables then say.
pub recompute_claims :
    (F : Floats) (cat : Catalog) (os : List Order) (fresh : ℕ) (date now : ℤ) (l : Labels)
    (b : ProductionBatch) (k k' : Kitchen) (i : ℕ)
    → cat.labels ≡ ok l
    → batch_on date k.batches ≡ some b
    → batch_with b.id k.batches ≡ some b
    → recompute F cat os fresh date now k ≡ (ok tt, k')
    → IsWithin
        (max_ℤ
          (usable_on l.ingredients date now k'.stock i
            -ℤ claimed_before date k'.batches i k'.requirements)
          (pos 0))
        (row_of b.id i k'.requirements)
unfolding recompute_tx
recompute_claims F cat os fresh date now l b k k' i known found own e =
    let done = recompute_ok F cat os fresh date now k k' e in
    let same =
      subst (λ bs. compute_on F cat os date now (record k { batches = bs }) ≡ ok k')
        (ensure_batch-same fresh date k.batches b found) done in
    compute_claims F cat os date now l b k k' i known own (batch_on-date date k.batches b found)
      (rw (found, compute_on) at same)
