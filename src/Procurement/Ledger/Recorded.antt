-- ===== src/Procurement/Ledger/Recorded.antt =====
-- What `Record` of internal/aggregation/purchasing.go leaves of the sums, its computation included.
use mathlib.Core.Path.{subst}
use kue_preorder.Prelude.{
  ℕ, ◌==◌, ℤ, pos, ◌+ℤ◌, +ℤ_assoc, ◌≡◌, refl, sym, ap, ◌∙◌, Bool, ◌&&◌, List, [], ◌∷◌, All, Option,
  none, some, arith, inl, inr, Option-cases, if◌then◌else◌,
}
use kue_preorder.Prelude.Float.{Floats}
use kue_preorder.Prelude.Result.{ok, ◌>>=◌, bind_ok, ok_eq}
use kue_preorder.Orders.Store.{Order}
use kue_preorder.Aggregation.Batches.{
  ProductionBatch, ComponentTotal, Line, Kitchen, is_on, batch_on, lines,
}
use kue_preorder.Aggregation.Rows.{mark_computed, upsert_all, save_result, add_procured}
use kue_preorder.Aggregation.Rows.Saved.{ensure_batch-same}
use kue_preorder.Aggregation.Engine.{
  Catalog, lift, lift_ok, batch_totals, committed_items, ingredients_for, ingredient_ids, compute,
  compute_on, recompute_tx,
}
use kue_preorder.Aggregation.Purchasing.{Procured, add_all, record_changes}
use kue_preorder.Procurement.Ledger.{
  ordered_of, IsClean, part, add_procured-Adds, upsert_all-Same, delete_stale-Same, add_zero,
}

-- The id of a day's batch.
unfoldable pub id_on : ℤ → List ProductionBatch → Option ℕ
id_on d [] = none
id_on d (b ∷ bs) = if is_on d b then some b.id else id_on d bs

pub batch_on-id_on :
    (d : ℤ) (bs : List ProductionBatch) (b : ProductionBatch)
    → batch_on d bs ≡ some b
    → id_on d bs ≡ some b.id
unfolding batch_on id_on
batch_on-id_on d [] b e = cc
batch_on-id_on d (c ∷ cs) b e = ground (arith, batch_on-id_on d cs b)

mark_computed-id_on :
    (d : ℤ) (id : ℕ) (now : ℤ) (bs : List ProductionBatch)
    → id_on d (mark_computed id now bs) ≡ id_on d bs
unfolding mark_computed id_on
mark_computed-id_on d id now [] = refl
mark_computed-id_on d id now (b ∷ bs) = ground (arith, mark_computed-id_on d id now bs)

-- What is kept of the kitchen.
pub record Keeps (k k' : Kitchen) : Type 0 where
  pub sums : (c j : ℕ) → ordered_of c j k'.requirements ≡ ordered_of c j k.requirements
  pub clean : All IsClean k'.requirements
  pub ids : (d : ℤ) → id_on d k'.batches ≡ id_on d k.batches

save_result-Keeps :
    (b : ℕ) (components : List ComponentTotal) (ls : List Line) (now : ℤ) (k : Kitchen)
    → All IsClean k.requirements
    → Keeps k (save_result b components ls now k)
unfolding save_result
save_result-Keeps b components ls now k h =
    let up = upsert_all-Same b ls k.requirements in
    let del = delete_stale-Same b ls (upsert_all b ls k.requirements) (up.1 h) in
    record {
      sums = λ c j. del.0 c j ∙ up.0 c j;
      clean = del.1;
      ids = λ d. mark_computed-id_on d b now k.batches;
    }

compute-Keeps :
    (F : Floats) (cat : Catalog) (os : List Order) (date now : ℤ) (b : ProductionBatch)
    (k k' : Kitchen)
    → compute F cat os date now b k ≡ ok k'
    → All IsClean k.requirements
    → Keeps k k'
unfolding compute
compute-Keeps F cat os date now b k k' e h =
    let ((components, needs), r, e1) =
      bind_ok (batch_totals F cat (committed_items date os)) _ k' e in
    let existing = lines b.id k.requirements in
    let (ing, r1, e2) = bind_ok (ingredients_for cat (ingredient_ids needs existing)) _ k' e1 in
    let (packs, r2, e3) =
      bind_ok (lift (cat.default_packs (ingredient_ids needs existing))) _ k' e2 in
    subst (Keeps k) (ok_eq _ _ e3) (save_result-Keeps b.id components _ now k h)

recompute_tx-Keeps :
    (F : Floats) (cat : Catalog) (os : List Order) (fresh : ℕ) (date now : ℤ) (b : ProductionBatch)
    (k k' : Kitchen)
    → batch_on date k.batches ≡ some b
    → recompute_tx F cat os fresh date now k ≡ ok k'
    → All IsClean k.requirements
    → Keeps k k'
unfolding recompute_tx
recompute_tx-Keeps F cat os fresh date now b k k' found e h =
    let same =
      subst (λ bs. compute_on F cat os date now (record k { batches = bs }) ≡ ok k')
        (ensure_batch-same fresh date k.batches b found) e in
    compute-Keeps F cat os date now b k k' (rw (found, compute_on) at same) h

-- What a list of changes adds to an ingredient.
unfoldable pub changed : Bool → ℕ → List Procured → ℤ
changed t j [] = pos 0
changed t j (c ∷ cs) = part (t && j == c.ingredient_id) c.ordered +ℤ changed t j cs

abbrev pub AddsAll : ℕ → List Procured → List Line → List Line → Type 0
AddsAll b cs rows rows' =
    ((c j : ℕ) → ordered_of c j rows' ≡ ordered_of c j rows +ℤ changed (c == b) j cs)
    × (All IsClean rows → All IsClean rows')

add_all-AddsAll :
    (b : ℕ) (cs : List Procured) (rows rows' : List Line)
    → add_all b cs rows ≡ ok rows'
    → AddsAll b cs rows rows'
unfolding add_all changed
add_all-AddsAll b [] rows rows' e =
    subst (AddsAll b [] rows) (ok_eq rows rows' e)
      ((λ c j. sym (add_zero (ordered_of c j rows))), λ k. k)
add_all-AddsAll b (c ∷ cs) rows rows' e =
    let (mid, r, e') =
      bind_ok (lift (add_procured b c.ingredient_id c.ordered c.received rows)) _ rows' e in
    let one = add_procured-Adds b c.ingredient_id c.ordered c.received rows mid (lift_ok _ mid r) in
    let rest = add_all-AddsAll b cs mid rows' e' in
    (
      λ x j.
          rest.0 x j
          ∙ ap (λ z. z +ℤ changed (x == b) j cs) (one.0 x j)
          ∙ +ℤ_assoc (ordered_of x j rows) (part (x == b && j == c.ingredient_id) c.ordered)
              (changed (x == b) j cs),
      λ k. rest.1 (one.1 k),
    )

-- What `Record` leaves: the sums of the day's batch move by the changes.
pub record Records (date : ℤ) (changes : List Procured) (k k' : Kitchen) : Type 0 where
  pub batch_id : ℕ
  pub found : id_on date k.batches ≡ some batch_id
  pub sums :
      (c j : ℕ)
      → ordered_of c j k'.requirements
        ≡ ordered_of c j k.requirements +ℤ changed (c == batch_id) j changes
  pub clean : All IsClean k'.requirements
  pub ids : (d : ℤ) → id_on d k'.batches ≡ id_on d k.batches

record_from :
    (F : Floats) (cat : Catalog) (os : List Order) (fresh : ℕ) (date now : ℤ)
    (changes : List Procured) (b : ProductionBatch) (k k' : Kitchen)
    → batch_on date k.batches ≡ some b
    → (add_all b.id changes k.requirements >>= λ rows.
        recompute_tx F cat os fresh date now (record k { requirements = rows }))
      ≡ ok k'
    → All IsClean k.requirements
    → Records date changes k k'
record_from F cat os fresh date now changes b k k' found e h =
    let (rows, r, e') = bind_ok (add_all b.id changes k.requirements) _ k' e in
    let adds = add_all-AddsAll b.id changes k.requirements rows r in
    let keeps =
      recompute_tx-Keeps F cat os fresh date now b (record k { requirements = rows }) k' found e'
        (adds.1 h) in
    record {
      batch_id = b.id;
      found = batch_on-id_on date k.batches b found;
      sums = λ c j. keeps.sums c j ∙ adds.0 c j;
      clean = keeps.clean;
      ids = keeps.ids;
    }

pub record_changes-Records :
    (F : Floats) (cat : Catalog) (os : List Order) (fresh : ℕ) (date now : ℤ)
    (changes : List Procured) (k k' : Kitchen)
    → record_changes F cat os fresh date now changes k ≡ ok k'
    → All IsClean k.requirements
    → Records date changes k k'
unfolding record_changes
record_changes-Records F cat os fresh date now changes k k' e h =
    elim (Option-cases (batch_on date k.batches)) [
      | inl n ↦ cc (rw (n, record_changes) at e)
      | inr (b, s) ↦
          record_from F cat os fresh date now changes b k k' s (rw (s, record_changes) at e) h
    ]
