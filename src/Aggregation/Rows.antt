-- ===== src/Aggregation/Rows.antt =====
-- The statements of internal/aggregation/postgres/repo.go that a computation and procurement write by:
-- `EnsureBatch`, `MarkFailed`, `SaveResult`, `AddProcured`, and the reads `ClaimedBefore` and
-- `UpcomingDates`. The id of a new row is drawn by the database.
pub mod Saved
pub mod Claimed
use kue_preorder.Prelude.{
  ℕ, ◌==◌, ℤ, pos, ◌+ℤ◌, ltb_ℤ, leb_ℤ, Bool, true, false, not, ◌&&◌, ◌||◌, List, [], ◌∷◌, ◌++◌, map,
  contains_func, Option, none, some, if◌then◌else◌,
}
use kue_preorder.Prelude.Result.{Result, ok, err, ◌>>=◌}
use kue_preorder.Platform.Errors.{Error, not_found, internal}
use kue_preorder.Aggregation.Batches.{
  batch_open, batch_done, eqb_status, ProductionBatch, ComponentTotal, BatchComponent, LineStatus,
  line_needed, line_ordered, line_received, Line, Kitchen, is_on, insert,
}

-- `EnsureBatch`.
abbrev new_batch : ℕ → ℤ → ProductionBatch
new_batch id d = record {
  id = id;
  date = d;
  status = batch_open;
  computed_at = none;
  failed = false;
}

unfoldable pub ensure_batch : ℕ → ℤ → List ProductionBatch → List ProductionBatch
ensure_batch fresh d bs = if contains_func (is_on d) bs then bs else bs ++ new_batch fresh d ∷ []

-- `MarkFailed`, which creates the batch where it is missing.
set_failed : ℤ → List ProductionBatch → List ProductionBatch
set_failed d [] = []
set_failed d (b ∷ bs) = (if is_on d b then record b { failed = true } else b) ∷ set_failed d bs

unfoldable pub mark_failed : ℕ → ℤ → List ProductionBatch → List ProductionBatch
unfolding set_failed ensure_batch
mark_failed fresh d bs = set_failed d (ensure_batch fresh d bs)

-- `MarkBatchComputed`.
unfoldable pub mark_computed : ℕ → ℤ → List ProductionBatch → List ProductionBatch
mark_computed id now [] = []
mark_computed id now (b ∷ bs) =
    (if b.id == id then record b { computed_at = some now; failed = false } else b)
    ∷ mark_computed id now bs

-- `UpcomingDates`.
unfoldable pub upcoming_dates : ℤ → List ProductionBatch → List ℤ
unfolding insert
upcoming_dates from [] = []
upcoming_dates from (b ∷ bs) =
    let rest = upcoming_dates from bs in
    if leb_ℤ from b.date && not (eqb_status b.status batch_done) then insert b.date rest else rest

-- The row of an ingredient in a batch.
abbrev pub is_row : ℕ → ℕ → Line → Bool
is_row batch_id i l = l.batch_id == batch_id && l.ingredient_id == i

abbrev is_needed : LineStatus → Bool
is_needed line_needed = true
is_needed _ = false

-- `UpsertRequirement`: what procurement set stays.
abbrev pub recomputed : Line → Line → Line
recomputed l row = record row {
  needed = l.needed;
  usable_stock = l.usable_stock;
  to_buy = l.to_buy;
  pack = l.pack;
  packs = l.packs;
}

-- A row as it is inserted.
abbrev pub inserted : ℕ → Line → Line
inserted batch_id l = record l {
  batch_id = batch_id;
  ordered = pos 0;
  received = pos 0;
  status = line_needed;
}

unfoldable pub upsert : ℕ → Line → List Line → List Line
upsert batch_id l [] = inserted batch_id l ∷ []
upsert batch_id l (row ∷ rows) =
    let rest = upsert batch_id l rows in
    if is_row batch_id l.ingredient_id row then recomputed l row ∷ rows else row ∷ rest

unfoldable pub upsert_all : ℕ → List Line → List Line → List Line
unfolding upsert
upsert_all batch_id [] rows = rows
upsert_all batch_id (l ∷ ls) rows = upsert_all batch_id ls (upsert batch_id l rows)

-- `DeleteStaleRequirements`.
abbrev pub is_stale : ℕ → List Line → Line → Bool
is_stale batch_id keep row =
    row.batch_id == batch_id
    && is_needed row.status
    && not (contains_func (λ l. l.ingredient_id == row.ingredient_id) keep)

unfoldable pub delete_stale : ℕ → List Line → List Line → List Line
delete_stale batch_id keep [] = []
delete_stale batch_id keep (row ∷ rows) =
    let rest = delete_stale batch_id keep rows in
    if is_stale batch_id keep row then rest else row ∷ rest

unfoldable pub delete_components : ℕ → List BatchComponent → List BatchComponent
delete_components batch_id [] = []
delete_components batch_id (c ∷ cs) =
    let rest = delete_components batch_id cs in if c.batch_id == batch_id then rest else c ∷ rest

abbrev of_batch : ℕ → ComponentTotal → BatchComponent
of_batch batch_id t = record { batch_id = batch_id; total = t }

-- `SaveResult`.
unfoldable pub save_result : ℕ → List ComponentTotal → List Line → ℤ → Kitchen → Kitchen
unfolding upsert_all delete_stale delete_components mark_computed
save_result batch_id components ls now k = record k {
  batches = mark_computed batch_id now k.batches;
  components = delete_components batch_id k.components ++ map (of_batch batch_id) components;
  requirements = delete_stale batch_id ls (upsert_all batch_id ls k.requirements);
}

-- The status of a line after what was ordered and received.
abbrev pub procured_status : ℤ → ℤ → LineStatus
procured_status ordered received =
    if ltb_ℤ (pos 0) ordered
    then line_ordered
    else if ltb_ℤ (pos 0) received
    then line_received
    else line_needed

abbrev pub procured_line : ℤ → ℤ → Line → Line
procured_line ordered received l = record l {
  ordered = l.ordered +ℤ ordered;
  received = l.received +ℤ received;
  status = procured_status (l.ordered +ℤ ordered) (l.received +ℤ received);
}

-- `AddProcured`: the table takes no quantity below 0.
unfoldable pub add_procured : ℕ → ℕ → ℤ → ℤ → List Line → Result Error (List Line)
add_procured batch_id i ordered received [] = err not_found
add_procured batch_id i ordered received (l ∷ ls) =
    let rest = add_procured batch_id i ordered received ls in
    if is_row batch_id i l
    then (if ltb_ℤ (l.ordered +ℤ ordered) (pos 0) || ltb_ℤ (l.received +ℤ received) (pos 0)
        then err (internal "check")
        else ok (procured_line ordered received l ∷ ls))
    else (do rows ← rest; ok (l ∷ rows))

-- The stock that a row claims before a date, of a batch that is not done.
unfoldable pub batch_with : ℕ → List ProductionBatch → Option ProductionBatch
batch_with id [] = none
batch_with id (b ∷ bs) = let rest = batch_with id bs in if b.id == id then some b else rest

unfoldable pub claims : ℤ → List ProductionBatch → Line → Bool
unfolding batch_with
claims d bs l = elim (batch_with l.batch_id bs) [
  | none ↦ false
  | some b ↦ ltb_ℤ b.date d && not (eqb_status b.status batch_done) && ltb_ℤ (pos 0) l.usable_stock
]

-- `ClaimedBefore`, of one ingredient.
unfoldable pub claimed_before : ℤ → List ProductionBatch → ℕ → List Line → ℤ
unfolding claims
claimed_before d bs i [] = pos 0
claimed_before d bs i (l ∷ ls) =
    let rest = claimed_before d bs i ls in
    if l.ingredient_id == i && claims d bs l then l.usable_stock +ℤ rest else rest
