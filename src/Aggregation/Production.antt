-- ===== src/Aggregation/Production.antt =====
-- internal/aggregation/production.go: `LockDue`, `MarkInProduction` and `Complete`, which runs in one
-- transaction with the consumption of internal/inventory/service.go. The view that `Complete` answers
-- with is left out; its answer here is what the batch took of each ingredient.
pub mod Once
pub mod Due
use kue_preorder.Prelude.{
  ℕ, suc, ◌+◌, ℤ, pos, ltb_ℤ, leb_ℤ, Bool, true, false, List, [], ◌∷◌, Option, none, some,
  if◌then◌else◌,
}
use kue_preorder.Prelude.Result.{Result, ok, err}
use kue_preorder.Platform.Errors.{Error, precondition, not_found}
use kue_preorder.Platform.Caller.{Role, owner, kitchen, Principal, authorize}
use kue_preorder.Platform.Journal.{AuditEntry, Event}
use kue_preorder.Scheduling.Time.{date_of}
use kue_preorder.Orders.Store.{Order}
use kue_preorder.Orders.Checkout.Quote.{batch_cutoffs}
use kue_preorder.Inventory.Stock.{Stock, publish, audit}
use kue_preorder.Inventory.Consume.{Batch, Use, Used, consume_all}
use kue_preorder.Aggregation.Batches.{
  BatchStatus, batch_open, batch_locked, batch_in_production, batch_done, eqb_status,
  ProductionBatch, Line, Kitchen, batch_on, set_status, open_dates, lines,
}

-- `dates[len(dates)-1]`.
unfoldable pub last_of : ℤ → List ℤ → ℤ
last_of d [] = d
last_of d (e ∷ es) = last_of e es

-- `!ok || cutoff.After(now)` does not hold.
abbrev pub is_due : Option ℤ → ℤ → Bool
is_due none now = false
is_due (some cutoff) now = leb_ℤ cutoff now

-- The loop of `LockDue`, with the number locked.
unfoldable pub lock_each :
    (ℤ → Option ℤ) → ℤ → List ℤ → List ProductionBatch → ℕ × List ProductionBatch
lock_each cutoffs now [] bs = (0, bs)
lock_each cutoffs now (d ∷ ds) bs =
    let (moved, bs') = set_status d (batch_open ∷ []) batch_locked bs in
    let skip = lock_each cutoffs now ds bs in
    let (n, rest) = lock_each cutoffs now ds bs' in
    if is_due (cutoffs d) now then ((if moved then suc n else n), rest) else skip

lock_from : List Order → ℤ → List ℤ → List ProductionBatch → ℕ × List ProductionBatch
unfolding lock_each
lock_from os now [] bs = (0, bs)
lock_from os now (d ∷ ds) bs = lock_each (batch_cutoffs os d (last_of d ds)) now (d ∷ ds) bs

-- `LockDue`, over the orders stored.
unfoldable pub lock_due : List Order → ℤ → Kitchen → ℕ × Kitchen
unfolding lock_from
lock_due os now k =
    let (n, bs) = lock_from os now (open_dates k.batches) k.batches in
    (n, record k { batches = bs })

-- `MarkInProduction`.
unfoldable pub mark_in_production : ℤ → Kitchen → Kitchen
mark_in_production d k = record k {
  batches = (set_status d (batch_open ∷ batch_locked ∷ []) batch_in_production k.batches).1;
}

abbrev pub staff : List Role
staff = owner ∷ kitchen ∷ []

-- The uses that the lines ask for.
unfoldable pub uses_of : List Line → List Use
uses_of [] = []
uses_of (l ∷ ls) =
    let rest = uses_of ls in
    if ltb_ℤ (pos 0) l.needed
    then record { ingredient_id = l.ingredient_id; qty = l.needed } ∷ rest
    else rest

abbrev completed : ℕ → ProductionBatch → ℤ → AuditEntry
completed actor b now = record {
  action = "aggregation.batch.completed";
  entity_id = b.id;
  actor_id = actor;
  at = now;
}

abbrev told_done : ProductionBatch → ℤ → Event
told_done b now = record { type_name = "batch.completed"; entity_id = b.id; at = now }

-- The end of the transaction, over the stock that `Consume` left.
unfoldable pub finish : ℕ → ProductionBatch → ℤ → ℤ → Stock → Kitchen → Kitchen
finish actor b d now stock k = record k {
  batches =
      (set_status d (batch_open ∷ batch_locked ∷ batch_in_production ∷ []) batch_done k.batches).1;
  stock = publish (told_done b now) (audit (completed actor b now) stock);
}

-- The transaction with the batch found.
unfoldable pub complete_batch :
    ℕ → ProductionBatch → ℤ → ℤ → Kitchen → Result Error (List Used) × Kitchen
unfolding uses_of finish
complete_batch actor b d now k =
    let (used, stock) =
      consume_all (record { id = b.id; actor_id = actor; at = now })
        (uses_of (lines b.id k.requirements)) k.stock in
    if eqb_status b.status batch_done
    then (err (precondition "batch_done"), k)
    else (ok used, finish actor b d now stock k)

complete_on : ℕ → ℤ → ℤ → Kitchen → Result Error (List Used) × Kitchen
unfolding complete_batch
complete_on actor d now k = elim (batch_on d k.batches) [
  | none ↦ (err not_found, k)
  | some b ↦ complete_batch actor b d now k
]

-- `Complete`, once the caller is known.
unfoldable pub complete_as : Principal → ℤ → ℤ → Kitchen → Result Error (List Used) × Kitchen
unfolding complete_on
complete_as p d now k =
    if ltb_ℤ (date_of now) d
    then (err (precondition "not_production_day"), k)
    else complete_on p.auth_user_id d now k

-- `Complete`.
unfoldable pub complete :
    Result Error Principal → ℤ → ℤ → Kitchen → Result Error (List Used) × Kitchen
unfolding complete_as
complete caller d now k = elim (authorize caller staff) [
  | err e ↦ (err e, k)
  | ok p ↦ complete_as p d now k
]
