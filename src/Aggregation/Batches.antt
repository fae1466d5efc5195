-- ===== src/Aggregation/Batches.antt =====
-- The batches and shopping list lines of one tenant, as the statements of
-- internal/aggregation/postgres/repo.go and db/queries/aggregation.sql keep them. The words of the last
-- failure and the times of a change are left out.
use kue_preorder.Prelude.{
  ℕ, ltb, ℤ, leb_ℤ, eqb_ℤ, Bool, true, false, ◌==◌, ◌&&◌, List, [], ◌∷◌, contains_func, Option,
  none, some, if◌then◌else◌,
}
use kue_preorder.Prelude.Float.{Float}
use kue_preorder.Prelude.Text.{Text}
use kue_preorder.Inventory.Stock.{Stock}

pub data BatchStatus : Type 0 where
  batch_open batch_locked batch_in_production batch_done : BatchStatus

abbrev pub eqb_status : BatchStatus → BatchStatus → Bool
eqb_status batch_open batch_open = true
eqb_status batch_locked batch_locked = true
eqb_status batch_in_production batch_in_production = true
eqb_status batch_done batch_done = true
eqb_status _ _ = false

pub record ProductionBatch : Type 0 where
  pub id : ℕ
  pub date : ℤ
  pub status : BatchStatus
  pub computed_at : Option ℤ
  pub failed : Bool

-- `catalog.DefaultPack`.
pub record DefaultPack : Type 0 where
  pub ingredient_id : ℕ
  pub supplier_id : ℕ
  pub size : Float
  pub unit : Text
  pub price_idr : Option ℤ

pub record ComponentTotal : Type 0 where
  pub component_id : ℕ
  pub units : Float

-- A row of the component totals.
pub record BatchComponent : Type 0 where
  pub batch_id : ℕ
  pub total : ComponentTotal

pub data LineStatus : Type 0 where
  line_needed line_ordered line_received : LineStatus

pub record Line : Type 0 where
  pub batch_id : ℕ
  pub ingredient_id : ℕ
  pub needed : ℤ
  pub usable_stock : ℤ
  pub ordered : ℤ
  pub received : ℤ
  pub to_buy : ℤ
  pub pack : Option DefaultPack
  pub packs : ℤ
  pub status : LineStatus

-- The tables; the audit log and the outbox are those of the stock.
pub record Kitchen : Type 0 where
  pub batches : List ProductionBatch
  pub components : List BatchComponent
  pub requirements : List Line
  pub stock : Stock

abbrev pub is_on : ℤ → ProductionBatch → Bool
is_on d b = eqb_ℤ b.date d

-- `LockBatch` and `GetBatch`.
unfoldable pub batch_on : ℤ → List ProductionBatch → Option ProductionBatch
batch_on d [] = none
batch_on d (b ∷ bs) = if is_on d b then some b else batch_on d bs

-- `SetStatus`: whether a row changed, and the rows.
unfoldable pub set_status :
    ℤ → List BatchStatus → BatchStatus → List ProductionBatch → Bool × List ProductionBatch
set_status d from to [] = (false, [])
set_status d from to (b ∷ bs) =
    let (any, rest) = set_status d from to bs in
    if is_on d b && contains_func (eqb_status b.status) from
    then (true, record b { status = to } ∷ rest)
    else (any, b ∷ rest)

-- `order by batch_date`.
unfoldable pub insert : ℤ → List ℤ → List ℤ
insert d [] = d ∷ []
insert d (e ∷ es) = let rest = insert d es in if leb_ℤ d e then d ∷ e ∷ es else e ∷ rest

-- `OpenDates`.
unfoldable pub open_dates : List ProductionBatch → List ℤ
unfolding insert
open_dates [] = []
open_dates (b ∷ bs) =
    let rest = open_dates bs in if eqb_status b.status batch_open then insert b.date rest else rest

-- `order by ingredient_id`.
unfoldable pub insert_line : Line → List Line → List Line
insert_line l [] = l ∷ []
insert_line l (k ∷ ks) =
    let rest = insert_line l ks in
    if ltb k.ingredient_id l.ingredient_id then k ∷ rest else l ∷ k ∷ ks

-- `Lines`.
unfoldable pub lines : ℕ → List Line → List Line
unfolding insert_line
lines batch_id [] = []
lines batch_id (l ∷ ls) =
    let rest = lines batch_id ls in if l.batch_id == batch_id then insert_line l rest else rest
