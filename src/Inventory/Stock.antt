-- ===== src/Inventory/Stock.antt =====
-- internal/inventory/domain.go and service.go: the data, and the rows behind them
-- (internal/inventory/postgres/repo.go with db/queries/inventory.sql). The store is one tenant's. A
-- balance is the sum of a lot's movements; it is an integer here, which the query casts to an int64.
use kue_preorder.Prelude.{
  ℕ, ◌==◌, leb, ℤ, pos, ◌+ℤ◌, ltb_ℤ, eqb_ℤ, max_ℤ, Bool, true, false, ◌&&◌, ◌||◌, List, [], ◌∷◌,
  ◌++◌, map, Option, none, some, contains_func, if◌then◌else◌,
}
use kue_preorder.Prelude.Text.{Text}
use kue_preorder.Platform.Journal.{AuditEntry, Event}

pub data LotStatus : Type 0 where
  available exhausted discarded expired : LotStatus

abbrev pub eqb_status : LotStatus → LotStatus → Bool
eqb_status available available = true
eqb_status exhausted exhausted = true
eqb_status discarded discarded = true
eqb_status expired expired = true
eqb_status _ _ = false

pub data Source : Type 0 where
  manual procurement adjustment : Source

pub data MovementKind : Type 0 where
  receive consume waste adjust : MovementKind

pub record Lot : Type 0 where
  pub id : ℕ
  pub ingredient_id : ℕ
  pub received_at : ℤ
  pub expires_at : Option ℤ
  pub status : LotStatus
  pub source : Source
  pub procurement_item_id : Option ℕ
  pub note : Text
  pub balance : ℤ
  pub last_ok_at : Option ℤ
  pub created_at : ℤ

pub record Movement : Type 0 where
  pub lot_id : ℕ
  pub ingredient_id : ℕ
  pub kind : MovementKind
  pub qty : ℤ
  pub batch_id : Option ℕ
  pub reason : Text
  pub actor_id : ℕ
  pub at : ℤ

pub data DiscardReason : Type 0 where
  smell mold past_expiry other no_reason : DiscardReason

pub record Check : Type 0 where
  pub lot_id : ℕ
  pub passed : Bool
  pub reason : DiscardReason
  pub note : Text
  pub checked_by : ℕ
  pub at : ℤ

pub data RequestKind : Type 0 where
  receive_stock count_stock : RequestKind

abbrev pub eqb_request : RequestKind → RequestKind → Bool
eqb_request receive_stock receive_stock = true
eqb_request count_stock count_stock = true
eqb_request _ _ = false

-- A call as it was first sent, under the key that a retry sends again.
pub record Request : Type 0 where
  pub kind : RequestKind
  pub key : ℕ
  pub body : Text
  pub result_id : ℕ
  pub actor_id : ℕ
  pub at : ℤ

-- The tables. A stored lot has no balance and no last check: its fields of those names are not read.
pub record Stock : Type 0 where
  pub lots : List Lot
  pub movements : List Movement
  pub checks : List Check
  pub requests : List Request
  pub audits : List AuditEntry
  pub events : List Event

-- What a lot's movements add up to.
unfoldable pub balance_of : ℕ → List Movement → ℤ
balance_of id [] = pos 0
balance_of id (m ∷ ms) =
    let rest = balance_of id ms in if m.lot_id == id then m.qty +ℤ rest else rest

-- `LastOKChecks`: the latest check that a lot passed.
later : ℤ → Option ℤ → Option ℤ
later t none = some t
later t (some u) = some (max_ℤ t u)

unfoldable pub last_ok : ℕ → List Check → Option ℤ
unfolding later
last_ok id [] = none
last_ok id (c ∷ cs) =
    let rest = last_ok id cs in if c.lot_id == id && c.passed then later c.at rest else rest

-- A lot as the queries return it.
abbrev pub with_sums : Stock → Lot → Lot
with_sums s l = record l {
  balance = balance_of l.id s.movements;
  last_ok_at = last_ok l.id s.checks;
}

-- `order by ingredient_id, received_at, id`.
comes_first : Lot → Lot → Bool
comes_first a b =
    if a.ingredient_id == b.ingredient_id
    then ltb_ℤ a.received_at b.received_at || (eqb_ℤ a.received_at b.received_at && leb a.id b.id)
    else leb a.ingredient_id b.ingredient_id

unfoldable pub insert : Lot → List Lot → List Lot
unfolding comes_first
insert l [] = l ∷ []
insert l (k ∷ ks) = let rest = insert l ks in if comes_first l k then l ∷ k ∷ ks else k ∷ rest

-- The rows of an ingredient in one of the statuses, oldest first.
unfoldable pub rows_of : ℕ → List LotStatus → List Lot → List Lot
unfolding insert
rows_of ingredient statuses [] = []
rows_of ingredient statuses (l ∷ ls) =
    let rest = rows_of ingredient statuses ls in
    if l.ingredient_id == ingredient && contains_func (eqb_status l.status) statuses
    then insert l rest
    else rest

-- `Lots`, of one ingredient.
unfoldable pub lots_of : ℕ → List LotStatus → Stock → List Lot
unfolding rows_of balance_of last_ok
lots_of ingredient statuses s = map (with_sums s) (rows_of ingredient statuses s.lots)

-- `InsertMovement`, `InsertLot`, `InsertCheck` and `SetLotStatus`.
abbrev pub insert_movement : Movement → Stock → Stock
insert_movement m s = record s { movements = s.movements ++ m ∷ [] }

abbrev pub insert_lot : Lot → ℤ → Stock → Stock
insert_lot l at s = record s {
  lots = s.lots ++ record l { status = available; created_at = at } ∷ [];
}

abbrev pub insert_check : Check → Stock → Stock
insert_check c s = record s { checks = s.checks ++ c ∷ [] }

unfoldable pub status_set : ℕ → LotStatus → List Lot → List Lot
status_set id status [] = []
status_set id status (l ∷ ls) =
    (if l.id == id then record l { status = status } else l) ∷ status_set id status ls

abbrev pub set_lot_status : ℕ → LotStatus → Stock → Stock
set_lot_status id status s = record s { lots = status_set id status s.lots }

abbrev pub publish : Event → Stock → Stock
publish e s = record s { events = s.events ++ e ∷ [] }

abbrev pub audit : AuditEntry → Stock → Stock
audit a s = record s { audits = s.audits ++ a ∷ [] }
