-- ===== src/Inventory/Kitchen.antt =====
-- internal/inventory/service.go: the kitchen's checks of a lot (`Check`, `discard`) and its stock counts
-- (`Count`), once the caller is known. A text that `json.Marshal` makes of a count is an argument.
pub mod Counted
pub mod Recounted
pub mod Discarded
use Prim.Native.String.{String}
use kue_preorder.Prelude.{
  ℕ, ◌==◌, leb, ℤ, pos, negsuc, ◌+ℤ◌, ◌-ℤ◌, ltb_ℤ, leb_ℤ, eqb_ℤ, min_ℤ, max_ℤ, Bool, true, false,
  not, ◌&&◌, ◌||◌, List, [], ◌∷◌, ◌++◌, length, Option, none, some, if◌then◌else◌,
}
use kue_preorder.Prelude.Word.{◌+64◌, ◌-64◌}
use kue_preorder.Prelude.Text.{Text, trim_space, is_empty}
use kue_preorder.Prelude.Result.{Result, ok, err}
use kue_preorder.Platform.Errors.{Error, precondition, validation, Fields, check, fields_err}
use kue_preorder.Platform.Caller.{Principal}
use kue_preorder.Inventory.Stock.{
  Lot, LotStatus, available, expired, discarded, exhausted, adjustment, eqb_status, Movement, waste,
  adjust, Check, DiscardReason, other, no_reason, Stock, Request, count_stock, insert_movement,
  insert_check, insert_lot, set_lot_status, lots_of, audit, publish,
}
use kue_preorder.Inventory.Consume.{take_from}
use kue_preorder.Inventory.Requests.{get_lot, claim}
use kue_preorder.Inventory.Intake.{Ingredient, Ingredients, max_note, max_qty, expiry, new_lot}

abbrev pub stock_changed : ℕ → ℤ → Stock → Stock
stock_changed ingredient at s =
    publish (record { type_name = "inventory.stock_changed"; entity_id = ingredient; at = at }) s

abbrev pub audited : String → ℕ → ℕ → ℤ → Stock → Stock
audited action entity actor at s =
    audit (record { action = action; entity_id = entity; actor_id = actor; at = at }) s

-- `CheckInput`; `no_reason` stands for a text that is no reason.
pub record CheckInput : Type 0 where
  pub passed : Bool
  pub reason : DiscardReason
  pub note : Text

abbrev is_other : DiscardReason → Bool
is_other other = true
is_other _ = false

abbrev is_known : DiscardReason → Bool
is_known no_reason = false
is_known _ = true

-- The checks of `Check`.
unfoldable pub check_fields : CheckInput → Fields
check_fields i =
    let reasons =
      if i.passed
      then []
      else check (not (is_other i.reason) || not (is_empty i.note)) "note"
          (check (is_known i.reason) "reason" []) in
    check (leb (length i.note) max_note) "note" reasons

abbrev past : Option ℤ → ℤ → Bool
past none now = false
past (some e) now = leb_ℤ e now

-- `discard`. A text stands for the reason in the ledger, of which the model keeps the note.
unfoldable pub discard : Principal → Lot → CheckInput → ℤ → Stock → Stock
discard p l i now s = audited "inventory.stock.discarded" l.id p.auth_user_id now (
    set_lot_status l.id discarded (
      insert_movement
        (record {
          lot_id = l.id;
          ingredient_id = l.ingredient_id;
          kind = waste;
          qty = pos 0 -64 l.balance;
          batch_id = none;
          reason = i.note;
          actor_id = p.auth_user_id;
          at = now;
        })
        s))

-- The transaction of `Check` on the lot as it is under the lock.
unfoldable pub check_locked : Principal → CheckInput → ℤ → Lot → Stock → Result Error Stock
unfolding discard
check_locked p i now l s =
    let is_expired = eqb_status l.status expired || past l.expires_at now in
    let looked =
      insert_check
        (record {
          lot_id = l.id;
          passed = i.passed;
          reason = if i.passed then no_reason else i.reason;
          note = i.note;
          checked_by = p.auth_user_id;
          at = now;
        })
        s in
    if leb_ℤ l.balance (pos 0)
      || (not (eqb_status l.status available) && not (eqb_status l.status expired))
    then err (precondition "lot_empty")
    else if i.passed && is_expired
    then err (precondition "lot_expired")
    else ok
        (stock_changed l.ingredient_id now (if i.passed then looked else discard p l i now looked))

-- `Check`, once the caller is known: nothing of a call that fails is kept.
unfoldable pub check_as : Principal → ℕ → CheckInput → ℤ → Stock → Result Error Lot × Stock
unfolding check_fields get_lot check_locked
check_as p id input now s =
    let i : CheckInput = record input { note = trim_space input.note } in
    elim (fields_err (check_fields i)) [
      | err e ↦ (err e, s)
      | ok u ↦ elim (get_lot id s) [
        | err e ↦ (err e, s)
        | ok l ↦ elim (check_locked p i now l s) [
          | err e ↦ (err e, s)
          | ok s' ↦ (get_lot id s', s')
        ]
      ]
    ]

pub record CountInput : Type 0 where
  pub ingredient_id : ℕ
  pub actual : ℤ
  pub reason : Text
  pub idempotency_key : ℕ

abbrev is_some : Option Ingredient → Bool
is_some none = false
is_some (some i) = true

-- The checks of `count`.
unfoldable pub count_fields : Ingredients → CountInput → Fields
count_fields ingredients i = check (leb (length i.reason) max_note) "reason" (
    check (not (is_empty i.reason)) "reason" (
      check (leb_ℤ (pos 0) i.actual && leb_ℤ i.actual (pos max_qty)) "actual_qty" (
        check (is_some (ingredients i.ingredient_id)) "ingredient_id"
          (check (not (i.idempotency_key == 0)) "idempotency_key" []))))

abbrev pub counted : List LotStatus
counted = available ∷ expired ∷ []

-- What the lots hold, as the loop sums it.
unfoldable pub total_from : ℤ → List Lot → ℤ
total_from total [] = total
total_from total (l ∷ ls) = total_from (total +64 max_ℤ l.balance (pos 0)) ls

-- The movement that a count puts on a lot.
abbrev pub adjusting : Principal → CountInput → ℤ → Lot → ℤ → Movement
adjusting p i now l qty = record {
  lot_id = l.id;
  ingredient_id = i.ingredient_id;
  kind = adjust;
  qty = qty;
  batch_id = none;
  reason = i.reason;
  actor_id = p.auth_user_id;
  at = now;
}

-- The loop that takes what is missing out of the oldest lots.
unfoldable pub count_down : (Lot → ℤ → Movement) → List Lot → ℤ → Stock → ℤ × Stock
unfolding take_from
count_down move [] remaining s = (remaining, s)
count_down move (l ∷ ls) remaining s =
    let take = min_ℤ l.balance remaining in
    let skip = count_down move ls remaining s in
    let rest = count_down move ls (remaining -64 take) (take_from move l take s) in
    if eqb_ℤ remaining (pos 0) then (remaining, s) else if leb_ℤ take (pos 0) then skip else rest

-- `newestAvailable`: the last of the lots that is available and holds something.
unfoldable pub newest_available : List Lot → Option Lot
newest_available [] = none
newest_available (l ∷ ls) = elim (newest_available ls) [
  | some k ↦ some k
  | none ↦ if eqb_status l.status available && ltb_ℤ (pos 0) l.balance then some l else none
]

-- More than recorded: into the newest lot, or a new one.
unfoldable pub count_up : Principal → Ingredient → CountInput → ℕ → ℤ → ℤ → List Lot → Stock → Stock
unfolding newest_available expiry
count_up p ing i fresh now diff lots s = elim (newest_available lots) [
  | some target ↦ insert_movement (adjusting p i now target diff) s
  | none ↦
      (let target = new_lot fresh i.ingredient_id now (expiry ing now none) adjustment none [] in
        insert_movement (adjusting p i now target diff) (insert_lot target now s))
]

-- The transaction of `count`, once the key is claimed.
unfoldable pub apply_count : Principal → Ingredient → CountInput → ℕ → ℤ → Stock → Stock
unfolding lots_of total_from count_down count_up
apply_count p ing i fresh now s =
    let lots = lots_of i.ingredient_id counted s in
    let diff = i.actual -64 total_from (pos 0) lots in
    let moved =
      if ltb_ℤ diff (pos 0)
      then (count_down (λ l t. adjusting p i now l (pos 0 -ℤ t)) lots (pos 0 -64 diff) s).1
      else count_up p ing i fresh now diff lots s in
    if eqb_ℤ diff (pos 0)
    then s
    else stock_changed i.ingredient_id now
        (audited "inventory.stock.counted" i.ingredient_id p.auth_user_id now moved)

-- `count`: a key that is held already has no effect again.
unfoldable pub count_as :
    Ingredients → Principal → CountInput → Text → ℕ → ℤ → Stock → Result Error (Unit {0}) × Stock
unfolding count_fields claim apply_count
count_as ingredients p i body fresh now s = elim (fields_err (count_fields ingredients i)) [
  | err e ↦ (err e, s)
  | ok u ↦ elim (ingredients i.ingredient_id) [
    | none ↦ (err (validation ("ingredient_id" ∷ [])), s)
    | some ing ↦
        elim (claim
          (record {
            kind = count_stock;
            key = i.idempotency_key;
            body = body;
            result_id = i.ingredient_id;
            actor_id = p.auth_user_id;
            at = now;
          })
          s) [
            | err e ↦ (err e, s)
            | ok (some held, s') ↦ (ok tt, s')
            | ok (none, s') ↦ (ok tt, apply_count p ing i fresh now s')
          ]
  ]
]
