-- ===== src/Inventory/Intake.antt =====
-- internal/inventory/service.go: deliveries, and the idempotency keys of the calls that record them.
-- The catalog's labels are a map of ingredients, `marshal` is `json.Marshal` of the fields as sent, and
-- `fresh` is the id that `uuid.New` draws.
pub mod Replay
use kue_preorder.Prelude.{
  ℕ, ◌==◌, leb, ℤ, pos, ◌+ℤ◌, ◌-ℤ◌, ◌*ℤ◌, ltb_ℤ, leb_ℤ, Bool, true, false, not, ◌&&◌, ◌||◌, List,
  [], ◌∷◌, ◌++◌, length, Option, none, some, if◌then◌else◌,
}
use kue_preorder.Prelude.Text.{Text, trim_space, eqb_text}
use kue_preorder.Prelude.Result.{Result, ok, err}
use kue_preorder.Platform.Errors.{
  Error, not_found, precondition, validation, internal, Fields, check, fields_err,
}
use kue_preorder.Platform.Caller.{Principal, Role, owner, kitchen, authorize}
use kue_preorder.Inventory.Countable.{LeftoverPolicy, auto, confirm, never}
use kue_preorder.Inventory.Stock.{
  Lot, Movement, Check, Stock, Source, manual, procurement, available, receive as receive_kind,
  no_reason, RequestKind, receive_stock, eqb_request, Request, with_sums, insert_lot,
  insert_movement, insert_check, audit, publish,
}
use kue_preorder.Inventory.Requests.{
  lot_in, get_lot, request_in, same_request, held_or_new, retried, claim,
}

-- `catalog.Ingredient`, as far as the stock reads it.
pub record Ingredient : Type 0 where
  pub leftover_policy : LeftoverPolicy
  pub shelf_life_days : Option ℤ

abbrev pub Ingredients : Type 0
Ingredients = ℕ → Option Ingredient

abbrev pub staff : List Role
staff = owner ∷ kitchen ∷ []

abbrev pub max_qty : ℕ
max_qty = 100000000

abbrev pub max_note : ℕ
max_note = 500

abbrev day : ℤ
day = pos 86400000000000

-- `expiry`: days of 24 hours, as in UTC and in Jakarta.
unfoldable pub expiry : Ingredient → ℤ → Option ℤ → Option ℤ
expiry i received (some given) = some given
expiry i received none = elim i.shelf_life_days [
  | none ↦ none
  | some days ↦ some (received +ℤ days *ℤ day)
]

-- The check that a perishable delivery counts as.
abbrev fresh_check : LeftoverPolicy → Lot → ℕ → Stock → Stock
fresh_check confirm l actor s =
    insert_check
      (record {
        lot_id = l.id;
        passed = true;
        reason = no_reason;
        note = [];
        checked_by = actor;
        at = l.received_at;
      })
      s
fresh_check _ l actor s = s

-- `intake`.
unfoldable pub intake : Ingredient → Lot → ℤ → ℕ → ℤ → Stock → Stock
intake i l qty actor now s =
    let moved =
      insert_movement
        (record {
          lot_id = l.id;
          ingredient_id = l.ingredient_id;
          kind = receive_kind;
          qty = qty;
          batch_id = none;
          reason = [];
          actor_id = actor;
          at = now;
        })
        (insert_lot l now s) in
    publish
      (record { type_name = "inventory.stock_changed"; entity_id = l.ingredient_id; at = now })
      (audit
        (record {
          action = "inventory.stock.received";
          entity_id = l.id;
          actor_id = actor;
          at = now;
        })
        (fresh_check i.leftover_policy l actor moved))

-- `ReceiveInput`; no time of receipt stands for now.
pub record ReceiveInput : Type 0 where
  pub ingredient_id : ℕ
  pub qty : ℤ
  pub received_at : Option ℤ
  pub expires_at : Option ℤ
  pub note : Text
  pub idempotency_key : ℕ

abbrev pub trimmed : ReceiveInput → ReceiveInput
trimmed i = record i { note = trim_space i.note }

abbrev or_now : Option ℤ → ℤ → ℤ
or_now none now = now
or_now (some t) now = t

abbrev is_some : Option Ingredient → Bool
is_some none = false
is_some (some i) = true

abbrev pub expires_after : Option ℤ → ℤ → Bool
expires_after none t = true
expires_after (some e) t = ltb_ℤ t e

-- The checks of `Receive`.
unfoldable pub receive_fields : Ingredients → ReceiveInput → ℤ → Fields
receive_fields ingredients i now =
    let received = or_now i.received_at now in
    check (leb (length i.note) max_note) "note" (
      check (expires_after i.expires_at received) "expires_at" (
        check (leb_ℤ (now -ℤ pos 30 *ℤ day) received) "received_at" (
          check (leb_ℤ received (now +ℤ pos 300000000000)) "received_at" (
            check (ltb_ℤ (pos 0) i.qty && leb_ℤ i.qty (pos max_qty)) "qty" (
              check (is_some (ingredients i.ingredient_id)) "ingredient_id"
                (check (not (i.idempotency_key == 0)) "idempotency_key" []))))))

-- The lot of a delivery.
abbrev pub new_lot : ℕ → ℕ → ℤ → Option ℤ → Source → Option ℕ → Text → Lot
new_lot id ingredient received expires source item note = record {
  id = id;
  ingredient_id = ingredient;
  received_at = received;
  expires_at = expires;
  status = available;
  source = source;
  procurement_item_id = item;
  note = note;
  balance = pos 0;
  last_ok_at = none;
  created_at = pos 0;
}

-- The transaction of `Receive`: the lot to return, and the stock.
unfoldable pub receive_tx :
    Request → Ingredient → ReceiveInput → ℤ → Stock → Result Error (ℕ × Stock)
unfolding claim intake expiry
receive_tx r ing i now s = elim (claim r s) [
  | err e ↦ err e
  | ok (some held, s') ↦ ok (held.result_id, s')
  | ok (none, s') ↦
      (let received = or_now i.received_at now in
        ok (
          r.result_id,
          intake ing
              (new_lot r.result_id i.ingredient_id received (expiry ing received i.expires_at)
                manual none i.note)
              i.qty r.actor_id now s',
        ))
]

-- What follows the search for the key. The fields' check has found the ingredient.
unfoldable pub receive_new :
    Ingredients → Principal → ReceiveInput → Text → ℕ → ℤ → Stock → Result Error Lot × Stock
unfolding receive_fields receive_tx get_lot
receive_new ingredients p i body fresh now s =
    elim (fields_err (receive_fields ingredients i now)) [
      | err e ↦ (err e, s)
      | ok u ↦ elim (ingredients i.ingredient_id) [
        | none ↦ (err (validation ("ingredient_id" ∷ [])), s)
        | some ing ↦
            (let r : Request = record {
              kind = receive_stock;
              key = i.idempotency_key;
              body = body;
              result_id = fresh;
              actor_id = p.auth_user_id;
              at = now;
            } in
              elim (receive_tx r ing i now s) [
                | err e ↦ (err e, s)
                | ok (id, s') ↦ (get_lot id s', s')
              ])
      ]
    ]

-- `Receive`, once the caller is known.
unfoldable pub receive_as :
    (ReceiveInput → Text)
    → Ingredients
    → Principal
    → ReceiveInput
    → ℕ
    → ℤ
    → Stock
    → Result Error Lot × Stock
unfolding retried receive_new get_lot
receive_as marshal ingredients p i fresh now s =
    elim (retried receive_stock i.idempotency_key (marshal i) p.auth_user_id s) [
      | err e ↦ (err e, s)
      | ok (some first) ↦ (get_lot first.result_id s, s)
      | ok none ↦ receive_new ingredients p i (marshal i) fresh now s
    ]

-- `Receive`.
unfoldable pub receive :
    (ReceiveInput → Text)
    → Ingredients
    → Result Error Principal
    → ReceiveInput
    → ℕ
    → ℤ
    → Stock
    → Result Error Lot × Stock
unfolding receive_as
receive marshal ingredients caller input fresh now s = elim (authorize caller staff) [
  | err e ↦ (err e, s)
  | ok p ↦ receive_as marshal ingredients p (trimmed input) fresh now s
]
