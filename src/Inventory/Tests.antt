-- ===== src/Inventory/Tests.antt =====
-- The theorems on the stock at concrete data, and runs of the calls: two deliveries of flour, 300 g and
-- then 500 g.
use kue_preorder.Prelude.{
  ℕ, ◌==◌, ℤ, pos, ◌≤ℤ◌, ◌+ℤ◌, ◌-ℤ◌, ◌≡◌, ◌≢◌, false, refl, [], ◌∷◌, List, none, some, arith,
  if◌then◌else◌, ◌*ℤ◌,
}
use kue_preorder.Prelude.Word.{wrap64, ◌-64◌}
use kue_preorder.Prelude.Text.{Text, codes, trim_space, trim_left}
use kue_preorder.Prelude.Result.{Result, ok, err}
use kue_preorder.Platform.Errors.{Error, check, fields_err}
use kue_preorder.Platform.Caller.{Principal, kitchen, authorize}
use kue_preorder.Inventory.Countable.{auto}
use kue_preorder.Inventory.Stock.{
  mold, Lot, manual, Movement, Stock, receive as receive_kind, balance_of, last_ok, lots_of,
}
use kue_preorder.Inventory.Consume.{Use, Batch, sorted, consume_all}
use kue_preorder.Inventory.Consume.Whole.{IsSoundStock, AccountsAll, positive, consume_all_sound}
use kue_preorder.Inventory.Requests.{retried, request_in, claim, get_lot, lot_in}
use kue_preorder.Inventory.Intake.{
  Ingredients, ReceiveInput, new_lot, receive, receive_fields, intake, expiry,
}
use kue_preorder.Inventory.Kitchen.Discarded.{check_discards}
use kue_preorder.Inventory.Kitchen.{CheckInput, counted, check_locked, CountInput, apply_count}
use kue_preorder.Inventory.Kitchen.Recounted.{apply_count_exact}
use kue_preorder.Inventory.Consume.Taken.{held}
use kue_preorder.Inventory.Consume.Moved.{moved, plus_if}
use kue_preorder.Inventory.Intake.Replay.{receive_again}

abbrev delivery : ℕ → ℤ → Movement
delivery lot qty = record {
  lot_id = lot;
  ingredient_id = 3;
  kind = receive_kind;
  qty = qty;
  batch_id = none;
  reason = [];
  actor_id = 5;
  at = pos 10;
}

abbrev flour : ℕ → ℤ → Lot
flour id at = new_lot id 3 at none manual none []

abbrev shelf : Stock
shelf = record {
  lots = flour 1 (pos 10) ∷ flour 2 (pos 20) ∷ [];
  movements = delivery 1 (pos 300) ∷ delivery 2 (pos 500) ∷ [];
  checks = [];
  requests = [];
  audits = [];
  events = [];
}

shelf-nonneg : (k : ℕ) → pos 0 ≤ℤ balance_of k shelf.movements
unfolding balance_of ◌+ℤ◌
shelf-nonneg k = ground arith

shelf-IsSoundStock : IsSoundStock shelf
shelf-IsSoundStock = record { apart = (((λ e. ground arith), tt), (tt, tt)); nonneg = shelf-nonneg }

abbrev bake : Batch
bake = record { id = 40; actor_id = 5; at = pos 100 }

abbrev flour_used : List Use
flour_used = record { ingredient_id = 3; qty = pos 700 } ∷ []

consume_all_sound_example :
    IsSoundStock ((consume_all bake flour_used shelf).1)
    × AccountsAll (positive (sorted flour_used)) (consume_all bake flour_used shelf).0
consume_all_sound_example =
    consume_all_sound bake flour_used shelf shelf-IsSoundStock ((omega arith, omega arith), tt)

-- All of the older lot and 400 g of the younger one.
consume_test :
    (consume_all bake flour_used shelf).0
    ≡ record { ingredient_id = 3; consumed = pos 700; missing = pos 0 } ∷ []
unfolding consume_all lots_of balance_of ◌+ℤ◌ ◌-ℤ◌ ◌-64◌ wrap64
consume_test = refl

abbrev full : ℕ → ℤ → Lot
full id balance = record (flour id (pos 10)) { balance = balance }

abbrev ingredients : Ingredients
ingredients i =
    if i == 3 then some (record { leftover_policy = auto; shelf_life_days = none }) else none

abbrev cook : Result Error Principal
cook = ok (record { auth_user_id = 5; roles = kitchen ∷ []; customer_id = none })

abbrev sack : ReceiveInput
sack = record {
  ingredient_id = 3;
  qty = pos 1000;
  received_at = none;
  expires_at = none;
  note = [];
  idempotency_key = 77;
}

-- The fields as the request sends them.
abbrev as_sent : ReceiveInput → Text
as_sent i = i.ingredient_id ∷ i.note

abbrev first_call : Result Error Lot × Stock
first_call = receive as_sent ingredients cook sack 6 (pos 50) shelf

abbrev sack_lot : Lot
sack_lot = record (new_lot 6 3 (pos 50) none manual none []) {
  balance = pos 1000;
  created_at = pos 50;
}

receive_again_example :
    receive as_sent ingredients cook sack 8 (pos 90000) first_call.1 ≡ (ok sack_lot, first_call.1)
unfolding receive authorize trim_space trim_left retried request_in receive_fields check fields_err
    claim intake expiry get_lot lot_in ◌+ℤ◌ ◌-ℤ◌ ◌*ℤ◌ balance_of last_ok
receive_again_example =
    receive_again as_sent ingredients ingredients cook sack 6 8 (pos 50) (pos 90000) shelf
      first_call.1 sack_lot refl

abbrev flour_count : CountInput
flour_count = record {
  ingredient_id = 3;
  actual = pos 650;
  reason = codes "tumpah";
  idempotency_key = 78;
}

abbrev cook_is : Principal
cook_is = record { auth_user_id = 5; roles = kitchen ∷ []; customer_id = none }

apply_count_exact_example :
    (let after =
        apply_count cook_is
          (record { leftover_policy = auto; shelf_life_days = none })
          flour_count
          9
          (pos 100)
          shelf in
      IsSoundStock after
      × ((j : ℕ)
          → moved j after.movements
            ≡ plus_if
                (3 == j)
                (moved j shelf.movements)
                (flour_count.actual -ℤ held (lots_of 3 counted shelf))))
unfolding held balance_of ◌+ℤ◌ lots_of
apply_count_exact_example =
    apply_count_exact cook_is (record { leftover_policy = auto; shelf_life_days = none })
      flour_count 9 (pos 100) shelf shelf-IsSoundStock
      ((λ e. ground arith), ((λ e. ground arith), tt)) (omega arith) (omega arith) (omega arith)

abbrev spoilt : CheckInput
spoilt = record { passed = false; reason = mold; note = [] }

abbrev committed_or : Result Error Stock → Stock → Stock
committed_or (ok s) t = s
committed_or (err e) t = t

abbrev thrown : Stock
thrown = committed_or (check_locked cook_is spoilt (pos 100) (full 1 (pos 300)) shelf) shelf

check_discards_example :
    (balance_of 1 thrown.movements ≡ pos 0)
    × ((k : ℕ) → k ≢ 1 → balance_of k thrown.movements ≡ balance_of k shelf.movements)
unfolding check_locked balance_of ◌+ℤ◌
check_discards_example =
    check_discards cook_is (full 1 (pos 300)) spoilt (pos 100) shelf thrown refl (omega arith) refl
      refl
