-- ===== src/Scheduling/Tests.antt =====
-- The theorem on plans at concrete data: a cake that takes two hours, ordered a week ahead.
use kue_preorder.Scheduling.Service.Closed.{add_closed_date_blocks}
use kue_preorder.Scheduling.Service.{ClosedDate, RulesStore, closed_days, add_closed_date}
use kue_preorder.Platform.Caller.{Principal, owner, authorize}
use kue_preorder.Prelude.Result.{Result, ok}
use kue_preorder.Prelude.Text.{codes, trim_space, trim_left, is_space, is_empty, byte_length}
use kue_preorder.Scheduling.Suggest.Tried.{IsLongest, IsQuarterFrom, IsLater}
use kue_preorder.Scheduling.Suggest.Nearest.{Nearest, suggest-Nearest}
use kue_preorder.Scheduling.Suggest.{suggest}
use kue_preorder.Prelude.{
  pos, refl, [], ◌∷◌, none, arith, false, ◌+ℤ◌, ◌-ℤ◌, ◌*ℤ◌, some, ◌≡◌, ℤ, Option, ◌≢◌,
}
use kue_preorder.Prelude.Word.{wrap64, ◌-64◌, ◌*64◌}
use kue_preorder.Platform.Errors.{fields_err, check, Error}
use kue_preorder.Scheduling.Time.{time_sub, date_of, time_of_day, floor_div, floor_mod, date_at}
use kue_preorder.Scheduling.Plan.{
  default_settings, validate, Request, Plan, hours, plan, needs, plan_pickup, cutoff_with,
  scheduled, over_capacity,
}
use kue_preorder.Scheduling.Ordered.{InOrder, plan-InOrder}

-- Noon in Jakarta, seven days after midnight of the day zero.
abbrev party : Request
party = record {
  now = pos 0;
  pickup_at = pos 622800000000000;
  items = record { production_minutes = pos 120; min_notice_hours = pos 24 } ∷ [];
  closed = λ d. false;
  batch_cutoffs = λ d. none;
  load_minutes = pos 0;
  order_minutes = pos 120;
  balance_due_hours_before = pos 12;
  dp_valid_for = pos 10800000000000;
}

abbrev party_plan : Plan
party_plan = record {
  pickup_at = pos 622800000000000;
  production_start = pos 615600000000000;
  production_date = pos 7;
  cutoff = pos 572400000000000;
  dp_deadline = pos 10800000000000;
  balance_due = pos 572400000000000;
  full_payment_required = false;
}

plan-InOrder_example : InOrder (pos 0) party_plan
unfolding default_settings validate fields_err check plan needs plan_pickup cutoff_with scheduled
    over_capacity time_sub date_of time_of_day floor_div floor_mod ◌-64◌ ◌*64◌ ◌-ℤ◌ ◌+ℤ◌ ◌*ℤ◌ wrap64
plan-InOrder_example =
    plan-InOrder default_settings party party_plan refl (omega arith, tt) (omega arith) refl

-- At eight in the evening the shop is closed; five o'clock of the same day is the nearest.
abbrev evening : Request
evening = record party { pickup_at = pos 651600000000000 }

suggest-Nearest_example :
    (notice : ℤ) × (earliest : ℤ) × (first : ℤ) × IsLongest evening.items notice
    × IsQuarterFrom (evening.now +ℤ hours notice) earliest
    × IsLater (date_of evening.pickup_at) (date_of earliest) first
    × Nearest 61 default_settings evening earliest first (suggest default_settings evening)
suggest-Nearest_example = suggest-Nearest default_settings evening

abbrev pickup_of : Option Plan → Option ℤ
pickup_of none = none
pickup_of (some p) = some p.pickup_at

evening_moved : pickup_of (suggest default_settings evening) ≡ some (pos 640800000000000)
unfolding default_settings suggest plan over_capacity time_sub date_of time_of_day floor_div
    floor_mod date_at ◌-64◌ ◌*64◌ ◌-ℤ◌ ◌+ℤ◌ ◌*ℤ◌ wrap64
evening_moved = refl

-- The owner closes the day 7; the cake is then planned for the day 8.
abbrev lebaran : ClosedDate
lebaran = record { date = pos 7; reason = codes "Libur"; active_orders = 0 }

abbrev holiday : RulesStore
holiday = record { own_settings = none; closed = lebaran ∷ [] }

abbrev boss : Result Error Principal
boss = ok (record { auth_user_id = 5; roles = owner ∷ []; customer_id = none })

abbrev day_after : Request
day_after = record party {
  pickup_at = pos 709200000000000;
  closed = closed_days holiday (pos 6) (pos 68);
}

abbrev day_after_plan : Plan
day_after_plan = record {
  pickup_at = pos 709200000000000;
  production_start = pos 702000000000000;
  production_date = pos 8;
  cutoff = pos 658800000000000;
  dp_deadline = pos 10800000000000;
  balance_due = pos 658800000000000;
  full_payment_required = false;
}

add_closed_date_blocks_example :
    (date_of (pos 709200000000000) ≢ pos 7) × (day_after_plan.production_date ≢ pos 7)
unfolding default_settings fields_err check plan needs plan_pickup cutoff_with scheduled
    over_capacity time_sub date_of time_of_day floor_div floor_mod ◌-64◌ ◌*64◌ ◌-ℤ◌ ◌+ℤ◌ ◌*ℤ◌ wrap64
    add_closed_date authorize closed_days trim_space trim_left is_space is_empty byte_length
add_closed_date_blocks_example =
    add_closed_date_blocks boss (pos 7) (codes "Libur") (pos 0)
      (record { own_settings = none; closed = [] }) holiday lebaran (pos 6) (pos 68)
      default_settings day_after day_after_plan refl (omega arith) (omega arith) refl refl
