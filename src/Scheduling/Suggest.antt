-- ===== src/Scheduling/Suggest.antt =====
-- internal/scheduling/suggest.go: the nearest pickup that `Settings.Plan` accepts.
pub mod Tried
pub mod Nearest
use kue_preorder.Prelude.{
  ℕ, zero, suc, ◌*◌, ℤ, pos, ◌+ℤ◌, ◌-ℤ◌, ltb_ℤ, eqb_ℤ, max_ℤ, min_ℤ, Bool, not, ◌||◌, List, [], ◌∷◌,
  Option, none, some, if◌then◌else◌,
}
use kue_preorder.Prelude.Result.{ok, err}
use kue_preorder.Scheduling.Time.{minute_ns, floor_mod, date_of, date_at, time_of_day}
use kue_preorder.Scheduling.Plan.{Settings, Item, Request, Plan, hours, plan}

abbrev pub suggest_days : ℕ
suggest_days = 60

abbrev pub suggest_step : ℕ
suggest_step = 15 * minute_ns

-- `roundUp`. `Truncate` counts from the year 1, a whole number of days before 1970.
unfoldable pub round_up : ℤ → ℕ → ℤ
unfolding floor_mod
round_up t step =
    if eqb_ℤ (floor_mod t step) (pos 0) then t else (t -ℤ floor_mod t step) +ℤ pos step

unfoldable pub longest_notice : ℤ → List Item → ℤ
longest_notice notice [] = notice
longest_notice notice (i ∷ is) = longest_notice (max_ℤ notice i.min_notice_hours) is

unfoldable pub earliest_pickup : Request → ℤ
unfolding round_up longest_notice
earliest_pickup r = round_up (r.now +ℤ hours (longest_notice (pos 0) r.items)) suggest_step

-- The time of day that is tried first on each day.
unfoldable pub wanted_time : Settings → Request → ℤ
wanted_time s r = min_ℤ (max_ℤ (time_of_day r.pickup_at) s.pickup_start) s.pickup_end

unfoldable pub first_day : Request → ℤ
unfolding earliest_pickup
first_day r = max_ℤ (date_of r.pickup_at) (date_of (earliest_pickup r))

unfoldable pub candidate : Settings → Request → ℤ → ℤ
unfolding earliest_pickup wanted_time
candidate s r day =
    let at = date_at day (wanted_time s r) in
    if ltb_ℤ at (earliest_pickup r) then earliest_pickup r else at

-- The loop's `continue`.
unfoldable pub skipped : Settings → ℤ → ℤ → Bool
skipped s day c = ltb_ℤ s.pickup_end (time_of_day c) || not (eqb_ℤ (date_of c) day)

abbrev pub with_pickup : Request → ℤ → Request
with_pickup r c = record r { pickup_at = c }

unfoldable pub try_days : ℕ → Settings → Request → ℤ → Option Plan
unfolding candidate skipped
try_days zero s r day = none
try_days (suc left) s r day =
    let later = try_days left s r (day +ℤ pos 1) in
    let c = candidate s r day in
    if skipped s day c
    then later
    else elim (plan s (with_pickup r c)) [ ok p ↦ some p | err e ↦ later ]

-- `Suggest`.
unfoldable pub suggest : Settings → Request → Option Plan
unfolding try_days first_day
suggest s r = try_days (suc suggest_days) s r (first_day r)
