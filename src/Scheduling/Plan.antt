-- ===== src/Scheduling/Plan.antt =====
-- internal/scheduling/plan.go: `Settings.Plan`, and the settings that it reads
-- (internal/scheduling/settings.go).
use kue_preorder.Prelude.{
  ◌*◌, ℤ, pos, ◌+ℤ◌, ltb_ℤ, leb_ℤ, max_ℤ, Bool, true, false, not, ◌&&◌, ◌||◌, List, [], ◌∷◌, Option,
  none, some, if◌then◌else◌,
}
use kue_preorder.Prelude.Word.{wrap32, ◌-64◌, ◌*64◌}
use kue_preorder.Prelude.Result.{Result, ok, err}
use kue_preorder.Platform.Errors.{Error, rejection, internal, check, fields_err}
use kue_preorder.Scheduling.Time.{minute_ns, hour_ns, day_ns, time_sub, date_of, time_of_day}

-- `Settings`; a field of Go type int32 or TimeOfDay is an integer.
pub record Settings : Type 0 where
  pub shopping_buffer_hours : ℤ
  pub daily_capacity_minutes : Option ℤ
  pub pickup_start : ℤ
  pub pickup_end : ℤ

unfoldable pub default_settings : Settings
default_settings = record {
  shopping_buffer_hours = pos 12;
  daily_capacity_minutes = none;
  pickup_start = pos 540;
  pickup_end = pos 1020;
}

abbrev capacity_valid : Option ℤ → Bool
capacity_valid none = true
capacity_valid (some c) = leb_ℤ (pos 1) c && leb_ℤ c (pos 1440)

-- `Settings.validate`.
unfoldable pub validate : Settings → Result Error (Unit {0})
validate s = fields_err (
    check (ltb_ℤ s.pickup_start s.pickup_end) "pickup_window_end" (
      check (leb_ℤ (pos 0) s.pickup_end && ltb_ℤ s.pickup_end (pos 1440)) "pickup_window_end" (
        check (leb_ℤ (pos 0) s.pickup_start && ltb_ℤ s.pickup_start (pos 1440))
          "pickup_window_start"
          (check (capacity_valid s.daily_capacity_minutes) "daily_capacity_minutes" (
            check (leb_ℤ (pos 0) s.shopping_buffer_hours && leb_ℤ s.shopping_buffer_hours (pos 168))
              "shopping_buffer_hours" [])))))

pub record Item : Type 0 where
  pub production_minutes : ℤ
  pub min_notice_hours : ℤ

-- `Request`; the maps are functions of a date.
pub record Request : Type 0 where
  pub now : ℤ
  pub pickup_at : ℤ
  pub items : List Item
  pub closed : ℤ → Bool
  pub batch_cutoffs : ℤ → Option ℤ
  pub load_minutes : ℤ
  pub order_minutes : ℤ
  pub balance_due_hours_before : ℤ
  pub dp_valid_for : ℤ

pub record Plan : Type 0 where
  pub pickup_at : ℤ
  pub production_start : ℤ
  pub production_date : ℤ
  pub cutoff : ℤ
  pub dp_deadline : ℤ
  pub balance_due : ℤ
  pub full_payment_required : Bool

abbrev pub min_payment_window : ℤ
min_payment_window = pos (30 * minute_ns)

abbrev pub max_advance : ℤ
max_advance = pos (365 * day_ns)

-- `time.Duration(n) * time.Hour`: a product of int64s.
abbrev pub hours : ℤ → ℤ
hours n = n *64 pos hour_ns

abbrev pub minutes : ℤ → ℤ
minutes n = n *64 pos minute_ns

-- `-time.Duration(n)`.
abbrev pub minus : ℤ → ℤ
minus n = pos 0 -64 n

-- The longest production and the longest notice among the items; none for a malformed item.
unfoldable pub needs : ℤ → ℤ → List Item → Option (ℤ × ℤ)
needs production notice [] = some (production, notice)
needs production notice (i ∷ is) =
    let rest = needs (max_ℤ production i.production_minutes) (max_ℤ notice i.min_notice_hours) is in
    if ltb_ℤ i.production_minutes (pos 1) || ltb_ℤ i.min_notice_hours (pos 0) then none else rest

-- The batch's shopping cutoff with this order in it.
unfoldable pub cutoff_with : Settings → Request → ℤ → ℤ
cutoff_with s r start =
    let own = start +ℤ hours (minus s.shopping_buffer_hours) in
    elim (r.batch_cutoffs (date_of start)) [
      | none ↦ own
      | some batch ↦ if ltb_ℤ batch own then batch else own
    ]

-- `DailyCapacityMinutes != nil && LoadMinutes + OrderMinutes > ..`, a sum of int32s.
unfoldable pub over_capacity : Option ℤ → ℤ → ℤ → Bool
over_capacity none load order = false
over_capacity (some cap) load order = ltb_ℤ cap (wrap32 (load +ℤ order))

-- The plan, once no check refuses.
unfoldable pub scheduled : Request → ℤ → ℤ → Plan
scheduled r start cutoff =
    let valid_until = r.now +ℤ r.dp_valid_for in
    let deadline = if ltb_ℤ cutoff valid_until then cutoff else valid_until in
    let balance = start +ℤ hours (minus r.balance_due_hours_before) in
    record {
      pickup_at = r.pickup_at;
      production_start = start;
      production_date = date_of start;
      cutoff = cutoff;
      dp_deadline = deadline;
      balance_due = balance;
      full_payment_required = not (ltb_ℤ deadline balance);
    }

-- The checks of a pickup time, with what the items need.
unfoldable pub plan_pickup : Settings → Request → ℤ → ℤ → Result Error Plan
unfolding cutoff_with over_capacity scheduled
plan_pickup s r production notice =
    let start = r.pickup_at +ℤ minutes (minus production) in
    let cutoff = cutoff_with s r start in
    if ltb_ℤ max_advance (time_sub r.pickup_at r.now)
    then err (rejection "too_far")
    else if ltb_ℤ r.pickup_at (r.now +ℤ hours notice)
    then err (rejection "too_soon")
    else if ltb_ℤ (time_of_day r.pickup_at) s.pickup_start
        || ltb_ℤ s.pickup_end (time_of_day r.pickup_at)
    then err (rejection "outside_window")
    else if r.closed (date_of r.pickup_at) || r.closed (date_of start)
    then err (rejection "closed")
    else if ltb_ℤ (time_sub cutoff r.now) min_payment_window
    then err (rejection "cutoff_passed")
    else if over_capacity s.daily_capacity_minutes r.load_minutes r.order_minutes
    then err (rejection "full")
    else ok (scheduled r start cutoff)

abbrev is_empty : List Item → Bool
is_empty [] = true
is_empty _ = false

-- `Settings.Plan`.
unfoldable pub plan : Settings → Request → Result Error Plan
unfolding needs plan_pickup
plan s r =
    if is_empty r.items
    then err (internal "no items")
    else if ltb_ℤ r.dp_valid_for min_payment_window || ltb_ℤ r.balance_due_hours_before (pos 0)
    then err (internal "DP validity or balance gap")
    else elim (needs (pos 0) (pos 0) r.items) [
      | none ↦ err (internal "item without production minutes or notice")
      | some (production, notice) ↦ plan_pickup s r production notice
    ]
