-- ===== src/Scheduling/Service.antt =====
-- internal/scheduling/service.go and internal/scheduling/reader.go: the shop's settings and its closed
-- dates, over one tenant's rows (internal/scheduling/postgres/repo.go). The times of a change and the
-- mark that tells a conflict from another field error are left out.
pub mod Closed
use kue_preorder.Prelude.{
  ℕ, leb, ℤ, pos, ◌+ℤ◌, ltb_ℤ, leb_ℤ, eqb_ℤ, Bool, true, false, not, ◌&&◌, List, [], ◌∷◌, ◌++◌,
  contains_func, Option, none, some, if◌then◌else◌,
}
use kue_preorder.Prelude.Text.{Text, is_empty, trim_space, byte_length}
use kue_preorder.Prelude.Result.{Result, ok, err, ◌>>=◌, ◌>>◌}
use kue_preorder.Platform.Errors.{Error, not_found, validation, check, fields_err}
use kue_preorder.Platform.Caller.{Role, owner, kitchen, Principal, authorize}
use kue_preorder.Scheduling.Time.{date_of}
use kue_preorder.Scheduling.Plan.{Settings, default_settings, validate}

-- A row of the closed dates; the count of active orders is filled in when they are listed.
pub record ClosedDate : Type 0 where
  pub date : ℤ
  pub reason : Text
  pub active_orders : ℕ

pub record RulesStore : Type 0 where
  pub own_settings : Option Settings
  pub closed : List ClosedDate

abbrev pub owners : List Role
owners = owner ∷ []

abbrev pub staff : List Role
staff = owner ∷ kitchen ∷ []

abbrev pub max_closed_date_range : ℕ
max_closed_date_range = 366

abbrev pub is_on : ℤ → ClosedDate → Bool
is_on d c = eqb_ℤ c.date d

-- `order by date`.
insert_date : ClosedDate → List ClosedDate → List ClosedDate
insert_date c [] = c ∷ []
insert_date c (x ∷ xs) =
    let rest = insert_date c xs in if leb_ℤ c.date x.date then c ∷ x ∷ xs else x ∷ rest

-- `Repository.ClosedDates`.
unfoldable pub closed_between : ℤ → ℤ → List ClosedDate → List ClosedDate
unfolding insert_date
closed_between from to [] = []
closed_between from to (c ∷ cs) =
    let rest = closed_between from to cs in
    if leb_ℤ from c.date && leb_ℤ c.date to then insert_date c rest else rest

-- `Reader.Settings`, which the service answers too.
unfoldable pub stored_settings : RulesStore → Settings
stored_settings s = elim s.own_settings [ none ↦ default_settings | some x ↦ x ]

-- `Reader.ClosedDates`: the map that a request takes, as the days that it holds.
unfoldable pub closed_days : RulesStore → ℤ → ℤ → ℤ → Bool
unfolding closed_between
closed_days s from to d = contains_func (is_on d) (closed_between from to s.closed)

-- `Service.Settings`.
unfoldable pub settings : Result Error Principal → RulesStore → Result Error Settings
unfolding stored_settings
settings caller s = do authorize caller staff >>= λ _. ok tt; ok (stored_settings s)

-- `UpdateSettings`.
unfoldable pub update_settings :
    Result Error Principal → Settings → RulesStore → Result Error Settings × RulesStore
update_settings caller in_settings s =
    elim (authorize caller owners >>= λ _. validate in_settings) [
      | err e ↦ (err e, s)
      | ok u ↦ (ok in_settings, record s { own_settings = some in_settings })
    ]

with_counts : (ℤ → ℕ) → List ClosedDate → List ClosedDate
with_counts counts [] = []
with_counts counts (c ∷ cs) = record c { active_orders = counts c.date } ∷ with_counts counts cs

counted_dates :
    (ℤ → ℤ → Result Error (ℤ → ℕ)) → ℤ → ℤ → List ClosedDate → Result Error (List ClosedDate)
unfolding with_counts
counted_dates active from to [] = ok []
counted_dates active from to (c ∷ cs) = do counts ← active from to; ok (with_counts counts (c ∷ cs))

-- `ClosedDates`; `active` is `OrderCounter.ActiveOrders`.
unfoldable pub closed_dates :
    (ℤ → ℤ → Result Error (ℤ → ℕ))
    → Result Error Principal
    → ℤ
    → ℤ
    → RulesStore
    → Result Error (List ClosedDate)
unfolding closed_between counted_dates
closed_dates active caller from to s = do
  authorize caller staff >>= λ _. ok tt
  fields_err (
      check (leb_ℤ to (from +ℤ pos max_closed_date_range)) "to_date"
        (check (not (ltb_ℤ to from)) "to_date" []))
  counted_dates active from to (closed_between from to s.closed)

-- The fields of `AddClosedDate`; the length of a string in Go is its bytes.
unfoldable pub closed_date_fields : ℤ → Text → ℤ → Result Error (Unit {0})
closed_date_fields d reason now = fields_err (
    check (leb (byte_length reason) 200) "reason"
      (check (not (is_empty reason)) "reason" (check (not (ltb_ℤ d (date_of now))) "date" [])))

-- `Repository.AddClosedDate`: a date is closed once.
unfoldable pub insert_closed_date : ℤ → Text → RulesStore → Result Error ClosedDate × RulesStore
insert_closed_date d reason s =
    if contains_func (is_on d) s.closed
    then (err (validation ("date" ∷ [])), s)
    else (let row : ClosedDate = record { date = d; reason = reason; active_orders = 0 } in
        (ok row, record s { closed = s.closed ++ row ∷ [] }))

-- `AddClosedDate`.
unfoldable pub add_closed_date :
    Result Error Principal → ℤ → Text → ℤ → RulesStore → Result Error ClosedDate × RulesStore
unfolding closed_date_fields insert_closed_date
add_closed_date caller d reason now s =
    elim (authorize caller staff >>= λ _. closed_date_fields d (trim_space reason) now) [
      | err e ↦ (err e, s)
      | ok u ↦ insert_closed_date d (trim_space reason) s
    ]

without : ℤ → List ClosedDate → List ClosedDate
without d [] = []
without d (c ∷ cs) = let rest = without d cs in if is_on d c then rest else c ∷ rest

-- `Repository.RemoveClosedDate`.
unfoldable pub delete_closed_date : ℤ → RulesStore → Result Error (Unit {0}) × RulesStore
unfolding without
delete_closed_date d s =
    if contains_func (is_on d) s.closed
    then (ok tt, record s { closed = without d s.closed })
    else (err not_found, s)

-- `RemoveClosedDate`.
unfoldable pub remove_closed_date :
    Result Error Principal → ℤ → RulesStore → Result Error (Unit {0}) × RulesStore
unfolding delete_closed_date
remove_closed_date caller d s = elim (authorize caller staff) [
  | err e ↦ (err e, s)
  | ok p ↦ delete_closed_date d s
]
