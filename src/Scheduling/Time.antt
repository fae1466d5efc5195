-- ===== src/Scheduling/Time.antt =====
-- Instants and durations as Go's time package has them, and the Jakarta calendar of
-- internal/platform/clock/date.go. An instant is a number of nanoseconds since 1970 in UTC; a date is
-- the number of its day in Jakarta, which has been seven hours ahead of UTC since 1964. The definitions
-- below speak of instants and days from 1964 on: the time zone database, which the program loads, has
-- other offsets and gaps before.
use kue_preorder.Prelude.{
  ℕ, ◌-◌, ◌*◌, ◌/◌, ◌%◌, ℤ, pos, negsuc, ◌+ℤ◌, ◌-ℤ◌, ◌*ℤ◌, ltb_ℤ, if◌then◌else◌,
}
use kue_preorder.Prelude.Word.{two_63}

abbrev pub minute_ns : ℕ
minute_ns = 60000000000

abbrev pub hour_ns : ℕ
hour_ns = 3600000000000

abbrev pub day_ns : ℕ
day_ns = 86400000000000

-- `time.Duration` saturates where a difference of instants does not fit.
abbrev max_duration : ℤ
max_duration = pos (two_63 - 1)

abbrev min_duration : ℤ
min_duration = negsuc (two_63 - 1)

-- `Time.Sub`.
unfoldable pub time_sub : ℤ → ℤ → ℤ
time_sub t u =
    if ltb_ℤ max_duration (t -ℤ u)
    then max_duration
    else if ltb_ℤ (t -ℤ u) min_duration
    then min_duration
    else t -ℤ u

-- Division rounded down, and its remainder.
unfoldable pub floor_div : ℤ → ℕ → ℤ
floor_div (pos n) d = pos (n / d)
floor_div (negsuc n) d = negsuc (n / d)

unfoldable pub floor_mod : ℤ → ℕ → ℤ
floor_mod (pos n) d = pos (n % d)
floor_mod (negsuc n) d = pos (d - 1 - n % d)

-- `DateOf`, and `timeOfDay` in minutes.
unfoldable pub date_of : ℤ → ℤ
unfolding floor_div
date_of t = floor_div (t +ℤ pos (7 * hour_ns)) day_ns

unfoldable pub time_of_day : ℤ → ℤ
unfolding floor_div floor_mod
time_of_day t = floor_div (floor_mod (t +ℤ pos (7 * hour_ns)) day_ns) minute_ns

-- `Date.At`: the instant of a minute of a day.
unfoldable pub date_at : ℤ → ℤ → ℤ
date_at day m = ((day *ℤ pos 1440 +ℤ m) -ℤ pos 420) *ℤ pos minute_ns
