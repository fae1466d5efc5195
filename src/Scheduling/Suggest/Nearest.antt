-- ===== src/Scheduling/Suggest/Nearest.antt =====
-- What a suggestion is: a plan of the first day on which one can be had.
use mathlib.Core.Path.{subst}
use kue_preorder.Prelude.{
  ℕ, zero, suc, ◌<◌, ℤ, pos, ◌+ℤ◌, ◌<ℤ◌, ◌≤ℤ◌, ltb_ℤ, ◌≢◌, ap, pos_part, neg_part, eq_of_parts,
  int_laws, ◌≡◌, ◌⊎◌, refl, true, false, none, some, Option, inl, inr, Bool-cases, arith,
}
use kue_preorder.Prelude.Result.{ok, err}
use kue_preorder.Platform.Errors.{Error, Result-cases}
use kue_preorder.Scheduling.Time.{date_of, time_of_day}
use kue_preorder.Scheduling.Plan.{Settings, Request, Plan, hours, plan}
use kue_preorder.Scheduling.Suggest.{
  suggest_days, first_day, candidate, skipped, with_pickup, try_days, suggest, longest_notice,
  earliest_pickup,
}
use kue_preorder.Scheduling.Suggest.Tried.{
  IsLongest, IsQuarterFrom, IsLater, IsTried, longest_notice-IsLongest,
  earliest_pickup-IsQuarterFrom, candidate-IsTried,
}

-- The time tried on that day is past the pickup hours or falls on another day, or `Plan` refuses it.
abbrev pub Refused : Settings → Request → ℤ → ℤ → Type 0
Refused s r earliest day =
    (at : ℤ) × IsTried s r earliest day at
    × ((s.pickup_end <ℤ time_of_day at)
        ⊎ (date_of at ≢ day)
        ⊎ ((e : Error) × (plan s (record r { pickup_at = at }) ≡ err e)))

abbrev pub Accepted : Settings → Request → ℤ → ℤ → Plan → Type 0
Accepted s r earliest day p =
    (at : ℤ) × IsTried s r earliest day at
    × (time_of_day at ≤ℤ s.pickup_end)
    × (date_of at ≡ day)
    × (plan s (record r { pickup_at = at }) ≡ ok p)

-- The outcome of trying `n` days from `day`.
abbrev pub Nearest : ℕ → Settings → Request → ℤ → ℤ → Option Plan → Type 0
Nearest n s r earliest day found =
    ((found ≡ none) × ((k : ℕ) → k < n → Refused s r earliest (day +ℤ pos k)))
    ⊎ ((p : Plan) × (k : ℕ) × (found ≡ some p)
        × (k < n)
        × Accepted s r earliest (day +ℤ pos k) p
        × ((j : ℕ) → j < k → Refused s r earliest (day +ℤ pos j)))

zero_later : (day : ℤ) → day ≡ day +ℤ pos 0
zero_later day = omega int_laws

suc_later : (day : ℤ) (k : ℕ) → day +ℤ pos 1 +ℤ pos k ≡ day +ℤ pos (suc k)
suc_later day k = omega int_laws

Refused-from :
    (s : Settings) (r : Request) (earliest day : ℤ) (n : ℕ)
    → Refused s r earliest day
    → ((k : ℕ) → k < n → Refused s r earliest (day +ℤ pos 1 +ℤ pos k))
    → (k : ℕ) → k < suc n
    → Refused s r earliest (day +ℤ pos k)
Refused-from s r earliest day n now later zero h = subst (Refused s r earliest) (zero_later day) now
Refused-from s r earliest day n now later (suc k) h =
    subst (Refused s r earliest) (suc_later day k) (later k (omega arith))

-- A refused day puts off the outcome of the days after it.
put_off :
    (n : ℕ) (s : Settings) (r : Request) (earliest day : ℤ) (found : Option Plan)
    → Refused s r earliest day
    → Nearest n s r earliest (day +ℤ pos 1) found
    → Nearest (suc n) s r earliest day found
put_off n s r earliest day found now (inl (e, later)) =
    inl (e, Refused-from s r earliest day n now later)
put_off n s r earliest day found now (inr (p, k, e, h, a, later)) = inr (
  p,
  suc k,
  e,
  omega arith,
  subst (λ d. Accepted s r earliest d p) (suc_later day k) a,
  Refused-from s r earliest day k now later,
)

-- An accepted day is the outcome.
at_once :
    (n : ℕ) (s : Settings) (r : Request) (earliest day : ℤ) (p : Plan)
    → Accepted s r earliest day p
    → Nearest (suc n) s r earliest day (some p)
at_once n s r earliest day p a = inr (
  p,
  0,
  refl,
  omega arith,
  subst (λ d. Accepted s r earliest d p) (zero_later day) a,
  λ j h. absurd (omega arith),
)

late_or_elsewhere :
    (s : Settings) (r : Request) (day : ℤ)
    → skipped s day (candidate s r day) ≡ true
    → Refused s r (earliest_pickup r) day
unfolding skipped
late_or_elsewhere s r day t =
    let at = candidate s r day in
    (
      at,
      candidate-IsTried s r day,
      elim (Bool-cases (ltb_ℤ s.pickup_end (time_of_day at))) [
        | inl late ↦ inl (ground (arith, late))
        | inr f ↦ inr (inl (λ same. ground (arith, t, f, ap pos_part same, ap neg_part same)))
      ],
    )

in_time_there :
    (s : Settings) (day at : ℤ)
    → skipped s day at ≡ false
    → (time_of_day at ≤ℤ s.pickup_end) × (date_of at ≡ day)
unfolding skipped
in_time_there s day at f = (ground arith, eq_of_parts (date_of at) day (ground arith))

try_days-Nearest :
    (n : ℕ) (s : Settings) (r : Request) (day : ℤ)
    → Nearest n s r (earliest_pickup r) day (try_days n s r day)
unfolding try_days
try_days-Nearest zero s r day = inl (refl, λ k h. absurd (omega arith))
try_days-Nearest (suc n) s r day =
    let at = candidate s r day in
    let rest = try_days-Nearest n s r (day +ℤ pos 1) in
    elim (Bool-cases (skipped s day at)) [
      | inl t ↦ rw t (put_off n s r (earliest_pickup r) day _ (late_or_elsewhere s r day t) rest)
      | inr f ↦ elim (Result-cases (plan s (with_pickup r at))) [
        | inl (p, e) ↦
            (let (hour, on) = in_time_there s day at f in
              rw (f, e)
                (at_once n s r (earliest_pickup r) day p
                  (at, candidate-IsTried s r day, hour, on, e)))
        | inr (x, e) ↦
            rw (f, e)
              (put_off n s r (earliest_pickup r) day _
                (at, candidate-IsTried s r day, inr (inr (x, e))) rest)
      ]
    ]

first_day-IsLater :
    (r : Request) → IsLater (date_of r.pickup_at) (date_of (earliest_pickup r)) (first_day r)
unfolding first_day
first_day-IsLater r = ground arith

-- Whatever the settings and the request: the first pickup that the longest notice of the items allows is
-- a quarter of an hour, and 61 days are tried from its day or the requested one, whichever is later. On
-- each day one time is tried: the requested time of day, moved into the pickup hours, or that first
-- pickup if it is later. Either this time is refused on all 61 days, being past the pickup hours or on
-- another day or refused by `Plan`, and nothing is suggested; or the suggestion is the plan that `Plan`
-- makes for the time tried on some day, and the times tried on the days before it are refused.
pub suggest-Nearest :
    (s : Settings) (r : Request)
    → (notice : ℤ) × (earliest : ℤ) × (first : ℤ) × IsLongest r.items notice
      × IsQuarterFrom (r.now +ℤ hours notice) earliest
      × IsLater (date_of r.pickup_at) (date_of earliest) first
      × Nearest 61 s r earliest first (suggest s r)
unfolding suggest
suggest-Nearest s r = (
  longest_notice (pos 0) r.items,
  earliest_pickup r,
  first_day r,
  longest_notice-IsLongest r.items,
  earliest_pickup-IsQuarterFrom r,
  first_day-IsLater r,
  try_days-Nearest (suc suggest_days) s r (first_day r),
)
