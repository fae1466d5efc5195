-- ===== src/Scheduling/Suggest/Tried.antt =====
-- Which time of a day a suggestion tries, said without the search: the requested time of day as far as
-- the pickup hours allow it, but not before the first quarter of an hour that the longest notice allows.
use kue_preorder.Prelude.{
  suc, ◌%◌, ◌/◌, ℤ, pos, negsuc, ◌+ℤ◌, ◌-ℤ◌, ◌*ℤ◌, ◌<ℤ◌, ◌≤ℤ◌, eqb_ℤ, ltb_ℤ, max_ℤ, min_ℤ, ◌≡◌, ◌⊎◌,
  refl, true, inl, inr, Bool-cases, if◌then◌else◌, arith, List, [], ◌∷◌, All, contains_func,
}
use kue_preorder.Scheduling.Time.{date_at, time_of_day, floor_mod}
use kue_preorder.Scheduling.Plan.{Settings, Item, Request, hours}
use kue_preorder.Scheduling.Suggest.{
  suggest_step, round_up, longest_notice, earliest_pickup, wanted_time, candidate,
}

-- The longest notice of the items, or none.
abbrev pub IsLongest : List Item → ℤ → Type 0
IsLongest is n =
    (pos 0 ≤ℤ n)
    × All (λ i. i.min_notice_hours ≤ℤ n) is
    × ((n ≡ pos 0) ⊎ (contains_func (λ i. eqb_ℤ i.min_notice_hours n) is ≡ true))

-- The first quarter of an hour that is not before `t`.
abbrev pub IsQuarterFrom : ℤ → ℤ → Type 0
IsQuarterFrom t e = (t ≤ℤ e) × (e <ℤ t +ℤ pos suggest_step) × (k : ℤ) × (e ≡ k *ℤ pos suggest_step)

-- `m` is `wanted` where it lies between the bounds, and the bound it passes where it does not.
abbrev pub IsWithin : ℤ → ℤ → ℤ → ℤ → Type 0
IsWithin low high wanted m =
    ((low ≤ℤ wanted) × (wanted ≤ℤ high) × (m ≡ wanted))
    ⊎ ((wanted <ℤ low) × (low ≤ℤ high) × (m ≡ low))
    ⊎ (((high <ℤ low) ⊎ (high <ℤ wanted)) × (m ≡ high))

-- The later of the two.
abbrev pub IsLater : ℤ → ℤ → ℤ → Type 0
IsLater x y z = ((z ≡ x) × (y ≤ℤ x)) ⊎ ((z ≡ y) × (x ≤ℤ y))

-- The time tried on a day, nothing being possible before `earliest`.
abbrev pub IsTried : Settings → Request → ℤ → ℤ → ℤ → Type 0
IsTried s r earliest day at =
    (m : ℤ) × IsWithin s.pickup_start s.pickup_end (time_of_day r.pickup_at) m
    × IsLater (date_at day m) earliest at

round_up-IsQuarterFrom : (t : ℤ) → IsQuarterFrom t (round_up t suggest_step)
unfolding round_up floor_mod ◌-ℤ◌ ◌+ℤ◌ ◌*ℤ◌
round_up-IsQuarterFrom (pos t) = elim (Bool-cases (eqb_ℤ (pos (t % suggest_step)) (pos 0))) [
  | inl z ↦ (ground arith, ground arith, pos (t / suggest_step), ground arith)
  | inr f ↦ (ground arith, ground arith, pos (suc (t / suggest_step)), ground arith)
]
round_up-IsQuarterFrom (negsuc t) =
    elim (Bool-cases (eqb_ℤ (floor_mod (negsuc t) suggest_step) (pos 0))) [
      | inl z ↦ (ground arith, ground arith, negsuc (t / suggest_step), ground arith)
      | inr f ↦ (ground arith, ground arith, pos 0 -ℤ pos (t / suggest_step), ground arith)
    ]

clamp-IsWithin : (low high wanted : ℤ) → IsWithin low high wanted (min_ℤ (max_ℤ wanted low) high)
clamp-IsWithin (pos l) (pos h) (pos w) = ground arith
clamp-IsWithin (pos l) (pos h) (negsuc w) = ground arith
clamp-IsWithin (pos l) (negsuc h) (pos w) = ground arith
clamp-IsWithin (pos l) (negsuc h) (negsuc w) = ground arith
clamp-IsWithin (negsuc l) (pos h) (pos w) = ground arith
clamp-IsWithin (negsuc l) (pos h) (negsuc w) = ground arith
clamp-IsWithin (negsuc l) (negsuc h) (pos w) = ground arith
clamp-IsWithin (negsuc l) (negsuc h) (negsuc w) = ground arith

max-IsLater : (x y : ℤ) → IsLater x y (if ltb_ℤ x y then y else x)
max-IsLater x y = ground arith

-- The loop over the items, from `low`.
longest_from :
    (low : ℤ) (is : List Item)
    → (low ≤ℤ longest_notice low is)
      × All (λ i. i.min_notice_hours ≤ℤ longest_notice low is) is
      × ((longest_notice low is ≡ low)
          ⊎ (contains_func (λ i. eqb_ℤ i.min_notice_hours (longest_notice low is)) is ≡ true))
unfolding longest_notice
longest_from low [] = (omega arith, tt, inl refl)
longest_from low (i ∷ is) =
    let (above, all, which) = longest_from (max_ℤ low i.min_notice_hours) is in
    (ground arith, (ground arith, all), ground (arith, which))

pub longest_notice-IsLongest : (is : List Item) → IsLongest is (longest_notice (pos 0) is)
longest_notice-IsLongest is = longest_from (pos 0) is

pub earliest_pickup-IsQuarterFrom :
    (r : Request)
    → IsQuarterFrom (r.now +ℤ hours (longest_notice (pos 0) r.items)) (earliest_pickup r)
unfolding earliest_pickup
earliest_pickup-IsQuarterFrom r =
    round_up-IsQuarterFrom (r.now +ℤ hours (longest_notice (pos 0) r.items))

pub candidate-IsTried :
    (s : Settings) (r : Request) (day : ℤ) → IsTried s r (earliest_pickup r) day (candidate s r day)
unfolding candidate wanted_time
candidate-IsTried s r day = (
  wanted_time s r,
  clamp-IsWithin s.pickup_start s.pickup_end (time_of_day r.pickup_at),
  max-IsLater (date_at day (wanted_time s r)) (earliest_pickup r),
)
