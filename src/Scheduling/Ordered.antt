-- ===== src/Scheduling/Ordered.antt =====
-- The order of a plan's times.
use mathlib.Core.Path.{subst}
use kue_preorder.Prelude.{
  ℕ, zero, suc, ◌≤◌, ℤ, pos, negsuc, ◌+ℤ◌, ◌-ℤ◌, ◌*ℤ◌, ◌≤ℤ◌, ◌<ℤ◌, ltb_ℤ, max_ℤ, +ℤ_parts, -ℤ_parts,
  ◌≡◌, false, ◌||◌, List, [], ◌∷◌, some, All, arith, inl, inr, Bool-cases, Option-cases,
}
use kue_preorder.Prelude.Word.{wrap64, ◌-64◌, ◌*64◌}
use kue_preorder.Prelude.Result.{ok}
use kue_preorder.Platform.Errors.{fields_err-eq-ok, check-eq-nil}
use kue_preorder.Scheduling.Time.{time_sub}
use kue_preorder.Scheduling.Plan.{
  Settings, Item, Request, Plan, validate, needs, cutoff_with, scheduled, plan_pickup, plan, hours,
  minutes, minus, min_payment_window,
}

-- Going back by a few minutes or hours never wraps.
minus_lem : (m : ℕ) → m ≤ 1000 → minus (pos (suc m)) ≡ negsuc m
unfolding ◌-64◌ ◌-ℤ◌ wrap64
minus_lem m h = ground arith

scaled_minutes : (m : ℕ) → m ≤ 1000 → minutes (negsuc m) ≤ℤ pos 0
unfolding ◌*64◌ ◌*ℤ◌ wrap64
scaled_minutes m h = ground arith

scaled_hours : (m : ℕ) → m ≤ 1000 → hours (negsuc m) ≤ℤ pos 0
unfolding ◌*64◌ ◌*ℤ◌ wrap64
scaled_hours m h = ground arith

minutes_zero : minutes (minus (pos 0)) ≤ℤ pos 0
unfolding ◌*64◌ ◌-64◌ ◌-ℤ◌ ◌*ℤ◌ wrap64
minutes_zero = omega arith

hours_zero : hours (minus (pos 0)) ≤ℤ pos 0
unfolding ◌*64◌ ◌-64◌ ◌-ℤ◌ ◌*ℤ◌ wrap64
hours_zero = omega arith

back_minutes : (n : ℤ) → pos 0 ≤ℤ n → n ≤ℤ pos 240 → minutes (minus n) ≤ℤ pos 0
back_minutes (pos zero) h k = minutes_zero
back_minutes (pos (suc m)) h k = rw (minus_lem m (omega arith)) (scaled_minutes m (omega arith))
back_minutes (negsuc n) h k = absurd (omega arith)

back_hours : (n : ℤ) → pos 0 ≤ℤ n → n ≤ℤ pos 168 → hours (minus n) ≤ℤ pos 0
back_hours (pos zero) h k = hours_zero
back_hours (pos (suc m)) h k = rw (minus_lem m (omega arith)) (scaled_hours m (omega arith))
back_hours (negsuc n) h k = absurd (omega arith)

buffer_bounds :
    (s : Settings) {u : Unit {0}}
    → validate s ≡ ok u
    → (pos 0 ≤ℤ s.shopping_buffer_hours) × (s.shopping_buffer_hours ≤ℤ pos 168)
unfolding validate
buffer_bounds s h =
    let c1 = check-eq-nil _ "pickup_window_end" _ (fields_err-eq-ok _ h) in
    let c2 = check-eq-nil _ "pickup_window_end" _ c1.1 in
    let c3 = check-eq-nil _ "pickup_window_start" _ c2.1 in
    let c4 = check-eq-nil _ "daily_capacity_minutes" _ c3.1 in
    let c5 = check-eq-nil _ "shopping_buffer_hours" [] c4.1 in ground (arith, c5.0)

needs_bounds :
    (p n : ℤ) (is : List Item) (p' n' : ℤ)
    → needs p n is ≡ some (p', n')
    → pos 0 ≤ℤ p
    → p ≤ℤ pos 240
    → All (λ i. i.production_minutes ≤ℤ pos 240) is
    → (pos 0 ≤ℤ p') × (p' ≤ℤ pos 240)
unfolding needs
needs_bounds p n [] p' n' e l h a = ground arith
needs_bounds p n (i ∷ is) p' n' e l h a =
    elim (Bool-cases (ltb_ℤ i.production_minutes (pos 1) || ltb_ℤ i.min_notice_hours (pos 0))) [
      | inl t ↦ cc (rw t at e)
      | inr f ↦
          needs_bounds (max_ℤ p i.production_minutes) (max_ℤ n i.min_notice_hours) is p' n'
            (rw f at e) (ground (arith, a.0)) (ground (arith, a.0)) a.1
    ]

time_sub-low : (t u : ℤ) → ltb_ℤ (time_sub t u) min_payment_window ≡ false → u <ℤ t
unfolding time_sub
time_sub-low t u h = ground (arith, -ℤ_parts t u)

cutoff_before :
    (s : Settings) (r : Request) (start : ℤ)
    → hours (minus s.shopping_buffer_hours) ≤ℤ pos 0
    → cutoff_with s r start ≤ℤ start
unfolding cutoff_with
cutoff_before s r start h =
    let own = +ℤ_parts start (hours (minus s.shopping_buffer_hours)) in ground (arith, own)

-- The order of a plan's times.
pub record InOrder (now : ℤ) (p : Plan) : Type 0 where
  pub still_open : now <ℤ p.dp_deadline
  pub paid_first : p.dp_deadline ≤ℤ p.cutoff
  pub shopped : p.cutoff ≤ℤ p.production_start
  pub made : p.production_start ≤ℤ p.pickup_at
  pub settled : p.balance_due ≤ℤ p.production_start

scheduled-InOrder :
    (r : Request) (start cutoff : ℤ)
    → r.now <ℤ cutoff
    → min_payment_window ≤ℤ r.dp_valid_for
    → cutoff ≤ℤ start
    → start ≤ℤ r.pickup_at
    → hours (minus r.balance_due_hours_before) ≤ℤ pos 0
    → InOrder r.now (scheduled r start cutoff)
unfolding scheduled
scheduled-InOrder r start cutoff a b c d e =
    let valid = +ℤ_parts r.now r.dp_valid_for in
    let due = +ℤ_parts start (hours (minus r.balance_due_hours_before)) in
    ground (arith, valid, due)

accepted :
    (s : Settings) (r : Request) (production notice : ℤ) (p : Plan)
    → plan_pickup s r production notice ≡ ok p
    → (let start = r.pickup_at +ℤ minutes (minus production) in
        let cutoff = cutoff_with s r start in
        (ltb_ℤ (time_sub cutoff r.now) min_payment_window ≡ false) × (scheduled r start cutoff ≡ p))
unfolding plan_pickup
accepted s r production notice p e = ground arith

pickup-InOrder :
    (s : Settings) (r : Request) (production notice : ℤ) (p : Plan)
    → minutes (minus production) ≤ℤ pos 0
    → hours (minus s.shopping_buffer_hours) ≤ℤ pos 0
    → hours (minus r.balance_due_hours_before) ≤ℤ pos 0
    → min_payment_window ≤ℤ r.dp_valid_for
    → plan_pickup s r production notice ≡ ok p
    → InOrder r.now p
pickup-InOrder s r production notice p a b c d e =
    let start = r.pickup_at +ℤ minutes (minus production) in
    let (in_time, same) = accepted s r production notice p e in
    let made = +ℤ_parts r.pickup_at (minutes (minus production)) in
    subst (InOrder r.now) same (
      scheduled-InOrder r start (cutoff_with s r start) (time_sub-low _ r.now in_time) d
        (cutoff_before s r start b) (omega arith) c)

pub guards :
    (s : Settings) (r : Request) (p : Plan)
    → plan s r ≡ ok p
    → (min_payment_window ≤ℤ r.dp_valid_for)
      × (pos 0 ≤ℤ r.balance_due_hours_before)
      × ((production : ℤ) × (notice : ℤ) × (needs (pos 0) (pos 0) r.items
            ≡ some (production, notice))
          × (plan_pickup s r production notice ≡ ok p))
unfolding plan
guards s r p e = elim (Option-cases (needs (pos 0) (pos 0) r.items)) [
  | inl n ↦ absurd (ground (arith, n))
  | inr ((production, notice), k) ↦
      (ground (arith, k), ground (arith, k), (production, notice, k, ground (arith, k)))
]

-- Under settings that the shop may store, for items that take at most 240 minutes to make and a
-- balance due at most 168 hours before production, a plan is in order: the customer has time to pay
-- the DP, pays it by the shopping cutoff, which lies before production starts, which lies before the
-- pickup; and the balance is due before production starts.
pub plan-InOrder :
    (s : Settings) (r : Request) (p : Plan)
    → validate s ≡ ok tt
    → All (λ i. i.production_minutes ≤ℤ pos 240) r.items
    → r.balance_due_hours_before ≤ℤ pos 168
    → plan s r ≡ ok p
    → InOrder r.now p
plan-InOrder s r p v items gap e =
    let (window, gap_low, (production, notice, n, run)) = guards s r p e in
    let (low, high) = buffer_bounds s v in
    let made =
      needs_bounds (pos 0) (pos 0) r.items production notice n (omega arith) (omega arith) items in
    pickup-InOrder s r production notice p (back_minutes production made.0 made.1)
      (back_hours s.shopping_buffer_hours low high)
      (back_hours r.balance_due_hours_before gap_low gap) window run
