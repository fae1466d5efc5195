-- ===== src/Scheduling/Service/Closed.antt =====
-- Closed dates and the plans made beside them.
use mathlib.Core.Path.{subst}
use kue_preorder.Prelude.{
  ℤ, ◌≤ℤ◌, eqb_ℤ, ◌≡◌, ◌≢◌, ◌∙◌, refl, sym, ap, Bool, true, false, ◌||◌, List, [], ◌∷◌, ◌++◌,
  contains_func, inl, inr, Bool-cases, arith,
}
use kue_preorder.Prelude.Text.{Text, trim_space}
use kue_preorder.Prelude.Result.{Result, ok, ◌>>=◌}
use kue_preorder.Platform.Errors.{Error, Result-cases}
use kue_preorder.Platform.Caller.{Principal, authorize}
use kue_preorder.Scheduling.Time.{date_of}
use kue_preorder.Scheduling.Plan.{Settings, Request, Plan, plan, plan_pickup, scheduled}
use kue_preorder.Scheduling.Ordered.{guards}
use kue_preorder.Scheduling.Service.{
  ClosedDate, RulesStore, staff, is_on, insert_date, closed_between, closed_days,
  closed_date_fields, insert_closed_date, add_closed_date,
}

-- A plan lies on open days only.
plan_pickup_open :
    (s : Settings) (r : Request) (production notice : ℤ) (p : Plan)
    → plan_pickup s r production notice ≡ ok p
    → (r.closed (date_of p.pickup_at) ≡ false) × (r.closed p.production_date ≡ false)
unfolding plan_pickup scheduled
plan_pickup_open s r production notice p e = (ground arith, ground arith)

pub plan_open :
    (s : Settings) (r : Request) (p : Plan)
    → plan s r ≡ ok p
    → (r.closed (date_of p.pickup_at) ≡ false) × (r.closed p.production_date ≡ false)
plan_open s r p e =
    let (window, gap, (production, notice, n, run)) = guards s r p e in
    plan_pickup_open s r production notice p run

insert_date-contains :
    (test : ClosedDate → Bool) (c : ClosedDate) (cs : List ClosedDate)
    → contains_func test (insert_date c cs) ≡ (test c || contains_func test cs)
unfolding insert_date
insert_date-contains test c [] = refl
insert_date-contains test c (x ∷ xs) = ground (arith, insert_date-contains test c xs)

-- A closed day in the range read is in the map.
closed_between-contains :
    (d from to : ℤ) (cs : List ClosedDate)
    → from ≤ℤ d
    → d ≤ℤ to
    → contains_func (is_on d) cs ≡ true
    → contains_func (is_on d) (closed_between from to cs) ≡ true
unfolding closed_between
closed_between-contains d from to [] low high h = cc
closed_between-contains d from to (c ∷ cs) low high h = ground (
  arith,
  insert_date-contains (is_on d) c (closed_between from to cs),
  closed_between-contains d from to cs low high,
)

append-contains :
    (test : ClosedDate → Bool) (cs : List ClosedDate) (c : ClosedDate)
    → test c ≡ true
    → contains_func test (cs ++ c ∷ []) ≡ true
append-contains test [] c h = ground (arith, h)
append-contains test (x ∷ xs) c h = ground (arith, append-contains test xs c h)

is_on_refl : (d : ℤ) → eqb_ℤ d d ≡ true
is_on_refl d = ground arith

inserted-contains :
    (d : ℤ) (reason : Text) (s s' : RulesStore) (c : ClosedDate)
    → insert_closed_date d reason s ≡ (ok c, s')
    → contains_func (is_on d) s'.closed ≡ true
unfolding insert_closed_date
inserted-contains d reason s s' c h = elim (Bool-cases (contains_func (is_on d) s.closed)) [
  | inl t ↦ cc (rw t at h)
  | inr f ↦
      subst (λ x. contains_func (is_on d) x ≡ true) (ap (λ x. x.1.closed) (rw f at h))
        (append-contains (is_on d) s.closed _ (is_on_refl d))
]

-- A date that `AddClosedDate` accepted stands in the store.
added-contains :
    (caller : Result Error Principal) (d : ℤ) (reason : Text) (now : ℤ) (s s' : RulesStore)
    (c : ClosedDate)
    → add_closed_date caller d reason now s ≡ (ok c, s')
    → contains_func (is_on d) s'.closed ≡ true
unfolding add_closed_date
added-contains caller d reason now s s' c h =
    elim (Result-cases
      (authorize caller staff >>= λ _. closed_date_fields d (trim_space reason) now)) [
        | inr (e, k) ↦ cc (rw (k, add_closed_date) at h)
        | inl (u, k) ↦ inserted-contains d (trim_space reason) s s' c (rw (k, add_closed_date) at h)
      ]

-- Once a day is closed, no plan made with the closed dates that the reader then gives has its pickup
-- or its production on that day, whatever the settings and the rest of the request, if the range read
-- covers the day.
pub add_closed_date_blocks :
    (caller : Result Error Principal) (d : ℤ) (reason : Text) (now : ℤ) (s s' : RulesStore)
    (c : ClosedDate) (from to : ℤ) (rules : Settings) (r : Request) (p : Plan)
    → add_closed_date caller d reason now s ≡ (ok c, s')
    → from ≤ℤ d
    → d ≤ℤ to
    → r.closed ≡ closed_days s' from to
    → plan rules r ≡ ok p
    → (date_of p.pickup_at ≢ d) × (p.production_date ≢ d)
unfolding closed_days
add_closed_date_blocks caller d reason now s s' c from to rules r p added low high read planned =
    let held =
      closed_between-contains d from to s'.closed low high
        (added-contains caller d reason now s s' c added) in
    let closed : r.closed d ≡ true = rw read held in
    let (at_pickup, at_production) = plan_open rules r p planned in
    (
      λ e. cc (sym closed ∙ ap r.closed (sym e) ∙ at_pickup),
      λ e. cc (sym closed ∙ ap r.closed (sym e) ∙ at_production),
    )
