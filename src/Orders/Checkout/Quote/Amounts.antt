-- ===== src/Orders/Checkout/Quote/Amounts.antt =====
-- The money of a quote.
use mathlib.Core.Path.{subst}
use kue_preorder.Prelude.{
  ℤ, pos, ◌≤ℤ◌, true, not, ◌||◌, List, none, some, ◌≡◌, refl, sym, ap, arith, Bool-cases, inl, inr,
}
use kue_preorder.Prelude.Result.{Result, ok, err}
use kue_preorder.Platform.Errors.{Error, rejection, >>=_ok}
use kue_preorder.Payments.Dp.{Policy, max_order_total, dp_allowed, dp_required}
use kue_preorder.Payments.Dp.Amount.{dp_required_bounds}
use kue_preorder.Payments.Fee.{FeeRules}
use kue_preorder.Scheduling.Plan.{Settings, Request, Plan, plan}
use kue_preorder.Orders.Store.{Order}
use kue_preorder.Orders.Checkout.Cart.{QuoteRequest, Priced, ingredient_cost, validate_cart, price}
use kue_preorder.Orders.Checkout.Quote.{
  Sources, Quote, below_minimum, unscheduled, reason_for, with_schedule, with_options, answered,
  quote_priced, quote, payment_options_of,
}

-- What the first payment of a quote for the plan `p` may be.
pub record IsPayable (policy : Policy) (q : Quote) (p : Plan) : Type 0 where
  pub dp_low : pos 1 ≤ℤ q.dp_required_idr
  pub dp_high : q.dp_required_idr ≤ℤ q.total_idr
  pub total_high : q.total_idr ≤ℤ pos max_order_total
  pub when_full :
      q.full_payment_required ≡ (not (dp_allowed policy q.total_idr) || p.full_payment_required)
  pub in_full : q.full_payment_required ≡ true → q.dp_required_idr ≡ q.total_idr

with_schedule-IsPayable :
    (policy : Policy) (dp : ℤ) (p : Plan) (q : Quote)
    → pos 1 ≤ℤ dp
    → dp ≤ℤ q.total_idr
    → q.total_idr ≤ℤ pos max_order_total
    → IsPayable policy (with_schedule policy dp p q) p
unfolding with_schedule reason_for
with_schedule-IsPayable policy dp p q low high top = record {
  dp_low = ground arith;
  dp_high = ground arith;
  total_high = top;
  when_full = ground arith;
  in_full = λ e. ground arith;
}

-- The payment options leave the amounts as they are.
pub with_options_lem :
    (read : Result Error FeeRules) (q r : Quote)
    → with_options read q ≡ ok r
    → (rest : _) × (payment_options_of read q ≡ ok rest) × (record q { payment_options = rest } ≡ r)
unfolding with_options
with_options_lem read q r h =
    let (options, e, k) = >>=_ok (payment_options_of read q) _ h in (options, e, ground arith)

scheduled_as :
    (read : Result Error FeeRules) (policy : Policy) (dp : ℤ) (p : Plan) (q r : Quote)
    → with_options read (with_schedule policy dp p q) ≡ ok r
    → r.schedule ≡ some p
unfolding with_schedule
scheduled_as read policy dp p q r h =
    let (options, e, k) = with_options_lem read (with_schedule policy dp p q) r h in
    sym (ap (λ (x : Quote). x.schedule) k)

-- A quote with a schedule came from an accepted plan.
answered_lem :
    (read : Result Error FeeRules) (policy : Policy) (settings : Settings) (sr : Request) (dp : ℤ)
    (q r : Quote) (answer : Result Error Plan) (p : Plan)
    → answered read policy settings sr dp q answer ≡ ok r
    → q.schedule ≡ none
    → r.schedule ≡ some p
    → (answer ≡ ok p) × (with_options read (with_schedule policy dp p q) ≡ ok r)
unfolding answered
answered_lem read policy settings sr dp q r (ok p') p h none_yet has =
    let same : p' ≡ p = cc (scheduled_as read policy dp p' q r h) in (ap ok same, rw (sym same) h)
answered_lem read policy settings sr dp q r (err (rejection reason)) p h none_yet has =
    absurd (ground (arith, h, none_yet, has))
answered_lem read policy settings sr dp q r (err e) p h none_yet has = cc

-- The steps of a quote that has a schedule.
pub record Offered (src : Sources) (os : List Order) (now : ℤ) (req : QuoteRequest)
    (policy : Policy) (q : Quote) (p : Plan) : Type 0 where
  pub priced : Priced
  pub ingredients : ℤ
  pub dp : ℤ
  pub settings : Settings
  pub request : Request
  pub cart_valid : validate_cart req ≡ ok tt
  pub as_priced : price src.variants req.items ≡ ok priced
  pub as_required : dp_required policy priced.total_idr ingredients ≡ ok dp
  pub stored_settings : src.settings ≡ ok settings
  pub planned : plan settings request ≡ ok p
  pub optioned : with_options src.fee_rules (with_schedule policy dp p (unscheduled priced)) ≡ ok q

quote_priced-Offered :
    (src : Sources) (os : List Order) (now : ℤ) (req : QuoteRequest) (priced : Priced)
    (policy : Policy) (q : Quote) (p : Plan)
    → validate_cart req ≡ ok tt
    → price src.variants req.items ≡ ok priced
    → quote_priced src os now req priced policy ≡ ok q
    → q.schedule ≡ some p
    → Offered src os now req policy q p
unfolding quote_priced unscheduled
quote_priced-Offered src os now req priced policy q p v e h has =
    elim (Bool-cases (below_minimum policy priced.total_idr)) [
      | inl t ↦ cc (rw t at h)
      | inr f ↦
          (let (ingredients, e1, h1) =
              >>=_ok (ingredient_cost src.ingredient_costs req.items) _ (rw f at h) in
            let (dp, e2, h2) = >>=_ok (dp_required policy priced.total_idr ingredients) _ h1 in
            let (settings, e3, h3) = >>=_ok src.settings _ h2 in
            let (closed, e4, h4) = >>=_ok (src.closed_dates _ _) _ h3 in
            let (planned, optioned) =
              answered_lem src.fee_rules policy settings _ dp (unscheduled priced) q _ p h4 refl
                has in
            record {
              priced = priced;
              ingredients = ingredients;
              dp = dp;
              settings = settings;
              request = _;
              cart_valid = v;
              as_priced = e;
              as_required = e2;
              stored_settings = e3;
              planned = planned;
              optioned = optioned;
            })
    ]

-- A quote that has a schedule went through every step.
pub quote-Offered :
    (src : Sources) (os : List Order) (now : ℤ) (req : QuoteRequest) (q : Quote) (p : Plan)
    → quote src os now req ≡ ok q
    → q.schedule ≡ some p
    → (policy : Policy) × (src.policy ≡ ok policy) × Offered src os now req policy q p
unfolding quote
quote-Offered src os now req q p h has =
    let (u, e1, h1) = >>=_ok (validate_cart req) _ h in
    let (priced, e2, h2) = >>=_ok (price src.variants req.items) _ h1 in
    let (policy, e3, h3) = >>=_ok src.policy _ h2 in
    (policy, e3, quote_priced-Offered src os now req priced policy q p e1 e2 h3 has)

with_options-IsPayable :
    (read : Result Error FeeRules) (policy : Policy) (p : Plan) (q r : Quote)
    → IsPayable policy q p
    → with_options read q ≡ ok r
    → IsPayable policy r p
with_options-IsPayable read policy p q r h e =
    let (options, _, k) = with_options_lem read q r e in
    subst (λ x. IsPayable policy x p) k
      (record {
        dp_low = h.dp_low;
        dp_high = h.dp_high;
        total_high = h.total_high;
        when_full = h.when_full;
        in_full = h.in_full;
      })

Offered-IsPayable :
    (src : Sources) (os : List Order) (now : ℤ) (req : QuoteRequest) (policy : Policy) (q : Quote)
    (p : Plan)
    → Offered src os now req policy q p
    → IsPayable policy q p
unfolding unscheduled
Offered-IsPayable src os now req policy q p o =
    let (low, high, top) =
      dp_required_bounds policy o.priced.total_idr o.ingredients o.dp o.as_required in
    with_options-IsPayable src.fee_rules policy p _ q
      (with_schedule-IsPayable policy o.dp p (unscheduled o.priced) low high top) o.optioned

-- A quote with a schedule asks for a first payment of at least 1 rupiah and at most the total, which
-- is at most 2^40. Full payment is required exactly if the policy allows no down payment on the total
-- or the schedule leaves no time for one, and then the first payment is the total.
pub quote-IsPayable :
    (src : Sources) (os : List Order) (now : ℤ) (req : QuoteRequest) (policy : Policy) (q : Quote)
    (p : Plan)
    → src.policy ≡ ok policy
    → quote src os now req ≡ ok q
    → q.schedule ≡ some p
    → IsPayable policy q p
quote-IsPayable src os now req policy q p read h has =
    let (stored, e, o) = quote-Offered src os now req q p h has in
    let same : stored ≡ policy = cc in
    subst (λ x. IsPayable x q p) same (Offered-IsPayable src os now req stored q p o)
