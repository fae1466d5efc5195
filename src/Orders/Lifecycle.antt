-- ===== src/Orders/Lifecycle.antt =====
-- internal/orders/status.go: the lifecycle of an order as the source's table of edges, and the
-- search through it that decides a step.
pub mod Paths
use kue_preorder.Prelude.{
  Bool, true, false, not, ◌&&◌, ◌||◌, List, [], ◌∷◌, Option, none, some, if◌then◌else◌,
  contains_func,
}
use kue_preorder.Prelude.Result.{Result, ok, err}
use kue_preorder.Platform.Errors.{Error, illegal_transition, payment_required}
use kue_preorder.Payments.Status.{
  Status as PaymentStatus, unpaid, dp_paid, paid_in_full, forfeited, refunded,
  eqb_status as eqb_payment,
}

pub data Status : Type 0 where
  awaiting_dp confirmed expired in_production ready out_for_delivery completed cancelled : Status

abbrev pub eqb_status : Status → Status → Bool
eqb_status awaiting_dp awaiting_dp = true
eqb_status confirmed confirmed = true
eqb_status expired expired = true
eqb_status in_production in_production = true
eqb_status ready ready = true
eqb_status out_for_delivery out_for_delivery = true
eqb_status completed completed = true
eqb_status cancelled cancelled = true
eqb_status _ _ = false

pub data Fulfillment : Type 0 where
  pickup delivery : Fulfillment

abbrev pub eqb_fulfillment : Fulfillment → Fulfillment → Bool
eqb_fulfillment pickup pickup = true
eqb_fulfillment delivery delivery = true
eqb_fulfillment _ _ = false

pub record State : Type 0 where
  pub status : Status
  pub payment : PaymentStatus
  pub fulfillment : Fulfillment

unfoldable pub counts_for_production : Status → Bool
counts_for_production confirmed = true
counts_for_production in_production = true
counts_for_production ready = true
counts_for_production out_for_delivery = true
counts_for_production completed = true
counts_for_production _ = false

unfoldable pub is_terminal : Status → Bool
is_terminal s = eqb_status s expired || eqb_status s completed || eqb_status s cancelled

-- `edge`; no fulfillment means either.
pub record Edge : Type 0 where
  pub from : Status
  pub to : Status
  pub payments : List PaymentStatus
  pub fulfillment : Option Fulfillment

abbrev pub dp_in : List PaymentStatus
dp_in = dp_paid ∷ paid_in_full ∷ []

abbrev pub full : List PaymentStatus
full = paid_in_full ∷ []

abbrev edge : Status → Status → List PaymentStatus → Option Fulfillment → Edge
edge from to payments fulfillment = record {
  from = from;
  to = to;
  payments = payments;
  fulfillment = fulfillment;
}

unfoldable pub lifecycle : List Edge
lifecycle =
    edge awaiting_dp confirmed dp_in none
    ∷ edge awaiting_dp expired (unpaid ∷ []) none
    ∷ edge confirmed in_production full none
    ∷ edge confirmed cancelled (forfeited ∷ refunded ∷ []) none
    ∷ edge in_production ready full none
    ∷ edge ready out_for_delivery full (some delivery)
    ∷ edge ready completed full (some pickup)
    ∷ edge out_for_delivery completed full (some delivery)
    ∷ []

abbrev misfits : Option Fulfillment → Fulfillment → Bool
misfits none f = false
misfits (some g) f = not (eqb_fulfillment g f)

-- The loop of `Transition` over the edges.
unfoldable pub transition_in : List Edge → State → Status → Result Error (Unit {0})
transition_in [] s to = err illegal_transition
transition_in (e ∷ es) s to =
    let rest = transition_in es s to in
    if not (eqb_status e.from s.status) || not (eqb_status e.to to)
    then rest
    else if misfits e.fulfillment s.fulfillment
    then rest
    else if not (contains_func (eqb_payment s.payment) e.payments)
    then err payment_required
    else ok tt

unfoldable pub transition : State → Status → Result Error (Unit {0})
unfolding transition_in lifecycle
transition s to = transition_in lifecycle s to
