-- ===== src/Orders/Lifecycle/Paths.antt =====
-- The paths through the lifecycle: what a step needs, which statuses end it, and that every path
-- towards the customer goes through full payment.
use kue_preorder.Prelude.{◌≡◌, refl, ◌≢◌, ◌⊎◌, ◌↔◌, true, none, arith}
use kue_preorder.Prelude.Result.{ok, err}
use kue_preorder.Platform.Errors.{payment_required}
use kue_preorder.Payments.Status.{
  Status as PaymentStatus, unpaid, dp_paid, paid_in_full, forfeited, refunded, Amounts, settle,
  close,
}
use kue_preorder.Orders.Lifecycle.{
  Status, awaiting_dp, confirmed, expired, in_production, ready, out_for_delivery, completed,
  cancelled, Fulfillment, pickup, delivery, State, is_terminal, transition,
}

-- The diagram of the lifecycle as a relation, written apart from the table.
pub data Step : Status → PaymentStatus → Fulfillment → Status → Type 0 where
  confirm_dp : {f : Fulfillment} → Step awaiting_dp dp_paid f confirmed
  confirm_full : {f : Fulfillment} → Step awaiting_dp paid_in_full f confirmed
  lapse : {f : Fulfillment} → Step awaiting_dp unpaid f expired
  bake : {f : Fulfillment} → Step confirmed paid_in_full f in_production
  forfeit : {f : Fulfillment} → Step confirmed forfeited f cancelled
  give_back : {f : Fulfillment} → Step confirmed refunded f cancelled
  finish : {f : Fulfillment} → Step in_production paid_in_full f ready
  send : Step ready paid_in_full delivery out_for_delivery
  hand_over : Step ready paid_in_full pickup completed
  deliver : Step out_for_delivery paid_in_full delivery completed

ruleset steps =
    (confirm_dp, confirm_full, lapse, bake, forfeit, give_back, finish, send, hand_over, deliver)

step_of_ok :
    (s : Status) (p : PaymentStatus) (f : Fulfillment) (to : Status)
    → transition (record { status = s; payment = p; fulfillment = f }) to ≡ ok tt
    → Step s p f to
unfolding transition
step_of_ok s p f to h = grind (arith, steps)

ok_of_step :
    {s : Status} {p : PaymentStatus} {f : Fulfillment} {to : Status}
    → Step s p f to
    → transition (record { status = s; payment = p; fulfillment = f }) to ≡ ok tt
unfolding transition
ok_of_step confirm_dp = refl
ok_of_step confirm_full = refl
ok_of_step lapse = refl
ok_of_step bake = refl
ok_of_step forfeit = refl
ok_of_step give_back = refl
ok_of_step finish = refl
ok_of_step send = refl
ok_of_step hand_over = refl
ok_of_step deliver = refl

-- `Transition` accepts exactly the steps of the diagram, with the payments that each needs.
pub transition_iff :
    (s : Status) (p : PaymentStatus) (f : Fulfillment) (to : Status)
    → (transition (record { status = s; payment = p; fulfillment = f }) to ≡ ok tt) ↔ Step s p f to
transition_iff s p f to = (step_of_ok s p f to, ok_of_step)

payment_that_allows :
    (s : Status) (p : PaymentStatus) (f : Fulfillment) (to : Status)
    → transition (record { status = s; payment = p; fulfillment = f }) to ≡ err payment_required
    → (q : PaymentStatus) × (transition (record { status = s; payment = q; fulfillment = f }) to
        ≡ ok tt)
unfolding transition
payment_that_allows awaiting_dp p f expired h = (unpaid, refl)
payment_that_allows confirmed p f cancelled h = (refunded, refl)
payment_that_allows s p f to h = (paid_in_full, ground arith)

asks_for_payment :
    (s : Status) (p q : PaymentStatus) (f : Fulfillment) (to : Status)
    → transition (record { status = s; payment = q; fulfillment = f }) to ≡ ok tt
    → transition (record { status = s; payment = p; fulfillment = f }) to ≢ ok tt
    → transition (record { status = s; payment = p; fulfillment = f }) to ≡ err payment_required
unfolding transition
asks_for_payment s p q f to h k = ground arith

-- `Transition` asks for payment exactly if the diagram has the step under some payment status, and
-- not under this one.
pub transition_payment_required :
    (s : Status) (p : PaymentStatus) (f : Fulfillment) (to : Status)
    → (transition (record { status = s; payment = p; fulfillment = f }) to ≡ err payment_required)
      ↔ (((q : PaymentStatus) × Step s q f to) × ¬ (Step s p f to))
transition_payment_required s p f to = (
  λ h.
      let (q, e) = payment_that_allows s p f to h in
      ((q, step_of_ok s q f to e), λ st. cc (h, ok_of_step st)),
  λ (allowed, none_here).
      asks_for_payment s p allowed.0 f to (ok_of_step allowed.1)
        (λ e. none_here (step_of_ok s p f to e)),
)

no_step :
    (s : Status)
    → is_terminal s ≡ true
    → (p : PaymentStatus) (f : Fulfillment) (to : Status) → ¬ (Step s p f to)
unfolding is_terminal transition
no_step s h p f to st = let e = ok_of_step st in ground arith

no_way_out :
    (s : Status)
    → ((p : PaymentStatus) (f : Fulfillment) (to : Status) → ¬ (Step s p f to))
    → is_terminal s ≡ true
unfolding is_terminal
no_way_out awaiting_dp h = absurd (h unpaid pickup expired lapse)
no_way_out confirmed h = absurd (h paid_in_full pickup in_production bake)
no_way_out in_production h = absurd (h paid_in_full pickup ready finish)
no_way_out ready h = absurd (h paid_in_full pickup completed hand_over)
no_way_out out_for_delivery h = absurd (h paid_in_full delivery completed deliver)
no_way_out _ h = refl

-- A status that `Terminal` names has no step out of it under any payment or fulfillment, and every
-- other status has one.
pub is_terminal_iff :
    (s : Status)
    → (is_terminal s ≡ true)
      ↔ ((p : PaymentStatus) (f : Fulfillment) (to : Status) → ¬ (Step s p f to))
is_terminal_iff s = (no_step s, no_way_out s)

-- Where an order and its payments may go: the ledger settles, the owner or the worker closes the
-- payments, and `Transition` lets the status move.
pub data Move : State → State → Type 0 where
  settled : (s : State) (a : Amounts) → Move s (record s { payment = (settle s.payment a).0 })
  closed :
      (s : State) (to : PaymentStatus)
      → (close s.payment to).1 ≡ none
      → Move s (record s { payment = (close s.payment to).0 })
  moved : (s : State) (to : Status) → transition s to ≡ ok tt → Move s (record s { status = to })

pub data Reach (s : State) : State → Type 0 where
  here : Reach s s
  next : {t u : State} → Reach s t → Move t u → Reach s u

-- The state of an order as `Place` stores it.
abbrev pub placed : Fulfillment → State
placed f = record { status = awaiting_dp; payment = unpaid; fulfillment = f }

-- What the payments of an order have been, by the status it has reached.
abbrev pub PaymentFits : Status → PaymentStatus → Type 0
PaymentFits awaiting_dp p = Unit
PaymentFits expired p = Unit
PaymentFits confirmed p = p ≢ unpaid
PaymentFits cancelled p = (p ≡ forfeited) ⊎ (p ≡ refunded)
PaymentFits _ p = (p ≡ paid_in_full) ⊎ (p ≡ refunded)

-- A state on the way was paid in full.
abbrev pub HasPaid : Fulfillment → State → Type 0
HasPaid f s = (t : State) × Reach (placed f) t × Reach t s × (t.payment ≡ paid_in_full)

-- What production takes.
abbrev pub PaidFor : Fulfillment → State → Status → Type 0
PaidFor f s awaiting_dp = Unit
PaidFor f s confirmed = Unit
PaidFor f s expired = Unit
PaidFor f s cancelled = Unit
PaidFor f s _ = HasPaid f s
