-- ===== src/Orders/Automation.antt =====
-- internal/orders/automation.go: what the worker does to orders on its own. The ids that a sweep takes
-- come from the queries `OrdersPastDPDue` and `OrdersPastBalanceDue` (db/queries/orders.sql).
pub mod Billing
pub mod Keeps
pub mod Effect
pub mod Billed
pub mod Invoiced
pub mod Awaited
pub mod Linked
pub mod Once
use Prim.Native.String.{String}
use kue_preorder.Prelude.{
  ℕ, zero, suc, ◌+◌, ltb, leb, ◌==◌, ℤ, pos, ◌+ℤ◌, ◌-ℤ◌, ltb_ℤ, leb_ℤ, eqb_ℤ, Bool, true, false,
  not, ◌&&◌, ◌||◌, List, [], ◌∷◌, map, if◌then◌else◌,
}
use kue_preorder.Prelude.Result.{Result, ok, err}
use kue_preorder.Platform.Errors.{Error}
use kue_preorder.Payments.Status.{
  Status as PaymentStatus, unpaid, dp_paid, forfeited, eqb_status as eqb_payment, close,
}
use kue_preorder.Payments.Ledger.{expire_pending}
use kue_preorder.Orders.Lifecycle.{
  Status, awaiting_dp, confirmed, expired, cancelled, eqb_status, transition,
}
use kue_preorder.Orders.Store.{
  Order, World, Tx, ◌>>=◌, ◌>>◌, lift, state_of, committed, lock_by_id, publish,
}
use kue_preorder.Orders.Admin.Payment.{settled, settle_order}

-- `Grace`: 30 minutes, in nanoseconds.
abbrev pub grace : ℤ
grace = pos 1800000000000

abbrev pub sweep_limit : ℕ
sweep_limit = 100

take : {A : Type 0} → ℕ → List A → List A
take zero xs = []
take (suc n) [] = []
take (suc n) (x ∷ xs) = x ∷ take n xs

-- `order by` a deadline, then the id.
comes_first : (Order → ℤ) → Order → Order → Bool
comes_first due a b = ltb_ℤ (due a) (due b) || (eqb_ℤ (due a) (due b) && leb a.id b.id)

insert : (Order → ℤ) → Order → List Order → List Order
unfolding comes_first
insert due o [] = o ∷ []
insert due o (q ∷ qs) =
    let rest = insert due o qs in if comes_first due o q then o ∷ q ∷ qs else q ∷ rest

past_due_rows : (Order → ℤ) → Status → PaymentStatus → ℤ → List Order → List Order
unfolding insert
past_due_rows due s p before [] = []
past_due_rows due s p before (o ∷ os) =
    let rest = past_due_rows due s p before os in
    if eqb_status o.status s && eqb_payment o.payment p && leb_ℤ (due o) before
    then insert due o rest
    else rest

-- `PastDPDue` and `PastBalanceDue`, by the deadline that they read.
unfoldable pub past_due : (Order → ℤ) → Status → PaymentStatus → ℤ → ℕ → List Order → List ℕ
unfolding past_due_rows take
past_due due s p before limit os = map (λ o. o.id) (take limit (past_due_rows due s p before os))

-- `end`.
unfoldable pub end_automatically : Order → Status → PaymentStatus → String → ℤ → Tx (Unit {0})
end_automatically o s pay type_name at = settle_order o.id s pay >> publish type_name o.id at

abbrev pub answer : Bool → Tx Bool
answer b w = ok (b, w)

-- What `ExpireUnpaid` does to one order; false when it was paid or ended meanwhile.
unfoldable pub expire_one : ℤ → Order → Tx Bool
unfolding end_automatically
expire_one now o =
    if not (eqb_status o.status awaiting_dp)
      || not (eqb_payment o.payment unpaid)
      || ltb_ℤ now (o.dp_due_at +ℤ grace)
    then answer false
    else (do
      lift (transition (state_of o) expired)
      end_automatically o expired o.payment "order.expired" now
      answer true)

-- What `ForfeitUnpaid` does to one order.
unfoldable pub forfeit_one : ℤ → Order → Tx Bool
unfolding end_automatically
forfeit_one now o =
    if not (eqb_status o.status confirmed)
      || not (eqb_payment o.payment dp_paid)
      || ltb_ℤ now (o.balance_due_at +ℤ grace)
    then answer false
    else (do
      pay ← lift (settled (close o.payment forfeited))
      lift (
          transition (record { status = o.status; payment = pay; fulfillment = o.fulfillment })
            cancelled)
      end_automatically o cancelled pay "order.cancelled" now
      answer true)

-- One transaction of `sweep`: a failure rolls it back.
abbrev pub sweep_one : (Order → Tx Bool) → ℕ → World → Result Error Bool × World
sweep_one end id w = committed ((lock_by_id id >>= end) w) w

-- How many orders changed, and every failure.
abbrev pub Swept : Type 0
Swept = ℕ × List Error

abbrev pub tally : Result Error Bool → Swept → Swept
tally (ok true) (n, errs) = (suc n, errs)
tally (ok false) r = r
tally (err e) (n, errs) = (n, e ∷ errs)

-- `sweep`.
unfoldable pub sweep : (Order → Tx Bool) → List ℕ → World → Swept × World
sweep end [] w = ((0, []), w)
sweep end (id ∷ ids) w =
    let one = sweep_one end id w in let rest = sweep end ids one.1 in (tally one.0 rest.0, rest.1)

-- What the sweeps take: the orders whose deadline and the grace have passed, the earliest first.
unfoldable pub overdue_dp : ℤ → World → List ℕ
unfolding past_due
overdue_dp now w =
    past_due (λ o. o.dp_due_at) awaiting_dp unpaid (now -ℤ grace) sweep_limit w.orders

unfoldable pub overdue_balance : ℤ → World → List ℕ
unfolding past_due
overdue_balance now w =
    past_due (λ o. o.balance_due_at) confirmed dp_paid (now -ℤ grace) sweep_limit w.orders

-- `ExpireUnpaid` and `ForfeitUnpaid`.
unfoldable pub expire_unpaid : ℤ → World → Swept × World
unfolding overdue_dp sweep expire_one
expire_unpaid now w = sweep (expire_one now) (overdue_dp now w) w

unfoldable pub forfeit_unpaid : ℤ → World → Swept × World
unfolding overdue_balance sweep forfeit_one
forfeit_unpaid now w = sweep (forfeit_one now) (overdue_balance now w) w
