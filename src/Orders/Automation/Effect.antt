-- ===== src/Orders/Automation/Effect.antt =====
-- What a sweep leaves of the store.
use kue_preorder.Prelude.{ℕ, ℤ, ◌+ℤ◌, ◌≤ℤ◌, ◌≡◌, ◌⊎◌, List, [], ◌∷◌, some, Bool, arith, inl, inr}
use kue_preorder.Prelude.Result.{ok}
use kue_preorder.Platform.Errors.{Result-cases}
use kue_preorder.Payments.Status.{Status as PaymentStatus, unpaid, dp_paid, forfeited, close}
use kue_preorder.Payments.Ledger.Rows.{paid_idr-expire_pending}
use kue_preorder.Payments.Ledger.{expire_pending}
use kue_preorder.Orders.Lifecycle.{Status, awaiting_dp, confirmed, expired, cancelled, transition}
use kue_preorder.Orders.Store.{
  Order, World, Tx, ◌>>=◌, find, found, has_id, lock_by_id, set_status_in,
}
use kue_preorder.Orders.Sound.{IsSound}
use kue_preorder.Orders.Sound.Rows.{IsSoundWorld, find-All}
use kue_preorder.Orders.Sound.Actions.{lift_ok, paid_by, rewritten}
use kue_preorder.Orders.Sound.Calls.{found_ok}
use kue_preorder.Orders.Automation.{
  grace, sweep, sweep_one, overdue_dp, overdue_balance, expire_one, forfeit_one, end_automatically,
  expire_unpaid, forfeit_unpaid,
}
use kue_preorder.Orders.Automation.Keeps.{
  RowByRow, RowByRow-refl, RowByRow-trans, set_status_in-RowByRow,
}

-- The order before and after: as it was, or lapsed after its deadline for the DP and the grace.
pub data Lapsed (now : ℤ) : Order → Order → Type 0 where
  kept : (o : Order) → Lapsed now o o
  ended :
      (o : Order)
      → o.status ≡ awaiting_dp
      → o.payment ≡ unpaid
      → o.dp_due_at +ℤ grace ≤ℤ now
      → Lapsed now o (record o { status = expired; payment = unpaid })

-- As it was, or cancelled after its deadline for the balance and the grace, the DP kept.
pub data Forfeits (now : ℤ) : Order → Order → Type 0 where
  kept : (o : Order) → Forfeits now o o
  ended :
      (o : Order)
      → o.status ≡ confirmed
      → o.payment ≡ dp_paid
      → o.balance_due_at +ℤ grace ≤ℤ now
      → Forfeits now o (record o { status = cancelled; payment = forfeited })

Lapsed-trans : (now : ℤ) (o p q : Order) → Lapsed now o p → Lapsed now p q → Lapsed now o q
Lapsed-trans now o p q (kept _) k = k
Lapsed-trans now o p q (ended _ s y d) (kept _) = ended o s y d
Lapsed-trans now o p q (ended _ s y d) (ended _ s' y' d') = cc

Forfeits-trans : (now : ℤ) (o p q : Order) → Forfeits now o p → Forfeits now p q → Forfeits now o q
Forfeits-trans now o p q (kept _) k = k
Forfeits-trans now o p q (ended _ s y d) (kept _) = ended o s y d
Forfeits-trans now o p q (ended _ s y d) (ended _ s' y' d') = cc

-- What one step of a sweep does to a sound store.
abbrev Effect : (Order → Order → Type 0) → World → World → Type 0
Effect R w w' = IsSoundWorld w' × RowByRow R w.orders w'.orders

module _ (R : Order → Order → Type 0) (r : (o : Order) → R o o)
    (t : (o p q : Order) → R o p → R p q → R o q) (end : Order → Tx Bool)
    (step : (test : Order → Bool) (o : Order) (w w' : World) (b : Bool)
      → find test w.orders ≡ some o
      → IsSoundWorld w
      → end o w ≡ ok (b, w')
      → Effect R w w') where
  sweep_one-Effect : (id : ℕ) (w : World) → IsSoundWorld w → Effect R w ((sweep_one end id w).1)
  sweep_one-Effect id w h = elim (Result-cases ((lock_by_id id >>= end) w)) [
    | inl ((b, w'), e) ↦
        (let (o, eo, run) = lift_ok (found (find (has_id id) w.orders)) end w e in
          rw (e, sweep_one) (step (has_id id) o w w' b (found_ok _ o eo) h run))
    | inr (x, e) ↦ rw (e, sweep_one) (h, RowByRow-refl R r w.orders)
  ]

  sweep-Effect : (ids : List ℕ) (w : World) → IsSoundWorld w → Effect R w ((sweep end ids w).1)
  unfolding sweep
  sweep-Effect [] w h = (h, RowByRow-refl R r w.orders)
  sweep-Effect (id ∷ ids) w h =
      let one = sweep_one-Effect id w h in
      let w' = (sweep_one end id w).1 in
      let rest = sweep-Effect ids w' one.0 in
      (rest.0, RowByRow-trans R t w.orders w'.orders _ one.1 rest.1)

-- The writes of `end` on a sound order that was found.
ended-Effect :
    (R : Order → Order → Type 0)
    → ((o : Order) → R o o)
    → (test : Order → Bool) (o : Order) (s : Status) (p : PaymentStatus) (w w' : World)
    → find test w.orders ≡ some o
    → IsSoundWorld w
    → w'.orders ≡ set_status_in o.id s p w.orders
    → w'.ledger ≡ expire_pending o.id w.ledger
    → (IsSound o (paid_by w.ledger o)
        → IsSound (record o { status = s; payment = p }) (paid_by w.ledger o)
          × R o (record o { status = s; payment = p }))
    → Effect R w w'
ended-Effect R r test o s p w w' e h rows led new =
    let both = new (find-All (λ q. IsSound q (paid_by w.ledger q)) test w.orders o e h.sound) in
    (
      rewritten test o w w' s p e h rows
          (λ q n. rw led (paid_idr-expire_pending q.id o.id w.ledger))
          (rw (led, paid_idr-expire_pending o.id o.id w.ledger) both.0),
      rw rows (set_status_in-RowByRow R r test s p w.orders o e h.distinct both.1),
    )

-- What one order's transaction writes, if it changes anything.
abbrev Ends : Order → Status → PaymentStatus → World → World → Type 0
Ends o s p w w' =
    (w'.orders ≡ set_status_in o.id s p w.orders) × (w'.ledger ≡ expire_pending o.id w.ledger)

expire_one_lem :
    (now : ℤ) (o : Order) (w w' : World) {b : Bool}
    → expire_one now o w ≡ ok (b, w')
    → (w' ≡ w)
      ⊎ ((o.status ≡ awaiting_dp)
          × (o.payment ≡ unpaid)
          × (o.dp_due_at +ℤ grace ≤ℤ now)
          × Ends o expired unpaid w w')
unfolding expire_one transition end_automatically
expire_one_lem now o w w' run = ground arith

forfeit_one_lem :
    (now : ℤ) (o : Order) (w w' : World) {b : Bool}
    → forfeit_one now o w ≡ ok (b, w')
    → (w' ≡ w)
      ⊎ ((o.status ≡ confirmed)
          × (o.payment ≡ dp_paid)
          × (o.balance_due_at +ℤ grace ≤ℤ now)
          × Ends o cancelled forfeited w w')
unfolding forfeit_one transition close end_automatically
forfeit_one_lem now o w w' run = ground arith

expire_step :
    (now : ℤ) (test : Order → Bool) (o : Order) (w w' : World) (b : Bool)
    → find test w.orders ≡ some o
    → IsSoundWorld w
    → expire_one now o w ≡ ok (b, w')
    → Effect (Lapsed now) w w'
expire_step now test o w w' b e h run = elim (expire_one_lem now o w w' run) [
  | inl same ↦ rw same (h, RowByRow-refl (Lapsed now) kept w.orders)
  | inr (s, y, d, (rows, led)) ↦
      ended-Effect (Lapsed now) kept test o expired unpaid w w' e h rows led
        (λ i. (ground (arith, i), ended o s y d))
]

forfeit_step :
    (now : ℤ) (test : Order → Bool) (o : Order) (w w' : World) (b : Bool)
    → find test w.orders ≡ some o
    → IsSoundWorld w
    → forfeit_one now o w ≡ ok (b, w')
    → Effect (Forfeits now) w w'
forfeit_step now test o w w' b e h run = elim (forfeit_one_lem now o w w' run) [
  | inl same ↦ rw same (h, RowByRow-refl (Forfeits now) kept w.orders)
  | inr (s, y, d, (rows, led)) ↦
      ended-Effect (Forfeits now) kept test o cancelled forfeited w w' e h rows led
        (λ i. (ground (arith, i), ended o s y d))
]

-- `ExpireUnpaid` keeps a sound store sound, and changes an order in one way only: one that waited
-- unpaid until its DP deadline and the grace had passed is expired. Every other order is as it was.
pub expire_unpaid_effect :
    (now : ℤ) (w : World)
    → IsSoundWorld w
    → IsSoundWorld ((expire_unpaid now w).1)
      × RowByRow (Lapsed now) w.orders ((expire_unpaid now w).1.orders)
unfolding expire_unpaid
expire_unpaid_effect now w h =
    sweep-Effect (Lapsed now) kept (Lapsed-trans now) (expire_one now) (expire_step now)
      (overdue_dp now w) w h

-- `ForfeitUnpaid` keeps a sound store sound, and changes an order in one way only: a confirmed order
-- with its DP paid whose balance deadline and the grace had passed is cancelled and its DP forfeited.
-- Every other order, one paid in full above all, is as it was.
pub forfeit_unpaid_effect :
    (now : ℤ) (w : World)
    → IsSoundWorld w
    → IsSoundWorld ((forfeit_unpaid now w).1)
      × RowByRow (Forfeits now) w.orders ((forfeit_unpaid now w).1.orders)
unfolding forfeit_unpaid
forfeit_unpaid_effect now w h =
    sweep-Effect (Forfeits now) kept (Forfeits-trans now) (forfeit_one now) (forfeit_step now)
      (overdue_balance now w) w h
