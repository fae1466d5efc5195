-- ===== src/Orders/Sound/Calls.antt =====
-- The staff's calls as a whole (internal/orders/admin.go), with their checks and transactions.
use mathlib.Core.Path.{subst}
use kue_preorder.Prelude.{
  ℕ, ℤ, pos, ◌≤ℤ◌, ◌≡◌, refl, [], Option, none, some, Bool, true, arith, inl, inr, Bool-cases,
  Option-cases, contains_func,
}
use kue_preorder.Prelude.Text.{Text}
use kue_preorder.Prelude.Result.{Result, ok, err}
use kue_preorder.Platform.Errors.{Result-cases, Error, fields_err-eq-ok, check-eq-nil}
use kue_preorder.Platform.Caller.{Principal, authorize}
use kue_preorder.Payments.Dp.{max_order_total}
use kue_preorder.Orders.Lifecycle.{Status, transition, eqb_status}
use kue_preorder.Orders.Store.{
  Order, World, Tx, ◌>>=◌, transact, find, has_code, normalize_code, found,
}
use kue_preorder.Orders.Admin.{
  Details, load, lock, owners, staff, both, after, allowed, advance, advance_tx, advance_order,
  advance_accepted, production_steps,
}
use kue_preorder.Orders.Admin.Payment.{
  ManualPayment, trimmed, payment_accepted, record_payment, pay_order, check_reason,
  check_reference,
}
use kue_preorder.Orders.Admin.Cancel.{
  CancelRequest, trimmed as cancel_trimmed, cancel_accepted, cancel, cancel_order,
}
use kue_preorder.Orders.Sound.{IsSound, StatusFits}
use kue_preorder.Orders.Sound.Rows.{IsSoundWorld, find-All}
use kue_preorder.Orders.Sound.Actions.{
  lift_ok, paid_by, rewritten, pay_order_sound, cancel_order_sound,
}

-- A transaction keeps what its commits keep: a refusal commits nothing.
pub transact_keeps :
    (P : World → Type 0) {A : Type 0} (body : Tx (Unit {0})) (read : World → Result Error A)
    (w : World)
    → P w
    → ((w' : World) → body w ≡ ok (tt, w') → P w')
    → P ((transact body read w).1)
transact_keeps P body read w h k = elim (Result-cases (body w)) [
  | inl ((u, w'), e) ↦ rw (e, transact) (k w' e)
  | inr (x, e) ↦ rw (e, transact) h
]

after_keeps :
    (P : World → Type 0) (r : Result Error Principal)
    (act : Principal → World → Result Error Details × World) (w : World)
    → P w
    → ((p : Principal) → r ≡ ok p → P ((act p w).1))
    → P ((after r act w).1)
after_keeps P (ok p) act w h k = k p refl
after_keeps P (err e) act w h k = h

pub found_ok : (m : Option Order) (o : Order) → found m ≡ ok o → m ≡ some o
found_ok (some q) o h = cc
found_ok none o h = cc

-- What `lock` finds, under the code that it reads the text as.
lock_lem :
    (code : Text) (w : World) {B : Type 0} (f : Order → Tx B) {b : B × World}
    → (lock code >>= f) w ≡ ok b
    → (c : Text) × (o : Order) × (find (has_code c) w.orders ≡ some o) × (f o w ≡ ok b)
unfolding lock
lock_lem code w f h = elim (Option-cases (normalize_code code)) [
  | inl e ↦ cc (rw (e, ◌>>=◌) at h)
  | inr (c, e) ↦
      (let (o, eo, run) = lift_ok (found (find (has_code c) w.orders)) f w (rw (e, ◌>>=◌) at h) in
        (c, o, found_ok _ o eo, run))
]

both_ok :
    (r : Result Error Principal) (s : Result Error (Unit {0})) (p : Principal)
    → both r s ≡ ok p
    → s ≡ ok tt
both_ok (err e) s p h = cc
both_ok (ok q) (err e) p h = cc
both_ok (ok q) (ok u) p h = refl

payment_bounds :
    (caller : Result Error Principal) (i : ManualPayment) (p : Principal)
    → payment_accepted caller i ≡ ok p
    → (pos 1 ≤ℤ i.amount_idr) × (i.amount_idr ≤ℤ pos max_order_total)
unfolding payment_accepted check_reason check_reference
payment_bounds caller i p h =
    let none_left = fields_err-eq-ok _ (both_ok (authorize caller owners) _ p h) in
    let note = check-eq-nil _ "note" _ (check-eq-nil _ "note" _ none_left).1 in
    let reference = check-eq-nil _ "reference" _ (check-eq-nil _ "reference" _ note.1).1 in
    let amount = check-eq-nil _ "amount_idr" [] reference.1 in ground (arith, amount.0)

-- `RecordPayment`, whatever the caller, the code, the input and the time, keeps a sound store sound,
-- whether it succeeds or fails: no order is paid more than its total, and the statuses of each order
-- fit what its payments in the ledger add up to.
pub record_payment_keeps :
    (read : Result Error (Unit {0})) (caller : Result Error Principal) (code : Text)
    (input : ManualPayment) (fresh : ℕ) (now : ℤ) (w : World)
    → IsSoundWorld w
    → IsSoundWorld ((record_payment read caller code input fresh now w).1)
unfolding record_payment
record_payment_keeps read caller code input fresh now w h =
    let i = trimmed input in
    after_keeps IsSoundWorld (payment_accepted caller i) _ w h (λ p e.
      transact_keeps IsSoundWorld (lock code >>= pay_order p fresh i now) (load read code) w h
        (λ w' run.
          let (c, o, at, paid) = lock_lem code w (pay_order p fresh i now) run in
          let (low, high) = payment_bounds caller i p e in
          pay_order_sound (has_code c) p fresh i now o w w' at h low high paid))

-- `Cancel`, in every mode and whatever its outcome, keeps a sound store sound: a refund gives back exactly
-- what was paid, a forfeit keeps a DP, and an unpaid order ends with nothing paid.
pub cancel_keeps :
    (read : Result Error (Unit {0})) (caller : Result Error Principal) (code : Text)
    (input : CancelRequest) (fresh : ℕ) (now : ℤ) (w : World)
    → IsSoundWorld w
    → IsSoundWorld ((cancel read caller code input fresh now w).1)
unfolding cancel
cancel_keeps read caller code input fresh now w h =
    let i = cancel_trimmed input in
    after_keeps IsSoundWorld (cancel_accepted caller i) _ w h (λ p e.
      transact_keeps IsSoundWorld (lock code >>= cancel_order p fresh i now) (load read code) w h
        (λ w' run.
          let (c, o, at, ended) = lock_lem code w (cancel_order p fresh i now) run in
          cancel_order_sound (has_code c) p fresh i now o w w' at h ended))

step_allowed :
    (o : Order) (to : Status) {u : Unit {0}}
    → contains_func (eqb_status to) production_steps ≡ true
    → allowed o o.payment to ≡ ok u
    → StatusFits to o.payment
unfolding transition
step_allowed o to k e = ground arith

advance_order-IsSound :
    (o : Order) (x : ℤ) (to : Status) {u : Unit {0}}
    → IsSound o x
    → contains_func (eqb_status to) production_steps ≡ true
    → allowed o o.payment to ≡ ok u
    → IsSound (record o { status = to; payment = o.payment }) x
advance_order-IsSound o x to h k e = record {
  dp_low = h.dp_low;
  dp_high = h.dp_high;
  total_high = h.total_high;
  status_fits = step_allowed o to k e;
  paid_fits = h.paid_fits;
}

advance_write_keeps :
    (test : Order → Bool) (o : Order) (to : Status) (now : ℤ) (w w' : World) {u : Unit {0}}
    → find test w.orders ≡ some o
    → IsSoundWorld w
    → contains_func (eqb_status to) production_steps ≡ true
    → advance_order to now o w ≡ ok (u, w')
    → IsSoundWorld w'
unfolding advance_order
advance_write_keeps test o to now w w' e h k run = elim (Bool-cases (eqb_status o.status to)) [
  | inl t ↦ (let same : w ≡ w' = cc (rw t at run) in subst IsSoundWorld same h)
  | inr f ↦
      (let (u, ea, h1) = lift_ok (allowed o o.payment to) _ w (rw f at run) in
        let led : w'.ledger ≡ w.ledger = ground arith in
        rewritten test o w w' to o.payment e h (ground arith) (λ q n. rw led refl)
          (rw led (
            advance_order-IsSound o (paid_by w.ledger o) to
              (find-All (λ q. IsSound q (paid_by w.ledger q)) test w.orders o e h.sound) k ea)))
]

accepted_step :
    (caller : Result Error Principal) (to : Status) (p : Principal)
    → advance_accepted caller to ≡ ok p
    → contains_func (eqb_status to) production_steps ≡ true
unfolding advance_accepted
accepted_step caller to p h = let t = both_ok (authorize caller staff) _ p h in ground arith

-- `Advance`, whatever its outcome, keeps a sound store sound: only an order that is paid in full goes into
-- production or is handed over.
pub advance_keeps :
    (read : Result Error (Unit {0})) (caller : Result Error Principal) (code : Text) (to : Status)
    (now : ℤ) (w : World)
    → IsSoundWorld w
    → IsSoundWorld ((advance read caller code to now w).1)
unfolding advance advance_tx
advance_keeps read caller code to now w h =
    after_keeps IsSoundWorld (advance_accepted caller to) _ w h (λ p e.
      transact_keeps IsSoundWorld (advance_tx p code to now) (load read code) w h (λ w' run.
        let (c, o, at, moved) = lock_lem code w (advance_order to now) run in
        advance_write_keeps (has_code c) o to now w w' at h (accepted_step caller to p e) moved))
