-- ===== src/Orders/Sound/Actions.antt =====
-- The actions of the staff on the whole store.
use mathlib.Core.Path.{subst}
use kue_preorder.Prelude.{
  ℕ, ℤ, pos, ◌-ℤ◌, ◌≤ℤ◌, ◌≡◌, ◌≢◌, refl, sym, All, some, Bool, arith, inl, inr, Bool-cases,
  if◌then◌else◌,
}
use kue_preorder.Prelude.Word.{wrap64, ◌+64◌}
use kue_preorder.Prelude.Result.{Result, ok, err}
use kue_preorder.Platform.Errors.{Error, Result-cases}
use kue_preorder.Platform.Caller.{Principal}
use kue_preorder.Payments.Status.{Status as PaymentStatus, settle}
use kue_preorder.Payments.Dp.{max_order_total}
use kue_preorder.Payments.Ledger.{
  Kind, Ledger, Payment, paid_idr, order_payments, add_manual, expire_pending,
}
use kue_preorder.Payments.Ledger.Rows.{paid_idr-expire_pending, manual_balances}
use kue_preorder.Orders.Lifecycle.{Status}
use kue_preorder.Orders.Store.{Order, World, Tx, ◌>>=◌, lift, find, set_status_in}
use kue_preorder.Orders.Admin.Payment.{
  ManualPayment, on_ledger_add_manual, manual_payment, manual_kind, settled, confirm, record_paid,
  pay_order,
}
use kue_preorder.Orders.Admin.Cancel.{
  CancelRequest, is_refund, cancelled_as, give_back, end_order, cancel_order,
}
use kue_preorder.Orders.Sound.{IsSound}
use kue_preorder.Orders.Sound.Pay.{pay-IsSound}
use kue_preorder.Orders.Sound.Cancel.{cancel-IsSound}
use kue_preorder.Orders.Sound.Rows.{
  IsSoundWorld, HasDistinctIds, set_status_in-HasDistinctIds, set_status_in-All, find-All,
}

pub lift_ok :
    {A B : Type 0} (r : Result Error A) (f : A → Tx B) (w : World) {b : B × World}
    → (lift r >>= f) w ≡ ok b
    → (a : A) × (r ≡ ok a) × (f a w ≡ ok b)
lift_ok (ok a) f w h = (a, refl, h)
lift_ok (err e) f w h = cc

abbrev pub paid_by : Ledger → Order → ℤ
paid_by l o = paid_idr (order_payments o.id l)

-- New statuses for one order, with a ledger in which the others have paid what they had.
pub rewritten :
    (test : Order → Bool) (o : Order) (w w' : World) (s : Status) (p : PaymentStatus)
    → find test w.orders ≡ some o
    → IsSoundWorld w
    → w'.orders ≡ set_status_in o.id s p w.orders
    → ((q : Order) → q.id ≢ o.id → paid_by w'.ledger q ≡ paid_by w.ledger q)
    → IsSound (record o { status = s; payment = p }) (paid_by w'.ledger o)
    → IsSoundWorld w'
rewritten test o w w' s p e h rows keep new = record {
  distinct =
      subst HasDistinctIds (sym rows) (set_status_in-HasDistinctIds o.id s p w.orders h.distinct);
  sound = subst (All (λ q. IsSound q (paid_by w'.ledger q))) (sym rows) (
      set_status_in-All (λ q. IsSound q (paid_by w.ledger q)) (λ q. IsSound q (paid_by w'.ledger q))
        test s p w.orders o e h.distinct (λ q n old. subst (IsSound q) (sym (keep q n)) old) new
        h.sound);
}

-- What the writes of a manual payment leave.
pub record_paid_effect :
    (p : Principal) (fresh : ℕ) (i : ManualPayment) (now : ℤ) (o : Order) (k : Kind)
    (pay : PaymentStatus) (s : Status) (w w' : World) {u : Unit {0}}
    → record_paid p fresh i now o k pay s w ≡ ok (u, w')
    → (l : Ledger) × (add_manual
          (manual_payment fresh o.id k i.amount_idr i.reference i.note p.auth_user_id)
          now
          w.ledger
        ≡ ok l)
      × (w'.orders ≡ set_status_in o.id s pay w.orders)
      × (w'.ledger ≡ expire_pending o.id l)
unfolding record_paid add_manual
record_paid_effect p fresh i now o k pay s w w' h =
    elim (Result-cases (
      add_manual (manual_payment fresh o.id k i.amount_idr i.reference i.note p.auth_user_id) now
        w.ledger)) [
          | inl (l, e) ↦ (l, e, ground (arith, e), ground (arith, e))
          | inr (x, e) ↦ cc (rw e at h)
        ]

-- A manual payment keeps the store sound: what the order has paid grows by the amount, stays within
-- its total, and its statuses follow; the other orders and their balances stay.
pub pay_order_sound :
    (test : Order → Bool) (p : Principal) (fresh : ℕ) (i : ManualPayment) (now : ℤ) (o : Order)
    (w w' : World) {u : Unit {0}}
    → find test w.orders ≡ some o
    → IsSoundWorld w
    → pos 1 ≤ℤ i.amount_idr
    → i.amount_idr ≤ℤ pos max_order_total
    → pay_order p fresh i now o w ≡ ok (u, w')
    → IsSoundWorld w'
unfolding pay_order
pay_order_sound test p fresh i now o w w' e h low high run =
    let (k, ek, h1) = lift_ok (manual_kind o (paid_by w.ledger o) i.amount_idr) _ w run in
    let (pay, ep, h2) = lift_ok (settled (settle o.payment _)) _ w h1 in
    let (s, es, h3) = lift_ok (confirm o pay) _ w h2 in
    let (l, el, rows, led) = record_paid_effect p fresh i now o k pay s w w' h3 in
    let (own, others) = manual_balances o.id _ now w.ledger l w'.ledger refl el led in
    rewritten test o w w' s pay e h rows (λ q n. others q.id n)
      (rw own (
        pay-IsSound o (paid_by w.ledger o) i.amount_idr k pay s
          (find-All (λ q. IsSound q (paid_by w.ledger q)) test w.orders o e h.sound) low high ek ep
          es))

on_ledger_lem :
    (p : Payment) (at : ℤ) (w v : World) {u : Unit {0}}
    → on_ledger_add_manual p at w ≡ ok (u, v)
    → (l : Ledger) × (add_manual p at w.ledger ≡ ok l) × (v.orders ≡ w.orders) × (v.ledger ≡ l)
on_ledger_lem p at w v h = elim (Result-cases (add_manual p at w.ledger)) [
  | inl (l, e) ↦ (l, e, ground (arith, e), ground (arith, e))
  | inr (x, e) ↦ cc (rw (e, on_ledger_add_manual) at h)
]

-- What the refund of a cancellation does to the balances.
pub refund_balance :
    (p : Principal) (fresh : ℕ) (i : CancelRequest) (now : ℤ) (o : Order) (w v : World)
    {u : Unit {0}}
    → give_back p fresh i now o (paid_by w.ledger o) w ≡ ok (u, v)
    → (v.orders ≡ w.orders)
      × (paid_by (expire_pending o.id v.ledger) o ≡ (
          if is_refund i.mode
          then paid_by w.ledger o +64 wrap64 (pos 0 -ℤ paid_by w.ledger o)
          else paid_by w.ledger o))
      × ((q : Order) → q.id ≢ o.id → paid_by (expire_pending o.id v.ledger) q ≡ paid_by w.ledger q)
unfolding give_back
refund_balance p fresh i now o w v h = elim (Bool-cases (is_refund i.mode)) [
  | inl t ↦
      (let (l, e, same, led) = on_ledger_lem _ now w v (rw t at h) in
        let (own, others) =
          manual_balances o.id _ now w.ledger l (expire_pending o.id v.ledger) refl e
            (rw led refl) in
        (same, rw t own, λ q n. others q.id n))
  | inr f ↦
      (let k : v ≡ w = cc (rw f at h) in
        (
          rw k refl,
          rw (k, f) (paid_idr-expire_pending o.id o.id w.ledger),
          λ q n. rw k (paid_idr-expire_pending q.id o.id w.ledger),
        ))
]

pub end_order_effect :
    (p : Principal) (now : ℤ) (o : Order) (s : Status) (pay : PaymentStatus) (w w' : World)
    {u : Unit {0}}
    → end_order p now o s pay w ≡ ok (u, w')
    → (w'.orders ≡ set_status_in o.id s pay w.orders) × (w'.ledger ≡ expire_pending o.id w.ledger)
unfolding end_order
end_order_effect p now o s pay w w' h = ground arith

pub bind_ok :
    {B : Type 0} (m : Tx (Unit {0})) (f : Tx B) (w : World) {b : B × World}
    → (m >>= (λ _. f)) w ≡ ok b
    → (v : World) × (m w ≡ ok (tt, v)) × (f v ≡ ok b)
bind_ok m f w {b} h = elim (Result-cases (m w)) [
  | inl ((u, v), e) ↦ (v, e, rw (e, ◌>>=◌) at h)
  | inr (x, e) ↦ cc (rw (e, ◌>>=◌) at h)
]

-- A cancellation keeps the store sound: a refund leaves a balance of zero, a forfeit keeps it.
pub cancel_order_sound :
    (test : Order → Bool) (p : Principal) (fresh : ℕ) (i : CancelRequest) (now : ℤ) (o : Order)
    (w w' : World) {u : Unit {0}}
    → find test w.orders ≡ some o
    → IsSoundWorld w
    → cancel_order p fresh i now o w ≡ ok (u, w')
    → IsSoundWorld w'
unfolding cancel_order
cancel_order_sound test p fresh i now o w w' e h run =
    let ((s, pay), es, h1) = lift_ok (cancelled_as o i.mode now) _ w run in
    let (v, ev, h2) = bind_ok (give_back p fresh i now o (paid_by w.ledger o)) _ w h1 in
    let (same, own, others) = refund_balance p fresh i now o w v ev in
    let (rows, led) = end_order_effect p now o s pay v w' h2 in
    rewritten test o w w' s pay e h (rw (sym same) rows) (λ q n. rw led (others q n))
      (rw (led, own)
        (cancel-IsSound o (paid_by w.ledger o) i.mode now s pay
          (find-All (λ q. IsSound q (paid_by w.ledger q)) test w.orders o e h.sound) es))
