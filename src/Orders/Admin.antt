-- ===== src/Orders/Admin.antt =====
-- internal/orders/admin.go: the staff's actions on an order. `fresh` is the id that `uuid.New` draws,
-- `now` the clock's time.
use Prim.Native.String.{String}
pub mod Payment
pub mod Cancel
use kue_preorder.Prelude.{
  ℕ, leb, ℤ, pos, ◌-ℤ◌, ltb_ℤ, leb_ℤ, eqb_ℤ, Bool, true, false, not, ◌&&◌, ◌||◌, List, [], ◌∷◌,
  length, Option, none, some, contains_func, if◌then◌else◌,
}
use kue_preorder.Prelude.Text.{Text, is_empty, trim_space}
use kue_preorder.Prelude.Word.{◌+64◌, ◌-64◌}
use kue_preorder.Prelude.Result.{Result, ok, err}
use kue_preorder.Platform.Errors.{
  Error, not_found, precondition, validation, payment_required, Fields, check, fields_err,
}
use kue_preorder.Platform.Caller.{Principal, Role, owner, kitchen, authorize}
use kue_preorder.Payments.Status.{
  Status as PaymentStatus, forfeited, refunded, is_closed, settle, close,
}
use kue_preorder.Payments.Dp.{max_order_total}
use kue_preorder.Payments.Fee.{blank}
use kue_preorder.Payments.Ledger.{Payment as Row, order_payments}
use kue_preorder.Orders.Lifecycle.{
  Status, awaiting_dp, confirmed, expired, in_production, ready, completed, cancelled, eqb_status,
  transition,
}
use kue_preorder.Orders.Store.{
  Order, World, Tx, ◌>>=◌, ◌>>◌, lift, done, transact, state_of, get_by_code, lock_by_code,
  set_status, payments_of, audit, publish, normalize_code,
}

abbrev pub owners : List Role
owners = owner ∷ []

abbrev pub staff : List Role
staff = owner ∷ kitchen ∷ []

abbrev pub production_steps : List Status
production_steps = in_production ∷ ready ∷ completed ∷ []

-- An order with its payments, as the CMS shows it.
abbrev pub Details : Type 0
Details = Order × List Row

-- `Admin.load`, which follows a commit: the order and its payments. `read` is what the database makes of
-- the reads themselves, which may fail when the changes stand already.
unfoldable pub load : (read : Result Error (Unit {0})) → Text → World → Result Error Details
load read code w = elim (normalize_code code) [
  | none ↦ err not_found
  | some c ↦ elim read [
    | err e ↦ err e
    | ok _ ↦ elim (get_by_code c w) [ err e ↦ err e | ok o ↦ ok (o, order_payments o.id w.ledger) ]
  ]
]

-- `Admin.lock`.
unfoldable pub lock : Text → Tx Order
lock code w = elim (normalize_code code) [ none ↦ err not_found | some c ↦ lock_by_code c w ]

-- `transitionError`.
unfoldable pub transition_error : Status → Error → Error
transition_error to payment_required =
    if eqb_status to expired
    then precondition "illegal_transition"
    else precondition "not_paid_in_full"
transition_error to e = precondition "illegal_transition"

abbrev pub allowed : Order → PaymentStatus → Status → Result Error (Unit {0})
allowed o pay to =
    elim (transition (record { status = o.status; payment = pay; fulfillment = o.fulfillment })
      to) [ ok u ↦ ok u | err e ↦ err (transition_error to e) ]

-- `Authorize` and then `Fields.Err`.
abbrev pub both : Result Error Principal → Result Error (Unit {0}) → Result Error Principal
both (err e) _ = err e
both (ok p) (err e) = err e
both (ok p) (ok u) = ok p

-- What runs once the caller and the input are accepted.
abbrev pub after :
    Result Error Principal
    → (Principal → World → Result Error Details × World)
    → World
    → Result Error Details × World
after (ok p) act w = act p w
after (err e) act w = (err e, w)

-- `Advance`: the transaction, and the call.
unfoldable pub advance_order : Status → ℤ → Order → Tx (Unit {0})
advance_order to now o = if eqb_status o.status to then done else (do
  lift (allowed o o.payment to)
  set_status o.id to o.payment
  publish "order.status_changed" o.id now)

unfoldable pub advance_tx : Principal → Text → Status → ℤ → Tx (Unit {0})
unfolding lock advance_order
advance_tx p code to now = lock code >>= advance_order to now

unfoldable pub advance_accepted : Result Error Principal → Status → Result Error Principal
advance_accepted caller to = both (authorize caller staff) (
    if contains_func (eqb_status to) production_steps
    then ok tt
    else err (validation ("status" ∷ [])))

unfoldable pub advance :
    (read : Result Error (Unit {0}))
    → Result Error Principal
    → Text
    → Status
    → ℤ
    → World
    → Result Error Details × World
unfolding advance_accepted advance_tx load
advance read caller code to now =
    after (advance_accepted caller to) (λ p. transact (advance_tx p code to now) (load read code))
