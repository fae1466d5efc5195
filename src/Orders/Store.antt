-- ===== src/Orders/Store.antt =====
-- The rows that internal/orders works on (internal/orders/postgres/repo.go), with the payment ledger
-- beside them, and its transactions. The store is one tenant's. An order carries its items and the
-- idempotency key of its row; its payments stand in the ledger, and its shipping, which is 0, its
-- channel and the times of acceptance and insertion are left out. An audit entry and an outbox event
-- keep what identifies them.
use Prim.Native.String.{String}
use kue_preorder.Prelude.{
  ℕ, ◌-◌, ◌==◌, leb, ℤ, Bool, ◌&&◌, List, [], ◌∷◌, ◌++◌, map, Option, none, some, if◌then◌else◌,
}
use kue_preorder.Prelude.Text.{Text, byte_length, trim_space, eqb_text}
use kue_preorder.Prelude.Result.{Result, ok, err}
use kue_preorder.Platform.Errors.{Error, not_found}
use kue_preorder.Platform.Journal.{AuditEntry, Event}
use kue_preorder.Payments.Status.{Status as PaymentStatus}
use kue_preorder.Payments.Ledger.{Ledger, Payment, order_payments}
use kue_preorder.Orders.Lifecycle.{Status, Fulfillment, State}

-- A cart line as it is priced and stored.
pub record QuotedItem : Type 0 where
  pub variant_id : ℕ
  pub product_name : Text
  pub variant_name : Text
  pub quantity : ℤ
  pub unit_price_idr : ℤ
  pub line_total_idr : ℤ
  pub production_minutes : ℤ
  pub min_notice_hours : ℤ

pub record Order : Type 0 where
  pub id : ℕ
  pub customer_id : ℕ
  pub code : Text
  pub status : Status
  pub payment : PaymentStatus
  pub fulfillment : Fulfillment
  pub items : List QuotedItem
  pub subtotal_idr : ℤ
  pub tax_idr : ℤ
  pub total_idr : ℤ
  pub dp_required_idr : ℤ
  pub full_payment_required : Bool
  pub pickup_at : ℤ
  pub production_start : ℤ
  pub production_date : ℤ
  pub shopping_cutoff_at : ℤ
  pub dp_due_at : ℤ
  pub balance_due_at : ℤ
  pub notes : Text
  pub customer_name : Text
  pub customer_phone : Text
  pub customer_email : Text
  pub terms_version : Text
  pub idempotency_key : ℕ

-- `Order.state`.
abbrev pub state_of : Order → State
state_of o = record { status = o.status; payment = o.payment; fulfillment = o.fulfillment }

pub record World : Type 0 where
  pub orders : List Order
  pub ledger : Ledger
  pub audits : List AuditEntry
  pub events : List Event

-- A unit of work: what an error leaves behind is rolled back by `transact`.
abbrev pub Tx : Type 0 → Type 0
Tx A = World → Result Error (A × World)

infixl 5 ◌>>=◌ ◌>>◌
abbrev pub ◌>>=◌ : {A B : Type 0} → Tx A → (A → Tx B) → Tx B
◌>>=◌ m f w = elim (m w) [ err e ↦ err e | ok (a, w') ↦ f a w' ]

abbrev pub ◌>>◌ : {B : Type 0} → Tx (Unit {0}) → Tx B → Tx B
m >> k = m >>= λ _. k

abbrev pub lift : {A : Type 0} → Result Error A → Tx A
lift (ok a) w = ok (a, w)
lift (err e) w = err e

abbrev pub done : Tx (Unit {0})
done w = ok (tt, w)

-- `Transactor.Tx`: the outcome, and what was committed.
abbrev pub committed : {A : Type 0} → Result Error (A × World) → World → Result Error A × World
committed (err e) w = (err e, w)
committed (ok (a, w')) w = (ok a, w')

-- `Transactor.Tx` followed by a read of what was committed.
abbrev pub transact :
    {A : Type 0} → Tx (Unit {0}) → (World → Result Error A) → World → Result Error A × World
transact body load w = elim (body w) [ err e ↦ (err e, w) | ok (_, w') ↦ (load w', w') ]

unfoldable pub find : (Order → Bool) → List Order → Option Order
find test [] = none
find test (o ∷ os) = let rest = find test os in if test o then some o else rest

abbrev pub found : Option Order → Result Error Order
found none = err not_found
found (some o) = ok o

abbrev pub has_code : Text → Order → Bool
has_code code o = eqb_text o.code code

abbrev pub has_id : ℕ → Order → Bool
has_id id o = o.id == id

-- `LockByCode`, `GetByCode`, `LockByID` and `Get`: transactions here follow one another, so that a
-- lock only reads.
abbrev pub get_by_code : Text → World → Result Error Order
get_by_code code w = found (find (has_code code) w.orders)

abbrev pub lock_by_code : Text → Tx Order
lock_by_code code w = lift (get_by_code code w) w

abbrev pub lock_by_id : ℕ → Tx Order
lock_by_id id w = lift (found (find (has_id id) w.orders)) w

-- `SetStatus`.
unfoldable pub set_status_in : ℕ → Status → PaymentStatus → List Order → List Order
set_status_in id s p [] = []
set_status_in id s p (o ∷ os) =
    (if o.id == id then record o { status = s; payment = p } else o) ∷ set_status_in id s p os

abbrev pub set_status : ℕ → Status → PaymentStatus → Tx (Unit {0})
set_status id s p w = ok (tt, record w { orders = set_status_in id s p w.orders })

abbrev pub payments_of : ℕ → Tx (List Payment)
payments_of id w = ok (order_payments id w.ledger, w)

abbrev pub audit : String → ℕ → ℕ → ℤ → Tx (Unit {0})
audit action entity actor at w = ok (
  tt,
  record w {
    audits =
        w.audits ++ record { action = action; entity_id = entity; actor_id = actor; at = at } ∷ [];
  },
)

abbrev pub publish : String → ℕ → ℤ → Tx (Unit {0})
publish type_name entity at w = ok (
  tt,
  record w {
    events = w.events ++ record { type_name = type_name; entity_id = entity; at = at } ∷ [];
  },
)

-- `strings.ToUpper` on the runes that have an ASCII capital. The capitals of all others lie outside
-- ASCII, where no order code has a letter.
unfoldable pub to_upper : ℕ → ℕ
to_upper c =
    if leb b'a' c && leb c b'z'
    then c - 32
    else if c == 0x131
    then b'I'
    else if c == 0x17f
    then b'S'
    else c

-- `normalizeCode`: none for a text that is no code.
unfoldable pub normalize_code : Text → Option Text
unfolding to_upper byte_length
normalize_code code =
    let upper = map to_upper (trim_space code) in
    if byte_length upper == 6 then some upper else none
