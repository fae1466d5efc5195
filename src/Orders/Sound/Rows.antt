-- ===== src/Orders/Sound/Rows.antt =====
-- The orders table as a whole, and a write to one of its orders.
use mathlib.Core.Path.{subst}
use kue_preorder.Prelude.{
  ℕ, ◌==◌, ◌≡◌, ◌≢◌, sym, List, [], ◌∷◌, All, some, Bool, arith, inl, inr, Bool-cases,
  if◌then◌else◌,
}
use kue_preorder.Payments.Status.{Status as PaymentStatus}
use kue_preorder.Payments.Ledger.{paid_idr, order_payments}
use kue_preorder.Orders.Lifecycle.{Status}
use kue_preorder.Orders.Store.{Order, World, find, set_status_in}
use kue_preorder.Orders.Sound.{IsSound}

abbrev pub HasDistinctIds : List Order → Type 0
HasDistinctIds [] = Unit
HasDistinctIds (o ∷ os) = All (λ q. q.id ≢ o.id) os × HasDistinctIds os

-- Every order of the store is sound for what its payments in the ledger amount to.
pub record IsSoundWorld (w : World) : Type 0 where
  pub distinct : HasDistinctIds w.orders
  pub sound : All (λ o. IsSound o (paid_idr (order_payments o.id w.ledger))) w.orders

pub find-All {ℓ} :
    (P : Order → Type ℓ) (test : Order → Bool) (os : List Order) (o : Order)
    → find test os ≡ some o
    → All P os
    → P o
unfolding find
find-All P test [] o e h = cc
find-All P test (q ∷ os) o e h = elim (Bool-cases (test q)) [
  | inl t ↦ subst P (cc (rw t at e)) h.0
  | inr f ↦ find-All P test os o (rw f at e) h.1
]

-- What a write makes of one row.
abbrev pub written : ℕ → Status → PaymentStatus → Order → Order
written id s p o = if o.id == id then record o { status = s; payment = p } else o

pub written_self :
    (s : Status) (p : PaymentStatus) (o : Order)
    → written o.id s p o ≡ record o { status = s; payment = p }
written_self s p o = ground arith

pub written_ne :
    (id : ℕ) (s : Status) (p : PaymentStatus) (o : Order) → o.id ≢ id → written id s p o ≡ o
written_ne id s p o n = ground arith

written_id : (id : ℕ) (s : Status) (p : PaymentStatus) (o : Order) → (written id s p o).id ≡ o.id
written_id id s p o = ground arith

set_status_in-distinct :
    (id k : ℕ) (s : Status) (p : PaymentStatus) (os : List Order)
    → All (λ q. q.id ≢ k) os
    → All (λ q. q.id ≢ k) (set_status_in id s p os)
unfolding set_status_in
set_status_in-distinct id k s p [] h = tt
set_status_in-distinct id k s p (o ∷ os) h = ground (arith, set_status_in-distinct id k s p os h.1)

pub set_status_in-HasDistinctIds :
    (id : ℕ) (s : Status) (p : PaymentStatus) (os : List Order)
    → HasDistinctIds os
    → HasDistinctIds (set_status_in id s p os)
unfolding set_status_in
set_status_in-HasDistinctIds id s p [] h = tt
set_status_in-HasDistinctIds id s p (o ∷ os) h = (
  subst (λ k. All (λ q. q.id ≢ k) (set_status_in id s p os)) (sym (written_id id s p o))
      (set_status_in-distinct id o.id s p os h.0),
  set_status_in-HasDistinctIds id s p os h.1,
)

-- The rows that a write to another id leaves as they are.
others_All :
    (Q R : Order → Type 0) (id : ℕ) (s : Status) (p : PaymentStatus) (os : List Order)
    → ((q : Order) → q.id ≢ id → Q q → R q)
    → All (λ q. q.id ≢ id) os
    → All Q os
    → All R (set_status_in id s p os)
unfolding set_status_in
others_All Q R id s p [] keep n h = tt
others_All Q R id s p (o ∷ os) keep n h = (
  subst R (sym (written_ne id s p o n.0)) (keep o n.0 h.0),
  others_All Q R id s p os keep n.1 h.1,
)

pub found_apart :
    (test : Order → Bool) (q : Order) (os : List Order) (o : Order)
    → find test os ≡ some o
    → All (λ r. r.id ≢ q.id) os
    → q.id ≢ o.id
found_apart test q os o e h = λ i. find-All (λ r. r.id ≢ q.id) test os o e h (sym i)

-- A write to an order that was found gives every row its new property, if the row written has it
-- and the others keep theirs.
pub set_status_in-All :
    (Q R : Order → Type 0) (test : Order → Bool) (s : Status) (p : PaymentStatus) (os : List Order)
    (o : Order)
    → find test os ≡ some o
    → HasDistinctIds os
    → ((q : Order) → q.id ≢ o.id → Q q → R q)
    → R (record o { status = s; payment = p })
    → All Q os
    → All R (set_status_in o.id s p os)
unfolding find set_status_in
set_status_in-All Q R test s p [] o e d keep new h = cc
set_status_in-All Q R test s p (q ∷ os) o e d keep new h = elim (Bool-cases (test q)) [
  | inl t ↦
      (let same : q ≡ o = cc (rw t at e) in
        (
          subst (λ r. R (written o.id s p r)) (sym same) (subst R (sym (written_self s p o)) new),
          others_All Q R o.id s p os keep (subst (λ r. All (λ x. x.id ≢ r.id) os) same d.0) h.1,
        ))
  | inr f ↦
      (let e' : find test os ≡ some o = rw f at e in
        let apart = found_apart test q os o e' d.0 in
        (
          subst R (sym (written_ne o.id s p q apart)) (keep q apart h.0),
          set_status_in-All Q R test s p os o e' d.1 keep new h.1,
        ))
]
