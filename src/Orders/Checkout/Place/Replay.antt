-- ===== src/Orders/Checkout/Place/Replay.antt =====
-- A checkout that is sent again.
use mathlib.Core.Path.{subst}
use kue_preorder.Prelude.{
  ℕ, ℤ, ◌≡◌, ◌≢◌, ◌∙◌, refl, sym, ap, List, [], ◌∷◌, Bool, some, inl, inr, arith, Bool-cases,
  Option-cases,
}
use kue_preorder.Prelude.Result.{Result, ok, err}
use kue_preorder.Platform.Errors.{Error}
use kue_preorder.Platform.Caller.{Customer}
use kue_preorder.Payments.Ledger.{Payment, order_payments}
use kue_preorder.Orders.Store.{Order, World, find, has_id}
use kue_preorder.Orders.Sound.Rows.{IsSoundWorld, HasDistinctIds, find-All}
use kue_preorder.Orders.Checkout.Invoices.{Provider, with_payments}
use kue_preorder.Orders.Checkout.Place.{
  Deps, Draws, PlaceRequest, has_key, Placed, load, place_fields, place_as, place,
}
use kue_preorder.Orders.Checkout.Place.Balances.{SameRows, load-SameRows}
use kue_preorder.Orders.Checkout.Place.Outcome.{place-Outcome}
use kue_preorder.Orders.Checkout.Place.Keeps.{place_keeps}

ok_ne_err : (p : Placed) (e : Error) → ok p ≢ err e
ok_ne_err p e = λ h. cc

-- A row that was found is the row with its id.
find-has_id :
    (test : Order → Bool) (os : List Order) (o : Order)
    → find test os ≡ some o
    → HasDistinctIds os
    → find (has_id o.id) os ≡ some o
unfolding find
find-has_id test [] o e h = cc
find-has_id test (q ∷ os) o e h = elim (Bool-cases (test q)) [
  | inl t ↦ (let same : q ≡ o = cc (rw t at e) in rw same (ground arith))
  | inr f ↦
      (let rest = find-has_id test os o (rw f at e) h.1 in
        let apart : o.id ≢ q.id = find-All (λ x. x.id ≢ q.id) test os o (rw f at e) h.0 in
        ground (arith, rest, apart))
]

-- What an answer of `load` tells.
load_ok :
    (v : Provider) (now : ℤ) (id : ℕ) (w w' : World) (o : Order) (ps : List Payment)
    → load v now id w ≡ (ok (o, ps), w')
    → find (has_id id) w.orders ≡ some o
unfolding load with_payments
load_ok v now id w w' o ps h = elim (Option-cases (find (has_id id) w.orders)) [
  | inl n ↦ cc (rw (n, load) at h)
  | inr (q, e) ↦
      (let same : q ≡ o =
          ground (arith, ap (λ (r : Result Error Placed × World). r.0) (rw (e, load) at h)) in
        e ∙ ap some same)
]

load_found :
    (v : Provider) (now : ℤ) (id : ℕ) (w : World) (o : Order)
    → find (has_id id) w.orders ≡ some o
    → (ps : List Payment) × ((load v now id w).0 ≡ ok (o, ps))
unfolding load with_payments
load_found v now id w o e = ((with_payments v now o w).0.1, rw (e, load) refl)

-- The order answered is the one under the key.
placed_key :
    (deps : Deps) (d : Draws) (req : PlaceRequest) (customer : Customer) (w w' : World) (o : Order)
    (ps : List Payment)
    → deps.ensure_customer req.customer d.now ≡ ok customer
    → place deps d req w ≡ (ok (o, ps), w')
    → IsSoundWorld w'
    → find (has_key customer.id req.idempotency_key) w'.orders ≡ some o
placed_key deps d req customer w w' o ps known h sound = elim (place-Outcome deps d req w) [
  | inl (e, same) ↦ absurd (ok_ne_err (o, ps) e (sym (ap (λ r. r.0) h) ∙ ap (λ r. r.0) same))
  | inr (c, j, out) ↦
      (let is_same : c ≡ customer = cc in
        let rows : w'.orders ≡ out.committed.orders = rw h at out.same.0 in
        elim out.answer [
          | inl (e, k) ↦ absurd (ok_ne_err (o, ps) e (sym (ap (λ r. r.0) h) ∙ k))
          | inr (t, found, loads) ↦
              (let at_key =
                  subst (λ x. find (has_key x.id req.idempotency_key) out.committed.orders ≡ some t)
                    is_same found in
                let own =
                  load_ok deps.provider d.invoiced_at t.id out.committed w' o ps (sym loads ∙ h) in
                let by_id =
                  find-has_id _ out.committed.orders t at_key
                    (subst HasDistinctIds rows sound.distinct) in
                let same_order : t ≡ o = cc in rw rows (at_key ∙ ap some same_order))
        ])
]

-- With the key of an order in the store, `Place` answers with that order.
place_again :
    (deps : Deps) (d : Draws) (req : PlaceRequest) (customer : Customer) (w : World) (o : Order)
    → place_fields req ≡ ok tt
    → deps.ensure_customer req.customer d.now ≡ ok customer
    → find (has_key customer.id req.idempotency_key) w.orders ≡ some o
    → place deps d req w ≡ load deps.provider d.invoiced_at o.id w
unfolding place place_as
place_again deps d req customer w o fields known found =
    rw (fields, place) (rw (known, place) (rw (found, place_as) refl))

-- Once `Place` has answered with an order from a sound store, the same customer's key answers with the
-- same order again, at any later time and with other prices, rules and drawn ids: no order is added or
-- changed, and no balance moves. The id first drawn belongs to no payment.
pub place_replay :
    (deps deps' : Deps) (d d' : Draws) (req req' : PlaceRequest) (customer customer' : Customer)
    (w w' : World) (o : Order) (ps : List Payment)
    → IsSoundWorld w
    → order_payments d.order_id w.ledger ≡ []
    → deps.ensure_customer req.customer d.now ≡ ok customer
    → place deps d req w ≡ (ok (o, ps), w')
    → place_fields req' ≡ ok tt
    → deps'.ensure_customer req'.customer d'.now ≡ ok customer'
    → customer'.id ≡ customer.id
    → req'.idempotency_key ≡ req.idempotency_key
    → SameRows w' (place deps' d' req' w').1
      × ((again : List Payment) × ((place deps' d' req' w').0 ≡ ok (o, again)))
place_replay deps deps' d d' req req' customer customer' w w' o ps sound free known h fields known'
      same_customer same_key =
    let sound' : IsSoundWorld w' =
      subst IsSoundWorld (ap (λ r. r.1) h) (place_keeps deps d req w free sound) in
    let at_key = placed_key deps d req customer w w' o ps known h sound' in
    let at_key' : find (has_key customer'.id req'.idempotency_key) w'.orders ≡ some o =
      rw (same_customer, same_key) at_key in
    let loads = place_again deps' d' req' customer' w' o fields known' at_key' in
    (
      rw loads (load-SameRows deps'.provider d'.invoiced_at o.id w'),
      rw loads (
          load_found deps'.provider d'.invoiced_at o.id w' o
            (find-has_id _ w'.orders o at_key' sound'.distinct)),
    )
