-- ===== src/Orders/Checkout/Place/Keeps.antt =====
-- Placing an order in a sound store.
use mathlib.Core.Path.{subst}
use kue_preorder.Prelude.{
  ℕ, ◌==◌, pos, ◌≡◌, ◌≢◌, ◌∙◌, refl, sym, ap, List, [], ◌∷◌, ◌++◌, All, All-map, All-append,
  contains_func, false, inl, inr, arith, Bool-cases,
}
use kue_preorder.Prelude.Text.{Text}
use kue_preorder.Platform.Caller.{Customer}
use kue_preorder.Payments.Ledger.{paid_idr, paid_from, order_payments}
use kue_preorder.Payments.Ledger.Pending.{paid_idr-add_pending}
use kue_preorder.Scheduling.Plan.{Plan}
use kue_preorder.Orders.Store.{Order, World, has_id}
use kue_preorder.Orders.Sound.{IsSound}
use kue_preorder.Orders.Sound.Rows.{IsSoundWorld, HasDistinctIds}
use kue_preorder.Orders.Sound.Actions.{paid_by}
use kue_preorder.Orders.Checkout.Quote.{Quote}
use kue_preorder.Orders.Checkout.Quote.Amounts.{IsPayable, quote-Offered, quote-IsPayable}
use kue_preorder.Orders.Checkout.Place.{Deps, Draws, PlaceRequest, new_order, place}
use kue_preorder.Orders.Checkout.Place.Balances.{SameRows, SameBalances}
use kue_preorder.Orders.Checkout.Place.Outcome.{Accepted, place-Outcome}

SameRows-IsSoundWorld : (w v : World) → SameRows w v → IsSoundWorld w → IsSoundWorld v
SameRows-IsSoundWorld w v (rows, same) h = record {
  distinct = subst HasDistinctIds (sym rows) h.distinct;
  sound = subst (All (λ o. IsSound o (paid_by v.ledger o))) (sym rows) (
      All-map (λ o. IsSound o (paid_by w.ledger o)) (λ o. IsSound o (paid_by v.ledger o)) w.orders
        (λ o s. subst (IsSound o) (sym (same o.id)) s) h.sound);
}

-- An id that no row has is apart from all of them.
id_apart :
    (id : ℕ) (os : List Order) → contains_func (has_id id) os ≡ false → All (λ q. id ≢ q.id) os
id_apart id [] h = tt
id_apart id (o ∷ os) h = elim (Bool-cases (o.id == id)) [
  | inl t ↦ cc (rw t at h)
  | inr f ↦ (λ e. ground (arith, f, e), id_apart id os (rw f at h))
]

append-HasDistinctIds :
    (o : Order) (os : List Order)
    → All (λ q. o.id ≢ q.id) os
    → HasDistinctIds os
    → HasDistinctIds (os ++ o ∷ [])
append-HasDistinctIds o [] n h = (tt, tt)
append-HasDistinctIds o (q ∷ os) n h =
    (All-append (λ x. x.id ≢ q.id) os (o ∷ []) h.0 (n.0, tt), append-HasDistinctIds o os n.1 h.1)

IsPayable-IsSound :
    (req : PlaceRequest) (d : Draws) (customer : Customer) (policy : _) (q : Quote) (p : Plan)
    (code : Text)
    → IsPayable policy q p
    → IsSound (record (new_order req d customer q p) { code = code }) (pos 0)
unfolding new_order
IsPayable-IsSound req d customer policy q p code h = record {
  dp_low = h.dp_low;
  dp_high = h.dp_high;
  total_high = h.total_high;
  status_fits = refl;
  paid_fits = refl;
}

Accepted-IsSoundWorld :
    (deps : Deps) (d : Draws) (req : PlaceRequest) (customer : Customer) (w v : World)
    → order_payments d.order_id w.ledger ≡ []
    → Accepted deps d req customer w v
    → IsSoundWorld w
    → IsSoundWorld v
unfolding new_order paid_idr paid_from
Accepted-IsSoundWorld deps d req customer w v none_yet a h =
    let o = record (new_order req d customer a.quoted a.schedule) { code = d.code a.stored.draw } in
    let (policy, read, _) =
      quote-Offered deps.sources w.orders d.quoted_at req.cart a.quoted a.schedule a.as_quoted
        a.as_scheduled in
    let payable =
      quote-IsPayable deps.sources w.orders d.quoted_at req.cart policy a.quoted a.schedule read
        a.as_quoted a.as_scheduled in
    let same : SameBalances w.ledger v.ledger =
      λ q. paid_idr-add_pending q _ d.now w.ledger v.ledger a.stored.pending in
    record {
      distinct =
          subst HasDistinctIds (sym a.stored.rows)
            (append-HasDistinctIds o w.orders (id_apart o.id w.orders a.stored.id_free) h.distinct);
      sound = subst (All (λ x. IsSound x (paid_by v.ledger x))) (sym a.stored.rows) (
          All-append (λ x. IsSound x (paid_by v.ledger x)) w.orders (o ∷ [])
            (All-map (λ x. IsSound x (paid_by w.ledger x)) (λ x. IsSound x (paid_by v.ledger x))
              w.orders (λ x s. subst (IsSound x) (sym (same x.id)) s) h.sound)
            (
              subst (IsSound o) (sym (same d.order_id ∙ ap paid_idr none_yet))
                  (IsPayable-IsSound req d customer policy a.quoted a.schedule _ payable),
              tt,
            ));
    }

-- `Place` keeps the store sound, whatever the cart, the sources and the provider, if no payment in the
-- ledger belongs to the id drawn for the order.
pub place_keeps :
    (deps : Deps) (d : Draws) (req : PlaceRequest) (w : World)
    → order_payments d.order_id w.ledger ≡ []
    → IsSoundWorld w
    → IsSoundWorld (place deps d req w).1
place_keeps deps d req w none_yet h = elim (place-Outcome deps d req w) [
  | inl (e, same) ↦ rw same h
  | inr (customer, e, o) ↦ SameRows-IsSoundWorld o.committed _ o.same (elim o.change [
    | inl same ↦ rw same h
    | inr a ↦ Accepted-IsSoundWorld deps d req customer w o.committed none_yet a h
  ])
]
