-- ===== src/Orders/Checkout/Place/Waiting.antt =====
-- How many orders of a customer wait for their down payment.
use kue_preorder.Prelude.{
  ℕ, ◌+◌, ◌==◌, ◌≤◌, ◌<◌, ◌&&◌, ◌≡◌, List, [], ◌∷◌, ◌++◌, inl, inr, arith, if◌then◌else◌,
}
use kue_preorder.Platform.Caller.{Customer}
use kue_preorder.Orders.Lifecycle.{Status, awaiting_dp, eqb_status}
use kue_preorder.Orders.Store.{Order, World}
use kue_preorder.Orders.Checkout.Place.{
  Deps, Draws, PlaceRequest, max_awaiting_dp, count_by_status, place,
}
use kue_preorder.Orders.Checkout.Place.Outcome.{Accepted, place-Outcome}

count_by_status-append :
    (c : ℕ) (s : Status) (os : List Order) (o : Order)
    → count_by_status c s (os ++ o ∷ [])
      ≡ count_by_status c s os + (if o.customer_id == c && eqb_status o.status s then 1 else 0)
unfolding count_by_status
count_by_status-append c s [] o = ground arith
count_by_status-append c s (q ∷ os) o = ground (arith, count_by_status-append c s os o)

-- No customer has more than two orders that wait for their down payment.
abbrev pub FewWaiting : World → Type 0
FewWaiting w = (c : ℕ) → count_by_status c awaiting_dp w.orders ≤ max_awaiting_dp

one_more :
    (c : ℕ) (os : List Order) (o : Order)
    → count_by_status c awaiting_dp os ≤ max_awaiting_dp
    → count_by_status o.customer_id awaiting_dp os < max_awaiting_dp
    → count_by_status c awaiting_dp (os ++ o ∷ []) ≤ max_awaiting_dp
one_more c os o h few = ground (arith, count_by_status-append c awaiting_dp os o)

Accepted-FewWaiting :
    (deps : Deps) (d : Draws) (req : PlaceRequest) (customer : Customer) (w v : World)
    → Accepted deps d req customer w v
    → FewWaiting w
    → FewWaiting v
Accepted-FewWaiting deps d req customer w v a h c =
    rw a.stored.rows (one_more c w.orders _ (h c) a.stored.few_waiting)

-- `Place` never leaves a customer with more than two orders that wait for their down payment, if no
-- customer had more before.
pub place-FewWaiting :
    (deps : Deps) (d : Draws) (req : PlaceRequest) (w : World)
    → FewWaiting w
    → FewWaiting (place deps d req w).1
place-FewWaiting deps d req w h c = elim (place-Outcome deps d req w) [
  | inl (e, same) ↦ rw same (h c)
  | inr (customer, e, o) ↦ rw o.same.0 (elim o.change [
    | inl same ↦ rw same (h c)
    | inr a ↦ Accepted-FewWaiting deps d req customer w o.committed a h c
  ])
]
