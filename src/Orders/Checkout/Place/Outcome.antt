-- ===== src/Orders/Checkout/Place/Outcome.antt =====
-- What a call of `Place` leaves behind, whatever it answers.
use kue_preorder.Prelude.{
  ◌≡◌, refl, sym, List, [], ◌∷◌, some, none, inl, inr, ◌⊎◌, ◌++◌, Bool, true, Bool-cases,
  Option-cases, arith,
}
use kue_preorder.Prelude.Text.{Text}
use kue_preorder.Prelude.Result.{Result, ok, err}
use kue_preorder.Platform.Errors.{Error, Result-cases}
use kue_preorder.Platform.Caller.{Customer}
use kue_preorder.Payments.Ledger.{Payment}
use kue_preorder.Scheduling.Plan.{Plan}
use kue_preorder.Orders.Store.{Order, World, find}
use kue_preorder.Orders.Checkout.Quote.{Quote, PaymentOption, quote}
use kue_preorder.Orders.Checkout.Invoices.{Provider}
use kue_preorder.Orders.Checkout.Place.{
  Deps, Draws, PlaceRequest, has_key, option_for, new_order, first_payment, order_from, Placed,
  place_tx, commit, commit_quote, load, place_fields, place_new, place_as, place,
}
use kue_preorder.Orders.Checkout.Place.Balances.{SameRows, load-SameRows}
use kue_preorder.Orders.Checkout.Place.Stored.{IsStored, place_tx-Committed}

-- A checkout that was accepted: its quote has a plan and the method chosen, and what is stored is the
-- order and the first payment made of them.
pub record Accepted (deps : Deps) (d : Draws) (req : PlaceRequest) (customer : Customer)
    (w v : World) : Type 0 where
  pub quoted : Quote
  pub schedule : Plan
  pub option : PaymentOption
  pub as_quoted : quote deps.sources w.orders d.quoted_at req.cart ≡ ok quoted
  pub as_scheduled : quoted.schedule ≡ some schedule
  pub as_offered : option_for quoted.payment_options req.method ≡ some option
  pub stored :
      IsStored d
        (new_order req d customer quoted schedule)
        (first_payment req d deps.provider (new_order req d customer quoted schedule) option)
        w
        v

-- A call's end: nothing stored or one order, and then an error or the order under the key.
pub record Outcome (deps : Deps) (d : Draws) (req : PlaceRequest) (customer : Customer) (w : World)
    (r : Result Error Placed × World) : Type 0 where
  pub committed : World
  pub change : (committed ≡ w) ⊎ Accepted deps d req customer w committed
  pub same : SameRows committed r.1
  pub answer :
      ((e : Error) × (r.0 ≡ err e))
      ⊎ ((o : Order) × (find (has_key customer.id req.idempotency_key) committed.orders ≡ some o)
          × (r ≡ load deps.provider d.invoiced_at o.id committed))

refused :
    (deps : Deps) (d : Draws) (req : PlaceRequest) (customer : Customer) (w : World) (e : Error)
    → Outcome deps d req customer w (err e, w)
refused deps d req customer w e = record {
  committed = w;
  change = inl refl;
  same = (refl, λ q. refl);
  answer = inl (e, refl);
}

loaded :
    (deps : Deps) (d : Draws) (req : PlaceRequest) (customer : Customer) (w : World) (o : Order)
    → find (has_key customer.id req.idempotency_key) w.orders ≡ some o
    → Outcome deps d req customer w (load deps.provider d.invoiced_at o.id w)
loaded deps d req customer w o e = record {
  committed = w;
  change = inl refl;
  same = load-SameRows deps.provider d.invoiced_at o.id w;
  answer = inr (o, e, refl);
}

find_last :
    (test : Order → Bool) (os : List Order) (o : Order)
    → find test os ≡ none
    → test o ≡ true
    → find test (os ++ o ∷ []) ≡ some o
unfolding find
find_last test [] o n t = rw t refl
find_last test (q ∷ os) o n t = elim (Bool-cases (test q)) [
  | inl y ↦ cc (rw y at n)
  | inr f ↦ rw f (find_last test os o (rw f at n) t)
]

key_matches :
    (req : PlaceRequest) (d : Draws) (customer : Customer) (q : Quote) (p : Plan) (code : Text)
    → has_key customer.id req.idempotency_key
        (record (new_order req d customer q p) { code = code })
      ≡ true
unfolding new_order
key_matches req d customer q p code = ground arith

-- What the order is made of.
pub order_from_lem :
    (req : PlaceRequest) (d : Draws) (provider : Provider) (customer : Customer) (q : Quote)
    (o : Order) (first : Payment)
    → order_from req d provider customer q ≡ ok (o, first)
    → (p : Plan) × (option : PaymentOption) × (q.schedule ≡ some p)
      × (option_for q.payment_options req.method ≡ some option)
      × (new_order req d customer q p ≡ o)
      × (first_payment req d provider (new_order req d customer q p) option ≡ first)
unfolding order_from
order_from_lem req d provider customer q o first h = elim (Option-cases q.schedule) [
  | inl n ↦ cc (rw (n, order_from) at h)
  | inr (p, e) ↦ elim (Option-cases (option_for q.payment_options req.method)) [
    | inl n ↦ cc (rw (n, order_from) at (rw (e, order_from) at h))
    | inr (option, k) ↦
        (let h' = rw k at (rw (e, order_from) at h) in (p, option, e, k, cc h', cc h'))
  ]
]

committed :
    (deps : Deps) (d : Draws) (req : PlaceRequest) (customer : Customer) (q : Quote) (p : Plan)
    (option : PaymentOption) (w : World)
    → quote deps.sources w.orders d.quoted_at req.cart ≡ ok q
    → q.schedule ≡ some p
    → option_for q.payment_options req.method ≡ some option
    → Outcome deps d req customer w (
        commit deps d
          (new_order req d customer q p)
          (first_payment req d deps.provider (new_order req d customer q p) option)
          w)
unfolding commit new_order
committed deps d req customer q p option w eq ep eo =
    let o = new_order req d customer q p in
    let first = first_payment req d deps.provider o option in
    elim (Result-cases (place_tx d o first w)) [
      | inr (e, k) ↦ rw (k, commit) (refused deps d req customer w e)
      | inl ((id, v), k) ↦
          rw (k, commit)
            (elim (place_tx-Committed d o first w v id k) [
              | inl (twin, e, is_twin, same) ↦
                  rw (same, is_twin) (loaded deps d req customer w twin e)
              | inr (own, s) ↦ record {
                committed = v;
                change = inr (record {
                  quoted = q;
                  schedule = p;
                  option = option;
                  as_quoted = eq;
                  as_scheduled = ep;
                  as_offered = eo;
                  stored = s;
                });
                same = load-SameRows deps.provider d.invoiced_at id v;
                answer = inr (
                  record o { code = d.code s.draw },
                  rw s.rows (
                      find_last (has_key customer.id req.idempotency_key) w.orders
                        (record o { code = d.code s.draw }) s.key_free
                        (key_matches req d customer q p (d.code s.draw))),
                  rw own refl,
                );
              }
            ])
    ]

commit_quote-Outcome :
    (deps : Deps) (d : Draws) (req : PlaceRequest) (customer : Customer) (q : Quote) (w : World)
    → quote deps.sources w.orders d.quoted_at req.cart ≡ ok q
    → Outcome deps d req customer w (commit_quote deps d req customer q w)
unfolding commit_quote
commit_quote-Outcome deps d req customer q w eq =
    elim (Result-cases (order_from req d deps.provider customer q)) [
      | inr (e, k) ↦ rw (k, commit_quote) (refused deps d req customer w e)
      | inl ((o, first), k) ↦
          (let (p, option, ep, eo, same_order, same_payment) =
              order_from_lem req d deps.provider customer q o first k in
            rw (k, commit_quote)
              (rw (sym same_order, sym same_payment)
                (committed deps d req customer q p option w eq ep eo)))
    ]

place_as-Outcome :
    (deps : Deps) (d : Draws) (req : PlaceRequest) (customer : Customer) (w : World)
    → Outcome deps d req customer w (place_as deps d req customer w)
unfolding place_as place_new
place_as-Outcome deps d req customer w =
    elim (Option-cases (find (has_key customer.id req.idempotency_key) w.orders)) [
      | inr (o, e) ↦ rw (e, place_as) (loaded deps d req customer w o e)
      | inl n ↦ elim (Result-cases (quote deps.sources w.orders d.quoted_at req.cart)) [
        | inr (e, k) ↦ rw (n, place_as) (rw (k, place_new) (refused deps d req customer w e))
        | inl (q, k) ↦
            rw (n, place_as) (rw (k, place_new) (commit_quote-Outcome deps d req customer q w k))
      ]
    ]

-- A call that fails at once stores nothing; any other is a customer's.
pub place-Outcome :
    (deps : Deps) (d : Draws) (req : PlaceRequest) (w : World)
    → ((e : Error) × (place deps d req w ≡ (err e, w)))
      ⊎ ((customer : Customer) × (deps.ensure_customer req.customer d.now ≡ ok customer)
          × Outcome deps d req customer w (place deps d req w))
unfolding place
place-Outcome deps d req w = elim (Result-cases (place_fields req)) [
  | inr (e, k) ↦ inl (e, rw (k, place) refl)
  | inl (u, k) ↦ elim (Result-cases (deps.ensure_customer req.customer d.now)) [
    | inr (e, j) ↦ inl (e, rw (k, place) (rw (j, place) refl))
    | inl (customer, j) ↦
        inr (customer, j, rw (k, place) (rw (j, place) (place_as-Outcome deps d req customer w)))
  ]
]
