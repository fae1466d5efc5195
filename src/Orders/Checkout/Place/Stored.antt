-- ===== src/Orders/Checkout/Place/Stored.antt =====
-- What the transaction of `Place` stores.
use mathlib.Core.Path.{subst}
use kue_preorder.Prelude.{
  ℕ, zero, suc, ◌+◌, ◌<◌, leb, ℤ, ◌≡◌, ◌∙◌, sym, true, false, [], ◌∷◌, ◌++◌, contains_func, some,
  none, inl, inr, ◌⊎◌, Bool-cases, Option-cases, arith,
}
use kue_preorder.Prelude.Text.{Text}
use kue_preorder.Prelude.Result.{ok}
use kue_preorder.Platform.Errors.{Result-cases}
use kue_preorder.Payments.Ledger.{Payment, add_pending}
use kue_preorder.Orders.Lifecycle.{awaiting_dp}
use kue_preorder.Orders.Store.{Order, World, ◌>>=◌, find, has_code, has_id}
use kue_preorder.Orders.Sound.Actions.{bind_ok}
use kue_preorder.Orders.Checkout.Place.{
  Draws, max_awaiting_dp, code_attempts, has_key, count_by_status, insert_order, insert_within,
  on_ledger_add_pending, place_fresh, place_tx,
}

-- The order stored: the one given, under the code that is free.
pub record Inserted (code : ℕ → Text) (o : Order) (w v : World) : Type 0 where
  pub draw : ℕ
  pub rows : v.orders ≡ w.orders ++ record o { code = code draw } ∷ []
  pub ledger : v.ledger ≡ w.ledger
  pub code_free : contains_func (has_code (code draw)) w.orders ≡ false
  pub id_free : contains_func (has_id o.id) w.orders ≡ false

insert_order_taken :
    (o : Order) (at : ℤ) (w v : World) → insert_order o at w ≡ ok (false, v) → w ≡ v
unfolding insert_order
insert_order_taken o at w v h = ground arith

insert_order_stored :
    (o : Order) (at : ℤ) (w v : World)
    → insert_order o at w ≡ ok (true, v)
    → (v.orders ≡ w.orders ++ o ∷ [])
      × (v.ledger ≡ w.ledger)
      × (contains_func (has_code o.code) w.orders ≡ false)
      × (contains_func (has_id o.id) w.orders ≡ false)
unfolding insert_order
insert_order_stored o at w v h = (ground arith, ground arith, ground arith, ground arith)

insert_within-Inserted :
    (n : ℕ) (code : ℕ → Text) (i : ℕ) (o : Order) (at : ℤ) (w v : World) {u : Unit {0}}
    → insert_within n code i o at w ≡ ok (u, v)
    → Inserted code o w v
unfolding insert_within
insert_within-Inserted zero code i o at w v h = cc
insert_within-Inserted (suc n) code i o at w v h =
    elim (Result-cases (insert_order (record o { code = code i }) at w)) [
      | inr (e, k) ↦ cc (rw (k, ◌>>=◌) at h)
      | inl ((true, x), k) ↦
          (let same : x ≡ v = cc (rw (k, ◌>>=◌) at h) in
            let (rows, ledger, code_free, id_free) = insert_order_stored _ at w x k in
            subst (Inserted code o w) same (record {
              draw = i;
              rows = rows;
              ledger = ledger;
              code_free = code_free;
              id_free = id_free;
            }))
      | inl ((false, x), k) ↦
          (let same = insert_order_taken _ at w x k in
            subst (λ y. Inserted code o y v) (sym same)
              (insert_within-Inserted n code (i + 1) o at x v (rw (k, ◌>>=◌) at h)))
    ]

on_ledger_add_pending_lem :
    (p : Payment) (at : ℤ) (w v : World) {u : Unit {0}}
    → on_ledger_add_pending p at w ≡ ok (u, v)
    → (v.orders ≡ w.orders) × (add_pending p at w.ledger ≡ ok v.ledger)
on_ledger_add_pending_lem p at w v h = elim (Result-cases (add_pending p at w.ledger)) [
  | inl (l, e) ↦ (ground (arith, e), ground (arith, e))
  | inr (x, e) ↦ cc (rw (e, on_ledger_add_pending) at h)
]

-- The order as it is stored, with its first payment.
pub record IsStored (d : Draws) (o : Order) (first : Payment) (w v : World) : Type 0 where
  pub draw : ℕ
  pub key_free : find (has_key o.customer_id o.idempotency_key) w.orders ≡ none
  pub few_waiting : count_by_status o.customer_id awaiting_dp w.orders < max_awaiting_dp
  pub rows : v.orders ≡ w.orders ++ record o { code = d.code draw } ∷ []
  pub pending : add_pending first d.now w.ledger ≡ ok v.ledger
  pub code_free : contains_func (has_code (d.code draw)) w.orders ≡ false
  pub id_free : contains_func (has_id o.id) w.orders ≡ false

-- The transaction finds the order that a twin has placed, or stores this one.
abbrev pub Committed : Draws → Order → Payment → World → ℕ → World → Type 0
Committed d o first w id v =
    ((twin : Order) × (find (has_key o.customer_id o.idempotency_key) w.orders ≡ some twin)
      × (id ≡ twin.id)
      × (v ≡ w))
    ⊎ ((id ≡ o.id) × IsStored d o first w v)

stored :
    (d : Draws) (o : Order) (first : Payment) (w v : World) (id : ℕ)
    → find (has_key o.customer_id o.idempotency_key) w.orders ≡ none
    → leb max_awaiting_dp (count_by_status o.customer_id awaiting_dp w.orders) ≡ false
    → place_fresh d o first w ≡ ok (id, v)
    → Committed d o first w id v
unfolding place_fresh
stored d o first w v id free few h =
    let (x, ex, h1) = bind_ok (insert_within code_attempts d.code 0 o d.now) _ w (rw few at h) in
    let (y, ey, h2) = bind_ok (on_ledger_add_pending first d.now) _ x h1 in
    let i = insert_within-Inserted code_attempts d.code 0 o d.now w x ex in
    let (rows, pending) = on_ledger_add_pending_lem first d.now x y ey in
    let same : y ≡ v = cc in
    inr (
      cc,
      record {
        draw = i.draw;
        key_free = free;
        few_waiting = ground (arith, few);
        rows = rw (sym same) (rows ∙ i.rows);
        pending = rw (sym same) (rw (i.ledger) at pending);
        code_free = i.code_free;
        id_free = i.id_free;
      },
    )

pub place_tx-Committed :
    (d : Draws) (o : Order) (first : Payment) (w v : World) (id : ℕ)
    → place_tx d o first w ≡ ok (id, v)
    → Committed d o first w id v
unfolding place_tx
place_tx-Committed d o first w v id h =
    elim (Option-cases (find (has_key o.customer_id o.idempotency_key) w.orders)) [
      | inl free ↦
          elim (Bool-cases
            (leb max_awaiting_dp (count_by_status o.customer_id awaiting_dp w.orders))) [
              | inl many ↦ cc (rw (many, place_fresh) at (rw (free, place_tx) at h))
              | inr few ↦ stored d o first w v id free few (rw (free, place_tx) at h)
            ]
      | inr (twin, e) ↦ inl (twin, e, cc (rw (e, place_tx) at h), cc (rw (e, place_tx) at h))
    ]
