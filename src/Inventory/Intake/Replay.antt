-- ===== src/Inventory/Intake/Replay.antt =====
-- A delivery that is sent again.
use mathlib.Core.Path.{subst}
use kue_preorder.Prelude.{
  ℕ, ℤ, ◌≡◌, ◌≢◌, ◌∙◌, refl, sym, ap, true, List, [], ◌∷◌, ◌++◌, none, some, arith, inl, inr,
  Option-cases,
}
use kue_preorder.Prelude.Text.{Text, eqb_text}
use kue_preorder.Prelude.Result.{Result, ok}
use kue_preorder.Platform.Errors.{Result-cases, Error, check-eq-nil, fields_err, fields_err-eq-ok}
use kue_preorder.Platform.Caller.{Principal, authorize}
use kue_preorder.Inventory.Stock.{Lot, Stock, Request, RequestKind, receive_stock}
use kue_preorder.Inventory.Requests.{request_in, same_request, retried, claim, get_lot}
use kue_preorder.Inventory.Intake.{
  Ingredient, Ingredients, ReceiveInput, intake, receive_fields, receive_tx, receive_new,
  receive_as, receive, trimmed, staff,
}

eqb_text_refl : (t : Text) → eqb_text t t ≡ true
unfolding eqb_text
eqb_text_refl [] = refl
eqb_text_refl (c ∷ t) = ground (arith, eqb_text_refl t)

request_in-append :
    (kind : RequestKind) (key : ℕ) (rs : List Request) (r : Request)
    → request_in kind key rs ≡ none
    → r.kind ≡ kind
    → r.key ≡ key
    → request_in kind key (rs ++ r ∷ []) ≡ some r
unfolding request_in
request_in-append kind key [] r h k e = ground arith
request_in-append kind key (q ∷ rs) r h k e = ground (arith, request_in-append kind key rs r)

-- The stock remembers that a delivery sent as `body` made the lot `id`.
pub record Remembers (s : Stock) (key : ℕ) (body : Text) (actor id : ℕ) : Type 0 where
  pub request : Request
  pub held : request_in receive_stock key s.requests ≡ some request
  pub same_body : request.body ≡ body
  pub same_actor : request.actor_id ≡ actor
  pub same_id : request.result_id ≡ id

retried_found :
    (s : Stock) (key : ℕ) (body : Text) (actor id : ℕ) (m : Remembers s key body actor id)
    → key ≢ 0
    → retried receive_stock key body actor s ≡ ok (some m.request)
unfolding retried same_request
retried_found s key body actor id m n =
    let b : eqb_text m.request.body body ≡ true = rw m.same_body (eqb_text_refl body) in
    ground (arith, b, m.held, m.same_actor)

-- A stock that remembers answers with the lot, and nothing changes.
remembered :
    (marshal : ReceiveInput → Text) (ingredients : Ingredients) (p : Principal) (i : ReceiveInput)
    (fresh : ℕ) (now : ℤ) (s : Stock) (id : ℕ)
    → i.idempotency_key ≢ 0
    → Remembers s i.idempotency_key (marshal i) p.auth_user_id id
    → receive_as marshal ingredients p i fresh now s ≡ (get_lot id s, s)
unfolding receive_as
remembered marshal ingredients p i fresh now s id n m =
    rw (retried_found s i.idempotency_key (marshal i) p.auth_user_id id m n, m.same_id, receive_as)
      refl

claim_new :
    (r : Request) (s : Stock)
    → request_in r.kind r.key s.requests ≡ none
    → claim r s ≡ ok (none, record s { requests = s.requests ++ r ∷ [] })
unfolding claim
claim_new r s h = rw (h, claim) refl

intake-requests :
    (ing : Ingredient) (l : Lot) (qty : ℤ) (actor : ℕ) (now : ℤ) (s : Stock)
    → (intake ing l qty actor now s).requests ≡ s.requests
unfolding intake
intake-requests ing l qty actor now s = ground arith

ok_pair :
    {A B : Type 0} (a : A) (b : B) (c : A) (d : B)
    → Path (Result Error (A × B)) (ok (a, b)) (ok (c, d))
    → (a ≡ c) × (b ≡ d)
ok_pair a b c d h = (cc, cc)

receive_tx_lem :
    (r : Request) (ing : Ingredient) (i : ReceiveInput) (now : ℤ) (s s' : Stock) (id : ℕ)
    → r.kind ≡ receive_stock
    → request_in receive_stock r.key s.requests ≡ none
    → receive_tx r ing i now s ≡ ok (id, s')
    → Remembers s' r.key r.body r.actor_id id
unfolding receive_tx
receive_tx_lem r ing i now s s' id k n h =
    let s1 : Stock = record s { requests = s.requests ++ r ∷ [] } in
    let h1 = rw (claim_new r s (rw k n), receive_tx) at h in
    let (same_id, same) = ok_pair _ _ id s' h1 in
    let requests =
      sym (ap (λ x. x.requests) same) ∙ intake-requests ing _ i.qty r.actor_id now s1 in
    record {
      request = r;
      held = rw requests (request_in-append receive_stock r.key s.requests r n k refl);
      same_body = refl;
      same_actor = refl;
      same_id = same_id;
    }

key_given :
    (ingredients : Ingredients) (i : ReceiveInput) (now : ℤ) {u : Unit {0}}
    → fields_err (receive_fields ingredients i now) ≡ ok u
    → i.idempotency_key ≢ 0
unfolding receive_fields
key_given ingredients i now h =
    let c1 = check-eq-nil _ "note" _ (fields_err-eq-ok _ h) in
    let c2 = check-eq-nil _ "expires_at" _ c1.1 in
    let c3 = check-eq-nil _ "received_at" _ c2.1 in
    let c4 = check-eq-nil _ "received_at" _ c3.1 in
    let c5 = check-eq-nil _ "qty" _ c4.1 in
    let c6 = check-eq-nil _ "ingredient_id" _ c5.1 in
    let c7 = check-eq-nil _ "idempotency_key" [] c6.1 in ground (arith, c7.0)

not_held :
    (key : ℕ) (body : Text) (actor : ℕ) (s : Stock)
    → retried receive_stock key body actor s ≡ ok none
    → key ≢ 0
    → request_in receive_stock key s.requests ≡ none
unfolding retried same_request
not_held key body actor s h n = elim (Option-cases (request_in receive_stock key s.requests)) [
  | inl e ↦ e
  | inr (r, e) ↦ absurd (ground (arith, h, n, e))
]

-- A new delivery that succeeds is remembered, under the lot that it returns.
receive_new_lem :
    (ingredients : Ingredients) (p : Principal) (i : ReceiveInput) (body : Text) (fresh : ℕ)
    (now : ℤ) (s s1 : Stock) (lot : Lot)
    → receive_new ingredients p i body fresh now s ≡ (ok lot, s1)
    → retried receive_stock i.idempotency_key body p.auth_user_id s ≡ ok none
    → (i.idempotency_key ≢ 0)
      × ((id : ℕ) × Remembers s1 i.idempotency_key body p.auth_user_id id
          × (get_lot id s1 ≡ ok lot))
unfolding receive_new
receive_new_lem ingredients p i body fresh now s s1 lot h none_yet =
    elim (Result-cases (fields_err (receive_fields ingredients i now))) [
      | inr (x, e) ↦ cc (rw (e, receive_new) at h)
      | inl (u, e) ↦
          (let n = key_given ingredients i now e in
            elim (Option-cases (ingredients i.ingredient_id)) [
              | inl k ↦ cc (rw (e, k, receive_new) at h)
              | inr (ing, k) ↦
                  (let r : Request = record {
                    kind = receive_stock;
                    key = i.idempotency_key;
                    body = body;
                    result_id = fresh;
                    actor_id = p.auth_user_id;
                    at = now;
                  } in
                    let h1 = rw (e, k, receive_new) at h in
                    elim (Result-cases (receive_tx r ing i now s)) [
                      | inr (x, t) ↦ cc (rw t at h1)
                      | inl ((id, s'), t) ↦
                          (let h2 = rw t at h1 in
                            let m =
                              receive_tx_lem r ing i now s s' id refl
                                (not_held i.idempotency_key body p.auth_user_id s none_yet n) t in
                            let same : s' ≡ s1 = ap (λ x. x.1) h2 in
                            (
                              n,
                              (
                                id,
                                subst (λ x. Remembers x i.idempotency_key body p.auth_user_id id)
                                    same m,
                                subst (λ x. get_lot id x ≡ ok lot) same (ap (λ x. x.0) h2),
                              ),
                            ))
                    ])
            ])
    ]

receive_as_again :
    (marshal : ReceiveInput → Text) (ingredients new : Ingredients) (p : Principal)
    (i : ReceiveInput) (fresh again : ℕ) (now later : ℤ) (s s1 : Stock) (lot : Lot)
    → receive_as marshal ingredients p i fresh now s ≡ (ok lot, s1)
    → receive_as marshal new p i again later s1 ≡ (ok lot, s1)
unfolding receive_as
receive_as_again marshal ingredients new p i fresh again now later s s1 lot h =
    elim (Result-cases (retried receive_stock i.idempotency_key (marshal i) p.auth_user_id s)) [
      | inr (x, e) ↦ cc (rw (e, receive_as) at h)
      | inl (some first, e) ↦
          (let h1 = rw (e, receive_as) at h in
            let same : s ≡ s1 = ap (λ x. x.1) h1 in
            subst (λ x. receive_as marshal new p i again later x ≡ (ok lot, s1)) same
              (rw (e, receive_as) h1))
      | inl (none, e) ↦
          (let (n, (id, m, got)) =
              receive_new_lem ingredients p i (marshal i) fresh now s s1 lot
                (rw (e, receive_as) at h) e in
            remembered marshal new p i again later s1 id n m ∙ rw got refl)
    ]

-- A delivery that was recorded, sent again by the same person with the same fields and key: whatever
-- the time and the catalog then are, the call returns the same lot and the stock stays as it is.
pub receive_again :
    (marshal : ReceiveInput → Text) (ingredients new : Ingredients)
    (caller : Result Error Principal) (i : ReceiveInput) (fresh again : ℕ) (now later : ℤ)
    (s s1 : Stock) (lot : Lot)
    → receive marshal ingredients caller i fresh now s ≡ (ok lot, s1)
    → receive marshal new caller i again later s1 ≡ (ok lot, s1)
unfolding receive
receive_again marshal ingredients new caller i fresh again now later s s1 lot h =
    elim (Result-cases (authorize caller staff)) [
      | inr (x, e) ↦ cc (rw (e, receive) at h)
      | inl (p, e) ↦
          rw (e, receive)
            (receive_as_again marshal ingredients new p (trimmed i) fresh again now later s s1 lot
              (rw (e, receive) at h))
    ]
