-- ===== src/Orders/Automation/Keeps.antt =====
-- Two states of the orders table row by row, and what a write to one order makes of it.
use mathlib.Core.Path.{subst}
use kue_preorder.Prelude.{ℕ, ◌≡◌, ◌≢◌, sym, List, [], ◌∷◌, All, some, Bool, inl, inr, Bool-cases}
use kue_preorder.Payments.Status.{Status as PaymentStatus}
use kue_preorder.Orders.Lifecycle.{Status}
use kue_preorder.Orders.Store.{Order, find, set_status_in}
use kue_preorder.Orders.Sound.Rows.{HasDistinctIds, written, written_self, written_ne, found_apart}

-- The same rows in the same places, each before and after related.
abbrev pub RowByRow : (Order → Order → Type 0) → List Order → List Order → Type 0
RowByRow R [] [] = Unit
RowByRow R (o ∷ os) (p ∷ ps) = R o p × RowByRow R os ps
RowByRow R _ _ = ⊥

module _ (R : Order → Order → Type 0) where
  pub RowByRow-refl : ((o : Order) → R o o) → (os : List Order) → RowByRow R os os
  RowByRow-refl r [] = tt
  RowByRow-refl r (o ∷ os) = (r o, RowByRow-refl r os)

  pub RowByRow-trans :
      ((o p q : Order) → R o p → R p q → R o q)
      → (os ps qs : List Order) → RowByRow R os ps
      → RowByRow R ps qs
      → RowByRow R os qs
  RowByRow-trans t [] [] [] h k = tt
  RowByRow-trans t (o ∷ os) (p ∷ ps) (q ∷ qs) h k =
      (t o p q h.0 k.0, RowByRow-trans t os ps qs h.1 k.1)
  RowByRow-trans t [] [] (q ∷ qs) h k = absurd k
  RowByRow-trans t [] (p ∷ ps) qs h k = absurd h
  RowByRow-trans t (o ∷ os) [] qs h k = absurd h
  RowByRow-trans t (o ∷ os) (p ∷ ps) [] h k = absurd k

  untouched :
      ((o : Order) → R o o)
      → (id : ℕ) (s : Status) (p : PaymentStatus) (os : List Order) → All (λ q. q.id ≢ id) os
      → RowByRow R os (set_status_in id s p os)
  unfolding set_status_in
  untouched r id s p [] h = tt
  untouched r id s p (o ∷ os) h =
      (subst (R o) (sym (written_ne id s p o h.0)) (r o), untouched r id s p os h.1)

  pub set_status_in-RowByRow :
      ((o : Order) → R o o)
      → (test : Order → Bool) (s : Status) (p : PaymentStatus) (os : List Order) (o : Order)
      → find test os ≡ some o
      → HasDistinctIds os
      → R o (record o { status = s; payment = p })
      → RowByRow R os (set_status_in o.id s p os)
  unfolding find set_status_in
  set_status_in-RowByRow r test s p [] o e d new = cc
  set_status_in-RowByRow r test s p (q ∷ os) o e d new = elim (Bool-cases (test q)) [
    | inl t ↦
        (let same : q ≡ o = cc (rw t at e) in
          (
            subst (λ x. R x (written o.id s p x)) (sym same)
                (subst (R o) (sym (written_self s p o)) new),
            untouched r o.id s p os (subst (λ y. All (λ x. x.id ≢ y.id) os) same d.0),
          ))
    | inr f ↦
        (let e' : find test os ≡ some o = rw f at e in
          (
            subst (R q) (sym (written_ne o.id s p q (found_apart test q os o e' d.0))) (r q),
            set_status_in-RowByRow r test s p os o e' d.1 new,
          ))
  ]
