-- ===== src/Orders/Automation/Awaited.antt =====
-- What the loop of `invoicer.ensure` (internal/orders/place.go) leaves to do at each row of the ledger.
use mathlib.Core.Path.{subst}
use kue_preorder.Prelude.{
  ℕ, ℤ, ◌≡◌, ◌⊎◌, ◌==◌, ◌&&◌, refl, sym, List, [], ◌∷◌, All, All-map, true, false, arith, inl, inr,
  Bool-cases, if◌then◌else◌,
}
use kue_preorder.Prelude.Text.{Text, is_empty}
use kue_preorder.Prelude.Result.{ok}
use kue_preorder.Payments.Ledger.{
  Payment, Ledger, pending, eqb_state, order_payments, put_invoice, set_invoice,
}
use kue_preorder.Orders.Checkout.Invoices.{lapsed, needs_none}

-- A payment that waits for no link: it is not open, it has a link, or it has lapsed.
abbrev pub IsLinked : ℤ → Payment → Type 0
IsLinked at p =
    (eqb_state p.state pending ≡ false)
    ⊎ (is_empty p.checkout_url ≡ false)
    ⊎ (lapsed p.expires_at at ≡ true)

IsLinked-needs_none : (at : ℤ) (p : Payment) → needs_none at p ≡ true → IsLinked at p
unfolding needs_none
IsLinked-needs_none at p t = ground (arith, t)

-- A row that the loop still has before it.
pub Awaits : Payment → List Payment → Type 0
Awaits q [] = ⊥
Awaits q (p ∷ ps) = (q ≡ p) ⊎ Awaits q ps

-- What holds of every row while the loop has `ps` before it.
abbrev pub IsHandled : ℤ → List Payment → Payment → Type 0
IsHandled at ps q = IsLinked at q ⊎ Awaits q ps

pub all_await : (at : ℤ) (ps : List Payment) → All (IsHandled at ps) ps
unfolding Awaits
all_await at [] = tt
all_await at (p ∷ ps) = (
  inr (inl refl),
  All-map (IsHandled at ps) (IsHandled at (p ∷ ps)) ps
      (λ q h. elim h [ inl l ↦ inl l | inr w ↦ inr (inr w) ]) (all_await at ps),
)

pub none_awaits :
    (at : ℤ) (rows : List Payment) → All (IsHandled at []) rows → All (IsLinked at) rows
unfolding Awaits
none_awaits at rows h =
    All-map (IsHandled at []) (IsLinked at) rows (λ q k. elim k [ inl l ↦ l | inr w ↦ absurd w ]) h

-- A payment that the loop passes over needs no link.
pub passed_over :
    (at : ℤ) (p : Payment) (ps rows : List Payment)
    → needs_none at p ≡ true
    → All (IsHandled at (p ∷ ps)) rows
    → All (IsHandled at ps) rows
unfolding Awaits
passed_over at p ps rows t h =
    All-map (IsHandled at (p ∷ ps)) (IsHandled at ps) rows
      (λ q k. elim k [
        | inl l ↦ inl l
        | inr w ↦ elim w [
          | inl same ↦ inl (subst (IsLinked at) (sym same) (IsLinked-needs_none at p t))
          | inr later ↦ inr later
        ]
      ])
      h

All-put_invoice :
    (P Q : Payment → Type 0) (id : ℕ) (external url : Text) (rows : List Payment)
    → ((q : Payment)
        → P q
        → Q (
            if q.id == id && eqb_state q.state pending
            then record q { external_id = external; checkout_url = url }
            else q))
    → All P rows
    → All Q (put_invoice id external url rows)
unfolding put_invoice
All-put_invoice P Q id external url [] f h = tt
All-put_invoice P Q id external url (q ∷ qs) f h =
    (f q h.0, All-put_invoice P Q id external url qs f h.1)

is_open :
    (at : ℤ) (p : Payment)
    → needs_none at p ≡ false
    → p.id == p.id && eqb_state p.state pending ≡ true
unfolding needs_none
is_open at p f = ground (arith, f)

-- A payment that gets its invoice is linked.
pub linked_now :
    (at : ℤ) (p : Payment) (ps rows : List Payment) (external url : Text)
    → needs_none at p ≡ false
    → is_empty url ≡ false
    → All (IsHandled at (p ∷ ps)) rows
    → All (IsHandled at ps) (put_invoice p.id external url rows)
unfolding Awaits
linked_now at p ps rows external url f u h =
    All-put_invoice (IsHandled at (p ∷ ps)) (IsHandled at ps) p.id external url rows
      (λ q k. elim (Bool-cases (q.id == p.id && eqb_state q.state pending)) [
        | inl t ↦ rw t (inl (inr (inl u)))
        | inr g ↦ rw g (elim k [
          | inl l ↦ inl l
          | inr w ↦ elim w [
            | inl same ↦
                (let now : p.id == p.id && eqb_state p.state pending ≡ false =
                    subst (λ x. x.id == p.id && eqb_state x.state pending ≡ false) same g in
                  let opened : p.id == p.id && eqb_state p.state pending ≡ true = is_open at p f in
                  cc)
            | inr later ↦ inr later
          ]
        ])
      ])
      h

pub order_payments-put_invoice :
    (o id : ℕ) (external url : Text) (l : Ledger)
    → order_payments o (put_invoice id external url l)
      ≡ put_invoice id external url (order_payments o l)
unfolding order_payments put_invoice
order_payments-put_invoice o id external url [] = refl
order_payments-put_invoice o id external url (p ∷ l) =
    ground (arith, order_payments-put_invoice o id external url l)

pub set_invoice_row :
    (id : ℕ) (external url : Text) (l l' : Ledger)
    → set_invoice id external url l ≡ ok l'
    → l' ≡ put_invoice id external url l
unfolding set_invoice
set_invoice_row id external url l l' e = ground arith
