-- ===== src/Recipe/Models/Accepted.antt =====
-- What `Validate` of internal/recipe/validate.go accepts.
use kue_preorder.Prelude.{
  ◌↔◌, ℕ, zero, suc, ◌+◌, ◌<◌, pos, ◌≡◌, refl, sym, ap, ◌∙◌, ◌⊎◌, true, false, not, arith, inl, inr,
  Bool-cases,
}
use kue_preorder.Prelude.Float.{Float, Floats, float_zero, float_half}
use kue_preorder.Prelude.Result.{Result, ok, err, bind_ok, ok_eq}
use mathlib.Core.Path.{subst}
use kue_preorder.Recipe.Models.{
  affine, power, piecewise, formula, Fault, is_amount, Model, evaluate, at_points, resolve, slack,
  validate_from, validate,
}

+-suc : (k i : ℕ) → k + suc i ≡ suc k + i
+-suc k i = omega arith

zero_plus : (k : ℕ) → 0 + k ≡ k
zero_plus k = omega arith

plus_zero : (k : ℕ) → k + 0 ≡ k
plus_zero k = omega arith

resolved : (r : Result Fault Float) → ((v : Float) × (r ≡ ok v)) ⊎ ((e : Fault) × (r ≡ err e))
resolved (ok v) = inl (v, refl)
resolved (err e) = inr (e, refl)

module _ (F : Floats) where
  -- The units of a round.
  abbrev pub units_at : ℕ → Float
  units_at i = F.mul (F.of_int (pos i)) float_half

  -- The amount after `i` rounds.
  abbrev pub amount_at : Model → ℕ → Result Fault Float
  amount_at m zero = ok float_zero
  amount_at m (suc i) = resolve F m (units_at (suc i))

  -- An amount is at least the one before, up to the noise.
  pub record Rises (m : Model) (i : ℕ) : Type 0 where
    pub prev : Float
    pub next : Float
    pub had : amount_at m i ≡ ok prev
    pub has : amount_at m (suc i) ≡ ok next
    pub no_dip : F.lt next (F.sub prev (slack F prev)) ≡ false
    pub amount : (next ≡ float_zero) ⊎ (is_amount F next ≡ true)

  evaluate-amount :
      (u v : Float) (f : Float → Result Fault Float)
      → evaluate F u f ≡ ok v
      → (v ≡ float_zero) ⊎ (is_amount F v ≡ true)
  unfolding evaluate
  evaluate-amount u v f e = elim (Bool-cases (not (is_amount F u))) [
    | inl t ↦ cc (rw t at e)
    | inr k ↦ elim (Bool-cases (F.eq u float_zero)) [
      | inl z ↦ inl (sym (ok_eq float_zero v (rw (k, z) at e)))
      | inr n ↦
          let (x, _, e') = bind_ok (f u) _ v (rw (k, n) at e) in
          elim (Bool-cases (is_amount F x)) [
            | inl y ↦ inr (ap (is_amount F) (sym (ok_eq x v (rw y at e'))) ∙ y)
            | inr w ↦ cc (rw w at e')
          ]
    ]
  ]

  resolve-amount :
      (m : Model) (u v : Float) → resolve F m u ≡ ok v → (v ≡ float_zero) ⊎ (is_amount F v ≡ true)
  unfolding resolve
  resolve-amount (affine a b) u v e = evaluate-amount u v (λ x. ok (F.add a (F.mul b x))) e
  resolve-amount (power a b) u v e = evaluate-amount u v (λ x. ok (F.mul a (F.pow x b))) e
  resolve-amount (piecewise ps) u v e = evaluate-amount u v (at_points F ps) e
  resolve-amount (formula t f) u v e = evaluate-amount u v f e

  one_round :
      (m : Model) (n i : ℕ) (prev : Float)
      → validate_from F m (suc n) (suc i) prev ≡ ok tt
      → (v : Float) × (amount_at m (suc i) ≡ ok v)
        × (F.lt v (F.sub prev (slack F prev)) ≡ false)
        × (validate_from F m n (suc (suc i)) v ≡ ok tt)
  unfolding validate_from
  one_round m n i prev e = elim (resolved (amount_at m (suc i))) [
    | inr (x, q) ↦ cc (rw (q, validate_from) at e)
    | inl (v, q) ↦ elim (Bool-cases (F.lt v (F.sub prev (slack F prev)))) [
      | inl t ↦ cc (rw (q, t, validate_from) at e)
      | inr f ↦ (v, q, f, rw (q, f, validate_from) at e)
    ]
  ]

  validate_from-Rises :
      (m : Model) (n i : ℕ) (prev : Float)
      → validate_from F m n (suc i) prev ≡ ok tt
      → amount_at m i ≡ ok prev
      → (k : ℕ) → k < n
      → Rises m (k + i)
  validate_from-Rises m zero i prev e h k l = absurd (omega (arith, l))
  validate_from-Rises m (suc n) i prev e h zero l =
      let (v, q, f, r) = one_round m n i prev e in
      subst (Rises m) (sym (zero_plus i)) (record {
        prev = prev;
        next = v;
        had = h;
        has = q;
        no_dip = f;
        amount = resolve-amount m (units_at (suc i)) v q;
      })
  validate_from-Rises m (suc n) i prev e h (suc k) l =
      let (v, q, f, r) = one_round m n i prev e in
      subst (Rises m) (+-suc k i) (validate_from-Rises m n (suc i) v r q k (omega (arith, l)))

  Rises-validate_from :
      (m : Model) (n i : ℕ) (prev : Float)
      → ((k : ℕ) → k < n → Rises m (k + i))
      → amount_at m i ≡ ok prev
      → validate_from F m n (suc i) prev ≡ ok tt
  unfolding validate_from
  Rises-validate_from m zero i prev r h = refl
  Rises-validate_from m (suc n) i prev r h =
      let here = subst (Rises m) (zero_plus i) (r 0 (omega arith)) in
      let same = ok_eq here.prev prev (sym here.had ∙ h) in
      rw
        (
          here.has,
          subst (λ p. F.lt here.next (F.sub p (slack F p)) ≡ false) same here.no_dip,
          validate_from,
        )
        (Rises-validate_from m n (suc i) here.next
          (λ k l. subst (Rises m) (sym (+-suc k i)) (r (suc k) (omega (arith, l)))) here.has)

-- Validate accepts a model exactly if it resolves at each of the 200 steps up to 100 units, to nothing or to a
-- finite amount of at least nothing, which is no smaller than the one before but for the noise. The
-- arithmetic on float64 is any.
pub validate_iff :
    (F : Floats) (m : Model) → (validate F m ≡ ok tt) ↔ ((i : ℕ) → i < 200 → Rises F m i)
unfolding validate
validate_iff F m = (
  λ e i l. subst (Rises F m) (plus_zero i) (validate_from-Rises F m 200 0 float_zero e refl i l),
  λ r.
      Rises-validate_from F m 200 0 float_zero
        (λ k l. subst (Rises F m) (sym (plus_zero k)) (r k l)) refl,
)
