-- ===== src/Recipe/Models.antt =====
-- internal/recipe/recipe.go, models.go and validate.go: the models of a recipe line, evaluated in float64. A
-- formula is the function that the expression library compiles it to.
pub mod Accepted
use kue_preorder.Prelude.{
  ℕ, zero, suc, leb, Bool, true, not, ◌&&◌, ◌||◌, Option, none, some, List, [], ◌∷◌, length,
  if◌then◌else◌, pos,
}
use kue_preorder.Prelude.Float.{Float, Floats, float_zero, float_one, float_1e_minus_9, float_half}
use kue_preorder.Prelude.Text.{Text, trim_space, is_empty, byte_length}
use kue_preorder.Prelude.Result.{Result, ok, err, ◌>>=◌}

-- The sentinel errors of the package.
pub data Fault : Type 0 where
  invalid_params invalid_units invalid_result decreasing invalid_waste_factor : Fault

pub record Point : Type 0 where
  pub u : Float
  pub amount : Float

-- The piecewise points without the implicit (0, 0).
pub data Model : Type 0 where
  affine : Float → Float → Model
  power : Float → Float → Model
  piecewise : List Point → Model
  formula : Text → (Float → Result Fault Float) → Model

abbrev pub max_points : ℕ
max_points = 100

abbrev pub max_formula_len : ℕ
max_formula_len = 500

abbrev pub validate_steps : ℕ
validate_steps = 200

module _ (F : Floats) where
  -- `isFinite(v) && v >= 0`.
  abbrev pub is_amount : Float → Bool
  is_amount v = F.is_finite v && not (F.lt v float_zero)

  -- `evaluate`.
  unfoldable pub evaluate : Float → (Float → Result Fault Float) → Result Fault Float
  evaluate u f =
      if not (is_amount u)
      then err invalid_units
      else if F.eq u float_zero
      then ok float_zero
      else (do v ← f u; if is_amount v then ok v else err invalid_result)

  -- The segment that holds `u`, or the last one; `lo` is where it begins.
  unfoldable pub segment : Float → Point → Point → List Point → Point × Point
  segment u lo hi [] = (lo, hi)
  segment u lo hi (p ∷ ps) = let rest = segment u hi p ps in if F.lt hi.u u then rest else (lo, hi)

  abbrev origin : Point
  origin = record { u = float_zero; amount = float_zero }

  abbrev interpolate : Float → Point → Point → Float
  interpolate u lo hi =
      F.add lo.amount (F.mul (F.div (F.sub hi.amount lo.amount) (F.sub hi.u lo.u)) (F.sub u lo.u))

  unfoldable pub at_points : List Point → Float → Result Fault Float
  unfolding segment
  at_points [] u = err invalid_params
  at_points (p ∷ ps) u = let (lo, hi) = segment u origin p ps in ok (interpolate u lo hi)

  -- `Resolve`.
  unfoldable pub resolve : Model → Float → Result Fault Float
  unfolding evaluate at_points
  resolve (affine a b) u = evaluate u (λ x. ok (F.add a (F.mul b x)))
  resolve (power a b) u = evaluate u (λ x. ok (F.mul a (F.pow x b)))
  resolve (piecewise ps) u = evaluate u (at_points ps)
  resolve (formula e f) u = evaluate u f

  -- `nonNegative` of both parameters.
  abbrev both_amounts : Float → Float → Model → Result Fault Model
  both_amounts a b m = if is_amount a && is_amount b then ok m else err invalid_params

  unfoldable pub new_affine : Float → Float → Result Fault Model
  new_affine a b = both_amounts a b (affine a b)

  unfoldable pub new_power : Float → Float → Result Fault Model
  new_power a b = both_amounts a b (power a b)

  -- The loop of `NewPiecewise`: the units increase and the amounts do not decrease.
  unfoldable pub increasing : Point → List Point → Bool
  increasing prev [] = true
  increasing prev (p ∷ ps) =
      let rest = increasing p ps in
      F.is_finite p.u
      && F.is_finite p.amount
      && F.lt prev.u p.u
      && not (F.lt p.amount prev.amount)
      && rest

  unfoldable pub new_piecewise : List Point → Result Fault Model
  unfolding increasing
  new_piecewise [] = err invalid_params
  new_piecewise (p ∷ ps) =
      if leb (length (p ∷ ps)) max_points && increasing origin (p ∷ ps)
      then ok (piecewise (p ∷ ps))
      else err invalid_params

  -- `NewFormula`; `compile` is that of the expression library.
  unfoldable pub new_formula :
      (Text → Option (Float → Result Fault Float)) → Text → Result Fault Model
  new_formula compile expression =
      let e = trim_space expression in
      if is_empty e || not (leb (byte_length e) max_formula_len)
      then err invalid_params
      else elim (compile e) [ none ↦ err invalid_params | some f ↦ ok (formula e f) ]

  -- `slack`.
  abbrev slack : Float → Float
  slack x = F.mul float_1e_minus_9 (F.max float_one (F.abs x))

  -- The loop of `Validate`, with the rounds left, the round and the amount before.
  unfoldable pub validate_from : Model → ℕ → ℕ → Float → Result Fault (Unit {0})
  unfolding resolve
  validate_from m zero i prev = ok tt
  validate_from m (suc n) i prev = elim (resolve m (F.mul (F.of_int (pos i)) float_half)) [
    | err e ↦ err e
    | ok v ↦
        let rest = validate_from m n (suc i) v in
        if F.lt v (F.sub prev (slack prev)) then err decreasing else rest
  ]

  -- `Validate`.
  unfoldable pub validate : Model → Result Fault (Unit {0})
  unfolding validate_from
  validate m = validate_from m validate_steps 1 float_zero
