-- ===== src/Recipe/Quantity.antt =====
-- internal/recipe/quantity.go: the whole units of an ingredient that a component's units need.
use kue_preorder.Prelude.{ℤ, not, ◌||◌, if◌then◌else◌}
use kue_preorder.Prelude.Float.{Float, Floats, float_one, float_1e_minus_12, float_2_53}
use kue_preorder.Prelude.Result.{Result, ok, err, ◌>>=◌}
use kue_preorder.Recipe.Models.{Fault, invalid_result, invalid_waste_factor, Model, resolve}

pub data Rounding : Type 0 where
  round_nearest round_up : Rounding

module _ (F : Floats) where
  -- `floatNoise`.
  abbrev float_noise : Float → Float
  float_noise x = F.mul float_1e_minus_12 (F.max float_one (F.abs x))

  abbrev rounded : Rounding → Float → Float
  rounded round_nearest x = F.round x
  rounded round_up x = F.ceil (F.sub x (float_noise x))

  -- The amount as an integer, which a float64 up to 2^53 holds exactly.
  abbrev exact_amount : Float → Result Fault ℤ
  exact_amount r = if F.lt float_2_53 r then err invalid_result else ok (F.to_int r)

  -- `Quantity`.
  unfoldable pub quantity : Model → Float → Float → Rounding → Result Fault ℤ
  quantity m u waste_factor r =
      if not (F.is_finite waste_factor) || F.lt waste_factor float_one
      then err invalid_waste_factor
      else (do amount ← resolve F m u; exact_amount (rounded r (F.mul amount waste_factor)))
