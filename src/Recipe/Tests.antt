-- ===== src/Recipe/Tests.antt =====
-- The theorem on the models of a recipe at a concrete one: 10 g and 2 g for each unit.
use kue_preorder.Prelude.{◌↔◌, ◌<◌, ℕ, ◌≡◌, refl}
use kue_preorder.Prelude.Float.Sample.{floats}
use kue_preorder.Prelude.Result.{ok}
use kue_preorder.Recipe.Models.{affine, validate}
use kue_preorder.Recipe.Models.Accepted.{Rises, validate_iff}

validate_iff_example :
    (validate floats (affine 10 2) ≡ ok tt) ↔ ((i : ℕ) → i < 200 → Rises floats (affine 10 2) i)
validate_iff_example = validate_iff floats (affine 10 2)

-- The model is accepted.
validate_test : validate floats (affine 10 2) ≡ ok tt
unfolding validate
validate_test = refl
