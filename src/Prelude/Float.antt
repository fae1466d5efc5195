-- ===== src/Prelude/Float.antt =====
-- Go's float64 by the 64 bits of a number (`math.Float64bits`). What the processor and the package math
-- compute on them is a parameter, the record `Floats`.
pub mod Sample
use kue_preorder.Prelude.Int.{ℤ}
use Prim.Native.Nat.{ℕ}
use mathlib.Core.Bool.{Bool}

abbrev pub Float : Type 0
Float = ℕ

pub record Floats : Type 0 where
  pub of_int : ℤ → Float
  pub to_int : Float → ℤ
  pub add : Float → Float → Float
  pub sub : Float → Float → Float
  pub mul : Float → Float → Float
  pub div : Float → Float → Float
  pub pow : Float → Float → Float
  pub eq : Float → Float → Bool
  pub lt : Float → Float → Bool
  pub max : Float → Float → Float
  pub abs : Float → Float
  pub ceil : Float → Float
  pub round : Float → Float
  pub is_finite : Float → Bool

-- The bits of 0, 1/2, 1, 1e-12, 1e-9 and 2^53.
abbrev pub float_zero : Float
float_zero = 0

abbrev pub float_half : Float
float_half = 4602678819172646912

abbrev pub float_one : Float
float_one = 4607182418800017408

abbrev pub float_1e_minus_12 : Float
float_1e_minus_12 = 4427486594234968593

abbrev pub float_1e_minus_9 : Float
float_1e_minus_9 = 4472406533629990549

abbrev pub float_2_53 : Float
float_2_53 = 4845873199050653696
