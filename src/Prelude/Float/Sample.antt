-- ===== src/Prelude/Float/Sample.antt =====
-- Operations on floats to run the code with on concrete data.
use Prim.Native.Nat.{◌+◌, ◌*◌, ◌/◌}
use mathlib.Core.Bool.{true}
use kue_preorder.Prelude.Int.{pos, pos_part}
use kue_preorder.Prelude.Tests.{◌==◌, ltb, if◌then◌else◌}
use kue_preorder.Prelude.Float.{Floats, float_one}

-- Bits as whole numbers, and the bits of 1 as 1.
abbrev pub floats : Floats
floats = record {
  of_int = λ z. pos_part z;
  to_int = λ x. pos x;
  add = λ x y. x + y;
  sub = λ x y. x;
  mul = λ x y. if y == float_one then x else x * y;
  div = λ x y. x / y;
  pow = λ x y. x;
  eq = λ x y. x == y;
  lt = λ x y. ltb x y;
  max = λ x y. if ltb x y then y else x;
  abs = λ x. x;
  ceil = λ x. x;
  round = λ x. x;
  is_finite = λ x. true;
}
