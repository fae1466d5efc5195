-- ===== src/Prelude/Word.antt =====
-- Go's int64: every sum, difference and product wraps around modulo 2^64.
use Prim.Native.Nat.{ℕ, ◌+◌, ◌-◌, ◌*◌, ◌/◌, ◌%◌, ◌≤◌, ◌<◌}
use mathlib.Core.Path.{◌≡◌}
use native.Mathlib.Omega.{arith}
use kue_preorder.Prelude.Tests.{ltb, if◌then◌else◌}
use kue_preorder.Prelude.Int.{ℤ, pos, negsuc, pos_part, neg_part, ◌+ℤ◌, ◌-ℤ◌, ◌*ℤ◌}

abbrev pub two_63 : ℕ
two_63 = 9223372036854775808

abbrev pub two_64 : ℕ
two_64 = 18446744073709551616

-- The value of the low 64 bits, read as a signed number.
unfoldable pub wrap64 : ℤ → ℤ
wrap64 (pos n) =
    if ltb (n % two_64) two_63 then pos (n % two_64) else negsuc (two_64 - n % two_64 - 1)
wrap64 (negsuc n) =
    if ltb (n % two_64) two_63 then negsuc (n % two_64) else pos (two_64 - n % two_64 - 1)

-- The same for Go's int32 and the low 32 bits.
unfoldable pub wrap32 : ℤ → ℤ
wrap32 (pos n) =
    if ltb (n % 4294967296) 2147483648
    then pos (n % 4294967296)
    else negsuc (4294967296 - n % 4294967296 - 1)
wrap32 (negsuc n) =
    if ltb (n % 4294967296) 2147483648
    then negsuc (n % 4294967296)
    else pos (4294967296 - n % 4294967296 - 1)

abbrev pub InInt64 : ℤ → Type 0
InInt64 a = (pos_part a < two_63) × (neg_part a < two_63 + 1)

-- In range, a word is the integer that it stands for.
pub wrap64_exact : (a : ℤ) → InInt64 a → wrap64 a ≡ a
unfolding wrap64
wrap64_exact (pos n) h = ground arith
wrap64_exact (negsuc n) h = ground arith

-- Whatever the integer, the word is in range.
pub wrap64-InInt64 : (a : ℤ) → InInt64 (wrap64 a)
unfolding wrap64
wrap64-InInt64 (pos n) = ground arith
wrap64-InInt64 (negsuc n) = ground arith

infixl 65 ◌+64◌ ◌-64◌
infixl 70 ◌*64◌
unfoldable pub ◌+64◌ : ℤ → ℤ → ℤ
a +64 b = wrap64 (a +ℤ b)

unfoldable pub ◌-64◌ : ℤ → ℤ → ℤ
a -64 b = wrap64 (a -ℤ b)

unfoldable pub ◌*64◌ : ℤ → ℤ → ℤ
a *64 b = wrap64 (a *ℤ b)

-- Go's `/` on int64 with a positive divisor: the quotient is rounded towards 0.
unfoldable pub quo : ℤ → ℕ → ℤ
quo (pos n) d = pos (n / d)
quo (negsuc n) d = pos 0 -ℤ pos ((n + 1) / d)

-- Without overflow, the words compute as the numbers do.
pub pos_add64 : (a b : ℕ) → a + b < two_63 → pos a +64 pos b ≡ pos (a + b)
unfolding ◌+64◌ ◌+ℤ◌ wrap64
pos_add64 a b h = ground arith

pub pos_sub64 : (a b : ℕ) → b ≤ a → a < two_63 → pos a -64 pos b ≡ pos (a - b)
unfolding ◌-64◌ ◌-ℤ◌ wrap64
pos_sub64 a b h k = ground arith

pub pos_mul64 : (a b : ℕ) → a * b < two_63 → pos a *64 pos b ≡ pos (a * b)
unfolding ◌*64◌ ◌*ℤ◌ wrap64
pos_mul64 a b h = ground arith

pub +64_exact : (a b : ℤ) → InInt64 (a +ℤ b) → a +64 b ≡ a +ℤ b
unfolding ◌+64◌
+64_exact a b h = wrap64_exact (a +ℤ b) h

pub -64_exact : (a b : ℤ) → InInt64 (a -ℤ b) → a -64 b ≡ a -ℤ b
unfolding ◌-64◌
-64_exact a b h = wrap64_exact (a -ℤ b) h
