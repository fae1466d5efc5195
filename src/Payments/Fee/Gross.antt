-- ===== src/Payments/Fee/Gross.antt =====
-- The arithmetic of a grossed-up percentage: of every gross amount g the provider keeps g × n / d,
-- rounded up, and the smallest gross amount that leaves x is x × d / (d - n), rounded up.
use native.Mathlib.Nat.{div-add-mod, mod-lt, div-lt_iff_lt-mul}
use kue_preorder.Prelude.{ℕ, ◌+◌, ◌-◌, ◌*◌, ◌/◌, ◌≤◌, ◌<◌, ◌≡◌, arith}

-- A quotient rounded up: the least number `k` with `a ≤ k * b`.
unfoldable pub div_up : ℕ → ℕ → ℕ
div_up a b = (a + (b - 1)) / b

pub le-div_up : (a b : ℕ) → 1 ≤ b → a ≤ div_up a b * b
unfolding div_up
le-div_up a b h = grind (arith, div-add-mod (a + (b - 1)) b, mod-lt (a + (b - 1)) h)

pub div_up-le : (a b k : ℕ) → 1 ≤ b → a ≤ k * b → div_up a b ≤ k
unfolding div_up
div_up-le a b k h l =
    let below : (a + (b - 1)) / b < k + 1 = (div-lt_iff_lt-mul h).1 (omega (arith, l)) in
    omega arith

-- With `d` = `n` + `rest`, in every amount `x + y` that leaves `x`.
keeps : (n rest x y : ℕ) → (x + y) * n ≤ y * (n + rest) → x * (n + rest) ≤ (x + y) * rest
keeps n rest x y h = omega arith

leaves : (n rest x y : ℕ) → x * (n + rest) ≤ (x + y) * rest → (x + y) * n ≤ y * (n + rest)
leaves n rest x y h = omega arith

scaled_mono : (a b c : ℕ) → a ≤ b → a * c ≤ b * c
scaled_mono a b c h = grind arith

le_of_mul_right : (a b c : ℕ) → 1 ≤ c → a * c ≤ b * c → a ≤ b
le_of_mul_right a b c h l = grind arith

scaled_le : (n rest x g : ℕ) → x * (n + rest) ≤ g * rest → x * rest ≤ g * rest
scaled_le n rest x g h = omega arith

le_of_scaled : (n rest x g : ℕ) → 1 ≤ rest → x * (n + rest) ≤ g * rest → x ≤ g
le_of_scaled n rest x g h l = le_of_mul_right x g rest h (scaled_le n rest x g l)

pub gross_covers :
    (n rest x : ℕ)
    → 1 ≤ rest
    → x + div_up (div_up (x * (n + rest)) rest * n) (n + rest) ≤ div_up (x * (n + rest)) rest
gross_covers n rest x h =
    let g = div_up (x * (n + rest)) rest in
    let high = le-div_up (x * (n + rest)) rest h in
    let le = le_of_scaled n rest x g h high in
    let split : g ≡ x + (g - x) = omega arith in
    let left = leaves n rest x (g - x) (rw (← split) high) in
    let bound = div_up-le (g * n) (n + rest) (g - x) (omega arith) (rw (← split) at left) in
    omega arith

pub gross_least :
    (n rest x g : ℕ)
    → 1 ≤ rest
    → x + div_up (g * n) (n + rest) ≤ g
    → div_up (x * (n + rest)) rest ≤ g
gross_least n rest x g h l =
    let split : g ≡ x + (g - x) = omega arith in
    let high = le-div_up (g * n) (n + rest) (omega arith) in
    let part = scaled_mono (div_up (g * n) (n + rest)) (g - x) (n + rest) (omega arith) in
    let whole : (x + (g - x)) * n ≤ (g - x) * (n + rest) = rw (← split) (omega arith) in
    div_up-le (x * (n + rest)) rest g h (rw split (keeps n rest x (g - x) whole))
