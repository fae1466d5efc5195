-- ===== src/Payments/Fee/Least.antt =====
-- The fee of FeeRule.Fee is enough for the shop, and no smaller fee is.
use native.Mathlib.Nat.{mul-le-mul_left}
use kue_preorder.Prelude.{
  ℕ, ◌+◌, ◌-◌, ◌*◌, ◌/◌, ◌≤◌, ◌<◌, ℤ, pos, ◌+ℤ◌, ◌*ℤ◌, ◌≡◌, ◌∙◌, ap, Bool, true, false, some, arith,
  inl, inr, Bool-cases, ◌≢◌,
}
use kue_preorder.Prelude.Word.{
  two_63, wrap64, wrap64_exact, quo, ◌*64◌, pos_add64, pos_sub64, pos_mul64,
}
use kue_preorder.Prelude.Result.{ok}
use kue_preorder.Platform.Errors.{check, fields_err}
use kue_preorder.Payments.Dp.{max_order_total, ceil_div}
use kue_preorder.Payments.Dp.Amount.{ceil_div_pos}
use kue_preorder.Payments.Fee.{
  qris, FeeRule, is_valid, bps, vat_bps, max_rate, max_fixed, num, den, cut, raise_gross,
  first_gross, validate_rule, fee,
}
use kue_preorder.Payments.Fee.Gross.{div_up, div_up-le, gross_covers, gross_least}

-- The fixed part of the provider's price with VAT, rounded up.
abbrev pub fixed_with_vat : ℕ → ℕ
fixed_with_vat fixed = div_up (fixed * 11100) 10000

-- What the provider keeps of `gross` for the percentage, VAT on top of it unless included.
abbrev pub percent_kept : Bool → ℕ → ℕ → ℕ
percent_kept true rate gross = div_up (gross * rate) 10000
percent_kept false rate gross = div_up (gross * (rate * 11100)) 100000000

pos_word : (a : ℕ) → a < two_63 → wrap64 (pos a) ≡ pos a
pos_word a h = wrap64_exact (pos a) (h, omega arith)

fixed_lem :
    (fx : ℕ)
    → fx ≤ max_fixed
    → ceil_div (pos fx *64 pos (bps + vat_bps)) bps ≡ pos (fixed_with_vat fx)
unfolding div_up
fixed_lem fx h = rw (pos_mul64 fx 11100 (omega arith)) (
    ceil_div_pos (fx * 11100) 10000 (omega arith) (omega arith)
    ∙ ap (λ (t : ℕ). pos (t / 10000)) (omega arith))

quo_lem : (a n d : ℕ) → quo (pos a *ℤ pos n +ℤ pos (d - 1)) d ≡ pos (div_up (a * n) d)
unfolding quo ◌*ℤ◌ ◌+ℤ◌ div_up
quo_lem a n d = ground arith

cut_lem : (n d g : ℕ) → 1 ≤ d → n ≤ d → g < two_63 → cut (pos n) d (pos g) ≡ pos (div_up (g * n) d)
unfolding cut
cut_lem n d g h k l =
    let low = div_up-le (g * n) d g h (grind arith) in
    rw (quo_lem g n d) (pos_word (div_up (g * n) d) (omega arith))

triple : (x d rest : ℕ) → d ≤ 3 * rest → x * d ≤ 3 * x * rest
triple x d rest h = let scaled : x * d ≤ x * (3 * rest) = mul-le-mul_left x h in omega arith

kept_total :
    (r : FeeRule) (n rest f a : ℕ)
    → num r ≡ pos n
    → den r ≡ n + rest
    → 1 ≤ rest
    → n + rest ≤ 3 * rest
    → n + rest ≤ 100000000
    → a + f ≤ 2199023255552
    → first_gross r (pos a) (pos f) ≡ pos (div_up ((a + f) * (n + rest)) rest)
unfolding first_gross
kept_total r n rest f a e d h k l m =
    let back : n + rest - n ≡ rest = omega arith in
    let low =
      div_up-le ((a + f) * (n + rest)) rest (3 * (a + f)) h (triple (a + f) (n + rest) rest k) in
    rw (e, d, pos_add64 a f (omega arith), back, quo_lem (a + f) (n + rest) rest)
      (pos_word (div_up ((a + f) * (n + rest)) rest) (omega arith))

-- The price of a valid rule as numbers: the rate over the divisor, which leaves the shop almost half.
kept_rate :
    (r : FeeRule) (rate : ℕ)
    → r.rate_bps ≡ pos rate
    → rate ≤ max_rate
    → (n : ℕ) × (rest : ℕ) × (num r ≡ pos n)
      × (den r ≡ n + rest)
      × (1 ≤ rest)
      × (n + rest ≤ 3 * rest)
      × (n + rest ≤ 100000000)
      × ((g : ℕ) → percent_kept r.vat_included rate g ≡ div_up (g * n) (n + rest))
unfolding num den ◌*ℤ◌
kept_rate r rate e h = elim (Bool-cases r.vat_included) [
  | inl t ↦ (
    rate,
    10000 - rate,
    rw (t, e),
    rw t (omega arith),
    omega arith,
    omega arith,
    omega arith,
    λ g. rw t (ap (λ (k : ℕ). div_up (g * rate) k) (omega arith)),
  )
  | inr t ↦ (
    rate * 11100,
    100000000 - rate * 11100,
    rw (t, e) (ground arith),
    rw t (omega arith),
    omega arith,
    omega arith,
    omega arith,
    λ g. rw t (ap (λ (k : ℕ). div_up (g * (rate * 11100)) k) (omega arith)),
  )
]

-- The loop stops at once at a gross amount that leaves the shop enough.
raise_gross_stops :
    (f a c g : ℕ) (share : ℤ → ℤ)
    → share (pos g) ≡ pos c
    → a + f + c ≤ g
    → g < two_63
    → raise_gross 1 (pos f) (pos a) share (pos g) ≡ some (pos g)
unfolding raise_gross
raise_gross_stops f a c g share e h k =
    rw (e, pos_sub64 g f (omega arith) k, pos_sub64 (g - f) c (omega arith) (omega arith))
      (ground arith)

validate_rule_pos :
    (r : FeeRule) (fx rate : ℕ)
    → is_valid r.method ≡ true
    → r.fixed_idr ≡ pos fx
    → fx ≤ max_fixed
    → r.rate_bps ≡ pos rate
    → rate ≤ max_rate
    → validate_rule r ≡ ok tt
unfolding validate_rule check fields_err
validate_rule_pos r fx rate m e h d k = ground arith

fee_value :
    (r : FeeRule) (fx a g : ℕ)
    → r.method ≢ qris
    → r.fixed_idr ≡ pos fx
    → fx ≤ max_fixed
    → 1 ≤ a
    → a ≤ g
    → a ≤ max_order_total
    → g < two_63
    → validate_rule r ≡ ok tt
    → raise_gross 1
        (pos (fixed_with_vat fx))
        (pos a)
        (cut (num r) (den r))
        (first_gross r (pos a) (pos (fixed_with_vat fx)))
      ≡ some (pos g)
    → fee r (pos a) ≡ ok (pos (g - a))
unfolding fee
fee_value r fx a g q e d l ag o big v w = rw e (rw (fixed_lem fx d) (ground (arith, pos_sub64 g a)))

-- For a known method other than QRIS with a fixed price of at most Rp1.000.000 and a rate of at most 50%,
-- and an amount of 1 to 2^40 rupiah, `Fee` returns a fee. After the provider has kept its fixed price
-- and its percentage of everything paid, each rounded up, the shop has the whole amount, and with any
-- smaller fee it has less.
pub fee_least :
    (r : FeeRule) (fx rate a : ℕ)
    → r.method ≢ qris
    → is_valid r.method ≡ true
    → r.fixed_idr ≡ pos fx
    → fx ≤ max_fixed
    → r.rate_bps ≡ pos rate
    → rate ≤ max_rate
    → 1 ≤ a
    → a ≤ max_order_total
    → (extra : ℕ) × (fee r (pos a) ≡ ok (pos extra))
      × (a + fixed_with_vat fx + percent_kept r.vat_included rate (a + extra) ≤ a + extra)
      × ((less : ℕ)
          → a + fixed_with_vat fx + percent_kept r.vat_included rate (a + less) ≤ a + less
          → extra ≤ less)
fee_least r fx rate a q m e h d k l o =
    let (n, rest, en, ed, one, third, big, kept) = kept_rate r rate d k in
    let f = fixed_with_vat fx in
    let small : f ≤ 2000000 = div_up-le (fx * 11100) 10000 2000000 (omega arith) (omega arith) in
    let g = div_up ((a + f) * (n + rest)) rest in
    let high : g ≤ 3 * (a + f) =
      div_up-le ((a + f) * (n + rest)) rest (3 * (a + f)) one
        (triple (a + f) (n + rest) rest third) in
    let covers = gross_covers n rest (a + f) one in
    let least = λ (y : ℕ). gross_least n rest (a + f) y one in
    let share : cut (num r) (den r) (pos g) ≡ pos (div_up (g * n) (n + rest)) =
      rw (en, ed) (cut_lem n (n + rest) g (omega arith) (omega arith) (omega arith)) in
    let first : first_gross r (pos a) (pos f) ≡ pos g =
      kept_total r n rest f a en ed one third big (omega arith) in
    let stops =
      raise_gross_stops f a (div_up (g * n) (n + rest)) g (cut (num r) (den r)) share covers
        (omega arith) in
    let whole : a + (g - a) ≡ g = omega arith in
    (
      g - a,
      fee_value r fx a g q e h l (omega arith) o (omega arith)
          (validate_rule_pos r fx rate m e h d k) (rw first stops),
      rw (whole, kept g) covers,
      λ less h'. let low = least (a + less) (rw (kept (a + less)) at h') in omega arith,
    )
