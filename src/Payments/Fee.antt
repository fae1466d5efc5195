-- ===== src/Payments/Fee.antt =====
-- internal/payments/methods.go: the payment methods and the fee that the customer pays on top.
pub mod Gross
pub mod Least
use Prim.Native.String.{String}
use kue_preorder.Prelude.{
  ℕ, zero, suc, ◌+◌, ◌-◌, ◌*◌, ℤ, pos, ◌+ℤ◌, ◌*ℤ◌, pos_part, ltb_ℤ, leb_ℤ, Bool, true, false, ◌&&◌,
  ◌||◌, List, [], ◌∷◌, Option, none, some, if◌then◌else◌,
}
use kue_preorder.Prelude.Word.{wrap64, ◌+64◌, ◌-64◌, ◌*64◌, quo}
use kue_preorder.Prelude.Result.{Result, ok, err, ◌>>=◌, ◌>>◌}
use kue_preorder.Platform.Errors.{Error, internal, invalid_amount, check, fields_err}
use kue_preorder.Payments.Dp.{max_order_total, in_range, ceil_div}

-- `blank` is the empty text, and `unknown` stands for any other text that is no method.
pub data Method : Type 0 where
  qris bank_transfer ewallet minimarket blank unknown : Method

abbrev pub eqb_method : Method → Method → Bool
eqb_method qris qris = true
eqb_method bank_transfer bank_transfer = true
eqb_method ewallet ewallet = true
eqb_method minimarket minimarket = true
eqb_method blank blank = true
eqb_method unknown unknown = true
eqb_method _ _ = false

abbrev pub methods : List Method
methods = qris ∷ bank_transfer ∷ ewallet ∷ minimarket ∷ []

contains_method : Method → List Method → Bool
contains_method m [] = false
contains_method m (known ∷ ms) = eqb_method m known || contains_method m ms

-- `Method.valid`.
unfoldable pub is_valid : Method → Bool
unfolding contains_method
is_valid m = contains_method m methods

abbrev pub vat_bps : ℕ
vat_bps = 1100

abbrev pub bps : ℕ
bps = 10000

abbrev pub max_rate : ℕ
max_rate = 5000

abbrev pub max_fixed : ℕ
max_fixed = 1000000

pub record FeeRule : Type 0 where
  pub method : Method
  pub fixed_idr : ℤ
  pub rate_bps : ℤ
  pub vat_included : Bool
  pub enabled : Bool

-- A `map[Method]FeeRule`.
abbrev pub FeeRules : Type 0
FeeRules = Method → Option FeeRule

abbrev default_rule : Method → ℕ → ℕ → Bool → Option FeeRule
default_rule m fixed rate vat_included = some (record {
  method = m;
  fixed_idr = pos fixed;
  rate_bps = pos rate;
  vat_included = vat_included;
  enabled = true;
})

unfoldable pub default_fee_rules : FeeRules
default_fee_rules qris = default_rule qris 0 70 true
default_fee_rules bank_transfer = default_rule bank_transfer 4000 0 false
default_fee_rules ewallet = default_rule ewallet 0 200 true
default_fee_rules minimarket = default_rule minimarket 5000 0 false
default_fee_rules _ = none

-- `FeeRule.Validate`.
unfoldable pub validate_rule : FeeRule → Result Error (Unit {0})
unfolding is_valid
validate_rule r = fields_err (
    check (in_range 0 max_rate r.rate_bps) "rate_bps" (
      check (in_range 0 max_fixed r.fixed_idr) "fixed_idr" (check (is_valid r.method) "method" [])))

-- What the provider keeps of a gross amount is gross × num / den: big integers, never wrapped.
unfoldable pub num : FeeRule → ℤ
num r = if r.vat_included then r.rate_bps else r.rate_bps *ℤ pos (bps + vat_bps)

unfoldable pub den : FeeRule → ℕ
den r = if r.vat_included then bps else bps * bps

-- `cut`: the provider's share of `gross`, rounded up, as `Int64()` reads it.
unfoldable pub cut : ℤ → ℕ → ℤ → ℤ
cut n d gross = wrap64 (quo (gross *ℤ n +ℤ pos (d - 1)) d)

-- The loop that raises the gross amount until the shop is left with `amount`; `none` means that the
-- rounds ran out.
unfoldable pub raise_gross : ℕ → ℤ → ℤ → (ℤ → ℤ) → ℤ → Option ℤ
raise_gross zero fixed amount share gross = none
raise_gross (suc rounds) fixed amount share gross =
    let next = raise_gross rounds fixed amount share (gross +64 pos 1) in
    if ltb_ℤ ((gross -64 fixed) -64 share gross) amount then next else some gross

-- `(amount + fixed) × den / (den - num)`, rounded up. The rate is at most one half, so that
-- `den - num` is positive.
unfoldable pub first_gross : FeeRule → ℤ → ℤ → ℤ
unfolding num den
first_gross r amount fixed =
    let rest = den r - pos_part (num r) in
    wrap64 (quo ((amount +64 fixed) *ℤ pos (den r) +ℤ pos (rest - 1)) rest)

-- `Fee`, with a bound on the rounds of its loop.
unfoldable pub fee_within : ℕ → FeeRule → ℤ → Result Error ℤ
fee_within rounds r amount = if eqb_method r.method qris then ok (pos 0) else (do
  validate_rule r
  if leb_ℤ amount (pos 0) || ltb_ℤ (pos max_order_total) amount
      then err invalid_amount
      else (let fixed = ceil_div (r.fixed_idr *64 pos (bps + vat_bps)) bps in
          elim (raise_gross rounds fixed amount (cut (num r) (den r))
            (first_gross r amount fixed)) [
              | none ↦ err (internal "out of rounds")
              | some gross ↦ ok (gross -64 amount)
            ]))

-- With one round: `first_gross` is computed so that the loop's test fails at once.
unfoldable pub fee : FeeRule → ℤ → Result Error ℤ
unfolding fee_within
fee = fee_within 1
