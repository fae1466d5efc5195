-- ===== src/Payments/Dp.antt =====
-- internal/payments/dp.go: the payment policy and the down payment locked at checkout.
pub mod Amount
use Prim.Native.String.{String}
use kue_preorder.Prelude.{
  ℕ, ℤ, pos, ltb_ℤ, leb_ℤ, min_ℤ, max_ℤ, Bool, true, false, ◌&&◌, ◌||◌, [], if◌then◌else◌,
}
use kue_preorder.Prelude.Word.{◌+64◌, ◌-64◌, ◌*64◌, quo}
use kue_preorder.Prelude.Result.{Result, ok, err}
use kue_preorder.Platform.Errors.{Error, internal, invalid_amount, check, fields_err}

-- `1 << 40`.
abbrev pub max_order_total : ℕ
max_order_total = 1099511627776

-- The int32 fields are plain integers here; `UpdatedAt` is left out.
pub record Policy : Type 0 where
  pub dp_min_percent : ℤ
  pub dp_covers_ingredient_cost : Bool
  pub balance_due_hours_before : ℤ
  pub dp_invoice_valid_minutes : ℤ
  pub dp_min_total_idr : ℤ
  pub min_order_idr : ℤ

abbrev pub default_policy : Policy
default_policy = record {
  dp_min_percent = pos 50;
  dp_covers_ingredient_cost = true;
  balance_due_hours_before = pos 12;
  dp_invoice_valid_minutes = pos 180;
  dp_min_total_idr = pos 150000;
  min_order_idr = pos 0;
}

unfoldable pub dp_allowed : Policy → ℤ → Bool
dp_allowed p total = leb_ℤ p.dp_min_total_idr total

-- `DPInvoiceValidFor`: minutes as a duration in nanoseconds.
unfoldable pub dp_invoice_valid_for : Policy → ℤ
dp_invoice_valid_for p = p.dp_invoice_valid_minutes *64 pos 60000000000

abbrev pub in_range : ℕ → ℕ → ℤ → Bool
in_range lo hi x = leb_ℤ (pos lo) x && leb_ℤ x (pos hi)

-- `Policy.Validate`.
unfoldable pub validate : Policy → Result Error (Unit {0})
validate p = fields_err (
    check (in_range 0 max_order_total p.min_order_idr) "min_order_idr" (
      check (in_range 0 max_order_total p.dp_min_total_idr) "dp_min_total_idr" (
        check (in_range 30 10080 p.dp_invoice_valid_minutes) "dp_invoice_valid_minutes" (
          check (in_range 0 168 p.balance_due_hours_before) "balance_due_hours_before"
            (check (in_range 1 100 p.dp_min_percent) "dp_min_percent" [])))))

-- `ceilDiv`; Go divides by rounding towards 0.
unfoldable pub ceil_div : ℤ → ℕ → ℤ
ceil_div a b = quo ((a +64 pos b) -64 pos 1) b

-- `DPRequired`.
unfoldable pub dp_required : Policy → ℤ → ℤ → Result Error ℤ
dp_required p total cost =
    if ltb_ℤ p.dp_min_percent (pos 1) || ltb_ℤ (pos 100) p.dp_min_percent
    then err (internal "dp_min_percent must be 1 to 100")
    else if leb_ℤ total (pos 0) || ltb_ℤ (pos max_order_total) total
    then err invalid_amount
    else if ltb_ℤ cost (pos 0) || ltb_ℤ (pos max_order_total) cost
    then err invalid_amount
    else (let dp = ceil_div (total *64 p.dp_min_percent) 100 in
        let dp' = if p.dp_covers_ingredient_cost then max_ℤ dp cost else dp in ok (min_ℤ dp' total))
