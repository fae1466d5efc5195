-- ===== src/Payments/Tests.antt =====
-- The theorems on payments at concrete data, and runs of the functions.
use Prim.Native.Nat.{min}
use kue_preorder.Prelude.{ℕ, ◌+◌, ◌*◌, ◌≤◌, ℤ, pos, ◌≡◌, refl, [], none, some, arith, true}
use kue_preorder.Prelude.Text.{codes}
use kue_preorder.Prelude.Result.{ok}
use kue_preorder.Payments.Status.{Amounts}
use kue_preorder.Payments.Dp.{default_policy, dp_required}
use kue_preorder.Payments.Dp.Amount.{dp_required_least}
use kue_preorder.Payments.Fee.{FeeRule, ewallet, blank, is_valid, fee}
use kue_preorder.Payments.Fee.Least.{fixed_with_vat, percent_kept, fee_least}
use kue_preorder.Payments.Ledger.{balance, pending, paid, Payment}

abbrev amounts : ℤ → Amounts
amounts p = record { total_idr = pos 200000; dp_required_idr = pos 100000; paid_idr = p }

dp_required_least_example :
    (dp : ℕ) × (dp_required default_policy (pos 200000) (pos 120000) ≡ ok (pos dp))
    × (1 ≤ dp)
    × (dp ≤ 200000)
    × (200000 * 50 ≤ 100 * dp)
    × (true ≡ true → min 120000 200000 ≤ dp)
    × ((d : ℕ) → 200000 * 50 ≤ 100 * d → (true ≡ true → min 120000 200000 ≤ d) → dp ≤ d)
dp_required_least_example =
    dp_required_least default_policy 50 200000 120000 refl (omega arith) (omega arith) (omega arith)
      (omega arith) (omega arith)

abbrev wallet : FeeRule
wallet = record {
  method = ewallet;
  fixed_idr = pos 0;
  rate_bps = pos 200;
  vat_included = true;
  enabled = true;
}

fee_least_example :
    (extra : ℕ) × (fee wallet (pos 100000) ≡ ok (pos extra))
    × (100000 + fixed_with_vat 0 + percent_kept true 200 (100000 + extra) ≤ 100000 + extra)
    × ((less : ℕ)
        → 100000 + fixed_with_vat 0 + percent_kept true 200 (100000 + less) ≤ 100000 + less
        → extra ≤ less)
unfolding is_valid
fee_least_example =
    fee_least wallet 0 200 100000 (ground arith) refl refl (omega arith) refl (omega arith)
      (omega arith) (omega arith)

abbrev row : ℕ → Payment
row id = record {
  id = id;
  order_id = 1;
  kind = balance;
  provider = [];
  method = blank;
  external_id = [];
  amount_idr = pos 100000;
  fee_idr = pos 0;
  state = pending;
  checkout_url = [];
  expires_at = none;
  paid_at = none;
  created_at = pos 0;
  manual = some (record { reference = codes "K-1"; note = []; recorded_by = 5 });
}

abbrev in_cash : Payment
in_cash = record (row 4) {
  provider = codes "manual";
  state = paid;
  paid_at = some (pos 50);
  created_at = pos 50;
}
