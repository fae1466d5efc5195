-- ===== src/Payments/Ledger/Sum.antt =====
-- The int64 loop of payments.Paid, beside the plain sum.
use kue_preorder.Prelude.{
  ℕ, suc, ◌+◌, ◌*◌, ◌≤◌, ℤ, pos, pos_part, neg_part, ◌+ℤ◌, +ℤ_bounds, +ℤ_assoc, ◌∙◌, int_laws, ◌≡◌,
  List, [], ◌∷◌, All, length, arith, if◌then◌else◌, Bool-cases, inl, inr,
}
use kue_preorder.Prelude.Word.{◌+64◌, +64_exact}
use kue_preorder.Payments.Ledger.{Payment, paid, eqb_state, paid_from, paid_idr}
use kue_preorder.Payments.Dp.{max_order_total}

-- The sum of the paid amounts as integers.
pub sum_paid : List Payment → ℤ
sum_paid [] = pos 0
sum_paid (p ∷ ps) =
    let rest = sum_paid ps in if eqb_state p.state paid then p.amount_idr +ℤ rest else rest

-- The amounts that the guards of `AddPending` and `AddManual` let through.
abbrev pub IsBounded : Payment → Type 0
IsBounded p = (pos_part p.amount_idr ≤ max_order_total) × (neg_part p.amount_idr ≤ max_order_total)

paid_from_exact :
    (s : ℤ) (ps : List Payment) (k : ℕ)
    → pos_part s ≤ max_order_total * k
    → neg_part s ≤ max_order_total * k
    → k + length ps ≤ 4194304
    → All IsBounded ps
    → paid_from s ps ≡ s +ℤ sum_paid ps
unfolding paid_from sum_paid
paid_from_exact s [] k a b c d = omega int_laws
paid_from_exact s (p ∷ ps) k a b c d = elim (Bool-cases (eqb_state p.state paid)) [
  | inl t ↦
      (let bounds = +ℤ_bounds s p.amount_idr in
        let exact : s +64 p.amount_idr ≡ s +ℤ p.amount_idr =
          +64_exact s p.amount_idr (omega arith, omega arith) in
        rw (t, exact)
          (paid_from_exact (s +ℤ p.amount_idr) ps (suc k) (omega arith) (omega arith) (omega arith)
              d.1
            ∙ +ℤ_assoc s p.amount_idr (sum_paid ps)))
  | inr t ↦ rw t (paid_from_exact s ps (suc k) (omega arith) (omega arith) (omega arith) d.1)
]

-- Over a ledger of at most four million payments, each of at most 2^40 rupiah either way, `Paid` is
-- the plain sum of the paid amounts, refunds counted negatively.
pub paid_idr_exact :
    (ps : List Payment) → All IsBounded ps → length ps ≤ 4194304 → paid_idr ps ≡ sum_paid ps
unfolding paid_idr
paid_idr_exact ps b h =
    rw (paid_from_exact (pos 0) ps 0 (omega arith) (omega arith) (omega arith) b) (omega int_laws)
