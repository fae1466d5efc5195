-- ===== src/Orders/Checkout/Quote/Options.antt =====
-- The payment options of a quote and their fees.
use mathlib.Core.Path.{subst}
use kue_preorder.Prelude.{
  ℤ, true, false, not, List, [], ◌∷◌, All, Option, none, some, ◌≡◌, arith, Bool-cases, Option-cases,
  inl, inr, if◌then◌else◌,
}
use kue_preorder.Prelude.Result.{Result, ok, ◌>>=◌}
use kue_preorder.Platform.Errors.{Error, >>=_ok}
use kue_preorder.Payments.Fee.{Method, FeeRule, FeeRules, methods, fee}
use kue_preorder.Orders.Checkout.Quote.{
  PaymentOption, Quote, add_option, option_under, payment_option, options_of, payment_options_of,
}

-- An option is of a method on offer and has the fees of its rule: on the total, and on the down
-- payment if the order may be paid with one.
pub record IsOption (rules : FeeRules) (q : Quote) (o : PaymentOption) : Type 0 where
  pub rule : FeeRule
  pub known : rules o.method ≡ some rule
  pub enabled : rule.enabled ≡ true
  pub full_fee : fee rule q.total_idr ≡ ok o.full_fee_idr
  pub no_dp : q.full_payment_required ≡ true → o.dp_fee_idr ≡ none
  pub dp_fee :
      q.full_payment_required ≡ false
      → (f : ℤ) × (o.dp_fee_idr ≡ some f) × (fee rule q.dp_required_idr ≡ ok f)

option_under-IsOption :
    (rules : FeeRules) (q : Quote) (m : Method) (rule : FeeRule) (o : PaymentOption)
    → rules m ≡ some rule
    → option_under rule q m ≡ ok (some o)
    → IsOption rules q o
unfolding option_under
option_under-IsOption rules q m rule o e h = elim (Bool-cases (not rule.enabled)) [
  | inl t ↦ cc (rw t at h)
  | inr on ↦
      (let (full, ef, h1) = >>=_ok (fee rule q.total_idr) _ (rw on at h) in
        let (dp, ed, h2) =
          >>=_ok
            (if q.full_payment_required
              then ok none
              else (fee rule q.dp_required_idr >>= λ f. ok (some f)))
            _ h1 in
        let same : record { method = m; dp_fee_idr = dp; full_fee_idr = full } ≡ o = cc in
        subst (IsOption rules q) same (record {
          rule = rule;
          known = e;
          enabled = ground arith;
          full_fee = ef;
          no_dp = λ t. cc (rw t at ed);
          dp_fee = λ t.
              let (f, fe, r) = >>=_ok (fee rule q.dp_required_idr) _ (rw t at ed) in (f, cc, fe);
        }))
]

more_options :
    (rules : FeeRules) (q : Quote) (m : Method) (o : Option PaymentOption)
    (rest os : List PaymentOption)
    → payment_option rules q m ≡ ok o
    → All (IsOption rules q) rest
    → add_option o rest ≡ os
    → All (IsOption rules q) os
unfolding payment_option
more_options rules q m none rest os e h same = subst (All (IsOption rules q)) same h
more_options rules q m (some o) rest os e h same =
    subst (All (IsOption rules q)) same (elim (Option-cases (rules m)) [
      | inl off ↦ cc (rw (off, payment_option) at e)
      | inr (rule, on) ↦
          (option_under-IsOption rules q m rule o on (rw (on, payment_option) at e), h)
    ])

options_All :
    (rules : FeeRules) (q : Quote) (ms : List Method) (os : List PaymentOption)
    → options_of rules q ms ≡ ok os
    → All (IsOption rules q) os
unfolding options_of
options_All rules q [] os h = let same : [] ≡ os = cc in subst (All (IsOption rules q)) same tt
options_All rules q (m ∷ ms) os h =
    let (o, e, h1) = >>=_ok (payment_option rules q m) _ h in
    let (rest, e1, h2) = >>=_ok (options_of rules q ms) _ h1 in
    more_options rules q m o rest os e (options_All rules q ms rest e1) cc

-- All the options of a quote have the fees of the stored rules.
pub payment_options_All :
    (read : Result Error FeeRules) (q : Quote) (os : List PaymentOption)
    → payment_options_of read q ≡ ok os
    → (rules : FeeRules) × (read ≡ ok rules) × All (IsOption rules q) os
unfolding payment_options_of
payment_options_All read q os h =
    let (rules, e, k) = >>=_ok read _ h in (rules, e, options_All rules q methods os k)
