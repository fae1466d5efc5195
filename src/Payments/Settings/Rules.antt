-- ===== src/Payments/Settings/Rules.antt =====
-- The map of the rules in force, before and after an edit.
use mathlib.Core.Path.{fun_ext}
use kue_preorder.Prelude.{◌≡◌, sym, ap, ◌∙◌, true, Option, none, some, inl, inr, Bool-cases, arith}
use kue_preorder.Prelude.Result.{ok}
use kue_preorder.Platform.Errors.{check, fields_err}
use kue_preorder.Payments.Fee.{
  Method, qris, bank_transfer, ewallet, minimarket, blank, unknown, eqb_method, is_valid, FeeRule,
  FeeRules, default_fee_rules, validate_rule,
}
use kue_preorder.Payments.Settings.{in_force, put_rule, any_enabled}

method_eq : (a b : Method) → eqb_method a b ≡ true → a ≡ b
method_eq a b h = ground arith

-- The rules in force after a write of an own rule, and after its removal.
pub in_force-put :
    (own : FeeRules) (m : Method) (r : FeeRule)
    → in_force (put_rule m (some r) own) ≡ put_rule m (some r) (in_force own)
unfolding in_force put_rule
in_force-put own m r = fun_ext (λ k. ground arith)

pub in_force-delete :
    (own : FeeRules) (m : Method)
    → in_force (put_rule m none own) ≡ put_rule m (default_fee_rules m) (in_force own)
unfolding in_force put_rule
in_force-delete own m = fun_ext (λ k. elim (Bool-cases (eqb_method k m)) [
  | inl t ↦ (let same = method_eq k m t in ground (arith, t, ap default_fee_rules same))
  | inr f ↦ ground (arith, f)
])

-- A rule in force for which there is one that fits.
pub put_rule-valid :
    (m : Method) (o : Option FeeRule) (rules : FeeRules)
    → ((k : Method) (r : FeeRule) → rules k ≡ some r → (validate_rule r ≡ ok tt) × (r.method ≡ k))
    → ((r : FeeRule) → o ≡ some r → (validate_rule r ≡ ok tt) × (r.method ≡ m))
    → (k : Method) (r : FeeRule) → put_rule m o rules k ≡ some r
    → (validate_rule r ≡ ok tt) × (r.method ≡ k)
unfolding put_rule
put_rule-valid m o rules old new k r e = elim (Bool-cases (eqb_method k m)) [
  | inl t ↦ (let (v, same) = new r (rw t at e) in (v, same ∙ sym (method_eq k m t)))
  | inr f ↦ old k r (rw f at e)
]

pub default_rule-valid :
    (m : Method) (r : FeeRule)
    → default_fee_rules m ≡ some r
    → (validate_rule r ≡ ok tt) × (r.method ≡ m)
unfolding default_fee_rules validate_rule fields_err check
default_rule-valid qris r e = (ground arith, ground arith)
default_rule-valid bank_transfer r e = (ground arith, ground arith)
default_rule-valid ewallet r e = (ground arith, ground arith)
default_rule-valid minimarket r e = (ground arith, ground arith)
default_rule-valid blank r e = cc
default_rule-valid unknown r e = cc

pub default_on_offer :
    (m : Method) (rules : FeeRules)
    → is_valid m ≡ true
    → any_enabled (put_rule m (default_fee_rules m) rules) ≡ true
unfolding any_enabled put_rule default_fee_rules is_valid
default_on_offer qris rules v = ground arith
default_on_offer bank_transfer rules v = ground arith
default_on_offer ewallet rules v = ground arith
default_on_offer minimarket rules v = ground arith
default_on_offer blank rules v = cc
default_on_offer unknown rules v = cc
