-- ===== src/Payments/Settings/Sound.antt =====
-- What every edit of the payment settings keeps.
use mathlib.Core.Path.{subst}
use kue_preorder.Prelude.{◌≡◌, refl, ap, true, [], some, inl, inr, Bool-cases, Option-cases, ℤ}
use kue_preorder.Prelude.Text.{Text, trim_space}
use kue_preorder.Prelude.Result.{Result, ok}
use kue_preorder.Platform.Errors.{
  Error, check, fields_err, Result-cases, ok_inj, >>=_ok, check-eq-nil, join_ok,
}
use kue_preorder.Platform.Caller.{Principal, authorize}
use kue_preorder.Payments.Dp.{Policy, validate}
use kue_preorder.Payments.Fee.{Method, is_valid, FeeRule, default_fee_rules, validate_rule}
use kue_preorder.Payments.Settings.Rules.{
  in_force-put, in_force-delete, put_rule-valid, default_rule-valid, default_on_offer,
}
use kue_preorder.Payments.Settings.{
  SettingsStore, policy_of, rules_of, eqb_policy, eqb_rule, rule_at, put_rule, any_enabled,
  policy_tx, method_tx, reset_tx, owners, accepted, validate_change, update_policy, update_method,
  reset_method,
}

-- The policy and the rules in force are valid, every rule stands under its method, and the customer
-- has a way to pay.
pub record IsSoundSettings (s : SettingsStore) : Type 0 where
  pub policy_valid : validate (policy_of s) ≡ ok tt
  pub rules_valid :
      (m : Method) (r : FeeRule)
      → rules_of s m ≡ some r
      → (validate_rule r ≡ ok tt) × (r.method ≡ m)
  pub on_offer : any_enabled (rules_of s) ≡ true

-- A change that was let through passed its own checks.
accepted_policy :
    (caller : Result Error Principal) (p : Policy) (reason : Text) (q : Principal)
    → accepted caller (validate p) reason ≡ ok q
    → validate p ≡ ok tt
unfolding accepted validate_change validate fields_err
accepted_policy caller p reason q h =
    let (who, e, h1) = >>=_ok (authorize caller owners) _ h in
    let (u, k, _) = >>=_ok (validate_change (validate p) (trim_space reason)) _ h1 in
    ap fields_err (join_ok _ _ k).0

pub accepted_rule :
    (caller : Result Error Principal) (r : FeeRule) (reason : Text) (q : Principal)
    → accepted caller (validate_rule r) reason ≡ ok q
    → validate_rule r ≡ ok tt
unfolding accepted validate_change validate_rule fields_err
accepted_rule caller r reason q h =
    let (who, e, h1) = >>=_ok (authorize caller owners) _ h in
    let (u, k, _) = >>=_ok (validate_change (validate_rule r) (trim_space reason)) _ h1 in
    ap fields_err (join_ok _ _ k).0

accepted_method :
    (caller : Result Error Principal) (m : Method) (reason : Text) (q : Principal)
    → accepted caller (fields_err (check (is_valid m) "method" [])) reason ≡ ok q
    → is_valid m ≡ true
unfolding accepted validate_change
accepted_method caller m reason q h =
    let (who, e, h1) = >>=_ok (authorize caller owners) _ h in
    let (u, k, _) =
      >>=_ok (validate_change (fields_err (check (is_valid m) "method" [])) (trim_space reason)) _
        h1 in
    (check-eq-nil (is_valid m) "method" [] (join_ok _ _ k).0).0

policy_tx-IsSoundSettings :
    (p : Principal) (in_policy : Policy) (now : ℤ) (s : SettingsStore)
    → validate in_policy ≡ ok tt
    → IsSoundSettings s
    → IsSoundSettings (policy_tx p in_policy now s)
unfolding policy_tx rules_of
policy_tx-IsSoundSettings p in_policy now s v h =
    elim (Bool-cases (eqb_policy (policy_of s) in_policy)) [
      | inl t ↦ rw t h
      | inr f ↦
          rw f (record { policy_valid = v; rules_valid = h.rules_valid; on_offer = h.on_offer })
    ]

pub method_tx-IsSoundSettings :
    (p : Principal) (r : FeeRule) (now : ℤ) (s s' : SettingsStore)
    → validate_rule r ≡ ok tt
    → IsSoundSettings s
    → method_tx p r now s ≡ ok s'
    → IsSoundSettings s'
unfolding method_tx rules_of policy_of
method_tx-IsSoundSettings p r now s s' v h e =
    elim (Bool-cases (eqb_rule (rule_at (rules_of s) r.method) r)) [
      | inl t ↦ (let same : s ≡ s' = cc (rw t at e) in subst IsSoundSettings same h)
      | inr f ↦ elim (Bool-cases (any_enabled (put_rule r.method (some r) (rules_of s)))) [
        | inr off ↦ cc (rw (f, off) at e)
        | inl on ↦
            (let after = in_force-put s.own_rules r.method r in
              subst IsSoundSettings (ok_inj _ s' _ refl (rw (f, on) at e)) (record {
                policy_valid = h.policy_valid;
                rules_valid = rw after (
                    put_rule-valid r.method (some r) (rules_of s) h.rules_valid (λ q same.
                      let eq : r ≡ q = cc in
                      subst (λ x. (validate_rule x ≡ ok tt) × (x.method ≡ r.method)) eq (v, refl)));
                on_offer = rw after on;
              }))
      ]
    ]

reset_tx-IsSoundSettings :
    (p : Principal) (m : Method) (now : ℤ) (s : SettingsStore)
    → is_valid m ≡ true
    → IsSoundSettings s
    → IsSoundSettings (reset_tx p m now s)
unfolding reset_tx rules_of policy_of
reset_tx-IsSoundSettings p m now s v h = elim (Option-cases (s.own_rules m)) [
  | inl n ↦ rw (n, reset_tx) h
  | inr (had, e) ↦
      (let after = in_force-delete s.own_rules m in
        rw (e, reset_tx)
          (record {
            policy_valid = h.policy_valid;
            rules_valid = rw after (
                put_rule-valid m (default_fee_rules m) (rules_of s) h.rules_valid
                  (default_rule-valid m));
            on_offer = rw after (default_on_offer m (rules_of s) v);
          }))
]

-- `UpdatePolicy`, `UpdateMethod` and `ResetMethod` leave sound settings, whoever calls and whatever
-- they answer: the policy and every rule in force stay valid, every rule stands under its own method,
-- and at least one method stays on offer.
pub settings_keep :
    (caller : Result Error Principal) (policy : Policy) (rule : FeeRule) (m : Method)
    (reason : Text) (now : ℤ) (s : SettingsStore)
    → IsSoundSettings s
    → IsSoundSettings (update_policy caller policy reason now s).1
      × IsSoundSettings (update_method caller rule reason now s).1
      × IsSoundSettings (reset_method caller m reason now s).1
unfolding update_policy update_method reset_method
settings_keep caller policy rule m reason now s h = (
  elim (Result-cases (accepted caller (validate policy) reason)) [
    | inr (e, k) ↦ rw (k, update_policy) h
    | inl (p, k) ↦
        rw (k, update_policy)
          (policy_tx-IsSoundSettings p policy now s (accepted_policy caller policy reason p k) h)
  ],
  elim (Result-cases (accepted caller (validate_rule rule) reason)) [
    | inr (e, k) ↦ rw (k, update_method) h
    | inl (p, k) ↦ elim (Result-cases (method_tx p rule now s)) [
      | inr (e, j) ↦ rw (k, update_method) (rw (j, update_method) h)
      | inl (s', j) ↦
          rw (k, update_method)
            (rw (j, update_method)
              (method_tx-IsSoundSettings p rule now s s' (accepted_rule caller rule reason p k) h
                j))
    ]
  ],
  elim (Result-cases (accepted caller (fields_err (check (is_valid m) "method" [])) reason)) [
    | inr (e, k) ↦ rw (k, reset_method) h
    | inl (p, k) ↦
        rw (k, reset_method)
          (reset_tx-IsSoundSettings p m now s (accepted_method caller m reason p k) h)
  ],
)
