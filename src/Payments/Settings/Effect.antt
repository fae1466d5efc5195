-- ===== src/Payments/Settings/Effect.antt =====
-- What `UpdateMethod` does for the owner, and what it answers.
use kue_preorder.Prelude.{
  ℕ, ◌≤◌, ◌≡◌, ◌≢◌, ◌⊎◌, refl, ap, true, false, List, [], ◌∷◌, ◌++◌, All, none, some, inl, inr,
  Bool-cases, Option-cases, arith, ℤ, pos, negsuc, ◌≤ℤ◌,
}
use kue_preorder.Prelude.Text.{Text}
use kue_preorder.Prelude.Result.{Result, ok, err}
use kue_preorder.Platform.Errors.{Error, precondition, check-eq-nil, fields_err-eq-ok}
use kue_preorder.Platform.Caller.{Principal}
use kue_preorder.Payments.Dp.{max_order_total}
use kue_preorder.Payments.Fee.{
  Method, methods, qris, bank_transfer, ewallet, minimarket, blank, unknown, eqb_method, is_valid,
  FeeRule, FeeRules, default_fee_rules, validate_rule, fee, max_fixed, max_rate,
}
use kue_preorder.Payments.Fee.Least.{fee_least}
use kue_preorder.Payments.Settings.{
  SettingsStore, SettingsView, MethodSettings, ExampleFee, example_amounts, examples_of,
  method_views, view, in_force, rules_of, policy_of, eqb_rule, rule_at, put_rule, any_enabled,
  rule_changed, rule_saved, method_tx, accepted, update_method,
}
use kue_preorder.Payments.Settings.Rules.{in_force-put}
use kue_preorder.Payments.Settings.Sound.{IsSoundSettings, accepted_rule, method_tx-IsSoundSettings}

rule_bounds :
    (r : FeeRule)
    → validate_rule r ≡ ok tt
    → (is_valid r.method ≡ true)
      × (pos 0 ≤ℤ r.fixed_idr)
      × (r.fixed_idr ≤ℤ pos max_fixed)
      × (pos 0 ≤ℤ r.rate_bps)
      × (r.rate_bps ≤ℤ pos max_rate)
unfolding validate_rule
rule_bounds r h =
    let c1 = check-eq-nil _ "rate_bps" _ (fields_err-eq-ok _ h) in
    let c2 = check-eq-nil _ "fixed_idr" _ c1.1 in
    let c3 = check-eq-nil _ "method" _ c2.1 in
    (c3.0, ground (arith, c2.0), ground (arith, c2.0), ground (arith, c1.0), ground (arith, c1.0))

pos_of : (z : ℤ) → pos 0 ≤ℤ z → (n : ℕ) × (z ≡ pos n)
pos_of (pos n) h = (n, refl)
pos_of (negsuc n) h = absurd (omega arith)

fee_qris : (r : FeeRule) (a : ℤ) → eqb_method r.method qris ≡ true → fee r a ≡ ok (pos 0)
unfolding fee
fee_qris r a h = rw h refl

fee_other :
    (r : FeeRule) (fx rate a : ℕ)
    → eqb_method r.method qris ≡ false
    → is_valid r.method ≡ true
    → r.fixed_idr ≡ pos fx
    → r.rate_bps ≡ pos rate
    → r.fixed_idr ≤ℤ pos max_fixed
    → r.rate_bps ≤ℤ pos max_rate
    → 1 ≤ a
    → a ≤ max_order_total
    → (f : ℤ) × (fee r (pos a) ≡ ok f)
fee_other r fx rate a other valid ef er hf hr low high =
    let (extra, e, kept, least) =
      fee_least r fx rate a (λ same. cc (ap (λ m. eqb_method m qris) same)) valid ef
        (ground (arith, ef)) er (ground (arith, er)) low high in
    (pos extra, e)

-- A valid rule has a fee for every amount in range.
fee_ok :
    (r : FeeRule) (a : ℕ)
    → validate_rule r ≡ ok tt
    → 1 ≤ a
    → a ≤ max_order_total
    → (f : ℤ) × (fee r (pos a) ≡ ok f)
fee_ok r a v low high = elim (Bool-cases (eqb_method r.method qris)) [
  | inl t ↦ (pos 0, fee_qris r (pos a) t)
  | inr other ↦
      (let (valid, f_low, f_high, r_low, r_high) = rule_bounds r v in
        let (fx, ef) = pos_of r.fixed_idr f_low in
        let (rate, er) = pos_of r.rate_bps r_low in
        fee_other r fx rate a other valid ef er f_high r_high low high)
]

-- What the owner is shown of a rule: the fee of each example amount.
abbrev pub ShowsFees : FeeRule → List ℤ → List ExampleFee → Type 0
ShowsFees r [] [] = Unit
ShowsFees r (a ∷ rest) (e ∷ es) =
    (e.amount_idr ≡ a) × (fee r a ≡ ok e.fee_idr) × ShowsFees r rest es
ShowsFees r _ _ = ⊥

-- Each method, in the order of `Methods`, with its rule in force, its default and the example fees.
abbrev pub ShowsMethods : FeeRules → List Method → List MethodSettings → Type 0
ShowsMethods rules [] [] = Unit
ShowsMethods rules (m ∷ ms) (v ∷ vs) =
    (rules m ≡ some v.rule)
    × (default_fee_rules m ≡ some v.default_rule)
    × ShowsFees v.rule (pos 50000 ∷ pos 150000 ∷ pos 500000 ∷ []) v.examples
    × ShowsMethods rules ms vs
ShowsMethods rules _ _ = ⊥

abbrev pub Shows : SettingsStore → SettingsView → Type 0
Shows s v =
    (v.policy ≡ policy_of s)
    × ShowsMethods (rules_of s) (qris ∷ bank_transfer ∷ ewallet ∷ minimarket ∷ []) v.methods

examples_ok :
    (r : FeeRule)
    → validate_rule r ≡ ok tt
    → (es : List ExampleFee) × (examples_of r example_amounts ≡ ok es)
      × ShowsFees r example_amounts es
unfolding examples_of
examples_ok r v =
    let (a, ea) = fee_ok r 50000 v (omega arith) (omega arith) in
    let (b, eb) = fee_ok r 150000 v (omega arith) (omega arith) in
    let (c, ec) = fee_ok r 500000 v (omega arith) (omega arith) in
    (
      record { amount_idr = pos 50000; fee_idr = a }
          ∷ record { amount_idr = pos 150000; fee_idr = b }
          ∷ record { amount_idr = pos 500000; fee_idr = c }
          ∷ [],
      rw (ea, eb, ec) refl,
      (refl, ea, (refl, eb, (refl, ec, tt))),
    )

in_force-ne-none : (own : FeeRules) (m : Method) → is_valid m ≡ true → in_force own m ≢ none
unfolding in_force default_fee_rules is_valid
in_force-ne-none own qris v = λ n. ground (arith, n)
in_force-ne-none own bank_transfer v = λ n. ground (arith, n)
in_force-ne-none own ewallet v = λ n. ground (arith, n)
in_force-ne-none own minimarket v = λ n. ground (arith, n)
in_force-ne-none own blank v = cc
in_force-ne-none own unknown v = cc

rule_at-valid :
    (s : SettingsStore) (m : Method)
    → is_valid m ≡ true
    → IsSoundSettings s
    → validate_rule (rule_at (rules_of s) m) ≡ ok tt
unfolding rule_at rules_of
rule_at-valid s m v h = elim (Option-cases (rules_of s m)) [
  | inl n ↦ absurd (in_force-ne-none s.own_rules m v n)
  | inr (r, e) ↦ rw (e, rule_at) (h.rules_valid m r e).0
]

has_rule :
    (own : FeeRules) (m : Method)
    → is_valid m ≡ true
    → in_force own m ≡ some (rule_at (in_force own) m)
unfolding rule_at
has_rule own m v = elim (Option-cases (in_force own m)) [
  | inl n ↦ absurd (in_force-ne-none own m v n)
  | inr (r, e) ↦ rw (e, rule_at) refl
]

has_default :
    (m : Method) → is_valid m ≡ true → default_fee_rules m ≡ some (rule_at default_fee_rules m)
unfolding rule_at default_fee_rules is_valid
has_default qris v = refl
has_default bank_transfer v = refl
has_default ewallet v = refl
has_default minimarket v = refl
has_default blank v = cc
has_default unknown v = cc

method_views_ok :
    (s : SettingsStore) (ms : List Method)
    → IsSoundSettings s
    → All (λ m. is_valid m ≡ true) ms
    → (vs : List MethodSettings) × (method_views (rules_of s) ms ≡ ok vs)
      × ShowsMethods (rules_of s) ms vs
unfolding method_views rules_of
method_views_ok s [] h v = ([], refl, tt)
method_views_ok s (m ∷ ms) h v =
    let (es, e, fees) = examples_ok (rule_at (rules_of s) m) (rule_at-valid s m v.0 h) in
    let (vs, k, rest) = method_views_ok s ms h v.1 in
    (
      record {
        rule = rule_at (rules_of s) m;
        default_rule = rule_at default_fee_rules m;
        examples = es;
      }
          ∷ vs,
      rw (e, k) refl,
      (has_rule s.own_rules m v.0, has_default m v.0, fees, rest),
    )

-- Sound settings can always be shown.
view_ok : (s : SettingsStore) → IsSoundSettings s → (v : SettingsView) × (view s ≡ ok v) × Shows s v
unfolding view is_valid
view_ok s h =
    let (vs, e, shown) = method_views_ok s methods h (refl, (refl, (refl, (refl, tt)))) in
    (record { policy = policy_of s; methods = vs }, rw e refl, (refl, shown))

-- The three ends of an accepted edit of a rule.
abbrev pub Edited :
    Principal → FeeRule → ℤ → SettingsStore → Result Error SettingsView × SettingsStore → Type 0
Edited p r now s answer =
    ((eqb_rule (rule_at (rules_of s) r.method) r ≡ true)
      × (answer.1 ≡ s)
      × ((v : SettingsView) × (answer.0 ≡ ok v) × Shows answer.1 v))
    ⊎ ((any_enabled (put_rule r.method (some r) (rules_of s)) ≡ false)
        × (answer ≡ (err (precondition "last_method"), s)))
    ⊎ ((rules_of answer.1 ≡ put_rule r.method (some r) (rules_of s))
        × (policy_of answer.1 ≡ policy_of s)
        × (answer.1.audits ≡ s.audits ++ rule_changed p now s ∷ [])
        × ((v : SettingsView) × (answer.0 ≡ ok v) × Shows answer.1 v))

-- The three ends of the transaction.
method_tx_ends :
    (p : Principal) (r : FeeRule) (now : ℤ) (s : SettingsStore)
    → ((eqb_rule (rule_at (rules_of s) r.method) r ≡ true) × (method_tx p r now s ≡ ok s))
      ⊎ ((any_enabled (put_rule r.method (some r) (rules_of s)) ≡ false)
          × (method_tx p r now s ≡ err (precondition "last_method")))
      ⊎ ((s' : SettingsStore) × (method_tx p r now s ≡ ok s')
          × (rules_of s' ≡ put_rule r.method (some r) (rules_of s))
          × (policy_of s' ≡ policy_of s)
          × (s'.audits ≡ s.audits ++ rule_changed p now s ∷ []))
unfolding method_tx rules_of policy_of
method_tx_ends p r now s = elim (Bool-cases (eqb_rule (rule_at (rules_of s) r.method) r)) [
  | inl t ↦ inl (t, rw t refl)
  | inr f ↦ elim (Bool-cases (any_enabled (put_rule r.method (some r) (rules_of s)))) [
    | inr off ↦ inr (inl (off, rw (f, off) refl))
    | inl on ↦ inr (
        inr
          (rule_saved p r now s, rw (f, on) refl, in_force-put s.own_rules r.method r, refl, refl))
  ]
]

-- On sound settings, an accepted edit of a rule by the owner ends in one of three ways. A rule that is
-- in force already changes nothing. A rule that would leave no method on offer is refused. Any other
-- becomes the rule of its method, the other rules and the policy stay, and one audit entry names the
-- caller. In the first and the last the answer shows the settings that then hold: the policy and, for each
-- method, the rule in force, the default rule, and the fees that the rule asks for Rp50.000, Rp150.000 and
-- Rp500.000.
pub update_method-Edited :
    (caller : Result Error Principal) (r : FeeRule) (reason : Text) (now : ℤ) (s : SettingsStore)
    (p : Principal)
    → IsSoundSettings s
    → accepted caller (validate_rule r) reason ≡ ok p
    → Edited p r now s (update_method caller r reason now s)
unfolding update_method
update_method-Edited caller r reason now s p h e = elim (method_tx_ends p r now s) [
  | inl (same, k) ↦ rw (e, update_method) (rw k (inl (same, refl, view_ok s h)))
  | inr (inl (off, k)) ↦ rw (e, update_method) (rw k (inr (inl (off, refl))))
  | inr (inr (s', k, rules, policy, audits)) ↦
      (let sound = method_tx-IsSoundSettings p r now s s' (accepted_rule caller r reason p e) h k in
        rw (e, update_method) (rw k (inr (inr (rules, policy, audits, view_ok s' sound)))))
]
