-- ===== src/Payments/Settings.antt =====
-- internal/payments/settings.go and internal/payments/reader.go: the owner's edits of the payment
-- policy and of the fee rules. The store is one tenant's; when a row changed is left out.
pub mod Rules
pub mod Sound
pub mod Effect
mod Tests
use kue_preorder.Prelude.{
  ℕ, leb, ℤ, pos, eqb_ℤ, Bool, true, false, not, ◌&&◌, List, [], ◌∷◌, ◌++◌, length, contains_func,
  Option, none, some, if◌then◌else◌,
}
use kue_preorder.Prelude.Text.{Text, is_empty, trim_space}
use kue_preorder.Prelude.Result.{Result, ok, err, ◌>>=◌}
use kue_preorder.Platform.Errors.{Error, precondition, check, fields_err, join}
use kue_preorder.Platform.Caller.{Role, owner, kitchen, Principal, authorize}
use kue_preorder.Platform.Journal.{AuditEntry}
use kue_preorder.Payments.Dp.{Policy, default_policy, validate}
use kue_preorder.Payments.Fee.{
  Method, qris, bank_transfer, ewallet, minimarket, blank, unknown, eqb_method, methods, is_valid,
  FeeRule, FeeRules, default_fee_rules, validate_rule, fee,
}

pub record SettingsStore : Type 0 where
  pub tenant_id : ℕ
  pub own_policy : Option Policy
  pub own_rules : FeeRules
  pub audits : List AuditEntry

-- `Reader.Policy` and `Reader.FeeRules`: the tenant's own, and the defaults otherwise.
unfoldable pub policy_of : SettingsStore → Policy
policy_of s = elim s.own_policy [ none ↦ default_policy | some p ↦ p ]

unfoldable pub in_force : FeeRules → FeeRules
in_force own m = elim (own m) [ none ↦ default_fee_rules m | some r ↦ some r ]

unfoldable pub rules_of : SettingsStore → FeeRules
unfolding in_force
rules_of s = in_force s.own_rules

abbrev eqb_bool : Bool → Bool → Bool
eqb_bool true b = b
eqb_bool false b = not b

-- `==` of the structs, their times of change aside.
unfoldable pub eqb_policy : Policy → Policy → Bool
eqb_policy p q =
    eqb_ℤ p.dp_min_percent q.dp_min_percent
    && eqb_bool p.dp_covers_ingredient_cost q.dp_covers_ingredient_cost
    && eqb_ℤ p.balance_due_hours_before q.balance_due_hours_before
    && eqb_ℤ p.dp_invoice_valid_minutes q.dp_invoice_valid_minutes
    && eqb_ℤ p.dp_min_total_idr q.dp_min_total_idr
    && eqb_ℤ p.min_order_idr q.min_order_idr

unfoldable pub eqb_rule : FeeRule → FeeRule → Bool
eqb_rule r q =
    eqb_method r.method q.method
    && eqb_ℤ r.fixed_idr q.fixed_idr
    && eqb_ℤ r.rate_bps q.rate_bps
    && eqb_bool r.vat_included q.vat_included
    && eqb_bool r.enabled q.enabled

-- A map's value, and the zero rule for a missing key.
unfoldable pub rule_at : FeeRules → Method → FeeRule
rule_at rules m = elim (rules m) [
  | some r ↦ r
  | none ↦ record {
    method = blank;
    fixed_idr = pos 0;
    rate_bps = pos 0;
    vat_included = false;
    enabled = false;
  }
]

-- A write to a map, and a deletion.
unfoldable pub put_rule : Method → Option FeeRule → FeeRules → FeeRules
put_rule m r rules k = if eqb_method k m then r else rules k

unfoldable pub enabled_in : FeeRules → Method → Bool
enabled_in rules m = elim (rules m) [ none ↦ false | some r ↦ r.enabled ]

-- `anyEnabled`, over every key that a map may have.
unfoldable pub any_enabled : FeeRules → Bool
unfolding enabled_in
any_enabled rules =
    contains_func (enabled_in rules)
      (qris ∷ bank_transfer ∷ ewallet ∷ minimarket ∷ blank ∷ unknown ∷ [])

abbrev max_reason : ℕ
max_reason = 500

-- `validate`: the field errors of a change with those of its reason.
unfoldable pub validate_change : Result Error (Unit {0}) → Text → Result Error (Unit {0})
validate_change change reason = join (
    change
    ∷ fields_err (
        check (leb (length reason) max_reason) "reason" (check (not (is_empty reason)) "reason" []))
    ∷ [])

pub record ExampleFee : Type 0 where
  pub amount_idr : ℤ
  pub fee_idr : ℤ

pub record MethodSettings : Type 0 where
  pub rule : FeeRule
  pub default_rule : FeeRule
  pub examples : List ExampleFee

pub record SettingsView : Type 0 where
  pub policy : Policy
  pub methods : List MethodSettings

abbrev pub example_amounts : List ℤ
example_amounts = pos 50000 ∷ pos 150000 ∷ pos 500000 ∷ []

unfoldable pub examples_of : FeeRule → List ℤ → Result Error (List ExampleFee)
examples_of r [] = ok []
examples_of r (a ∷ amounts) = do
  f ← fee r a
  rest ← examples_of r amounts
  ok (record { amount_idr = a; fee_idr = f } ∷ rest)

unfoldable pub method_views : FeeRules → List Method → Result Error (List MethodSettings)
unfolding examples_of rule_at
method_views rules [] = ok []
method_views rules (m ∷ ms) = do
  examples ← examples_of (rule_at rules m) example_amounts
  rest ← method_views rules ms
  ok (
      record {
        rule = rule_at rules m;
        default_rule = rule_at default_fee_rules m;
        examples = examples;
      }
      ∷ rest)

-- `view`.
unfoldable pub view : SettingsStore → Result Error SettingsView
unfolding policy_of rules_of method_views
view s = do
  ms ← method_views (rules_of s) methods
  ok (record { policy = policy_of s; methods = ms })

-- The transactions, with the principal and the time; a result without a write is the store itself.
unfoldable pub policy_tx : Principal → Policy → ℤ → SettingsStore → SettingsStore
unfolding policy_of eqb_policy
policy_tx p in_policy now s = if eqb_policy (policy_of s) in_policy then s else record s {
  own_policy = some in_policy;
  audits =
      s.audits
      ++ record {
        action = "payments.policy.changed";
        entity_id = s.tenant_id;
        actor_id = p.auth_user_id;
        at = now;
      }
        ∷ [];
}

abbrev pub rule_changed : Principal → ℤ → SettingsStore → AuditEntry
rule_changed p now s = record {
  action = "payments.method_fee.changed";
  entity_id = s.tenant_id;
  actor_id = p.auth_user_id;
  at = now;
}

-- `SaveFeeRule` and its audit entry.
abbrev pub rule_saved : Principal → FeeRule → ℤ → SettingsStore → SettingsStore
rule_saved p in_rule now s = record s {
  own_rules = put_rule in_rule.method (some in_rule) s.own_rules;
  audits = s.audits ++ rule_changed p now s ∷ [];
}

unfoldable pub method_tx : Principal → FeeRule → ℤ → SettingsStore → Result Error SettingsStore
unfolding rules_of eqb_rule put_rule any_enabled
method_tx p in_rule now s =
    if eqb_rule (rule_at (rules_of s) in_rule.method) in_rule
    then ok s
    else if not (any_enabled (put_rule in_rule.method (some in_rule) (rules_of s)))
    then err (precondition "last_method")
    else ok (rule_saved p in_rule now s)

unfoldable pub reset_tx : Principal → Method → ℤ → SettingsStore → SettingsStore
unfolding put_rule
reset_tx p m now s = elim (s.own_rules m) [
  | none ↦ s
  | some had ↦ record s {
    own_rules = put_rule m none s.own_rules;
    audits =
        s.audits
        ++ record {
          action = "payments.method_fee.reset";
          entity_id = s.tenant_id;
          actor_id = p.auth_user_id;
          at = now;
        }
          ∷ [];
  }
]

abbrev pub owners : List Role
owners = owner ∷ []

-- What precedes a transaction: the owner, and the checks of the change and of its reason.
unfoldable pub accepted :
    Result Error Principal → Result Error (Unit {0}) → Text → Result Error Principal
unfolding validate_change
accepted caller change reason = do
  p ← authorize caller owners
  _ ← validate_change change (trim_space reason)
  ok p

-- `UpdatePolicy`.
unfoldable pub update_policy :
    Result Error Principal
    → Policy
    → Text
    → ℤ
    → SettingsStore
    → Result Error SettingsView × SettingsStore
unfolding accepted policy_tx view
update_policy caller in_policy reason now s = elim (accepted caller (validate in_policy) reason) [
  | err e ↦ (err e, s)
  | ok p ↦ (let s' = policy_tx p in_policy now s in (view s', s'))
]

-- `UpdateMethod`.
unfoldable pub update_method :
    Result Error Principal
    → FeeRule
    → Text
    → ℤ
    → SettingsStore
    → Result Error SettingsView × SettingsStore
unfolding accepted method_tx view
update_method caller in_rule reason now s = elim (accepted caller (validate_rule in_rule) reason) [
  | err e ↦ (err e, s)
  | ok p ↦ elim (method_tx p in_rule now s) [ err e ↦ (err e, s) | ok s' ↦ (view s', s') ]
]

-- `ResetMethod`.
unfoldable pub reset_method :
    Result Error Principal
    → Method
    → Text
    → ℤ
    → SettingsStore
    → Result Error SettingsView × SettingsStore
unfolding accepted reset_tx view
reset_method caller m reason now s =
    elim (accepted caller (fields_err (check (is_valid m) "method" [])) reason) [
      | err e ↦ (err e, s)
      | ok p ↦ (let s' = reset_tx p m now s in (view s', s'))
    ]
