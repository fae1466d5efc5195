-- ===== src/Payments/Settings/Tests.antt =====
-- The theorems on the payment settings at concrete data: a shop that never changed them.
use kue_preorder.Prelude.{pos, refl, [], ◌∷◌, none, true}
use kue_preorder.Prelude.Text.{codes, is_empty, is_space, trim_left, trim_space}
use kue_preorder.Prelude.Result.{ok}
use kue_preorder.Platform.Errors.{check, fields_err, join}
use kue_preorder.Platform.Caller.{owner, Principal, authorize}
use kue_preorder.Payments.Dp.{default_policy, validate}
use kue_preorder.Payments.Fee.{ewallet, qris, FeeRule, default_fee_rules, is_valid, validate_rule}
use kue_preorder.Payments.Settings.{
  SettingsStore, policy_of, rules_of, any_enabled, accepted, update_policy, update_method,
  reset_method,
}
use kue_preorder.Payments.Settings.Rules.{default_rule-valid}
use kue_preorder.Payments.Settings.Sound.{IsSoundSettings, settings_keep}
use kue_preorder.Payments.Settings.Effect.{Edited, update_method-Edited}

abbrev untouched : SettingsStore
untouched = record { tenant_id = 1; own_policy = none; own_rules = λ m. none; audits = [] }

untouched-IsSoundSettings : IsSoundSettings untouched
unfolding policy_of rules_of any_enabled default_fee_rules validate fields_err check
untouched-IsSoundSettings = record {
  policy_valid = refl;
  rules_valid = default_rule-valid;
  on_offer = refl;
}

abbrev shop_owner : Principal
shop_owner = record { auth_user_id = 5; roles = owner ∷ []; customer_id = none }

abbrev dearer : FeeRule
dearer = record {
  method = ewallet;
  fixed_idr = pos 0;
  rate_bps = pos 250;
  vat_included = true;
  enabled = true;
}

settings_keep_example :
    IsSoundSettings
      (update_policy (ok shop_owner) default_policy (codes "baru") (pos 9) untouched).1
    × IsSoundSettings (update_method (ok shop_owner) dearer (codes "baru") (pos 9) untouched).1
    × IsSoundSettings (reset_method (ok shop_owner) qris (codes "baru") (pos 9) untouched).1
settings_keep_example =
    settings_keep (ok shop_owner) default_policy dearer qris (codes "baru") (pos 9) untouched
      untouched-IsSoundSettings

update_method-Edited_example :
    Edited shop_owner dearer
      (pos 9)
      untouched
      (update_method (ok shop_owner) dearer (codes "baru") (pos 9) untouched)
unfolding accepted authorize join validate_rule is_valid fields_err check trim_space trim_left
    is_space is_empty
update_method-Edited_example =
    update_method-Edited (ok shop_owner) dearer (codes "baru") (pos 9) untouched shop_owner
      untouched-IsSoundSettings refl
