-- ===== src/Lizenz/Types.antt =====
-- The records of x/lizenz (types/types.go, proto/volnix/lizenz/v1/types.proto) and its errors.
use volnix_protocol.Base.{
  ℕ, Bool, true, false, Option, Text, codes, is_empty, text_lt, ℤ, ◌+ℤ◌, if◌then◌else◌, Outcome, ok,
  err, [], ◌∷◌, ltb, ◌+◌,
}
use volnix_protocol.Host.{hours}

pub record ActivatedLizenz : Type 0 where
  pub validator : Text
  pub amount : Text
  pub activation_time : ℤ
  pub last_activity : ℤ
  pub identity_hash : Text
  pub consensus_participation : Text
  pub ant_market_access : Text
  pub performance_rating : Text
  pub is_eligible_for_rewards : Bool
  pub total_rewards_earned : Text
  pub last_reward_block : Text
  pub last_reward_time : Option ℤ

pub record DeactivatingLizenz : Type 0 where
  pub validator : Text
  pub amount : Text
  pub deactivation_start : ℤ
  pub deactivation_end : ℤ
  pub reason : Text
  pub deactivation_impact_score : Text
  pub replacement_validator : Text
  pub emergency_deactivation : Bool

pub record MoaStatus : Type 0 where
  pub validator : Text
  pub is_active : Bool
  pub last_activity : ℤ
  pub current_moa : Text
  pub required_moa : Text
  pub next_check : ℤ
  pub is_compliant : Bool
  pub consensus_contribution : Text
  pub market_participation : Text
  pub overall_score : Text

pub data Error : Type 0 where
  empty_validator empty_amount empty_identity_hash empty_reason : Error
  empty_current_moa empty_required_moa : Error
  lizenz_already_exists lizenz_not_found : Error
  invalid_amount exceeds_max_activated below_min_amount exceeds_max_lzn_activation : Error
  identity_not_verified invalid_role_for_lizenz : Error
  invalid_total invalid_current_moa invalid_required_moa : Error

abbrev pub new_deactivating_lizenz : ℤ → Text → Text → Text → DeactivatingLizenz
new_deactivating_lizenz now validator amount reason = record {
  validator = validator;
  amount = amount;
  deactivation_start = now;
  deactivation_end = now +ℤ hours 24;
  reason = reason;
  deactivation_impact_score = [];
  replacement_validator = [];
  emergency_deactivation = false;
}

unfoldable pub is_activated_lizenz_valid : ActivatedLizenz → Outcome Error (Unit {0})
is_activated_lizenz_valid l =
    if is_empty l.validator
    then err empty_validator
    else if is_empty l.amount
    then err empty_amount
    else if is_empty l.identity_hash
    then err empty_identity_hash
    else ok tt

unfoldable pub is_deactivating_lizenz_valid : DeactivatingLizenz → Outcome Error (Unit {0})
is_deactivating_lizenz_valid l =
    if is_empty l.validator
    then err empty_validator
    else if is_empty l.amount
    then err empty_amount
    else if is_empty l.reason
    then err empty_reason
    else ok tt

unfoldable pub is_moa_status_valid : MoaStatus → Outcome Error (Unit {0})
is_moa_status_valid m =
    if is_empty m.validator
    then err empty_validator
    else if is_empty m.current_moa
    then err empty_current_moa
    else if is_empty m.required_moa
    then err empty_required_moa
    else ok tt

abbrev pub update_activated_lizenz_activity : ℤ → ActivatedLizenz → ActivatedLizenz
update_activated_lizenz_activity now l = record l { last_activity = now }

-- The two values are compared as strings.
abbrev pub update_moa_status_activity : ℤ → Text → MoaStatus → MoaStatus
update_moa_status_activity now current m = record m {
  last_activity = now;
  current_moa = current;
  is_compliant = if text_lt current m.required_moa then false else true;
}

abbrev text_length : Text → ℕ
text_length [] = 0
text_length (c ∷ s) = 1 + text_length s

unfoldable pub calculate_moa : Text → Text
calculate_moa activity_data =
    if ltb 10 (text_length activity_data)
    then codes "85.5"
    else if ltb 5 (text_length activity_data)
    then codes "65.0"
    else codes "45.0"
