-- ===== src/Lizenz/Params.antt =====
-- The parameters of the lizenz module (x/lizenz/types/params.go).
use volnix_protocol.Base.{ℕ, ◌*◌, Bool, true, Text, codes, ℤ}
use volnix_protocol.Host.{hours}

pub record Params : Type 0 where
  pub max_activated_per_validator : ℕ
  pub activity_coefficient : Text
  pub deactivation_period : ℤ
  pub inactivity_period : ℤ
  pub min_lzn_amount : Text
  pub max_lzn_amount : Text
  pub require_identity_verification : Bool
  pub lzn_denom : Text

abbrev pub default_params : Params
default_params = record {
  max_activated_per_validator = 10;
  activity_coefficient = codes "1.0";
  deactivation_period = hours 24;
  inactivity_period = hours (7 * 24);
  min_lzn_amount = codes "1000000";
  max_lzn_amount = codes "1000000000";
  require_identity_verification = true;
  lzn_denom = codes "ulzn";
}
