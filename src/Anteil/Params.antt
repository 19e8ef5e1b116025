-- ===== src/Anteil/Params.antt =====
-- The parameters of the anteil module (x/anteil/types/params.go).
use volnix_protocol.Base.{ℕ, Bool, true, Text, codes, ℤ}
use volnix_protocol.Host.{hours}

pub record Params : Type 0 where
  pub min_ant_amount : Text
  pub max_ant_amount : Text
  pub trading_fee_rate : Text
  pub min_order_size : Text
  pub max_order_size : Text
  pub order_expiry : ℤ
  pub require_identity_verification : Bool
  pub ant_denom : Text
  pub max_open_orders : ℕ
  pub price_precision : Text
  pub market_maker_reward_rate : Text
  pub staking_reward_rate : Text
  pub liquidity_pool_fee : Text
  pub max_slippage : Text
  pub min_liquidity_threshold : ℕ
  pub citizen_ant_reward_rate : Text
  pub citizen_ant_accumulation_limit : Text
  pub citizen_ant_distribution_period : ℤ
  pub market_making_buy_discount : Text
  pub market_making_sell_premium : Text
  pub market_making_order_size : Text

abbrev pub default_params : Params
default_params = record {
  min_ant_amount = codes "1000000";
  max_ant_amount = codes "1000000000";
  trading_fee_rate = codes "0.001";
  min_order_size = codes "100000";
  max_order_size = codes "100000000";
  order_expiry = hours 24;
  require_identity_verification = true;
  ant_denom = codes "uant";
  max_open_orders = 10;
  price_precision = codes "0.000001";
  market_maker_reward_rate = codes "0.002";
  staking_reward_rate = codes "0.05";
  liquidity_pool_fee = codes "0.003";
  max_slippage = codes "0.05";
  min_liquidity_threshold = 1000000;
  citizen_ant_reward_rate = codes "10000000";
  citizen_ant_accumulation_limit = codes "1000000000";
  citizen_ant_distribution_period = hours 24;
  market_making_buy_discount = codes "0.99";
  market_making_sell_premium = codes "1.01";
  market_making_order_size = codes "1000.0";
}
