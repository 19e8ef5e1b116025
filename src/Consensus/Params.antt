-- ===== src/Consensus/Params.antt =====
-- The parameters of the consensus module (x/consensus/types/types.go).
use volnix_protocol.Base.{ℕ, Text, codes}

pub record Params : Type 0 where
  pub base_block_time : Text
  pub high_activity_threshold : ℕ
  pub low_activity_threshold : ℕ
  pub min_burn_amount : Text
  pub max_burn_amount : Text
  pub block_creator_selection_rounds : ℕ
  pub activity_decay_rate : Text
  pub moa_penalty_rate : Text
  pub base_block_reward : Text
  pub moa_penalty_threshold_high : Text
  pub moa_penalty_threshold_warning : Text
  pub moa_penalty_threshold_medium : Text
  pub moa_penalty_threshold_low : Text
  pub activity_factor_high : Text
  pub activity_factor_medium : Text
  pub activity_factor_normal : Text
  pub average_block_time_window_size : ℕ
  pub bid_history_limit : ℕ
  pub auction_history_blocks : ℕ
  pub rapid_bid_limit : ℕ

abbrev pub default_params : Params
default_params = record {
  base_block_time = codes "5s";
  high_activity_threshold = 1000;
  low_activity_threshold = 100;
  min_burn_amount = codes "1000000uvx";
  max_burn_amount = codes "1000000000uvx";
  block_creator_selection_rounds = 10;
  activity_decay_rate = codes "0.95";
  moa_penalty_rate = codes "0.1";
  base_block_reward = codes "50000000uwrt";
  moa_penalty_threshold_high = codes "1.0";
  moa_penalty_threshold_warning = codes "0.9";
  moa_penalty_threshold_medium = codes "0.7";
  moa_penalty_threshold_low = codes "0.5";
  activity_factor_high = codes "0.5";
  activity_factor_medium = codes "0.75";
  activity_factor_normal = codes "1.0";
  average_block_time_window_size = 1000;
  bid_history_limit = 100;
  auction_history_blocks = 100;
  rapid_bid_limit = 5;
}
