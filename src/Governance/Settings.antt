-- ===== src/Governance/Settings.antt =====
-- The parameter sets as tables from the names of parameters to their values: what a change of a
-- parameter means, apart from how x/governance/keeper/parameter_applier.go makes it.
pub mod Updates
use volnix_protocol.Base.{ℕ, Bool, true, false, some, [], ◌∷◌, Text, codes, ℤ, ◌≡◌, ok}
use volnix_protocol.Strconv.{parse_uint}
use volnix_protocol.KvStore.{KvStore, text_key}
use volnix_protocol.KvStore
use volnix_protocol.Host.{Host}
use volnix_protocol.Lizenz
use volnix_protocol.Anteil
use volnix_protocol.Consensus
use volnix_protocol.Governance.Types.{Params}

pub data Value : Type 0 where
  words : Text → Value
  number : ℕ → Value
  span : ℤ → Value
  flag : Bool → Value

-- The names stand in their order.
abbrev pub lizenz_table : Lizenz.Params.Params → KvStore Text Value
lizenz_table p =
    (codes "activity_coefficient", words p.activity_coefficient)
    ∷ (codes "deactivation_period", span p.deactivation_period)
    ∷ (codes "inactivity_period", span p.inactivity_period)
    ∷ (codes "lzn_denom", words p.lzn_denom)
    ∷ (codes "max_activated_per_validator", number p.max_activated_per_validator)
    ∷ (codes "max_lzn_amount", words p.max_lzn_amount)
    ∷ (codes "min_lzn_amount", words p.min_lzn_amount)
    ∷ (codes "require_identity_verification", flag p.require_identity_verification)
    ∷ []

abbrev pub anteil_table : Anteil.Params.Params → KvStore Text Value
anteil_table p =
    (codes "ant_denom", words p.ant_denom)
    ∷ (codes "citizen_ant_accumulation_limit", words p.citizen_ant_accumulation_limit)
    ∷ (codes "citizen_ant_distribution_period", span p.citizen_ant_distribution_period)
    ∷ (codes "citizen_ant_reward_rate", words p.citizen_ant_reward_rate)
    ∷ (codes "liquidity_pool_fee", words p.liquidity_pool_fee)
    ∷ (codes "market_maker_reward_rate", words p.market_maker_reward_rate)
    ∷ (codes "market_making_buy_discount", words p.market_making_buy_discount)
    ∷ (codes "market_making_order_size", words p.market_making_order_size)
    ∷ (codes "market_making_sell_premium", words p.market_making_sell_premium)
    ∷ (codes "max_ant_amount", words p.max_ant_amount)
    ∷ (codes "max_open_orders", number p.max_open_orders)
    ∷ (codes "max_order_size", words p.max_order_size)
    ∷ (codes "max_slippage", words p.max_slippage)
    ∷ (codes "min_ant_amount", words p.min_ant_amount)
    ∷ (codes "min_liquidity_threshold", number p.min_liquidity_threshold)
    ∷ (codes "min_order_size", words p.min_order_size)
    ∷ (codes "order_expiry", span p.order_expiry)
    ∷ (codes "price_precision", words p.price_precision)
    ∷ (codes "require_identity_verification", flag p.require_identity_verification)
    ∷ (codes "staking_reward_rate", words p.staking_reward_rate)
    ∷ (codes "trading_fee_rate", words p.trading_fee_rate)
    ∷ []

abbrev pub consensus_table : Consensus.Params.Params → KvStore Text Value
consensus_table p =
    (codes "activity_decay_rate", words p.activity_decay_rate)
    ∷ (codes "activity_factor_high", words p.activity_factor_high)
    ∷ (codes "activity_factor_medium", words p.activity_factor_medium)
    ∷ (codes "activity_factor_normal", words p.activity_factor_normal)
    ∷ (codes "auction_history_blocks", number p.auction_history_blocks)
    ∷ (codes "average_block_time_window_size", number p.average_block_time_window_size)
    ∷ (codes "base_block_reward", words p.base_block_reward)
    ∷ (codes "base_block_time", words p.base_block_time)
    ∷ (codes "bid_history_limit", number p.bid_history_limit)
    ∷ (codes "block_creator_selection_rounds", number p.block_creator_selection_rounds)
    ∷ (codes "high_activity_threshold", number p.high_activity_threshold)
    ∷ (codes "low_activity_threshold", number p.low_activity_threshold)
    ∷ (codes "max_burn_amount", words p.max_burn_amount)
    ∷ (codes "min_burn_amount", words p.min_burn_amount)
    ∷ (codes "moa_penalty_rate", words p.moa_penalty_rate)
    ∷ (codes "moa_penalty_threshold_high", words p.moa_penalty_threshold_high)
    ∷ (codes "moa_penalty_threshold_low", words p.moa_penalty_threshold_low)
    ∷ (codes "moa_penalty_threshold_medium", words p.moa_penalty_threshold_medium)
    ∷ (codes "moa_penalty_threshold_warning", words p.moa_penalty_threshold_warning)
    ∷ (codes "rapid_bid_limit", number p.rapid_bid_limit)
    ∷ []

abbrev pub governance_table : Params → KvStore Text Value
governance_table p =
    (codes "min_deposit", words p.min_deposit)
    ∷ (codes "quorum", words p.quorum)
    ∷ (codes "threshold", words p.threshold)
    ∷ (codes "timelock_period", span p.timelock_period)
    ∷ (codes "voting_period", span p.voting_period)
    ∷ []

-- What a text stands for as the value of a parameter.
pub data Reads (h : Host) (t : Text) : Value → Type 0 where
  as_words : Reads h t (words t)
  as_number : (top n : ℕ) → parse_uint top t ≡ ok n → Reads h t (number n)
  as_span : (d : ℤ) → h.parse_duration t ≡ some d → Reads h t (span d)

abbrev pub same_kind : Value → Value → Bool
same_kind (words s) (words t) = true
same_kind (number m) (number n) = true
same_kind (span d) (span f) = true
same_kind (flag a) (flag b) = true
same_kind _ _ = false

-- The table after is the table before with one entry replaced, which was there and had a value of
-- the same kind: the one of that name, by what the text stands for.
pub record Updated (h : Host) (name t : Text) (old new : KvStore Text Value) : Type 0 where
  pub before : Value
  pub found : KvStore.get name old ≡ some before
  pub value : Value
  pub read : Reads h t value
  pub alike : same_kind before value ≡ true
  pub replaced : new ≡ KvStore.set name value old
