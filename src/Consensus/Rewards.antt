-- ===== src/Consensus/Rewards.antt =====
-- x/consensus/keeper/keeper.go: the base reward of a block and its halving.
use volnix_protocol.Base.{
  ℕ, zero, suc, ◌+◌, ◌/◌, ◌%◌, ◌^◌, Bool, false, Option, none, some, codes, is_empty, ℤ, pos, ltb_ℤ,
  leb, nat_eq, if◌then◌else◌, ok, err,
}
use volnix_protocol.Strconv.{parse_uint, max_uint64}
use volnix_protocol.Strconv.Trim.{trim_suffix, trim_space}
use volnix_protocol.Consensus.Params.{Params}
use volnix_protocol.Consensus.Types.{HalvingInfo}
use volnix_protocol.Consensus.Auctions.{State}

abbrev pub halving_interval : ℕ
halving_interval = 210000

unfoldable pub get_halving_count : ℕ → ℕ
get_halving_count height = height / halving_interval

unfoldable pub stated_reward : Params → ℕ
stated_reward p =
    let text = if is_empty p.base_block_reward then codes "50000000uwrt" else p.base_block_reward in
    elim (parse_uint max_uint64 (trim_space (trim_suffix (codes "uwrt") text))) [
      | err x ↦ 50000000
      | ok n ↦ n
    ]

-- The loop of CalculateBaseReward, at most `n` times.
unfoldable pub halved : ℕ → ℕ → ℕ
halved zero reward = reward
halved (suc n) reward = let rest = halved n (reward / 2) in if nat_eq reward 0 then reward else rest

unfoldable pub calculate_base_reward : Params → ℕ → ℕ
calculate_base_reward p height =
    let reward = halved (height / halving_interval) (stated_reward p) in
    if nat_eq reward 0 then 1 else reward

abbrev pub default_halving : HalvingInfo
default_halving = record {
  last_halving_height = 0;
  halving_interval = halving_interval;
  next_halving_height = halving_interval;
  estimated_next_halving_date = none;
  last_halving_date = none;
}

unfoldable pub info_or_default : Option HalvingInfo → HalvingInfo
info_or_default none = default_halving
info_or_default (some i) = i

abbrev pub next_halving : HalvingInfo → HalvingInfo
next_halving i = record i {
  last_halving_height = i.next_halving_height;
  next_halving_height = (i.next_halving_height + i.halving_interval) % 2 ^ 64;
}

abbrev pub is_estimated : Option ℤ → Bool
is_estimated none = false
is_estimated (some t) = ltb_ℤ (pos 0) t

module _ (W : Type 0) where
  unfoldable pub get_halving_info : State W → HalvingInfo
  get_halving_info s = info_or_default s.halving_info

  unfoldable pub set_halving_info : HalvingInfo → State W → State W
  set_halving_info i s = record s { halving_info = some i }

  -- `average_block_time` is what GetAverageBlockTime finds; it decides here whether the record is
  -- written back unchanged.
  unfoldable pub process_halving : ℕ → State W → State W
  process_halving height s =
      let i = get_halving_info s in
      if leb i.next_halving_height height
      then set_halving_info (next_halving i) s
      else if is_estimated s.average_block_time
      then set_halving_info i s
      else s
