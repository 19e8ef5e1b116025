-- ===== src/Consensus/Distribution.antt =====
-- x/consensus/keeper/keeper.go: the base reward of a block is shared out by activated licences.
use volnix_protocol.Base.{
  ℕ, ◌+◌, ◌-◌, ◌*◌, ◌/◌, ◌%◌, ◌^◌, Option, none, some, List, [], ◌∷◌, Text, codes, ltb, nat_eq,
  if◌then◌else◌, ok, err,
}
use volnix_protocol.KvStore.{KvStore, text_key}
use volnix_protocol.KvStore
use volnix_protocol.Host.{Host}
use volnix_protocol.Strconv.{parse_uint, max_uint64}
use volnix_protocol.Consensus.Params.{Params}
use volnix_protocol.Consensus.Rewards.{calculate_base_reward}

-- What the distribution asks of the lizenz keeper and of the bank, on their state `W`; `none` is
-- an error. `activated` gives the validators and amounts of GetAllActivatedLizenz.
module _ (h : Host) where
  pub record ValidatorRewardInfo : Type 0 where
    pub validator : Text
    pub activated_lzn : ℕ
    pub reward_share : h.Float
    pub base_reward_amount : ℕ
    pub moa_compliance : h.Float
    pub penalty_multiplier : h.Float
    pub final_reward_amount : ℕ

  pub record LizenzKeeper (W : Type 0) : Type 0 where
    pub activated : W → Option (List (Text × Text))
    pub get_moa_compliance : Text → W → Option h.Float
    pub update_reward_stats : ValidatorRewardInfo → ℕ → W → W

  -- A constant of the source as a float.
  abbrev pub constant : Text → h.Float
  constant t = (h.parse_float t).0

  -- A parameter, or the fallback where it reads as zero.
  unfoldable pub threshold : Text → Text → h.Float
  threshold stated fallback =
      let value = (h.parse_float stated).0 in
      if h.same value (h.of_uint64 0) then constant fallback else value

  unfoldable pub calculate_moa_penalty_multiplier : Params → h.Float → h.Float
  calculate_moa_penalty_multiplier p compliance =
      if h.at_most (threshold p.moa_penalty_threshold_high (codes "1.0")) compliance
      then constant (codes "1.0")
      else if h.at_most (threshold p.moa_penalty_threshold_warning (codes "0.9")) compliance
      then constant (codes "1.0")
      else if h.at_most (threshold p.moa_penalty_threshold_medium (codes "0.7")) compliance
      then constant (codes "0.75")
      else if h.at_most (threshold p.moa_penalty_threshold_low (codes "0.5")) compliance
      then constant (codes "0.5")
      else constant (codes "0.0")

  unfoldable pub total_lzn : List (Text × ℕ) → ℕ
  total_lzn [] = 0
  total_lzn ((v, lzn) ∷ rest) = (lzn + total_lzn rest) % 2 ^ 64

  -- The share of the base reward before the penalty; the product wraps.
  unfoldable pub base_share : ℕ → ℕ → ℕ → ℕ
  base_share base_reward total lzn = (base_reward * lzn) % 2 ^ 64 / total

  abbrev pub compliance_or_full : Option h.Float → h.Float
  compliance_or_full none = constant (codes "1.0")
  compliance_or_full (some c) = c

  unfoldable pub reward_for :
      Params → (Text → Option h.Float) → ℕ → ℕ → Text → ℕ → ValidatorRewardInfo
  reward_for p compliance_of base_reward total v lzn =
      let compliance = compliance_or_full (compliance_of v) in
      let multiplier = calculate_moa_penalty_multiplier p compliance in
      let share = base_share base_reward total lzn in
      record {
        validator = v;
        activated_lzn = lzn;
        reward_share = h.over (h.of_uint64 lzn) (h.of_uint64 total);
        base_reward_amount = share;
        moa_compliance = compliance;
        penalty_multiplier = multiplier;
        final_reward_amount = h.to_uint64 (h.times (h.of_uint64 share) multiplier);
      }

  unfoldable pub rewards_for :
      Params → (Text → Option h.Float) → ℕ → ℕ → List (Text × ℕ) → List ValidatorRewardInfo
  rewards_for p compliance_of base_reward total [] = []
  rewards_for p compliance_of base_reward total ((v, lzn) ∷ rest) =
      let more = rewards_for p compliance_of base_reward total rest in
      if nat_eq lzn 0 then more else reward_for p compliance_of base_reward total v lzn ∷ more

  unfoldable pub distributed : List ValidatorRewardInfo → ℕ
  distributed [] = 0
  distributed (r ∷ rs) = (r.final_reward_amount + distributed rs) % 2 ^ 64

  -- The remainder goes to the first that complies.
  unfoldable pub give_remainder : ℕ → List ValidatorRewardInfo → List ValidatorRewardInfo
  give_remainder remainder [] = []
  give_remainder remainder (r ∷ rs) =
      let later = give_remainder remainder rs in
      if h.at_most (constant (codes "1.0")) r.moa_compliance
      then (record r { final_reward_amount = (r.final_reward_amount + remainder) % 2 ^ 64 }) ∷ rs
      else r ∷ later

  unfoldable pub with_remainder : ℕ → List ValidatorRewardInfo → List ValidatorRewardInfo
  with_remainder base_reward rs =
      if ltb (distributed rs) base_reward
      then give_remainder (base_reward - distributed rs) rs
      else rs

  -- The rewards, or `none` for an error. The list is the map of licences in the order in which
  -- `range` happens to go through it.
  unfoldable pub calculate_reward_distribution :
      Params → (Text → Option h.Float) → ℕ → List (Text × ℕ) → Option (List ValidatorRewardInfo)
  calculate_reward_distribution p compliance_of base_reward lzns =
      if nat_eq (total_lzn lzns) 0
      then none
      else some (
          with_remainder base_reward
            (rewards_for p compliance_of base_reward (total_lzn lzns) lzns))

  -- The amounts that can be read, the last of each validator.
  unfoldable pub lzn_map : List (Text × Text) → KvStore Text ℕ → KvStore Text ℕ
  lzn_map [] m = m
  lzn_map ((v, amount) ∷ rest) m = elim (parse_uint max_uint64 amount) [
    | err x ↦ lzn_map rest m
    | ok n ↦ lzn_map rest (KvStore.set v n m)
  ]

  module _ (W : Type 0) where
    unfoldable pub update_all : LizenzKeeper W → ℕ → List ValidatorRewardInfo → W → W
    update_all k height [] w = w
    update_all k height (r ∷ rs) w = update_all k height rs (k.update_reward_stats r height w)

    -- MintCoins and SendCoinsFromModuleToAccount; their errors are logged, and what was minted stays.
    pub record RewardBank : Type 0 where
      pub address : Text → Option Text
      pub mint : ℕ → W → Option W
      pub send : Text → ℕ → W → Option W

    unfoldable pub send_reward : RewardBank → ValidatorRewardInfo → W → W
    send_reward b r w = elim (b.address r.validator) [
      | none ↦ w
      | some account ↦ elim (b.mint r.final_reward_amount w) [
        | none ↦ w
        | some minted ↦ elim (b.send account r.final_reward_amount minted) [
          | none ↦ minted
          | some sent ↦ sent
        ]
      ]
    ]

    unfoldable pub send_all : RewardBank → List ValidatorRewardInfo → W → W
    send_all b [] w = w
    send_all b (r ∷ rs) w = send_all b rs (send_reward b r w)

    unfoldable pub pay_rewards :
        LizenzKeeper W → Option RewardBank → ℕ → List ValidatorRewardInfo → W → W
    pay_rewards k bank height rs w =
        let noted = update_all k height rs w in
        elim bank [ none ↦ noted | some b ↦ send_all b rs noted ]

    -- `arrange` is the order of the map. The error of the distribution is logged by EndBlocker.
    unfoldable pub distribute_base_rewards :
        Params
        → Option (LizenzKeeper W)
        → Option RewardBank
        → (List (Text × ℕ) → List (Text × ℕ))
        → ℕ
        → W
        → W
    distribute_base_rewards p lizenz bank arrange height w = elim lizenz [
      | none ↦ w
      | some k ↦ elim (k.activated w) [
        | none ↦ w
        | some all ↦
            elim (calculate_reward_distribution p (λ v. k.get_moa_compliance v w)
              (calculate_base_reward p height) (arrange (lzn_map all []))) [
                | none ↦ w
                | some rewards ↦ pay_rewards k bank height rewards w
              ]
      ]
    ]
