-- ===== src/Governance/Governable.antt =====
-- x/governance/types/governable_params.go: which parameters a proposal may change.
use volnix_protocol.Base.{
  Bool, true, false, ◌&&◌, Option, none, some, List, [], ◌∷◌, ◌++◌, ◌≡◌, Text, codes, text_eq, ◌==◌,
  text_is_eq, if◌then◌else◌, refl, ◌||◌,
}

pub data ParameterType : Type 0 where
  string uint64 uint32 duration : ParameterType

pub record GovernableParameter : Type 0 where
  pub module_name : Text
  pub parameter : Text
  pub kind : ParameterType

abbrev pub lizenz_name : Text
lizenz_name = codes "lizenz"

abbrev pub anteil_name : Text
anteil_name = codes "anteil"

abbrev pub consensus_name : Text
consensus_name = codes "consensus"

abbrev pub governance_name : Text
governance_name = codes "governance"

abbrev pub constitutional_parameters : List Text
constitutional_parameters =
    codes "wrt_total_supply"
    ∷ codes "wrt_halving_interval"
    ∷ codes "wrt_base_reward"
    ∷ codes "lzn_total_supply"
    ∷ codes "lzn_denom"
    ∷ codes "ident_zkp_requirement"
    ∷ codes "ident_role_choice"
    ∷ codes "lizenz_max_validator_share"
    ∷ []

abbrev entry : Text → Text → ParameterType → GovernableParameter
entry m p k = record { module_name = m; parameter = p; kind = k }

abbrev pub governable_parameters : List GovernableParameter
governable_parameters =
    entry lizenz_name (codes "activity_coefficient") string
    ∷ entry lizenz_name (codes "min_lzn_amount") string
    ∷ entry lizenz_name (codes "max_lzn_amount") string
    ∷ entry lizenz_name (codes "inactivity_period") duration
    ∷ entry lizenz_name (codes "deactivation_period") duration
    ∷ entry anteil_name (codes "min_ant_amount") string
    ∷ entry anteil_name (codes "max_ant_amount") string
    ∷ entry anteil_name (codes "trading_fee_rate") string
    ∷ entry anteil_name (codes "max_open_orders") uint32
    ∷ entry consensus_name (codes "base_block_time") duration
    ∷ entry consensus_name (codes "high_activity_threshold") uint64
    ∷ entry consensus_name (codes "low_activity_threshold") uint64
    ∷ entry governance_name (codes "voting_period") duration
    ∷ entry governance_name (codes "timelock_period") duration
    ∷ entry governance_name (codes "min_deposit") string
    ∷ entry governance_name (codes "quorum") string
    ∷ entry governance_name (codes "threshold") string
    ∷ []

unfoldable pub contains : List Text → Text → Bool
contains [] key = false
contains (k ∷ ks) key = k == key || contains ks key

-- The loop of GetGovernableParameter.
unfoldable pub find_parameter : List GovernableParameter → Text → Text → Option GovernableParameter
find_parameter [] m p = none
find_parameter (g ∷ gs) m p =
    if g.module_name == m && g.parameter == p then some g else find_parameter gs m p

unfoldable pub get_governable_parameter : Text → Text → Option GovernableParameter
get_governable_parameter = find_parameter governable_parameters

-- The loop of IsGovernable.
unfoldable pub is_listed : List GovernableParameter → Text → Text → Bool
is_listed [] m p = false
is_listed (g ∷ gs) m p = if g.module_name == m && g.parameter == p then true else is_listed gs m p

unfoldable pub is_governable : Text → Text → Bool
is_governable m p =
    if contains constitutional_parameters (m ++ codes "_" ++ p)
    then false
    else is_listed governable_parameters m p

moa_is_governable : is_governable lizenz_name (codes "activity_coefficient") ≡ true
unfolding is_governable contains is_listed text_eq
moa_is_governable = refl

supply_is_not : is_governable (codes "wrt") (codes "total_supply") ≡ false
unfolding is_governable contains is_listed text_eq
supply_is_not = refl
