-- ===== src/Governance/Types.antt =====
-- The messages and parameters of x/governance (types/*.go, proto/volnix/governance/v1/types.proto).
use volnix_protocol.Base.{
  ℕ, ◌*◌, ◌≡◌, ◌↔◌, Bool, true, false, Option, none, some, List, arith, Text, codes, is_empty,
  Comparable, ℤ, pos, leb_ℤ, if◌then◌else◌,
}
use volnix_protocol.Host.{hours}

pub data ProposalStatus : Type 0 where
  unspecified submitted voting passed executed rejected expired : ProposalStatus

pub data ProposalType : Type 0 where
  unspecified_type parameter_change text : ProposalType

pub data VoteOption : Type 0 where
  unspecified_option yes_option no_option abstain_option : VoteOption

pub record ParameterChange : Type 0 where
  pub module_name : Text
  pub parameter : Text
  pub old_value : Text
  pub new_value : Text
  pub description : Text

-- A message that is absent in the protobuf text is `none`; instants and durations are nanoseconds.
pub record Proposal : Type 0 where
  pub proposal_id : ℕ
  pub proposer : Text
  pub proposal_type : ProposalType
  pub title : Text
  pub description : Text
  pub status : ProposalStatus
  pub submit_time : ℤ
  pub voting_start_time : ℤ
  pub voting_period : ℤ
  pub voting_end_time : ℤ
  pub execution_time : Option ℤ
  pub timelock_period : ℤ
  pub yes_votes : Text
  pub no_votes : Text
  pub abstain_votes : Text
  pub total_votes : Text
  pub parameter_changes : List ParameterChange

pub record Vote : Type 0 where
  pub proposal_id : ℕ
  pub voter : Text
  pub option : VoteOption
  pub voting_power : Text
  pub vote_time : ℤ

pub record Params : Type 0 where
  pub voting_period : ℤ
  pub timelock_period : ℤ
  pub min_deposit : Text
  pub quorum : Text
  pub threshold : Text

abbrev pub default_params : Params
default_params = record {
  voting_period = hours (7 * 24);
  timelock_period = hours (14 * 24);
  min_deposit = codes "1000000";
  quorum = codes "0.4";
  threshold = codes "0.5";
}

-- The errors of types/errors.go, then those that the code makes with fmt.Errorf; `panic` is a
-- panic of the SDK.
pub data Error : Type 0 where
  empty_proposer empty_title empty_description : Error
  proposal_not_found vote_not_found vote_already_exists : Error
  insufficient_deposit invalid_deposit : Error
  proposal_not_in_voting_period proposal_not_passed : Error
  proposal_not_executable proposal_already_executed : Error
  constitutional_parameter : Error
  invalid_min_deposit_parameter zero_proposal_id empty_voter invalid_voter_address : Error
  execution_time_not_set : Error
  empty_module empty_parameter empty_new_value : Error
  keeper_not_set unknown_module unknown_parameter : Error
  invalid_number invalid_duration invalid_float not_positive out_of_unit_interval : Error
  voting_period_not_positive timelock_not_positive min_deposit_empty : Error
  quorum_empty threshold_empty : Error
  invalid_parameter_change apply_failed : Error → Error
  panic : Error

abbrev pub status_eq : ProposalStatus → ProposalStatus → Bool
status_eq unspecified unspecified = true
status_eq submitted submitted = true
status_eq voting voting = true
status_eq passed passed = true
status_eq executed executed = true
status_eq rejected rejected = true
status_eq expired expired = true
status_eq _ _ = false

pub status_eq_iff : (a b : ProposalStatus) → (status_eq a b ≡ true) ↔ (a ≡ b)
status_eq_iff a b = ground arith

instance abbrev pub status_is_eq : Comparable ProposalStatus
status_is_eq = record { equal = status_eq; equal_iff = status_eq_iff }

-- Params.Validate: `none` where it returns nil.
unfoldable pub validate : Params → Option Error
validate p =
    if leb_ℤ p.voting_period (pos 0)
    then some voting_period_not_positive
    else if leb_ℤ p.timelock_period (pos 0)
    then some timelock_not_positive
    else if is_empty p.min_deposit
    then some min_deposit_empty
    else if is_empty p.quorum
    then some quorum_empty
    else if is_empty p.threshold
    then some threshold_empty
    else none
