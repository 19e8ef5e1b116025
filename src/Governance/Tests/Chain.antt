-- ===== src/Governance/Tests/Chain.antt =====
-- What holds on the chain of the tests from genesis on, and messages that must be accepted.
use volnix_protocol.Base.{
  ◌≤◌, ◌<◌, ◌≡◌, ◌↔◌, refl, true, none, codes, text_eq, ◌+ℤ◌, ok, err, arith, ◌<ℤ◌,
}
use volnix_protocol.KvStore.{nat_key, pair_key}
use volnix_protocol.KvStore
use volnix_protocol.Anteil
use volnix_protocol.Strconv.{parse_uint, format_uint, max_uint64}
use volnix_protocol.Governance.Governable.{
  is_governable, contains, is_listed, find_parameter, get_governable_parameter,
}
use volnix_protocol.Governance.Types.{validate, panic, submitted}
use volnix_protocol.Governance.Keeper.{
  get_next_proposal_id, get_total_wrt_supply, decide, get_wrt_balance, set_next_proposal_id,
  with_totals, set_proposal, get_proposal, get_vote, calculate_voting_power, set_vote, tally_votes,
  get_votes, count_votes, is_proposal_passed, share_of, votes_of,
}
use volnix_protocol.Governance.Messages.{
  submit_proposal, vote, execute_changes, new_proposal, validate_submission, check_deposit,
  check_changes, open_voting, has_voted,
}
use volnix_protocol.Governance.Genesis.{init_genesis, genesis_params}
use volnix_protocol.Governance.Applier.{
  check_unit_interval, validate_parameter_change, apply_parameter_change, validate_value,
  apply_governance_parameter_change, updated_governance, stored_governance, max_uint32,
}
use volnix_protocol.Governance.Sanity.{IsSane}
use volnix_protocol.Governance.Reach.{Reach, here, next}
use volnix_protocol.Governance.Reach.Numbering.{IsStored}
use volnix_protocol.Governance.Reach.FromGenesis.{IsEmpty, numbered_from_one, params_stay-IsSane}
use volnix_protocol.Governance.Panics.{orders_change, zero_open_orders_panics}
use volnix_protocol.Governance.Tests.Setup.{
  host, at_hour, genesis, empty_state, submission, submitted_state, voted_state, executed_state,
  shorter_vote,
}
use volnix_protocol.Governance.Tests.{
  Step-submit, Step-vote, Step-execute, proposal_one, passed_one, parse_uint, is_governable,
  contains, is_listed, find_parameter, get_governable_parameter, format_uint,
}

empty_state-IsEmpty : IsEmpty empty_state
empty_state-IsEmpty = record { no_proposals = refl; no_votes = refl }

started : (init_genesis none empty_state).0 ≡ ok tt
unfolding init_genesis genesis_params stored_governance set_next_proposal_id
started = refl

reached : Reach host (init_genesis none empty_state).1 executed_state
unfolding genesis
reached = next (next (next here Step-submit) Step-vote) Step-execute

numbered_from_one_example :
    IsStored 1 executed_state ↔ ((1 ≤ 1) × (1 < get_next_proposal_id executed_state))
numbered_from_one_example =
    numbered_from_one host none empty_state executed_state empty_state-IsEmpty started reached 1

IsSane-defaults : IsSane host (genesis_params none)
unfolding genesis_params validate parse_uint check_unit_interval text_eq
IsSane-defaults = record {
  valid = refl;
  least_deposit = 1000000;
  deposit_read = refl;
  quorum_fits = refl;
  threshold_fits = refl;
}

params_stay-IsSane_example : IsSane host executed_state.params
params_stay-IsSane_example =
    params_stay-IsSane host none empty_state executed_state empty_state-IsEmpty started reached
      IsSane-defaults

zero_read : parse_uint max_uint32 (codes "0") ≡ ok 0
unfolding parse_uint
zero_read = refl

zero_open_orders_panics_example :
    (validate_parameter_change host (orders_change (codes "10") (codes "0") (codes "none")) ≡ ok tt)
    × ((apply_parameter_change host
          (orders_change (codes "10") (codes "0") (codes "none"))
          empty_state).0
        ≡ err panic)
zero_open_orders_panics_example =
    zero_open_orders_panics host (codes "10") (codes "0") (codes "none") empty_state
      Anteil.Params.default_params zero_read refl

deposit_read : parse_uint max_uint64 submission.deposit ≡ ok 2000000
unfolding parse_uint
deposit_read = refl

least_read : parse_uint max_uint64 empty_state.params.min_deposit ≡ ok 1000000
unfolding parse_uint
least_read = refl

period_governable : is_governable shorter_vote.module_name shorter_vote.parameter ≡ true
unfolding is_governable contains is_listed text_eq
period_governable = refl

open_one :
    (proposal_one.status ≡ submitted) × (proposal_one.voting_start_time <ℤ (at_hour 2).block_time)
unfolding proposal_one new_proposal ◌+ℤ◌
open_one = (refl, omega arith)

unvoted : KvStore.get (1, codes "bob") submitted_state.votes ≡ none
unfolding submitted_state genesis submit_proposal init_genesis genesis_params stored_governance
    set_next_proposal_id get_next_proposal_id validate_submission check_deposit check_changes
    parse_uint set_proposal new_proposal is_governable text_eq KvStore.get KvStore.set contains
    is_listed
unvoted = refl

balance_read : get_wrt_balance (at_hour 2) (codes "bob") ≡ ok 10000000000000
unfolding get_wrt_balance
balance_read = refl

supply_read : get_total_wrt_supply (at_hour 2) ≡ ok 21000000000000
unfolding get_total_wrt_supply
supply_read = refl

change_applied : (execute_changes host passed_one.parameter_changes voted_state).0 ≡ ok tt
unfolding passed_one proposal_one decide with_totals new_proposal execute_changes is_governable
    contains is_listed text_eq validate_parameter_change validate_value apply_parameter_change
    find_parameter get_governable_parameter apply_governance_parameter_change updated_governance
    stored_governance voted_state submitted_state genesis submit_proposal init_genesis
    genesis_params set_next_proposal_id get_next_proposal_id validate_submission check_deposit
    check_changes parse_uint set_proposal vote get_proposal open_voting has_voted get_vote
    calculate_voting_power set_vote tally_votes get_votes count_votes is_proposal_passed
    get_total_wrt_supply share_of get_wrt_balance format_uint KvStore.get KvStore.set KvStore.values
    votes_of ◌+ℤ◌
change_applied = refl
