-- ===== src/Governance/Tests.antt =====
-- Runs of x/governance on one proposal, from genesis to its execution, and what the theorems say of
-- them.
pub mod Setup
mod Changes
mod Chain
use volnix_protocol.Base.{
  ok, ◌≡◌, refl, arith, codes, text_eq, ◌+ℤ◌, some, err, ◌≤ℤ◌, ◌<◌, true, ◌^◌, ◌-◌,
}
use volnix_protocol.KvStore.{nat_key, pair_key}
use volnix_protocol.KvStore
use volnix_protocol.Governance.Types.{Proposal, proposal_not_passed, proposal_not_in_voting_period}
use volnix_protocol.Governance.Tally.{totals_of}
use volnix_protocol.Governance.Decision.{vote_decides, Decided}
use volnix_protocol.Governance.Reach.{Step, by_submit, by_vote, by_execute, here, next, IsSound}
use volnix_protocol.Governance.Reach.Soundness.{Step-IsSound, Reach-IsSound}
use volnix_protocol.Governance.Reach.Lifecycle.{Fate, Settled, Step-Fate, Reach-Settled}
use volnix_protocol.Governance.Reach.Closing.{vote_closes_poll}
use volnix_protocol.Governance.Reach.Timelock.{timelock_respected, executed_once}
use volnix_protocol.Governance.Voting.Effect.{Voted, vote-Voted}
use volnix_protocol.Governance.Execution.{Executed, execute_proposal-Executed}
use volnix_protocol.Governance.Submission.{
  Submitted, submit_proposal-Submitted, submit_proposal_refused,
}
use volnix_protocol.Governance.Tests.Setup.{
  host, at_hour, genesis, submission, ballot_of, submitted_state, voted_state, executed_state,
}
use volnix_protocol.Governance.Genesis.{init_genesis, genesis_params}
use volnix_protocol.Governance.Messages.{
  submit_proposal, validate_submission, check_deposit, check_changes, new_proposal, vote,
  open_voting, has_voted, execute_proposal, execute_changes,
}
use volnix_protocol.Governance.Keeper.{
  get_next_proposal_id, set_next_proposal_id, set_proposal, get_proposal, get_vote,
  calculate_voting_power, set_vote, tally_votes, get_votes, count_votes, with_totals,
  is_proposal_passed, get_total_wrt_supply, share_of, decide, get_wrt_balance, can_execute_proposal,
  votes_of,
}
use volnix_protocol.Governance.Reach.{IsSound}
use volnix_protocol.Strconv.{parse_uint, format_uint}
use volnix_protocol.Governance.Governable.{
  is_governable, contains, is_listed, find_parameter, get_governable_parameter,
}
use volnix_protocol.Governance.Applier.{
  validate_parameter_change, validate_value, apply_parameter_change,
  apply_governance_parameter_change, updated_governance, stored_governance,
}

submit_accepted : (submit_proposal (at_hour 0) submission genesis).0 ≡ ok 1
unfolding genesis submit_proposal init_genesis genesis_params stored_governance set_next_proposal_id
    get_next_proposal_id validate_submission check_deposit check_changes parse_uint set_proposal
    is_governable text_eq contains is_listed
submit_accepted = refl

bob_accepted : (vote host (at_hour 2) (ballot_of (codes "bob")) submitted_state).0 ≡ ok tt
unfolding submitted_state genesis submit_proposal init_genesis genesis_params stored_governance
    set_next_proposal_id get_next_proposal_id validate_submission check_deposit check_changes
    parse_uint set_proposal new_proposal is_governable text_eq vote get_proposal open_voting
    has_voted get_vote calculate_voting_power set_vote tally_votes get_votes count_votes with_totals
    is_proposal_passed get_total_wrt_supply share_of decide get_wrt_balance format_uint KvStore.get
    KvStore.set KvStore.values contains is_listed votes_of ◌+ℤ◌
bob_accepted = refl

enactment_accepted : (execute_proposal host (at_hour 400) 1 voted_state).0 ≡ ok tt
unfolding voted_state submitted_state genesis submit_proposal init_genesis genesis_params
    stored_governance set_next_proposal_id get_next_proposal_id validate_submission check_deposit
    check_changes parse_uint set_proposal new_proposal is_governable text_eq vote get_proposal
    open_voting has_voted get_vote calculate_voting_power set_vote tally_votes get_votes count_votes
    with_totals is_proposal_passed get_total_wrt_supply share_of decide get_wrt_balance format_uint
    KvStore.get KvStore.set KvStore.values contains is_listed votes_of ◌+ℤ◌ execute_proposal
    can_execute_proposal execute_changes validate_parameter_change validate_value
    apply_parameter_change find_parameter get_governable_parameter apply_governance_parameter_change
    updated_governance
enactment_accepted = refl

genesis-IsSound : IsSound genesis
unfolding genesis init_genesis genesis_params stored_governance set_next_proposal_id KvStore.get
genesis-IsSound = record {
  indexed = λ k p found. absurd (ground arith);
  below_next = λ k p found. absurd (ground arith);
  balloted = λ k w v cast. absurd (ground arith);
  single = λ k w w' v v' cast cast'. absurd (ground arith);
}

room_for_one : get_next_proposal_id genesis < 2 ^ 64 - 1
unfolding genesis init_genesis genesis_params stored_governance set_next_proposal_id
    get_next_proposal_id
room_for_one = omega arith

Step-submit : Step host genesis submitted_state
unfolding submitted_state
Step-submit = by_submit (at_hour 0) submission 1 room_for_one submit_accepted refl

Step-vote : Step host submitted_state voted_state
unfolding voted_state
Step-vote = by_vote (at_hour 2) (ballot_of (codes "bob")) bob_accepted refl

Step-execute : Step host voted_state executed_state
unfolding executed_state
Step-execute = by_execute (at_hour 400) 1 enactment_accepted refl

submitted-IsSound : IsSound submitted_state
submitted-IsSound = Step-IsSound host genesis submitted_state Step-submit genesis-IsSound

voted-IsSound : IsSound voted_state
voted-IsSound = Step-IsSound host submitted_state voted_state Step-vote submitted-IsSound

Reach-IsSound_example : IsSound executed_state
Reach-IsSound_example =
    Reach-IsSound host genesis-IsSound (next (next (next here Step-submit) Step-vote) Step-execute)

submit_proposal-Submitted_example :
    Submitted (at_hour 0) submission genesis (submit_proposal (at_hour 0) submission genesis).1 1
submit_proposal-Submitted_example =
    submit_proposal-Submitted (at_hour 0) submission genesis 1 submit_accepted

vote-Voted_example :
    Voted host
      (at_hour 2)
      (ballot_of (codes "bob"))
      submitted_state
      (vote host (at_hour 2) (ballot_of (codes "bob")) submitted_state).1
vote-Voted_example =
    vote-Voted host (at_hour 2) (ballot_of (codes "bob")) submitted_state submitted-IsSound.indexed
      bob_accepted

vote_decides_example :
    (q : Proposal) × (KvStore.get 1
        (vote host (at_hour 2) (ballot_of (codes "bob")) submitted_state).1.proposals
      ≡ some q)
    × Decided host
        (at_hour 2)
        submitted_state.params
        (totals_of
          (get_votes 1 (vote host (at_hour 2) (ballot_of (codes "bob")) submitted_state).1))
        q
vote_decides_example =
    vote_decides host (at_hour 2) (ballot_of (codes "bob")) submitted_state
      submitted-IsSound.indexed bob_accepted

vote_closes_poll_example :
    (vote host
      (at_hour 450)
      (ballot_of (codes "carol"))
      (execute_proposal host
        (at_hour 400)
        1
        (vote host (at_hour 2) (ballot_of (codes "bob")) submitted_state).1).1).0
    ≡ err proposal_not_in_voting_period
unfolding voted_state
vote_closes_poll_example =
    vote_closes_poll host (at_hour 2) (at_hour 450) (ballot_of (codes "bob"))
      (ballot_of (codes "carol")) submitted_state
      (execute_proposal host (at_hour 400) 1
        (vote host (at_hour 2) (ballot_of (codes "bob")) submitted_state).1).1
      submitted-IsSound bob_accepted
      (next here (by_execute (at_hour 400) 1 enactment_accepted refl)) refl (omega arith) refl

execute_proposal-Executed_example :
    Executed host (at_hour 400) 1 voted_state (execute_proposal host (at_hour 400) 1 voted_state).1
execute_proposal-Executed_example =
    execute_proposal-Executed host (at_hour 400) 1 voted_state enactment_accepted

timelock_respected_example :
    (at_hour 2).block_time +ℤ submitted_state.params.timelock_period ≤ℤ (at_hour 400).block_time
unfolding voted_state
timelock_respected_example =
    timelock_respected host (at_hour 2) (at_hour 400) (ballot_of (codes "bob")) submitted_state
      voted_state submitted-IsSound bob_accepted here enactment_accepted

executed_once_example :
    (execute_proposal host (at_hour 500) 1 (execute_proposal host (at_hour 400) 1 voted_state).1).0
    ≡ err proposal_not_passed
executed_once_example =
    executed_once host (at_hour 400) (at_hour 500) 1 voted_state
      (execute_proposal host (at_hour 400) 1 voted_state).1 voted-IsSound enactment_accepted here

proposal_one : Proposal
proposal_one = new_proposal (at_hour 0) submission genesis.params 1

found_one : KvStore.get 1 submitted_state.proposals ≡ some proposal_one
unfolding proposal_one submitted_state genesis submit_proposal init_genesis genesis_params
    stored_governance set_next_proposal_id get_next_proposal_id validate_submission check_deposit
    check_changes parse_uint set_proposal new_proposal is_governable text_eq KvStore.get KvStore.set
    contains is_listed
found_one = refl

Step-Fate_example : Fate 1 proposal_one voted_state
Step-Fate_example =
    Step-Fate host submitted_state voted_state submitted-IsSound Step-vote 1 proposal_one found_one

passed_one : Proposal
passed_one = decide host (at_hour 2) genesis.params true (
    with_totals (record { yes_votes = 10000000000000; no_votes = 0; abstain_votes = 0 })
      proposal_one)

found_passed : KvStore.get 1 voted_state.proposals ≡ some passed_one
unfolding passed_one voted_state proposal_one submitted_state genesis submit_proposal init_genesis
    genesis_params stored_governance set_next_proposal_id get_next_proposal_id validate_submission
    check_deposit check_changes parse_uint set_proposal new_proposal is_governable text_eq vote
    get_proposal open_voting has_voted get_vote calculate_voting_power set_vote tally_votes
    get_votes count_votes with_totals is_proposal_passed get_total_wrt_supply share_of decide
    get_wrt_balance format_uint KvStore.get KvStore.set KvStore.values contains is_listed votes_of
    ◌+ℤ◌
found_passed = refl

Reach-Settled_example : Settled 1 passed_one executed_state
unfolding passed_one decide
Reach-Settled_example =
    Reach-Settled host voted_state executed_state voted-IsSound (next here Step-execute) 1
      passed_one found_passed refl
