-- ===== src/Governance/Tests/Changes.antt =====
-- Refused submissions, single parameter changes and tallies of x/governance on concrete data.
use volnix_protocol.Base.{◌≡◌, refl, err, ok, true, codes, [], ◌∷◌, List, pos, text_eq}
use volnix_protocol.Governance.Tests.Setup.{
  host, at_hour, genesis, submission, shorter_vote, empty_state,
}
use volnix_protocol.Governance.Types.{
  ParameterChange, Vote, yes_option, no_option, insufficient_deposit, invalid_duration,
}
use volnix_protocol.Governance.Messages.{
  MsgSubmitProposal, submit_proposal, validate_submission, check_deposit, check_changes,
}
use volnix_protocol.Governance.Parameters.{Applied, apply_parameter_change-Applied}
use volnix_protocol.Governance.Applier.{
  apply_parameter_change, apply_governance_parameter_change, updated_governance, stored_governance,
}
use volnix_protocol.Governance.Whitelist.{is_governable-eq-listed, is_found}
use volnix_protocol.Governance.Governable.{
  is_governable, is_listed, governable_parameters, get_governable_parameter, contains,
}
use volnix_protocol.Governance.Keeper.{
  count_votes, no_tally, get_next_proposal_id, set_next_proposal_id, set_proposal,
}
use volnix_protocol.Governance.Tally.{totals_of, count_votes-eq-totals_of}
use volnix_protocol.Governance.Genesis.{init_genesis, genesis_params}
use volnix_protocol.Strconv.{parse_uint}

abbrev poor_submission : MsgSubmitProposal
poor_submission = record submission { deposit = codes "999999" }

poor_refused : (submit_proposal (at_hour 0) poor_submission genesis).0 ≡ err insufficient_deposit
unfolding genesis submit_proposal init_genesis genesis_params stored_governance set_next_proposal_id
    get_next_proposal_id validate_submission check_deposit check_changes parse_uint set_proposal
poor_refused = refl

change_accepted : (apply_parameter_change host shorter_vote empty_state).0 ≡ ok tt
unfolding apply_parameter_change is_governable contains is_listed text_eq
    apply_governance_parameter_change updated_governance stored_governance
change_accepted = refl

apply_parameter_change-Applied_example :
    (is_governable shorter_vote.module_name shorter_vote.parameter ≡ true)
    × Applied host shorter_vote empty_state (apply_parameter_change host shorter_vote empty_state).1
apply_parameter_change-Applied_example =
    apply_parameter_change-Applied host shorter_vote empty_state change_accepted

abbrev vague_vote : ParameterChange
vague_vote = record shorter_vote { new_value = codes "soon" }

vague_refused : (apply_parameter_change host vague_vote empty_state).0 ≡ err invalid_duration
unfolding apply_parameter_change is_governable contains is_listed text_eq
    apply_governance_parameter_change updated_governance stored_governance
vague_refused = refl

vague_governable : is_governable vague_vote.module_name vague_vote.parameter ≡ true
unfolding is_governable contains is_listed text_eq
vague_governable = refl

is_governable-eq-listed_example :
    (is_governable (codes "governance") (codes "quorum")
      ≡ is_listed governable_parameters (codes "governance") (codes "quorum"))
    × (is_governable (codes "governance") (codes "quorum")
        ≡ is_found (get_governable_parameter (codes "governance") (codes "quorum")))
is_governable-eq-listed_example = is_governable-eq-listed (codes "governance") (codes "quorum")

abbrev two_ballots : List Vote
two_ballots =
    record {
      proposal_id = 1;
      voter = codes "bob";
      option = yes_option;
      voting_power = codes "70";
      vote_time = pos 0;
    }
    ∷ record {
      proposal_id = 1;
      voter = codes "carol";
      option = no_option;
      voting_power = codes "30";
      vote_time = pos 0;
    }
    ∷ []

count_votes-eq-totals_of_example : count_votes two_ballots no_tally ≡ totals_of two_ballots
count_votes-eq-totals_of_example = count_votes-eq-totals_of two_ballots
