-- ===== src/Governance/Tests/Setup.antt =====
-- Concrete data for the tests of x/governance: one proposal and the states after each message.
use volnix_protocol.Base.{Text, some, none, codes, [], ◌∷◌}
use volnix_protocol.Lizenz
use volnix_protocol.Anteil
use volnix_protocol.Consensus
use volnix_protocol.Governance.Types.{default_params, ParameterChange, parameter_change, yes_option}
use volnix_protocol.Governance.Keeper.{State}
use volnix_protocol.Governance.Messages.{
  MsgSubmitProposal, MsgVote, submit_proposal, vote, execute_proposal,
}
use volnix_protocol.Governance.Genesis.{init_genesis}
pub use volnix_protocol.Samples.{host, at_hour}

-- The keepers are set, and nothing is stored yet.
abbrev pub empty_state : State
empty_state = record {
  params = default_params;
  next_id = none;
  proposals = [];
  votes = [];
  lizenz = some Lizenz.Params.default_params;
  anteil = some Anteil.Params.default_params;
  consensus = some Consensus.Params.default_params;
}

unfoldable pub genesis : State
genesis = (init_genesis none empty_state).1

abbrev pub shorter_vote : ParameterChange
shorter_vote = record {
  module_name = codes "governance";
  parameter = codes "voting_period";
  old_value = codes "168h";
  new_value = codes "24h";
  description = [];
}

abbrev pub submission : MsgSubmitProposal
submission = record {
  proposer = codes "alice";
  proposal_type = parameter_change;
  title = codes "Shorter votes";
  description = codes "One day";
  deposit = codes "2000000";
  parameter_changes = shorter_vote ∷ [];
}

abbrev pub ballot_of : Text → MsgVote
ballot_of who = record { proposal_id = 1; voter = who; option = yes_option }

unfoldable pub submitted_state : State
submitted_state = (submit_proposal (at_hour 0) submission genesis).1

unfoldable pub voted_state : State
voted_state = (vote host (at_hour 2) (ballot_of (codes "bob")) submitted_state).1

unfoldable pub executed_state : State
executed_state = (execute_proposal host (at_hour 400) 1 voted_state).1
