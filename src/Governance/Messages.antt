-- ===== src/Governance/Messages.antt =====
-- x/governance/keeper/msg_server.go: the three messages.
use volnix_protocol.Base.{
  ℕ, ◌+◌, Bool, true, false, none, List, [], ◌∷◌, Text, codes, is_empty, ltb, ◌==◌, nat_is_eq,
  if◌then◌else◌, Outcome, ok, err, pure, raise, gets, lift, raise_if, continue, not, ◌>>=◌, ◌>>◌,
  ◌+ℤ◌, ltb_ℤ,
}
use volnix_protocol.Strconv.{parse_uint, max_uint64}
use volnix_protocol.Host.{Host, Env, hours}
use volnix_protocol.Governance.Types.{
  Proposal, ProposalType, VoteOption, Params, ParameterChange, Error, status_is_eq, submitted,
  voting, executed, empty_proposer, empty_title, empty_description, vote_already_exists,
  insufficient_deposit, invalid_deposit, proposal_not_in_voting_period, proposal_not_executable,
  proposal_already_executed, constitutional_parameter, invalid_min_deposit_parameter,
  zero_proposal_id, empty_voter, invalid_parameter_change, apply_failed, panic,
}
use volnix_protocol.Governance.Governable.{is_governable}
use volnix_protocol.Governance.Keeper.{
  State, Handler, u64, get_next_proposal_id, set_next_proposal_id, set_proposal, get_proposal,
  set_vote, get_vote, calculate_voting_power, tally_votes, can_execute_proposal,
}
use volnix_protocol.Governance.Applier.{apply_parameter_change, validate_parameter_change}

pub record MsgSubmitProposal : Type 0 where
  pub proposer : Text
  pub proposal_type : ProposalType
  pub title : Text
  pub description : Text
  pub deposit : Text
  pub parameter_changes : List ParameterChange

pub record MsgVote : Type 0 where
  pub proposal_id : ℕ
  pub voter : Text
  pub option : VoteOption

abbrev pub zero_text : Text
zero_text = codes "0"

unfoldable pub new_proposal : Env → MsgSubmitProposal → Params → ℕ → Proposal
new_proposal e req params id = record {
  proposal_id = id;
  proposer = req.proposer;
  proposal_type = req.proposal_type;
  title = req.title;
  description = req.description;
  status = submitted;
  submit_time = e.now;
  voting_start_time = e.block_time +ℤ hours 1;
  voting_period = params.voting_period;
  voting_end_time = e.block_time +ℤ params.voting_period;
  execution_time = none;
  timelock_period = params.timelock_period;
  yes_votes = zero_text;
  no_votes = zero_text;
  abstain_votes = zero_text;
  total_votes = zero_text;
  parameter_changes = req.parameter_changes;
}

-- The checks on the request of a submission.
unfoldable pub validate_submission : MsgSubmitProposal → Outcome Error (Unit {0})
validate_submission req =
    if is_empty req.proposer
    then err empty_proposer
    else if is_empty req.title
    then err empty_title
    else if is_empty req.description
    then err empty_description
    else ok tt

-- The two amounts are read, and the deposit is at least the minimum.
unfoldable pub check_deposit : Text → Text → Outcome Error (Unit {0})
check_deposit deposit min_deposit = elim (parse_uint max_uint64 deposit) [
  | err x ↦ err invalid_deposit
  | ok n ↦ elim (parse_uint max_uint64 min_deposit) [
    | err x ↦ err invalid_min_deposit_parameter
    | ok least ↦ if ltb n least then err insufficient_deposit else ok tt
  ]
]

-- The loop over the parameter changes of a submitted proposal.
unfoldable pub check_changes : List ParameterChange → Outcome Error (Unit {0})
check_changes [] = ok tt
check_changes (c ∷ cs) =
    if is_governable c.module_name c.parameter
    then check_changes cs
    else err constitutional_parameter

unfoldable pub submit_proposal : Env → MsgSubmitProposal → Handler ℕ
submit_proposal e req = do
  lift (validate_submission req)
  id ← gets get_next_proposal_id
  set_next_proposal_id (u64 (id + 1))
  params ← gets (λ s. s.params)
  lift (check_deposit req.deposit params.min_deposit)
  lift (check_changes req.parameter_changes)
  set_proposal (new_proposal e req params id)
  pure id

-- Voting starts with the first vote after the start time.
unfoldable pub open_voting : Env → Proposal → Handler (Unit {0})
open_voting e p =
    if p.status == voting
    then pure tt
    else if p.status == submitted
    then (if ltb_ℤ p.voting_start_time e.block_time
        then set_proposal (record p { status = voting })
        else raise proposal_not_in_voting_period)
    else raise proposal_not_in_voting_period

-- `_, err = GetVote(…); err == nil`
unfoldable pub has_voted : ℕ → Text → State → Bool
has_voted id voter s = elim (get_vote id voter s).0 [ ok v ↦ true | err x ↦ false ]

-- A panic is no error that the caller could wrap.
abbrev pub wrapped : (Error → Error) → Error → Error
wrapped f panic = panic
wrapped f x = f x

-- Runs a step of a handler and wraps its error.
abbrev pub wrap : (Error → Error) → Outcome Error (Unit {0}) → Outcome Error (Unit {0})
wrap f (ok a) = ok a
wrap f (err x) = err (wrapped f x)

abbrev pub wrapping : (Error → Error) → Handler (Unit {0}) → Handler (Unit {0})
wrapping f m s = (wrap f (m s).0, (m s).1)

module _ (h : Host) where
  unfoldable pub vote : Env → MsgVote → Handler (Unit {0})
  vote e req = do
    raise_if (req.proposal_id == 0) zero_proposal_id
    raise_if (is_empty req.voter) empty_voter
    proposal ← get_proposal req.proposal_id
    open_voting e proposal
    voted ← gets (has_voted req.proposal_id req.voter)
    raise_if voted vote_already_exists
    power ← calculate_voting_power e req.voter
    set_vote (record {
      proposal_id = req.proposal_id;
      voter = req.voter;
      option = req.option;
      voting_power = power;
      vote_time = e.now;
    })
    tally_votes h e req.proposal_id

  -- The loop over the parameter changes of an executed proposal.
  unfoldable pub execute_changes : List ParameterChange → Handler (Unit {0})
  execute_changes [] s = (ok tt, s)
  execute_changes (c ∷ cs) s =
      continue (wrap invalid_parameter_change (validate_parameter_change h c))
        (λ _. wrapping apply_failed (apply_parameter_change h c) >>= λ _. execute_changes cs) s

  unfoldable pub execute_proposal : Env → ℕ → Handler (Unit {0})
  execute_proposal e id = do
    raise_if (id == 0) zero_proposal_id
    can_execute ← can_execute_proposal e id
    raise_if (not can_execute) proposal_not_executable
    proposal ← get_proposal id
    raise_if (proposal.status == executed) proposal_already_executed
    execute_changes proposal.parameter_changes
    set_proposal (record proposal { status = executed })
