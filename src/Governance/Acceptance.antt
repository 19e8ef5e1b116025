-- ===== src/Governance/Acceptance.antt =====
-- What makes the three messages succeed (msg_server.go): the converses of what their acceptance
-- presupposes.
use volnix_protocol.Base.{
  ℕ, ◌≤◌, ◌≡◌, ◌≢◌, ◌⊎◌, inl, inr, arith, ok, some, none, false, true, is_empty, Text, List, [],
  ◌∷◌, refl, ◌<ℤ◌, ◌≤ℤ◌, ℤ, Outcome-cases, Bool,
}
use volnix_protocol.Strconv.{parse_uint, max_uint64, format_uint}
use volnix_protocol.KvStore.{nat_key, pair_key}
use volnix_protocol.KvStore
use volnix_protocol.Host.{Host, Env}
use volnix_protocol.Governance.Types.{Proposal, ParameterChange, voting, submitted, passed, Params}
use volnix_protocol.Governance.Keeper.{
  State, get_next_proposal_id, set_next_proposal_id, get_proposal, tally_votes, is_proposal_passed,
  calculate_voting_power, get_wrt_balance, set_proposal, get_total_wrt_supply, get_vote, set_vote,
  can_execute_proposal,
}
use volnix_protocol.Governance.Messages.{
  MsgSubmitProposal, MsgVote, submit_proposal, vote, execute_proposal, execute_changes,
  validate_submission, check_deposit, check_changes, open_voting, has_voted,
}
use volnix_protocol.Governance.Submission.{AllGovernable}
use volnix_protocol.Governance.Voting.{
  IsIndexed, counted, recorded, frame-open_voting, get-open_voting,
}

AllGovernable-checked : (cs : List ParameterChange) → AllGovernable cs → check_changes cs ≡ ok tt
unfolding check_changes
AllGovernable-checked [] all = refl
AllGovernable-checked (c ∷ cs) (g, all) = rw g (AllGovernable-checked cs all)

deposit_checked :
    (d m : Text) (deposit least : ℕ)
    → parse_uint max_uint64 d ≡ ok deposit
    → parse_uint max_uint64 m ≡ ok least
    → least ≤ deposit
    → check_deposit d m ≡ ok tt
unfolding check_deposit
deposit_checked d m deposit least read least_read enough = ground arith

request_checked :
    (req : MsgSubmitProposal)
    → is_empty req.proposer ≡ false
    → is_empty req.title ≡ false
    → is_empty req.description ≡ false
    → validate_submission req ≡ ok tt
unfolding validate_submission
request_checked req a b c = rw (a, b, c) refl

checked_accepted :
    (e : Env) (req : MsgSubmitProposal) (s : State)
    → validate_submission req ≡ ok tt
    → check_deposit req.deposit s.params.min_deposit ≡ ok tt
    → check_changes req.parameter_changes ≡ ok tt
    → (submit_proposal e req s).0 ≡ ok (get_next_proposal_id s)
unfolding submit_proposal set_next_proposal_id set_proposal
checked_accepted e req s valid paid listed = rw (valid, paid, listed) refl

-- A submission with a proposer, a title and a description, a deposit that reaches the minimum,
-- and governable changes only is accepted, and gets the next number.
pub submit_proposal_accepted :
    (e : Env) (req : MsgSubmitProposal) (s : State) (deposit least : ℕ)
    → is_empty req.proposer ≡ false
    → is_empty req.title ≡ false
    → is_empty req.description ≡ false
    → parse_uint max_uint64 req.deposit ≡ ok deposit
    → parse_uint max_uint64 s.params.min_deposit ≡ ok least
    → least ≤ deposit
    → AllGovernable req.parameter_changes
    → (submit_proposal e req s).0 ≡ ok (get_next_proposal_id s)
submit_proposal_accepted e req s deposit least a b c read least_read enough all =
    checked_accepted e req s (request_checked req a b c)
      (deposit_checked _ _ deposit least read least_read enough)
      (AllGovernable-checked req.parameter_changes all)

is_proposal_passed-total :
    (h : Host) (e : Env) (p : Proposal) (params : Params) (supply : ℕ)
    → get_total_wrt_supply e ≡ ok supply
    → (accepted : Bool) × (is_proposal_passed h e p params ≡ ok accepted)
unfolding is_proposal_passed
is_proposal_passed-total h e p params supply known =
    elim (Outcome-cases (is_proposal_passed h e p params)) [
      | inl judged ↦ judged
      | inr (x, failed) ↦ absurd (ground arith)
    ]

tally_votes-total :
    (h : Host) (e : Env) (id : ℕ) (s : State) (p : Proposal) (supply : ℕ)
    → KvStore.get id s.proposals ≡ some p
    → get_total_wrt_supply e ≡ ok supply
    → (tally_votes h e id s).0 ≡ ok tt
unfolding tally_votes get_proposal set_proposal
tally_votes-total h e id s p supply found known =
    let (accepted, judged) = is_proposal_passed-total h e (counted id s p) s.params supply known in
    rw (found, judged) refl

calculate_voting_power-total :
    (e : Env) (voter addr : Text) (balance : ℕ) (s : State)
    → e.account voter ≡ some addr
    → get_wrt_balance e addr ≡ ok balance
    → calculate_voting_power e voter s ≡ (ok (format_uint balance), s)
unfolding calculate_voting_power
calculate_voting_power-total e voter addr balance s known read = rw (known, read) refl

open_voting-total :
    (e : Env) (p : Proposal) (s : State)
    → (p.status ≡ voting) ⊎ ((p.status ≡ submitted) × (p.voting_start_time <ℤ e.block_time))
    → (open_voting e p s).0 ≡ ok tt
unfolding open_voting set_proposal
open_voting-total e p s was_open = ground arith

-- A ballot that passes the guards runs to the tally.
guarded_vote :
    (h : Host) (e : Env) (req : MsgVote) (s : State) (p : Proposal) (power : Text)
    → req.proposal_id ≢ 0
    → is_empty req.voter ≡ false
    → KvStore.get req.proposal_id s.proposals ≡ some p
    → (open_voting e p s).0 ≡ ok tt
    → KvStore.get (req.proposal_id, req.voter) (open_voting e p s).1.votes ≡ none
    → calculate_voting_power e req.voter (open_voting e p s).1 ≡ (ok power, (open_voting e p s).1)
    → vote h e req s ≡ tally_votes h e req.proposal_id (recorded e req power (open_voting e p s).1)
unfolding vote get_proposal has_voted get_vote set_vote
guarded_vote h e req s p power not_zero named found opened fresh weighed = ground arith

-- Where proposals stand under their own numbers, the first ballot of a named voter on an open
-- proposal with a non-zero number is accepted, if the address is valid and the balance and the
-- supply are uint64 values.
pub vote_accepted :
    (h : Host) (e : Env) (req : MsgVote) (s : State) (p : Proposal) (addr : Text)
    (balance supply : ℕ)
    → IsIndexed s
    → req.proposal_id ≢ 0
    → is_empty req.voter ≡ false
    → KvStore.get req.proposal_id s.proposals ≡ some p
    → (p.status ≡ voting) ⊎ ((p.status ≡ submitted) × (p.voting_start_time <ℤ e.block_time))
    → KvStore.get (req.proposal_id, req.voter) s.votes ≡ none
    → e.account req.voter ≡ some addr
    → get_wrt_balance e addr ≡ ok balance
    → get_total_wrt_supply e ≡ ok supply
    → (vote h e req s).0 ≡ ok tt
vote_accepted h e req s p addr balance supply indexed not_zero named found was_open fresh known read
      total =
    let opened = open_voting-total e p s was_open in
    let own = indexed req.proposal_id p found in
    let frame = frame-open_voting e p s req.proposal_id own found opened in
    let power = format_uint balance in
    let weighed =
      calculate_voting_power-total e req.voter addr balance (open_voting e p s).1 known read in
    let got = get-open_voting e p s req.proposal_id own found opened in
    rw (guarded_vote h e req s p power not_zero named found opened (rw frame fresh) weighed) (
      tally_votes-total h e req.proposal_id (recorded e req power (open_voting e p s).1)
        (record p { status = voting }) supply got total)

can_execute_accepted :
    (e : Env) (id : ℕ) (s : State) (p : Proposal) (time : ℤ)
    → KvStore.get id s.proposals ≡ some p
    → p.status ≡ passed
    → p.execution_time ≡ some time
    → time ≤ℤ e.block_time
    → can_execute_proposal e id s ≡ (ok true, s)
unfolding can_execute_proposal get_proposal
can_execute_accepted e id s p time found was_passed timed unlocked = ground arith

-- A passed proposal with a non-zero number is executed from its execution time on, if all its
-- changes apply.
pub execute_proposal_accepted :
    (h : Host) (e : Env) (id : ℕ) (s : State) (p : Proposal) (time : ℤ)
    → id ≢ 0
    → KvStore.get id s.proposals ≡ some p
    → p.status ≡ passed
    → p.execution_time ≡ some time
    → time ≤ℤ e.block_time
    → (execute_changes h p.parameter_changes s).0 ≡ ok tt
    → (execute_proposal h e id s).0 ≡ ok tt
unfolding execute_proposal get_proposal set_proposal
execute_proposal_accepted h e id s p time not_zero found was_passed timed unlocked applied =
    ground (arith, can_execute_accepted e id s p time found was_passed timed unlocked)
