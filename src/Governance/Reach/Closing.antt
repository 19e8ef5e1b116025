-- ===== src/Governance/Reach/Closing.antt =====
-- Votes on a proposal whose poll is over: Vote of x/governance/keeper/msg_server.go.
use volnix_protocol.Base.{
  Bool, true, false, some, ◌≡◌, ◌≢◌, refl, arith, ok, err, is_empty, ◌∙◌, ap,
}
use volnix_protocol.KvStore.{nat_key}
use volnix_protocol.KvStore
use volnix_protocol.Host.{Host, Env}
use volnix_protocol.Governance.Types.{Proposal, executed, proposal_not_in_voting_period}
use volnix_protocol.Governance.Keeper.{State, get_proposal}
use volnix_protocol.Governance.Messages.{MsgVote, vote, open_voting}
use volnix_protocol.Governance.Voting.Effect.{vote-Voted}
use volnix_protocol.Governance.Decision.{verdict, vote_decides}
use volnix_protocol.Governance.Reach.{Reach, IsSound, closed}
use volnix_protocol.Governance.Reach.Soundness.{vote-IsSound}
use volnix_protocol.Governance.Reach.Lifecycle.{unchanged, enacted, Reach-Settled}

open_voting-closed :
    (e : Env) (p : Proposal) (s : State)
    → closed p.status ≡ true
    → (open_voting e p s).0 ≡ err proposal_not_in_voting_period
unfolding open_voting
open_voting-closed e p s over = ground arith

vote_refused :
    (h : Host) (e : Env) (req : MsgVote) (s : State) (q : Proposal)
    → KvStore.get req.proposal_id s.proposals ≡ some q
    → closed q.status ≡ true
    → req.proposal_id ≢ 0
    → is_empty req.voter ≡ false
    → (vote h e req s).0 ≡ err proposal_not_in_voting_period
unfolding vote get_proposal
vote_refused h e req s q found over not_zero named = ground (arith, open_voting-closed e q s over)

closed-verdict : (b : Bool) → closed (verdict b) ≡ true
closed-verdict true = refl
closed-verdict false = refl

-- Once a vote on a proposal is accepted in a sound state, then after any sequence of accepted
-- messages every vote on it that names a voter is refused with ErrProposalNotInVotingPeriod,
-- whoever casts it and at whatever time (the number of the proposal is not zero).
pub vote_closes_poll :
    (h : Host) (e e' : Env) (req req' : MsgVote) (s s2 : State)
    → IsSound s
    → (vote h e req s).0 ≡ ok tt
    → Reach h (vote h e req s).1 s2
    → req'.proposal_id ≡ req.proposal_id
    → req'.proposal_id ≢ 0
    → is_empty req'.voter ≡ false
    → (vote h e' req' s2).0 ≡ err proposal_not_in_voting_period
vote_closes_poll h e e' req req' s s2 sound accepted later same not_zero named =
    let (q, found, decided) = vote_decides h e req s sound.indexed accepted in
    let over = ap closed decided.outcome ∙ closed-verdict _ in
    let after_vote =
      vote-IsSound h e req s (vote h e req s).1 (vote-Voted h e req s sound.indexed accepted)
        sound in
    elim (Reach-Settled h (vote h e req s).1 s2 after_vote later req.proposal_id q found over) [
      | unchanged still ↦ vote_refused h e' req' s2 q (cc (still, same)) over not_zero named
      | enacted was_passed now ↦
          vote_refused h e' req' s2 (record q { status = executed }) (cc (now, same)) refl not_zero
            named
    ]
