-- ===== src/Governance/Reach/Timelock.antt =====
-- Executions over a whole history of messages of x/governance/keeper/msg_server.go: the timelock,
-- and repeated execution.
use volnix_protocol.Base.{
  subst, ℕ, Bool, true, false, some, ◌≡◌, ◌≢◌, refl, arith, ok, err, ◌⊎◌, inl, inr, ◌+ℤ◌, ◌≤ℤ◌,
}
use volnix_protocol.KvStore.{nat_key}
use volnix_protocol.KvStore
use volnix_protocol.Host.{Host, Env}
use volnix_protocol.Governance.Types.{
  Proposal, ProposalStatus, passed, executed, proposal_not_passed, Params,
}
use volnix_protocol.Governance.Keeper.{State, can_execute_proposal, get_proposal, Tally, get_votes}
use volnix_protocol.Governance.Messages.{MsgVote, vote, execute_proposal}
use volnix_protocol.Governance.Tally.{totals_of}
use volnix_protocol.Governance.Voting.Effect.{vote-Voted}
use volnix_protocol.Governance.Decision.{vote_decides, verdict, Decided}
use volnix_protocol.Governance.Execution.{execute_proposal-Executed}
use volnix_protocol.Governance.Reach.{Reach, closed, IsSound, Writes-self}
use volnix_protocol.Governance.Reach.Soundness.{
  vote-IsSound, execute-IsSound, execute-Writes, marked,
}
use volnix_protocol.Governance.Reach.Lifecycle.{Settled, unchanged, enacted, Reach-Settled}

closed-verdict : (b : Bool) (st : ProposalStatus) → st ≡ verdict b → closed st ≡ true
closed-verdict true st e = rw e
closed-verdict false st e = rw e

passed-verdict : (b : Bool) → verdict b ≡ passed → b ≡ true
passed-verdict b e = ground arith

-- A decided proposal that an execution finds was passed, with the unlock time of its decision.
Decided-unlocks :
    (h : Host) (e : Env) (params : Params) (t : Tally) (q p : Proposal)
    → Decided h e params t q
    → (p ≡ q) ⊎ (p ≡ record q { status = executed })
    → p.status ≡ passed
    → p.execution_time ≡ some (e.block_time +ℤ params.timelock_period)
Decided-unlocks h e params t q p d (inl same) was_passed =
    let status : q.status ≡ passed = cc in
    cc (d.unlocks (passed-verdict _ (cc (d.outcome, status))), same)
Decided-unlocks h e params t q p d (inr same) was_passed = ground arith

Settled-cases :
    (k : ℕ) (q p : Proposal) (s : State)
    → Settled k q s
    → KvStore.get k s.proposals ≡ some p
    → (p ≡ q) ⊎ (p ≡ record q { status = executed })
Settled-cases k q p s (unchanged still) found = inl (cc)
Settled-cases k q p s (enacted _ now) found = inr (cc)

-- If a vote on a proposal is accepted in a sound state and the proposal is executed after any
-- sequence of accepted messages, then the execution is no earlier than the block time of the vote
-- plus the timelock period that held at the vote.
pub timelock_respected :
    (h : Host) (e1 e2 : Env) (req : MsgVote) (s s2 : State)
    → IsSound s
    → (vote h e1 req s).0 ≡ ok tt
    → Reach h (vote h e1 req s).1 s2
    → (execute_proposal h e2 req.proposal_id s2).0 ≡ ok tt
    → e1.block_time +ℤ s.params.timelock_period ≤ℤ e2.block_time
timelock_respected h e1 e2 req s s2 sound accepted later enacted_ok =
    let (q, found, d) = vote_decides h e1 req s sound.indexed accepted in
    let after_vote =
      vote-IsSound h e1 req s (vote h e1 req s).1 (vote-Voted h e1 req s sound.indexed accepted)
        sound in
    let settled =
      Reach-Settled h (vote h e1 req s).1 s2 after_vote later req.proposal_id q found
        (closed-verdict _ _ d.outcome) in
    let done = execute_proposal-Executed h e2 req.proposal_id s2 enacted_ok in
    let unlock =
      Decided-unlocks h e1 s.params (totals_of (get_votes req.proposal_id (vote h e1 req s).1)) q
        done.before d (Settled-cases req.proposal_id q done.before s2 settled done.found)
        done.was_passed in
    let same : done.time ≡ e1.block_time +ℤ s.params.timelock_period = cc (unlock, done.timed) in
    subst (λ t. t ≤ℤ e2.block_time) same done.unlocked

execute_refused :
    (h : Host) (e : Env) (id : ℕ) (s : State) (p : Proposal)
    → id ≢ 0
    → KvStore.get id s.proposals ≡ some p
    → p.status ≡ executed
    → (execute_proposal h e id s).0 ≡ err proposal_not_passed
unfolding execute_proposal can_execute_proposal get_proposal
execute_refused h e id s p not_zero found was_executed = ground arith

executed_not_zero :
    (h : Host) (e : Env) (id : ℕ) (s : State) → (execute_proposal h e id s).0 ≡ ok tt → id ≢ 0
unfolding execute_proposal
executed_not_zero h e id s r = ground arith

-- After an accepted execution in a sound state, and any sequence of accepted messages, a second
-- execution of the same proposal is refused with ErrProposalNotPassed.
pub executed_once :
    (h : Host) (e e' : Env) (id : ℕ) (s s2 : State)
    → IsSound s
    → (execute_proposal h e id s).0 ≡ ok tt
    → Reach h (execute_proposal h e id s).1 s2
    → (execute_proposal h e' id s2).0 ≡ err proposal_not_passed
unfolding marked
executed_once h e e' id s s2 sound enacted_ok later =
    let after = (execute_proposal h e id s).1 in
    let done = execute_proposal-Executed h e id s enacted_ok in
    let found = Writes-self s after id _ (execute-Writes h e id s after done sound) in
    let settled =
      Reach-Settled h after s2 (execute-IsSound h e id s after done sound) later id
        (record done.before { status = executed }) found refl in
    elim settled [
      | unchanged still ↦
          execute_refused h e' id s2 _ (executed_not_zero h e id s enacted_ok) still refl
      | enacted impossible _ ↦ absurd (cc impossible)
    ]
