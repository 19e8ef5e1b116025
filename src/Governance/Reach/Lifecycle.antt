-- ===== src/Governance/Reach/Lifecycle.antt =====
-- The life of a proposal under the messages of x/governance/keeper/msg_server.go.
use volnix_protocol.Base.{
  ℕ, Bool, true, false, some, ◌≡◌, ◌≢◌, refl, arith, ◌⊎◌, inl, inr, ℕ_discrete, ◌<ℤ◌, ap,
}
use volnix_protocol.KvStore.{nat_key}
use volnix_protocol.KvStore
use volnix_protocol.Host.{Host, Env}
use volnix_protocol.Governance.Types.{
  Proposal, ProposalStatus, submitted, voting, passed, executed, rejected, Params,
}
use volnix_protocol.Governance.Keeper.{State, decide}
use volnix_protocol.Governance.Messages.{MsgVote}
use volnix_protocol.Governance.Submission.{Submitted, submit_proposal-Submitted}
use volnix_protocol.Governance.Voting.Effect.{Voted, vote-Voted}
use volnix_protocol.Governance.Execution.{Executed, execute_proposal-Executed}
use volnix_protocol.Governance.Reach.{
  Step, by_submit, by_vote, by_execute, Reach, here, next, closed, IsSound, Writes, Writes-self,
  Writes-ne,
}
use volnix_protocol.Governance.Reach.Soundness.{
  submit-Writes, fresh_number, vote-Writes, decided_now, execute-Writes, marked, Reach-IsSound,
}

-- The transitions of a stored proposal.
infix 40 ◌⟶◌
pub data ◌⟶◌ : ProposalStatus → ProposalStatus → Type 0 where
  pass_at_once : submitted ⟶ passed
  reject_at_once : submitted ⟶ rejected
  pass : voting ⟶ passed
  reject : voting ⟶ rejected
  enact : passed ⟶ executed

-- What may become of the proposal `p` under the number `k`.
pub data Fate (k : ℕ) (p : Proposal) (s' : State) : Type 0 where
  kept : KvStore.get k s'.proposals ≡ some p → Fate k p s'
  moved :
      (p' : Proposal) → KvStore.get k s'.proposals ≡ some p' → p.status ⟶ p'.status → Fate k p s'

decide_moves :
    (h : Host) (e : Env) (params : Params) (accepted : Bool) (p q : Proposal)
    → (p.status ≡ voting) ⊎ ((p.status ≡ submitted) × (p.voting_start_time <ℤ e.block_time))
    → p.status ⟶ (decide h e params accepted q).status
unfolding decide
decide_moves h e params true p q (inl e1) = rw e1 pass
decide_moves h e params true p q (inr (e1, _)) = rw e1 pass_at_once
decide_moves h e params false p q (inl e1) = rw e1 reject
decide_moves h e params false p q (inr (e1, _)) = rw e1 reject_at_once

vote_moves :
    (h : Host) (e : Env) (req : MsgVote) (s s' : State) (done : Voted h e req s s')
    (sound : IsSound s) (p : Proposal)
    → p ≡ done.before
    → p.status ⟶ (decided_now h e req s s' done sound).status
unfolding decided_now
vote_moves h e req s s' done sound p same =
    rw same (decide_moves h e s.params done.accepted done.before _ done.was_open)

execute_moves :
    (h : Host) (e : Env) (id : ℕ) (s s' : State) (done : Executed h e id s s') (sound : IsSound s)
    (p : Proposal)
    → p ≡ done.before
    → p.status ⟶ (marked h e id s s' done sound).status
unfolding marked
execute_moves h e id s s' done sound p same = rw (same, done.was_passed) enact

-- The fate of a proposal by the number that the message writes.
written-Fate :
    (s s' : State) (id : ℕ) (q : Proposal)
    → Writes s s' id q
    → (k : ℕ) (p : Proposal) → KvStore.get k s.proposals ≡ some p
    → (id ≡ k → p.status ⟶ q.status)
    → Fate k p s'
written-Fate s s' id q w k p found move = elim (ℕ_discrete id k) [
  | yes same ↦ moved q (cc (Writes-self s s' id q w)) (move same)
  | no ne ↦ kept (cc (Writes-ne s s' id q w k ne))
]

-- An accepted message in a sound state leaves each stored proposal as it is or moves its status
-- along the lifecycle: from submitted or voting to passed or rejected, and from passed to
-- executed.
pub Step-Fate :
    (h : Host) (s s' : State)
    → IsSound s
    → Step h s s'
    → (k : ℕ) (p : Proposal) → KvStore.get k s.proposals ≡ some p
    → Fate k p s'
Step-Fate h s s' sound (by_submit e req id room r same) k p found =
    let done : Submitted e req s s' id = rw same (submit_proposal-Submitted e req s id r) in
    written-Fate s s' id _ (submit-Writes e req s s' id done room) k p found
      (λ here_now. absurd (fresh_number e req s s' id done room sound k p found here_now))
Step-Fate h s s' sound (by_vote e req r same) k p found =
    let done : Voted h e req s s' = rw same (vote-Voted h e req s sound.indexed r) in
    written-Fate s s' req.proposal_id _ (vote-Writes h e req s s' done sound) k p found
      (λ here_now. vote_moves h e req s s' done sound p (cc))
Step-Fate h s s' sound (by_execute e id r same) k p found =
    let done : Executed h e id s s' = rw same (execute_proposal-Executed h e id s r) in
    written-Fate s s' id _ (execute-Writes h e id s s' done sound) k p found
      (λ here_now. execute_moves h e id s s' done sound p (cc))

-- A proposal whose vote is over stays as it is, but that a passed one may be executed.
pub data Settled (k : ℕ) (p : Proposal) (s' : State) : Type 0 where
  unchanged : KvStore.get k s'.proposals ≡ some p → Settled k p s'
  enacted :
      p.status ≡ passed
      → KvStore.get k s'.proposals ≡ some (record p { status = executed })
      → Settled k p s'

still_other :
    (s s' : State) (id : ℕ) (q : Proposal)
    → Writes s s' id q
    → (k : ℕ) (p : Proposal) → KvStore.get k s.proposals ≡ some p
    → id ≢ k
    → Settled k p s'
still_other s s' id q w k p found ne = unchanged (cc (Writes-ne s s' id q w k ne))

vote_elsewhere :
    (h : Host) (e : Env) (req : MsgVote) (s s' : State)
    → Voted h e req s s'
    → (k : ℕ) (p : Proposal) → KvStore.get k s.proposals ≡ some p
    → closed p.status ≡ true
    → req.proposal_id ≢ k
vote_elsewhere h e req s s' done k p found over same =
    let read : done.before ≡ p = cc (done.found, found, same) in
    ground (arith, done.was_open, ap (λ (q : Proposal). q.status) read)

execute_settles :
    (h : Host) (e : Env) (id : ℕ) (s s' : State)
    → Executed h e id s s'
    → IsSound s
    → (k : ℕ) (p : Proposal) → KvStore.get k s.proposals ≡ some p
    → Settled k p s'
unfolding marked
execute_settles h e id s s' done sound k p found = elim (ℕ_discrete id k) [
  | no ne ↦ still_other s s' id _ (execute-Writes h e id s s' done sound) k p found ne
  | yes same ↦
      let read : done.before ≡ p = cc (done.found, found, same) in
      enacted (cc (done.was_passed, ap (λ (q : Proposal). q.status) read))
        (cc (Writes-self s s' id _ (execute-Writes h e id s s' done sound), same, read))
]

Step-Settled :
    (h : Host) (s s' : State)
    → IsSound s
    → Step h s s'
    → (k : ℕ) (p : Proposal) → KvStore.get k s.proposals ≡ some p
    → closed p.status ≡ true
    → Settled k p s'
Step-Settled h s s' sound (by_submit e req id room r same) k p found over =
    let done : Submitted e req s s' id = rw same (submit_proposal-Submitted e req s id r) in
    still_other s s' id _ (submit-Writes e req s s' id done room) k p found
      (fresh_number e req s s' id done room sound k p found)
Step-Settled h s s' sound (by_vote e req r same) k p found over =
    let done : Voted h e req s s' = rw same (vote-Voted h e req s sound.indexed r) in
    still_other s s' req.proposal_id _ (vote-Writes h e req s s' done sound) k p found
      (vote_elsewhere h e req s s' done k p found over)
Step-Settled h s s' sound (by_execute e id r same) k p found over =
    execute_settles h e id s s' (rw same (execute_proposal-Executed h e id s r)) sound k p found

-- In a sound state a proposal that is passed, rejected or executed is never altered by accepted
-- messages, except that a passed one may become executed with all its other fields kept.
pub Reach-Settled :
    (h : Host) (s s' : State)
    → IsSound s
    → Reach h s s'
    → (k : ℕ) (p : Proposal) → KvStore.get k s.proposals ≡ some p
    → closed p.status ≡ true
    → Settled k p s'
Reach-Settled h s s' sound here k p found over = unchanged found
Reach-Settled h s s' sound (next {t} {u} r st) k p found over =
    elim (Reach-Settled h s t sound r k p found over) [
      | unchanged still ↦ Step-Settled h t s' (Reach-IsSound h sound r) st k p still over
      | enacted was_passed now ↦
          elim (Step-Settled h t s' (Reach-IsSound h sound r) st k (record p { status = executed })
            now refl) [
              | unchanged still ↦ enacted was_passed still
              | enacted impossible _ ↦ absurd (cc impossible)
            ]
    ]
