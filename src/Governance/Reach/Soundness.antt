-- ===== src/Governance/Reach/Soundness.antt =====
-- The invariant of the stores of x/governance over the messages of keeper/msg_server.go.
use volnix_protocol.Base.{
  ℕ, ◌+◌, ◌-◌, ◌^◌, ◌<◌, Bool, true, false, some, ◌≡◌, ◌≢◌, refl, arith, Text, ◌⊎◌, inl, inr, ap,
}
use volnix_protocol.KvStore.{KvStore, nat_key, pair_key}
use volnix_protocol.KvStore
use volnix_protocol.Host.{Host, Env}
use volnix_protocol.Governance.Types.{Proposal, Vote, Params, executed}
use volnix_protocol.Governance.Keeper.{
  State, get_next_proposal_id, decide, with_totals, set_proposal,
}
use volnix_protocol.Governance.Messages.{MsgSubmitProposal, MsgVote, new_proposal, execute_changes}
use volnix_protocol.Governance.Submission.{
  Submitted, submit_proposal-Submitted, proposal_id-new_proposal,
}
use volnix_protocol.Governance.Voting.{ballot, proposal_id-decide}
use volnix_protocol.Governance.Voting.Effect.{Voted, vote-Voted, tally_with}
use volnix_protocol.Governance.Execution.{
  Executed, execute_proposal-Executed, SamePolls, execute_changes-SamePolls,
}
use volnix_protocol.Governance.Reach.{
  Step, by_submit, by_vote, by_execute, Reach, here, next, closed, IsSound, Writes, Writes-self,
  Writes-IsIndexed, Writes-below, Writes-closed,
}

module _ (e : Env) (req : MsgSubmitProposal) (s s' : State) (id : ℕ)
    (done : Submitted e req s s' id) (room : get_next_proposal_id s < 2 ^ 64 - 1) where
  pub submit-Writes : Writes s s' id (new_proposal e req s.params id)
  submit-Writes = record {
    own = proposal_id-new_proposal e req s.params id;
    written = cc (done.after);
  }

  pub next-submit : get_next_proposal_id s' ≡ get_next_proposal_id s + 1
  unfolding get_next_proposal_id
  next-submit = ground (arith, done.after, done.numbered, ap (λ (t : State). t.next_id) done.after)

  module _ (sound : IsSound s) where
    pub fresh_number : (k : ℕ) (p : Proposal) → KvStore.get k s.proposals ≡ some p → id ≢ k
    fresh_number k p found = omega (arith, sound.below_next k p found, done.numbered)

    submit-IsSound : IsSound s'
    submit-IsSound = record {
      indexed = Writes-IsIndexed s s' id _ submit-Writes sound.indexed;
      below_next =
          Writes-below s s' id _ submit-Writes (get_next_proposal_id s')
            (omega (arith, next-submit, done.numbered))
            (λ k p found. omega (arith, next-submit, sound.below_next k p found));
      balloted = λ k w v cast.
          let (p, found, over) = sound.balloted k w v (cc (done.after, cast)) in
          Writes-closed s s' id _ submit-Writes k p (inl (fresh_number k p found)) found over;
      single = λ k w w' v v' cast cast'.
          sound.single k w w' v v' (cc (done.after, cast)) (cc (done.after, cast'));
    }

closed-decide :
    (h : Host) (e : Env) (params : Params) (accepted : Bool) (p : Proposal)
    → closed (decide h e params accepted p).status ≡ true
unfolding decide
closed-decide h e params true p = refl
closed-decide h e params false p = refl

module _ (h : Host) (e : Env) (req : MsgVote) (s s' : State) (done : Voted h e req s s')
    (sound : IsSound s) where
  unfoldable pub decided_now : Proposal
  decided_now =
      decide h e s.params done.accepted (with_totals (tally_with e req done.power s) done.before)

  pub vote-Writes : Writes s s' req.proposal_id decided_now
  unfolding decided_now with_totals
  vote-Writes = record {
    own = cc (
      proposal_id-decide h e s.params done.accepted
          (with_totals (tally_with e req done.power s) done.before),
      sound.indexed req.proposal_id done.before done.found,
    );
    written = cc (done.after);
  }

  pub closed_now : closed decided_now.status ≡ true
  unfolding decided_now
  closed_now = closed-decide h e s.params done.accepted _

  pub next-vote : get_next_proposal_id s' ≡ get_next_proposal_id s
  unfolding get_next_proposal_id
  next-vote = rw (ap (λ (t : State). t.next_id) done.after)

  votes-vote : s'.votes ≡ KvStore.set (req.proposal_id, req.voter) (ballot e req done.power) s.votes
  votes-vote = cc (done.after)

  -- The proposal was open, so it had no ballot.
  none_before : (w : Text) (v : Vote) → KvStore.get (req.proposal_id, w) s.votes ≡ some v → ⊥
  none_before w v cast =
      let (p, found, over) = sound.balloted req.proposal_id w v cast in
      ground (arith, done.was_open, done.found)

  ballot_cases :
      (k : ℕ) (w : Text) (v : Vote)
      → KvStore.get (k, w) s'.votes ≡ some v
      → ((req.proposal_id ≡ k) × (req.voter ≡ w)) ⊎ (KvStore.get (k, w) s.votes ≡ some v)
  ballot_cases k w v cast =
      elim (KvStore.get-set_cases (k, w) (req.proposal_id, req.voter) (ballot e req done.power) v
        s.votes (rw votes-vote at cast)) [
          | inl (same, _) ↦ inl (cc same, cc same)
          | inr old ↦ inr old
        ]

  one_ballot :
      (k : ℕ) (w w' : Text) (v v' : Vote)
      → KvStore.get (k, w) s'.votes ≡ some v
      → KvStore.get (k, w') s'.votes ≡ some v'
      → w ≡ w'
  one_ballot k w w' v v' cast cast' = elim (ballot_cases k w v cast) [
    | inl (here_now, by_now) ↦ elim (ballot_cases k w' v' cast') [
      | inl (_, by_now') ↦ cc
      | inr old' ↦ absurd (none_before w' v' (cc))
    ]
    | inr old ↦ elim (ballot_cases k w' v' cast') [
      | inl (here_now, _) ↦ absurd (none_before w v (cc))
      | inr old' ↦ sound.single k w w' v v' old old'
    ]
  ]

  pub vote-IsSound : IsSound s'
  vote-IsSound = record {
    indexed = Writes-IsIndexed s s' req.proposal_id decided_now vote-Writes sound.indexed;
    below_next =
        Writes-below s s' req.proposal_id decided_now vote-Writes (get_next_proposal_id s')
          (omega (arith, next-vote, sound.below_next req.proposal_id done.before done.found))
          (λ k p found. omega (arith, next-vote, sound.below_next k p found));
    balloted = λ k w v cast. elim (ballot_cases k w v cast) [
      | inl (here_now, _) ↦
          (decided_now, cc (Writes-self s s' req.proposal_id decided_now vote-Writes), closed_now)
      | inr old ↦
          let (p, found, over) = sound.balloted k w v old in
          Writes-closed s s' req.proposal_id decided_now vote-Writes k p (inr closed_now) found over
    ];
    single = one_ballot;
  }

module _ (h : Host) (e : Env) (id : ℕ) (s s' : State) (done : Executed h e id s s')
    (sound : IsSound s) where
  unfoldable pub marked : Proposal
  marked = record done.before { status = executed }

  polls : SamePolls s (execute_changes h done.before.parameter_changes s).1
  polls = execute_changes-SamePolls h done.before.parameter_changes s

  pub execute-Writes : Writes s s' id marked
  unfolding marked set_proposal
  execute-Writes = record {
    own = sound.indexed id done.before done.found;
    written = cc (done.after, polls.same_proposals, sound.indexed id done.before done.found);
  }

  votes-execute : s'.votes ≡ s.votes
  unfolding set_proposal
  votes-execute = cc (done.after, polls.same_votes)

  pub next-execute : get_next_proposal_id s' ≡ get_next_proposal_id s
  unfolding get_next_proposal_id set_proposal
  next-execute = rw (ap (λ (t : State). t.next_id) done.after, polls.same_next_id)

  pub execute-IsSound : IsSound s'
  unfolding marked
  execute-IsSound = record {
    indexed = Writes-IsIndexed s s' id marked execute-Writes sound.indexed;
    below_next =
        Writes-below s s' id marked execute-Writes (get_next_proposal_id s')
          (omega (arith, next-execute, sound.below_next id done.before done.found))
          (λ k p found. omega (arith, next-execute, sound.below_next k p found));
    balloted = λ k w v cast.
        let (p, found, over) = sound.balloted k w v (rw votes-execute at cast) in
        Writes-closed s s' id marked execute-Writes k p (inr refl) found over;
    single = λ k w w' v v' cast cast'.
        sound.single k w w' v v' (rw votes-execute at cast) (rw votes-execute at cast');
  }

-- Every accepted message keeps the invariant.
pub Step-IsSound : (h : Host) (s s' : State) → Step h s s' → IsSound s → IsSound s'
Step-IsSound h s s' (by_submit e req id room r same) sound =
    submit-IsSound e req s s' id (rw same (submit_proposal-Submitted e req s id r)) room sound
Step-IsSound h s s' (by_vote e req r same) sound =
    vote-IsSound h e req s s' (rw same (vote-Voted h e req s sound.indexed r)) sound
Step-IsSound h s s' (by_execute e id r same) sound =
    execute-IsSound h e id s s' (rw same (execute_proposal-Executed h e id s r)) sound

-- From a sound state every sequence of accepted messages leads to a sound state: proposals stand
-- under their own numbers and below the counter, every ballot is on an existing closed proposal,
-- and no proposal has the ballots of two voters.
pub Reach-IsSound : (h : Host) {s s' : State} → IsSound s → Reach h s s' → IsSound s'
Reach-IsSound h sound here = sound
Reach-IsSound h sound (next {t} {u} r st) = Step-IsSound h t u st (Reach-IsSound h sound r)
