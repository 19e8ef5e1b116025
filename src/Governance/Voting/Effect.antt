-- ===== src/Governance/Voting/Effect.antt =====
-- The whole effect of an accepted vote, `Vote` of msg_server.go, in one record.
use volnix_protocol.Base.{Bool, some, none, ◌≡◌, ◌⊎◌, ◌<ℤ◌, arith, ok, inl, inr, Text, Option-cases}
use volnix_protocol.KvStore.{KvStore, nat_key, pair_key}
use volnix_protocol.KvStore
use volnix_protocol.Host.{Host, Env}
use volnix_protocol.Governance.Types.{Proposal, submitted, voting}
use volnix_protocol.Governance.Keeper.{
  State, Tally, calculate_voting_power, count_votes, votes_of, no_tally, decide, with_totals,
  is_proposal_passed, get_proposal,
}
use volnix_protocol.Governance.Messages.{MsgVote, open_voting, vote}
use volnix_protocol.Governance.Voting.{
  IsIndexed, recorded, opened, vote-open, vote-fresh, vote-tally, vote-weighed, get-open_voting,
  set-open_voting, frame-open_voting, was_open_of, tally-Voted,
}

-- The totals of the votes on `id` after the ballot.
abbrev pub tally_with : Env → MsgVote → Text → State → Tally
tally_with e req power s =
    count_votes (votes_of req.proposal_id (KvStore.values (recorded e req power s).votes)) no_tally

-- All that an accepted vote presupposes and does.
pub record Voted (h : Host) (e : Env) (req : MsgVote) (s s' : State) : Type 0 where
  pub before : Proposal
  pub found : KvStore.get req.proposal_id s.proposals ≡ some before
  pub was_open :
      (before.status ≡ voting)
      ⊎ ((before.status ≡ submitted) × (before.voting_start_time <ℤ e.block_time))
  pub fresh : KvStore.get (req.proposal_id, req.voter) s.votes ≡ none
  pub power : Text
  pub weighed : (calculate_voting_power e req.voter s).0 ≡ ok power
  pub accepted : Bool
  pub judged :
      is_proposal_passed h e (with_totals (tally_with e req power s) before) s.params ≡ ok accepted
  pub after : s' ≡ record (recorded e req power s) {
    proposals =
        KvStore.set req.proposal_id
          (decide h e s.params accepted (with_totals (tally_with e req power s) before))
          s.proposals;
  }

module _ (h : Host) (e : Env) (req : MsgVote) (s : State) (indexed : IsIndexed s)
    (r : (vote h e req s).0 ≡ ok tt) where
  vote-Voted_of :
      (p : Proposal)
      → KvStore.get req.proposal_id s.proposals ≡ some p
      → Voted h e req s (vote h e req s).1
  unfolding opened
  vote-Voted_of p found =
      let (power, weighed) = vote-weighed h e req s p found r in
      let go = vote-open h e req s p found r in
      let own = indexed req.proposal_id p found in
      let tail = vote-tally h e req s p found r power weighed in
      let frame = frame-open_voting e p s req.proposal_id own found go in
      let (accepted, judged, after) =
        tally-Voted h e req s (open_voting e p s).1.proposals p power
          (get-open_voting e p s req.proposal_id own found go)
          (set-open_voting e p s req.proposal_id own found go) own (cc (tail, frame)) in
      record {
        before = p;
        found = found;
        was_open = was_open_of e p s go;
        fresh = cc (vote-fresh h e req s p found r, frame);
        power = power;
        weighed = weighed;
        accepted = accepted;
        judged = judged;
        after = cc (tail, frame, after);
      }

  -- An accepted vote, where proposals stand under their own numbers, was on a proposal in voting,
  -- or submitted with its start time before the block time, by a voter with no ballot on it yet;
  -- the state after has exactly the new ballot and the decided proposal.
  pub vote-Voted : Voted h e req s (vote h e req s).1
  unfolding vote get_proposal
  vote-Voted = elim (Option-cases (KvStore.get req.proposal_id s.proposals)) [
    | inl missing ↦ absurd (ground arith)
    | inr (p, found) ↦ vote-Voted_of p found
  ]
