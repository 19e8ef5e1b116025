-- ===== src/Governance/Decision.antt =====
-- What a vote decides: Vote of x/governance/keeper/msg_server.go with TallyVotes of keeper.go.
use volnix_protocol.Base.{ℕ, Bool, true, false, some, ◌≡◌, refl, ok, ◌+ℤ◌, ap}
use volnix_protocol.Strconv.{format_uint}
use volnix_protocol.KvStore.{nat_key, pair_key}
use volnix_protocol.KvStore
use volnix_protocol.Host.{Host, Env}
use volnix_protocol.Governance.Types.{Proposal, ProposalStatus, passed, rejected, Params}
use volnix_protocol.Governance.Keeper.{
  State, Tally, get_votes, get_total_wrt_supply, with_totals, decide, votes_of,
}
use volnix_protocol.Governance.Messages.{MsgVote, vote}
use volnix_protocol.Governance.Tally.{
  totals_of, total_of, passes, count_votes-eq-totals_of, is_proposal_passed-with_totals,
  totals_of-InRange,
}
use volnix_protocol.Governance.Voting.{IsIndexed, recorded}
use volnix_protocol.Governance.Voting.Effect.{Voted, vote-Voted, tally_with}

abbrev pub verdict : Bool → ProposalStatus
verdict true = passed
verdict false = rejected

-- The stored proposal carries the totals `t` and the decision on them.
pub record Decided (h : Host) (e : Env) (params : Params) (t : Tally) (q : Proposal) : Type 0 where
  pub yes_total : q.yes_votes ≡ format_uint t.yes_votes
  pub no_total : q.no_votes ≡ format_uint t.no_votes
  pub abstain_total : q.abstain_votes ≡ format_uint t.abstain_votes
  pub all_total : q.total_votes ≡ format_uint (total_of t)
  pub supply : ℕ
  pub supply_known : get_total_wrt_supply e ≡ ok supply
  pub outcome : q.status ≡ verdict (passes h params supply t)
  pub unlocks :
      passes h params supply t ≡ true
      → q.execution_time ≡ some (e.block_time +ℤ params.timelock_period)

decide-Decided :
    (h : Host) (e : Env) (params : Params) (t : Tally) (p : Proposal) (supply : ℕ)
    → get_total_wrt_supply e ≡ ok supply
    → (accepted : Bool) → accepted ≡ passes h params supply t
    → Decided h e params t (decide h e params accepted (with_totals t p))
unfolding decide with_totals
decide-Decided h e params t p supply known true outcome = record {
  yes_total = refl;
  no_total = refl;
  abstain_total = refl;
  all_total = refl;
  supply = supply;
  supply_known = known;
  outcome = ap verdict outcome;
  unlocks = λ _. refl;
}
decide-Decided h e params t p supply known false outcome = record {
  yes_total = refl;
  no_total = refl;
  abstain_total = refl;
  all_total = refl;
  supply = supply;
  supply_known = known;
  outcome = ap verdict outcome;
  unlocks = λ pass. cc (outcome, pass);
}

module _ (h : Host) (e : Env) (req : MsgVote) (s : State) (indexed : IsIndexed s)
    (accepted : (vote h e req s).0 ≡ ok tt) where
  effect : Voted h e req s (vote h e req s).1
  effect = vote-Voted h e req s indexed accepted

  after : State
  after = (vote h e req s).1

  -- What stands under the proposal's number after the vote.
  stored : Proposal
  stored =
      decide h e s.params effect.accepted
        (with_totals (totals_of (get_votes req.proposal_id after)) effect.before)

  tally_read : tally_with e req effect.power s ≡ totals_of (get_votes req.proposal_id after)
  unfolding after get_votes
  tally_read = cc (
    effect.after,
    count_votes-eq-totals_of
        (votes_of req.proposal_id (KvStore.values (recorded e req effect.power s).votes)),
  )

  get-stored : KvStore.get req.proposal_id after.proposals ≡ some stored
  unfolding stored after
  get-stored = cc (
    effect.after,
    tally_read,
    KvStore.get-set_self req.proposal_id
        (decide h e s.params effect.accepted
          (with_totals (tally_with e req effect.power s) effect.before))
        s.proposals,
  )

  stored-Decided : Decided h e s.params (totals_of (get_votes req.proposal_id after)) stored
  unfolding stored
  stored-Decided =
      let (supply, known, outcome) =
        is_proposal_passed-with_totals h e effect.before s.params
          (totals_of (get_votes req.proposal_id after))
          (totals_of-InRange (get_votes req.proposal_id after)) effect.accepted
          (cc (effect.judged, tally_read)) in
      decide-Decided h e s.params (totals_of (get_votes req.proposal_id after)) effect.before supply
        known effect.accepted outcome

  -- Where proposals stand under their own numbers, an accepted vote stores on its proposal the
  -- totals of all stored ballots modulo 2^64, and sets it to passed or rejected at once by the
  -- quorum, threshold and majority comparisons on those totals; a passed proposal is unlocked at
  -- the block time plus the timelock period.
  pub vote_decides :
      (q : Proposal) × (KvStore.get req.proposal_id (vote h e req s).1.proposals ≡ some q)
      × Decided h e s.params (totals_of (get_votes req.proposal_id (vote h e req s).1)) q
  unfolding after
  vote_decides = (stored, get-stored, stored-Decided)
