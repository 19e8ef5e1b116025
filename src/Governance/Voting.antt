-- ===== src/Governance/Voting.antt =====
-- What an accepted vote does: the tally, the opening of the vote, and the ballot.
pub mod Effect
use volnix_protocol.Base.{
  ℕ, Bool, some, ◌≡◌, arith, ok, ◌⊎◌, ◌<ℤ◌, Option-cases, inl, inr, Outcome-cases, Text, none, refl,
  false, true,
}
use volnix_protocol.KvStore.{KvStore, nat_key, pair_key, get-set}
use volnix_protocol.KvStore
use volnix_protocol.Host.{Host, Env}
use volnix_protocol.Governance.Types.{Proposal, submitted, voting, Params, Vote}
use volnix_protocol.Governance.Keeper.{
  State, set_proposal, get_proposal, decide, is_proposal_passed, tally_votes, with_totals,
  count_votes, no_tally, get_votes, set_vote, get_vote, votes_of, calculate_voting_power, Tally,
}
use volnix_protocol.Governance.Messages.{open_voting, MsgVote, vote, has_voted}

-- Every proposal stands under its own number.
abbrev pub IsIndexed : State → Type 0
IsIndexed s = (k : ℕ) (p : Proposal) → KvStore.get k s.proposals ≡ some p → p.proposal_id ≡ k

-- The proposal with the totals of the stored votes.
abbrev pub counted : ℕ → State → Proposal → Proposal
counted id s p = with_totals (count_votes (get_votes id s) no_tally) p

-- The tally writes the totals and the decision into the proposal, and nothing else.
pub tally_votes-ok :
    (h : Host) (e : Env) (id : ℕ) (s : State)
    → (tally_votes h e id s).0 ≡ ok tt
    → (p : Proposal) × (accepted : Bool) × (KvStore.get id s.proposals ≡ some p)
      × (is_proposal_passed h e (counted id s p) s.params ≡ ok accepted)
      × ((tally_votes h e id s).1
          ≡ (set_proposal (decide h e s.params accepted (counted id s p)) s).1)
unfolding tally_votes get_proposal set_proposal
tally_votes-ok h e id s r = elim (Option-cases (KvStore.get id s.proposals)) [
  | inl missing ↦ absurd (ground arith)
  | inr (p, found) ↦ elim (Outcome-cases (is_proposal_passed h e (counted id s p) s.params)) [
    | inl (accepted, decided) ↦ (p, accepted, found, decided, ground arith)
    | inr (x, failed) ↦ absurd (ground arith)
  ]
]

open_voting-ok :
    (e : Env) (p : Proposal) (s : State)
    → (open_voting e p s).0 ≡ ok tt
    → ((p.status ≡ voting) × ((open_voting e p s).1 ≡ s))
      ⊎ ((p.status ≡ submitted)
          × ((open_voting e p s).1 ≡ (set_proposal (record p { status = voting }) s).1))
unfolding open_voting
open_voting-ok e p s r = ground arith

module _ (e : Env) (p : Proposal) (s : State) (id : ℕ) (own : p.proposal_id ≡ id)
    (found : KvStore.get id s.proposals ≡ some p) (r : (open_voting e p s).0 ≡ ok tt) where
  -- The proposal that the tally finds is the one that was open, in the status `voting`.
  pub get-open_voting :
      KvStore.get id (open_voting e p s).1.proposals ≡ some (record p { status = voting })
  unfolding set_proposal
  get-open_voting = elim (open_voting-ok e p s r) [
    | inl (already, same) ↦ ground (arith, same)
    | inr (early, written) ↦
        rw written (cc (KvStore.get-set_self id (record p { status = voting }) s.proposals))
  ]

  set-open_voting :
      (q : Proposal)
      → KvStore.set id q (open_voting e p s).1.proposals ≡ KvStore.set id q s.proposals
  unfolding set_proposal
  set-open_voting q = elim (open_voting-ok e p s r) [
    | inl (already, same) ↦ rw same
    | inr (early, written) ↦
        rw written (cc (KvStore.set-set id q (record p { status = voting }) s.proposals))
  ]

  pub frame-open_voting :
      (open_voting e p s).1 ≡ record s { proposals = (open_voting e p s).1.proposals }
  unfolding set_proposal
  frame-open_voting = elim (open_voting-ok e p s r) [
    | inl (already, same) ↦ rw same
    | inr (early, written) ↦ rw written
  ]

abbrev pub ballot : Env → MsgVote → Text → Vote
ballot e req power = record {
  proposal_id = req.proposal_id;
  voter = req.voter;
  option = req.option;
  voting_power = power;
  vote_time = e.now;
}

-- The state with the new ballot.
abbrev pub recorded : Env → MsgVote → Text → State → State
recorded e req power s = record s {
  votes = KvStore.set (req.proposal_id, req.voter) (ballot e req power) s.votes;
}

-- The power is computed from the context alone.
calculate_voting_power-frame :
    (e : Env) (voter : Text) (s s' : State)
    → calculate_voting_power e voter s' ≡ ((calculate_voting_power e voter s).0, s')
unfolding calculate_voting_power
calculate_voting_power-frame e voter s s' = ground arith

module _ (h : Host) (e : Env) (req : MsgVote) (s : State) (p : Proposal)
    (found : KvStore.get req.proposal_id s.proposals ≡ some p)
    (r : (vote h e req s).0 ≡ ok tt) where
  opened : State
  opened = (open_voting e p s).1

  vote-open : (open_voting e p s).0 ≡ ok tt
  unfolding vote get_proposal
  vote-open = ground arith

  vote-fresh : KvStore.get (req.proposal_id, req.voter) opened.votes ≡ none
  unfolding vote get_proposal has_voted get_vote opened
  vote-fresh = ground arith

  module _ (power : Text) (weighed : (calculate_voting_power e req.voter s).0 ≡ ok power) where
    -- The rest of the handler is the tally of the state with the new ballot.
    vote-tally : vote h e req s ≡ tally_votes h e req.proposal_id (recorded e req power opened)
    unfolding vote get_proposal has_voted set_vote opened
    vote-tally = ground (arith, calculate_voting_power-frame e req.voter s opened)

  vote-weighed : (power : Text) × ((calculate_voting_power e req.voter s).0 ≡ ok power)
  vote-weighed = elim (Outcome-cases (calculate_voting_power e req.voter s).0) [
    | inl (power, weighed) ↦ (power, weighed)
    | inr (x, failed) ↦ absurd (
        unfold vote get_proposal opened in
        ground (arith, calculate_voting_power-frame e req.voter s opened))
  ]

was_open_of :
    (e : Env) (p : Proposal) (s : State)
    → (open_voting e p s).0 ≡ ok tt
    → (p.status ≡ voting) ⊎ ((p.status ≡ submitted) × (p.voting_start_time <ℤ e.block_time))
unfolding open_voting
was_open_of e p s r = ground arith

module _ (h : Host) (e : Env) (params : Params) where
  pub proposal_id-decide :
      (accepted : Bool) (p : Proposal) → (decide h e params accepted p).proposal_id ≡ p.proposal_id
  unfolding decide
  proposal_id-decide true p = refl
  proposal_id-decide false p = refl

  -- The decision forgets the status before it.
  decide-voting :
      (accepted : Bool) (t : Tally) (p : Proposal)
      → decide h e params accepted (with_totals t (record p { status = voting }))
        ≡ decide h e params accepted (with_totals t p)
  unfolding decide with_totals
  decide-voting true t p = refl
  decide-voting false t p = refl

  is_proposal_passed-voting :
      (t : Tally) (p : Proposal)
      → is_proposal_passed h e (with_totals t (record p { status = voting })) params
        ≡ is_proposal_passed h e (with_totals t p) params
  unfolding is_proposal_passed with_totals
  is_proposal_passed-voting t p = refl

-- The tally after an opened proposal, in the terms of the state before the message.
module _ (h : Host) (e : Env) (req : MsgVote) (s : State) (ps : KvStore ℕ Proposal) (p : Proposal)
    (power : Text) (got : KvStore.get req.proposal_id ps ≡ some (record p { status = voting }))
    (over : (q : Proposal)
      → KvStore.set req.proposal_id q ps ≡ KvStore.set req.proposal_id q s.proposals)
    (own : p.proposal_id ≡ req.proposal_id) where
  abbrev balloted : State
  balloted = recorded e req power (record s { proposals = ps })

  abbrev after_tally : State
  after_tally = (tally_votes h e req.proposal_id balloted).1

  abbrev tally_after : Tally
  tally_after = count_votes (votes_of req.proposal_id (KvStore.values balloted.votes)) no_tally

  -- The proposal that the tally reads.
  read_back :
      (q : Proposal) → KvStore.get req.proposal_id ps ≡ some q → q ≡ record p { status = voting }
  read_back q found = cc

  tally-Voted :
      (tally_votes h e req.proposal_id balloted).0 ≡ ok tt
      → (accepted : Bool) × (is_proposal_passed h e (with_totals tally_after p) s.params
          ≡ ok accepted)
        × (after_tally ≡ record balloted {
          proposals =
              KvStore.set req.proposal_id
                (decide h e s.params accepted (with_totals tally_after p))
                s.proposals;
        })
  unfolding get_votes with_totals set_proposal
  tally-Voted counted_ok =
      let (q, accepted, found, judged, after) =
        tally_votes-ok h e req.proposal_id balloted counted_ok in
      let same = read_back q found in
      (
        accepted,
        cc (judged, is_proposal_passed-voting h e s.params tally_after p),
        ground (
          arith,
          after,
          decide-voting h e s.params accepted tally_after p,
          proposal_id-decide h e s.params accepted (with_totals tally_after p),
          over (decide h e s.params accepted (with_totals tally_after p)),
        ),
      )
