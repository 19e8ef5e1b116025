-- ===== src/Governance/Reach.antt =====
-- The states that accepted messages of x/governance lead to. A refused message changes nothing
-- here, since its transaction is discarded.
pub mod Soundness
pub mod Lifecycle
pub mod Timelock
pub mod Closing
pub mod Numbering
pub mod FromGenesis
use volnix_protocol.Base.{
  ℕ, ◌-◌, ◌^◌, ◌<◌, Bool, true, false, some, ◌≡◌, ◌≢◌, arith, ok, Text, ◌⊎◌, inl, inr, ℕ_discrete,
}
use volnix_protocol.KvStore.{KvStore, nat_key, pair_key}
use volnix_protocol.KvStore
use volnix_protocol.Host.{Host, Env}
use volnix_protocol.Governance.Types.{Proposal, ProposalStatus, Vote, passed, executed, rejected}
use volnix_protocol.Governance.Keeper.{State, get_next_proposal_id}
use volnix_protocol.Governance.Messages.{
  MsgSubmitProposal, MsgVote, submit_proposal, vote, execute_proposal,
}
use volnix_protocol.Governance.Voting.{IsIndexed}

-- An accepted message. The counter of proposals has not run out of 64 bits.
pub data Step (h : Host) (s s' : State) : Type 0 where
  by_submit :
      (e : Env) (req : MsgSubmitProposal) (id : ℕ)
      → get_next_proposal_id s < 2 ^ 64 - 1
      → (submit_proposal e req s).0 ≡ ok id
      → s' ≡ (submit_proposal e req s).1
      → Step h s s'
  by_vote :
      (e : Env) (req : MsgVote) → (vote h e req s).0 ≡ ok tt → s' ≡ (vote h e req s).1 → Step h s s'
  by_execute :
      (e : Env) (id : ℕ)
      → (execute_proposal h e id s).0 ≡ ok tt
      → s' ≡ (execute_proposal h e id s).1
      → Step h s s'

pub data Reach (h : Host) (s : State) : State → Type 0 where
  here : Reach h s s
  next : {t u : State} → Reach h s t → Step h t u → Reach h s u

-- A proposal whose vote is over.
abbrev pub closed : ProposalStatus → Bool
closed passed = true
closed rejected = true
closed executed = true
closed _ = false

pub record IsSound (s : State) : Type 0 where
  pub indexed : IsIndexed s
  pub below_next :
      (k : ℕ) (p : Proposal) → KvStore.get k s.proposals ≡ some p → k < get_next_proposal_id s
  pub balloted :
      (k : ℕ) (w : Text) (v : Vote)
      → KvStore.get (k, w) s.votes ≡ some v
      → (p : Proposal) × (KvStore.get k s.proposals ≡ some p) × (closed p.status ≡ true)
  pub single :
      (k : ℕ) (w w' : Text) (v v' : Vote)
      → KvStore.get (k, w) s.votes ≡ some v
      → KvStore.get (k, w') s.votes ≡ some v'
      → w ≡ w'

-- The proposal that a message writes, in the terms of the two states.
pub record Writes (s s' : State) (id : ℕ) (q : Proposal) : Type 0 where
  pub own : q.proposal_id ≡ id
  pub written : s'.proposals ≡ KvStore.set id q s.proposals

module _ (s s' : State) (id : ℕ) (q : Proposal) (w : Writes s s' id q) where
  pub Writes-self : KvStore.get id s'.proposals ≡ some q
  Writes-self = rw w.written (KvStore.get-set_self id q s.proposals)

  pub Writes-ne : (k : ℕ) → id ≢ k → KvStore.get k s'.proposals ≡ KvStore.get k s.proposals
  Writes-ne k ne = rw w.written (KvStore.get-set_ne k id q s.proposals ne)

  pub Writes-cases :
      (k : ℕ) (p : Proposal)
      → KvStore.get k s'.proposals ≡ some p
      → ((id ≡ k) × (p ≡ q)) ⊎ (KvStore.get k s.proposals ≡ some p)
  Writes-cases k p found = KvStore.get-set_cases k id q p s.proposals (rw w.written at found)

  pub Writes-IsIndexed : IsIndexed s → IsIndexed s'
  Writes-IsIndexed indexed k p found = elim (Writes-cases k p found) [
    | inl (here_now, same) ↦ cc (w.own)
    | inr before ↦ indexed k p before
  ]

  pub Writes-below :
      (n : ℕ)
      → id < n
      → ((k : ℕ) (p : Proposal) → KvStore.get k s.proposals ≡ some p → k < n)
      → (k : ℕ) (p : Proposal) → KvStore.get k s'.proposals ≡ some p
      → k < n
  Writes-below n fits below k p found = elim (Writes-cases k p found) [
    | inl (here_now, same) ↦ omega arith
    | inr before ↦ below k p before
  ]

  -- A closed proposal stays closed under a write of a closed one, or of another.
  pub Writes-closed :
      (k : ℕ) (p : Proposal)
      → (id ≢ k) ⊎ (closed q.status ≡ true)
      → KvStore.get k s.proposals ≡ some p
      → closed p.status ≡ true
      → (p' : Proposal) × (KvStore.get k s'.proposals ≡ some p') × (closed p'.status ≡ true)
  Writes-closed k p (inl ne) found over = (p, cc (Writes-ne k ne), over)
  Writes-closed k p (inr shut) found over = elim (ℕ_discrete id k) [
    | yes e ↦ (q, cc (Writes-self), shut)
    | no ne ↦ (p, cc (Writes-ne k ne), over)
  ]
