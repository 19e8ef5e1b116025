-- ===== src/Governance/Execution.antt =====
-- ExecuteProposal of msg_server.go: what an accepted execution presupposes and does, and what the
-- parameter changes leave alone.
use volnix_protocol.Base.{
  ℕ, Bool, true, some, List, [], ◌∷◌, ◌≡◌, arith, ok, inl, inr, Outcome-cases, Option-cases, ◌≤ℤ◌,
  ℤ,
}
use volnix_protocol.KvStore.{nat_key}
use volnix_protocol.KvStore
use volnix_protocol.Host.{Host, Env}
use volnix_protocol.Governance.Types.{Proposal, ParameterChange, passed, executed}
use volnix_protocol.Governance.Keeper.{State, set_proposal, get_proposal, can_execute_proposal}
use volnix_protocol.Governance.Applier.{
  apply_parameter_change, apply_lizenz_parameter_change, apply_anteil_parameter_change,
  apply_consensus_parameter_change, apply_governance_parameter_change,
}
use volnix_protocol.Governance.Messages.{execute_changes, execute_proposal}

-- The part of the state that no parameter change touches.
pub record SamePolls (s s' : State) : Type 0 where
  pub same_proposals : s'.proposals ≡ s.proposals
  pub same_votes : s'.votes ≡ s.votes
  pub same_next_id : s'.next_id ≡ s.next_id

module _ (h : Host) where
  lizenz_change-SamePolls :
      (c : ParameterChange) (s : State) → SamePolls s (apply_lizenz_parameter_change h c s).1
  unfolding apply_lizenz_parameter_change
  lizenz_change-SamePolls c s = ground arith

  anteil_change-SamePolls :
      (c : ParameterChange) (s : State) → SamePolls s (apply_anteil_parameter_change h c s).1
  unfolding apply_anteil_parameter_change
  anteil_change-SamePolls c s = ground arith

  consensus_change-SamePolls :
      (c : ParameterChange) (s : State) → SamePolls s (apply_consensus_parameter_change h c s).1
  unfolding apply_consensus_parameter_change
  consensus_change-SamePolls c s = ground arith

  governance_change-SamePolls :
      (c : ParameterChange) (s : State) → SamePolls s (apply_governance_parameter_change h c s).1
  unfolding apply_governance_parameter_change
  governance_change-SamePolls c s = ground arith

  change-SamePolls :
      (c : ParameterChange) (s : State) → SamePolls s (apply_parameter_change h c s).1
  unfolding apply_parameter_change
  change-SamePolls c s = ground (
    arith,
    lizenz_change-SamePolls c s,
    anteil_change-SamePolls c s,
    consensus_change-SamePolls c s,
    governance_change-SamePolls c s,
  )

  pub execute_changes-SamePolls :
      (cs : List ParameterChange) (s : State) → SamePolls s (execute_changes h cs s).1
  unfolding execute_changes
  execute_changes-SamePolls [] s = ground arith
  execute_changes-SamePolls (c ∷ cs) s =
      ground
        (arith, change-SamePolls c s, execute_changes-SamePolls cs (apply_parameter_change h c s).1)

-- All that an accepted execution presupposes and does.
pub record Executed (h : Host) (e : Env) (id : ℕ) (s s' : State) : Type 0 where
  pub before : Proposal
  pub found : KvStore.get id s.proposals ≡ some before
  pub was_passed : before.status ≡ passed
  pub time : ℤ
  pub timed : before.execution_time ≡ some time
  pub unlocked : time ≤ℤ e.block_time
  pub all_applied : (execute_changes h before.parameter_changes s).0 ≡ ok tt
  pub after :
      s'
      ≡ (set_proposal
          (record before { status = executed })
          (execute_changes h before.parameter_changes s).1).1

can_execute_proposal-frame :
    (e : Env) (id : ℕ) (s : State)
    → can_execute_proposal e id s ≡ ((can_execute_proposal e id s).0, s)
unfolding can_execute_proposal get_proposal
can_execute_proposal-frame e id s = ground arith

-- CanExecuteProposal answers yes exactly with these facts, and never answers no.
can_execute_proposal-ok :
    (e : Env) (id : ℕ) (s : State) (b : Bool)
    → (can_execute_proposal e id s).0 ≡ ok b
    → (p : Proposal) → KvStore.get id s.proposals ≡ some p
    → (time : ℤ) × (b ≡ true)
      × (p.status ≡ passed)
      × (p.execution_time ≡ some time)
      × (time ≤ℤ e.block_time)
unfolding can_execute_proposal get_proposal
can_execute_proposal-ok e id s b r p found = elim (Option-cases p.execution_time) [
  | inl untimed ↦ absurd (ground arith)
  | inr (time, timed) ↦ (time, ground arith, ground arith, timed, ground arith)
]

module _ (h : Host) (e : Env) (id : ℕ) (s : State) (r : (execute_proposal h e id s).0 ≡ ok tt) where
  could_execute : (b : Bool) × ((can_execute_proposal e id s).0 ≡ ok b)
  unfolding execute_proposal
  could_execute = elim (Outcome-cases (can_execute_proposal e id s).0) [
    | inl (b, yes_answer) ↦ (b, yes_answer)
    | inr (x, failed) ↦ absurd (ground arith)
  ]

  -- The handler behind its guards.
  execute_proposal-tail :
      (p : Proposal)
      → KvStore.get id s.proposals ≡ some p
      → ((execute_changes h p.parameter_changes s).0 ≡ ok tt)
        × ((execute_proposal h e id s).1
            ≡ (set_proposal
                (record p { status = executed })
                (execute_changes h p.parameter_changes s).1).1)
  unfolding execute_proposal get_proposal set_proposal
  execute_proposal-tail p found = ground (arith, can_execute_proposal-frame e id s)

  executed_found : (p : Proposal) × (KvStore.get id s.proposals ≡ some p)
  unfolding execute_proposal can_execute_proposal get_proposal
  executed_found = elim (Option-cases (KvStore.get id s.proposals)) [
    | inl missing ↦ absurd (ground arith)
    | inr found ↦ found
  ]

-- An accepted execution is of a passed proposal whose execution time is set and not after the
-- block time; all its changes were applied in order, and the state after is that of the changes
-- with the proposal marked executed.
pub execute_proposal-Executed :
    (h : Host) (e : Env) (id : ℕ) (s : State)
    → (execute_proposal h e id s).0 ≡ ok tt
    → Executed h e id s (execute_proposal h e id s).1
execute_proposal-Executed h e id s r =
    let (b, answer) = could_execute h e id s r in
    let (p, found) = executed_found h e id s r in
    let (time, _, was_passed, timed, unlocked) = can_execute_proposal-ok e id s b answer p found in
    let (all_applied, after) = execute_proposal-tail h e id s r p found in
    record {
      before = p;
      found = found;
      was_passed = was_passed;
      time = time;
      timed = timed;
      unlocked = unlocked;
      all_applied = all_applied;
      after = after;
    }
