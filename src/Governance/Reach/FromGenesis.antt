-- ===== src/Governance/Reach/FromGenesis.antt =====
-- What holds in every state that accepted messages lead to from the state of InitGenesis.
use volnix_protocol.Base.{ℕ, ◌≤◌, ◌<◌, ◌≡◌, ◌↔◌, Option, some, [], ok, arith}
use volnix_protocol.KvStore.{nat_key, pair_key}
use volnix_protocol.KvStore
use volnix_protocol.Host.{Host}
use volnix_protocol.Governance.Types.{Params}
use volnix_protocol.Governance.Keeper.{
  State, set_proposal, set_next_proposal_id, get_next_proposal_id,
}
use volnix_protocol.Governance.Genesis.{init_genesis, genesis_params}
use volnix_protocol.Governance.Submission.{submit_proposal-Submitted}
use volnix_protocol.Governance.Voting.Effect.{vote-Voted}
use volnix_protocol.Governance.Execution.{execute_proposal-Executed}
use volnix_protocol.Governance.Sanity.{IsSane, execute_changes-IsSane}
use volnix_protocol.Governance.Reach.{
  Step, Reach, IsSound, by_submit, by_vote, by_execute, here, next,
}
use volnix_protocol.Governance.Reach.Numbering.{IsStored, IsNumbered, Reach-IsNumbered}
use volnix_protocol.Governance.Reach.Soundness.{Reach-IsSound}
use volnix_protocol.Governance.Applier.{stored_governance}

Step-IsSane :
    (h : Host) (s s' : State) → Step h s s' → IsSound s → IsSane h s.params → IsSane h s'.params
unfolding set_proposal
Step-IsSane h s s' (by_submit e req id room r same) sound sane =
    let done = submit_proposal-Submitted e req s id r in rw (same, done.after) sane
Step-IsSane h s s' (by_vote e req r same) sound sane =
    let done = vote-Voted h e req s sound.indexed r in rw (same, done.after) sane
Step-IsSane h s s' (by_execute e id r same) sound sane =
    let done = execute_proposal-Executed h e id s r in
    rw (same, done.after) (execute_changes-IsSane h done.before.parameter_changes s sane)

Reach-IsSane :
    (h : Host) {s s' : State} → Reach h s s' → IsSound s → IsSane h s.params → IsSane h s'.params
Reach-IsSane h here sound sane = sane
Reach-IsSane h (next {t} {u} r st) sound sane =
    Step-IsSane h t u st (Reach-IsSound h sound r) (Reach-IsSane h r sound sane)

-- The stores of a new chain hold nothing.
pub record IsEmpty (s : State) : Type 0 where
  pub no_proposals : s.proposals ≡ []
  pub no_votes : s.votes ≡ []

module _ (g : Option Params) (s : State) (empty : IsEmpty s)
    (started : (init_genesis g s).0 ≡ ok tt) where
  started_state : (init_genesis g s).1 ≡ record s { params = genesis_params g; next_id = some 1 }
  unfolding init_genesis set_next_proposal_id stored_governance
  started_state = ground arith

  init_genesis-IsSound : IsSound (init_genesis g s).1
  unfolding KvStore.get
  init_genesis-IsSound = rw started_state (record {
    indexed = λ k p found. absurd (ground (arith, empty.no_proposals));
    below_next = λ k p found. absurd (ground (arith, empty.no_proposals));
    balloted = λ k w v cast. absurd (ground (arith, empty.no_votes));
    single = λ k w w' v v' cast cast'. absurd (ground (arith, empty.no_votes));
  })

  init_genesis-IsNumbered : IsNumbered (init_genesis g s).1
  unfolding KvStore.get get_next_proposal_id
  init_genesis-IsNumbered = rw started_state (record {
    from_one = λ k (p, found). absurd (ground (arith, empty.no_proposals));
    counting = omega arith;
    without_gap = λ k least below. absurd (omega arith);
  })

module _ (h : Host) (g : Option Params) (s s' : State) (empty : IsEmpty s)
    (started : (init_genesis g s).0 ≡ ok tt) (reached : Reach h (init_genesis g s).1 s') where
  -- On a chain whose stores were empty when InitGenesis succeeded, whatever messages were
  -- accepted, the numbers of the stored proposals are exactly those from one up to, and without,
  -- the next number: none is zero, skipped, used twice or removed.
  pub numbered_from_one : (k : ℕ) → IsStored k s' ↔ ((1 ≤ k) × (k < get_next_proposal_id s'))
  numbered_from_one k =
      let numbered =
        Reach-IsNumbered h reached (init_genesis-IsSound g s empty started)
          (init_genesis-IsNumbered g s empty started) in
      (numbered.from_one k, λ (least, below). numbered.without_gap k least below)

  -- Governance parameters that are sane at genesis (positive periods, a deposit that ParseUint
  -- reads, a quorum and a threshold that ParseFloat reads and that are neither below 0 nor above
  -- 1 by the comparisons of floats, which a NaN passes too) are sane in every state that accepted
  -- messages lead to, on a chain whose stores were empty when InitGenesis succeeded.
  pub params_stay-IsSane : IsSane h (genesis_params g) → IsSane h s'.params
  params_stay-IsSane sane =
      Reach-IsSane h reached (init_genesis-IsSound g s empty started)
        (rw (started_state g s empty started) sane)
