-- ===== src/Governance/Reach/Numbering.antt =====
-- The numbers of the stored proposals: those from one up to the counter, without a gap.
use volnix_protocol.Base.{ℕ, ◌+◌, ◌≤◌, ◌<◌, ◌≡◌, ◌⊎◌, inl, inr, some, arith, ℕ_discrete}
use volnix_protocol.KvStore.{nat_key}
use volnix_protocol.KvStore
use volnix_protocol.Host.{Host}
use volnix_protocol.Governance.Types.{Proposal}
use volnix_protocol.Governance.Keeper.{State, get_next_proposal_id}
use volnix_protocol.Governance.Submission.{Submitted, submit_proposal-Submitted}
use volnix_protocol.Governance.Voting.Effect.{Voted, vote-Voted}
use volnix_protocol.Governance.Execution.{Executed, execute_proposal-Executed}
use volnix_protocol.Governance.Reach.{
  Step, by_submit, by_vote, by_execute, Reach, here, next, IsSound, Writes, Writes-self, Writes-ne,
  Writes-cases,
}
use volnix_protocol.Governance.Reach.Soundness.{
  Reach-IsSound, submit-Writes, next-submit, vote-Writes, next-vote, execute-Writes, next-execute,
}

abbrev pub IsStored : ℕ → State → Type 0
IsStored k s = (p : Proposal) × (KvStore.get k s.proposals ≡ some p)

pub record IsNumbered (s : State) : Type 0 where
  pub from_one : (k : ℕ) → IsStored k s → (1 ≤ k) × (k < get_next_proposal_id s)
  pub counting : 1 ≤ get_next_proposal_id s
  pub without_gap : (k : ℕ) → 1 ≤ k → k < get_next_proposal_id s → IsStored k s

module _ (s s' : State) (id : ℕ) (q : Proposal) (w : Writes s s' id q) where
  Writes-IsStored : (k : ℕ) → IsStored k s → IsStored k s'
  Writes-IsStored k (p, found) = elim (ℕ_discrete id k) [
    | yes e ↦ (q, cc (Writes-self s s' id q w))
    | no ne ↦ (p, cc (Writes-ne s s' id q w k ne))
  ]

  Writes-back : (k : ℕ) → IsStored k s' → (id ≡ k) ⊎ IsStored k s
  Writes-back k (p, found) = elim (Writes-cases s s' id q w k p found) [
    | inl (same, _) ↦ inl same
    | inr before ↦ inr (p, before)
  ]

  -- The next number is taken, and the counter goes on.
  append-IsNumbered :
      id ≡ get_next_proposal_id s
      → get_next_proposal_id s' ≡ get_next_proposal_id s + 1
      → IsNumbered s
      → IsNumbered s'
  append-IsNumbered own counted numbered = record {
    from_one = λ k stored. elim (Writes-back k stored) [
      | inl same ↦ (omega (arith, numbered.counting), omega arith)
      | inr before ↦ (
        omega (arith, (numbered.from_one k before).0),
        omega (arith, (numbered.from_one k before).1),
      )
    ];
    counting = omega (arith, numbered.counting);
    without_gap = λ k least below. elim (ℕ_discrete id k) [
      | yes e ↦ (q, cc (Writes-self s s' id q w))
      | no ne ↦ Writes-IsStored k (numbered.without_gap k least (omega arith))
    ];
  }

  -- A stored proposal is written again.
  rewrite-IsNumbered :
      IsStored id s
      → get_next_proposal_id s' ≡ get_next_proposal_id s
      → IsNumbered s
      → IsNumbered s'
  rewrite-IsNumbered stored kept numbered = record {
    from_one = λ k now. elim (Writes-back k now) [
      | inl same ↦ (
        omega (arith, (numbered.from_one id stored).0),
        omega (arith, (numbered.from_one id stored).1),
      )
      | inr before ↦ (
        omega (arith, (numbered.from_one k before).0),
        omega (arith, (numbered.from_one k before).1),
      )
    ];
    counting = omega (arith, numbered.counting);
    without_gap = λ k least below. Writes-IsStored k (numbered.without_gap k least (omega arith));
  }

Step-IsNumbered : (h : Host) (s s' : State) → Step h s s' → IsSound s → IsNumbered s → IsNumbered s'
Step-IsNumbered h s s' (by_submit e req id room r same) sound numbered =
    let done : Submitted e req s s' id = rw same (submit_proposal-Submitted e req s id r) in
    append-IsNumbered s s' id _ (submit-Writes e req s s' id done room) done.numbered
      (next-submit e req s s' id done room) numbered
Step-IsNumbered h s s' (by_vote e req r same) sound numbered =
    let done : Voted h e req s s' = rw same (vote-Voted h e req s sound.indexed r) in
    rewrite-IsNumbered s s' req.proposal_id _ (vote-Writes h e req s s' done sound)
      (done.before, done.found) (next-vote h e req s s' done sound) numbered
Step-IsNumbered h s s' (by_execute e id r same) sound numbered =
    let done : Executed h e id s s' = rw same (execute_proposal-Executed h e id s r) in
    rewrite-IsNumbered s s' id _ (execute-Writes h e id s s' done sound) (done.before, done.found)
      (next-execute h e id s s' done sound) numbered

pub Reach-IsNumbered :
    (h : Host) {s s' : State} → Reach h s s' → IsSound s → IsNumbered s → IsNumbered s'
Reach-IsNumbered h here sound numbered = numbered
Reach-IsNumbered h (next {t} {u} r st) sound numbered =
    Step-IsNumbered h t u st (Reach-IsSound h sound r) (Reach-IsNumbered h r sound numbered)
