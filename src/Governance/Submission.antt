-- ===== src/Governance/Submission.antt =====
-- SubmitProposal of msg_server.go: what an accepted submission presupposes and stores, and what a
-- refused one leaves.
use volnix_protocol.Base.{
  ℕ, ◌+◌, ◌≤◌, true, false, some, List, [], ◌∷◌, ◌≡◌, arith, ok, err, is_empty, inl, inr,
  Outcome-cases, refl, Text,
}
use volnix_protocol.Strconv.{parse_uint, max_uint64}
use volnix_protocol.KvStore.{nat_key}
use volnix_protocol.KvStore
use volnix_protocol.Host.{Env}
use volnix_protocol.Governance.Types.{Error, Params, ParameterChange}
use volnix_protocol.Governance.Governable.{is_governable}
use volnix_protocol.Governance.Keeper.{
  State, u64, get_next_proposal_id, set_next_proposal_id, set_proposal,
}
use volnix_protocol.Governance.Messages.{
  check_deposit, validate_submission, MsgSubmitProposal, new_proposal, check_changes,
  submit_proposal,
}

-- Every change of a list is governable.
abbrev pub AllGovernable : List ParameterChange → Type 0
AllGovernable [] = Unit
AllGovernable (c ∷ cs) = (is_governable c.module_name c.parameter ≡ true) × AllGovernable cs

check_changes-AllGovernable :
    (cs : List ParameterChange) → check_changes cs ≡ ok tt → AllGovernable cs
unfolding check_changes
check_changes-AllGovernable [] r = tt
check_changes-AllGovernable (c ∷ cs) r = ground (arith, check_changes-AllGovernable cs)

-- All that an accepted submission presupposes and does.
pub record Submitted (e : Env) (req : MsgSubmitProposal) (s s' : State) (id : ℕ) : Type 0 where
  pub has_proposer : is_empty req.proposer ≡ false
  pub has_title : is_empty req.title ≡ false
  pub has_description : is_empty req.description ≡ false
  pub numbered : id ≡ get_next_proposal_id s
  pub deposit : ℕ
  pub deposit_read : parse_uint max_uint64 req.deposit ≡ ok deposit
  pub min_deposit : ℕ
  pub min_deposit_read : parse_uint max_uint64 s.params.min_deposit ≡ ok min_deposit
  pub deposit_enough : min_deposit ≤ deposit
  pub governable : AllGovernable req.parameter_changes
  pub after : s' ≡ record s {
    next_id = some (u64 (id + 1));
    proposals = KvStore.set id (new_proposal e req s.params id) s.proposals;
  }

pub proposal_id-new_proposal :
    (e : Env) (req : MsgSubmitProposal) (params : Params) (id : ℕ)
    → (new_proposal e req params id).proposal_id ≡ id
unfolding new_proposal
proposal_id-new_proposal e req params id = refl

check_deposit-ok :
    (d m : Text)
    → check_deposit d m ≡ ok tt
    → (deposit : ℕ) × (min_deposit : ℕ) × (parse_uint max_uint64 d ≡ ok deposit)
      × (parse_uint max_uint64 m ≡ ok min_deposit)
      × (min_deposit ≤ deposit)
unfolding check_deposit
check_deposit-ok d m r = elim (Outcome-cases (parse_uint max_uint64 d)) [
  | inr (x, bad) ↦ absurd (ground arith)
  | inl (deposit, read) ↦ elim (Outcome-cases (parse_uint max_uint64 m)) [
    | inr (x, bad) ↦ absurd (ground arith)
    | inl (min_deposit, min_read) ↦ (deposit, min_deposit, read, min_read, ground arith)
  ]
]

validate_submission-ok :
    (req : MsgSubmitProposal)
    → validate_submission req ≡ ok tt
    → (is_empty req.proposer ≡ false)
      × (is_empty req.title ≡ false)
      × (is_empty req.description ≡ false)
unfolding validate_submission
validate_submission-ok req r = ground arith

-- The handler step by step, its checks shut.
submit_proposal-ok :
    (e : Env) (req : MsgSubmitProposal) (s : State) (id : ℕ)
    → (submit_proposal e req s).0 ≡ ok id
    → (validate_submission req ≡ ok tt)
      × (id ≡ get_next_proposal_id s)
      × (check_deposit req.deposit s.params.min_deposit ≡ ok tt)
      × (check_changes req.parameter_changes ≡ ok tt)
      × ((submit_proposal e req s).1 ≡ record s {
        next_id = some (u64 (id + 1));
        proposals = KvStore.set id (new_proposal e req s.params id) s.proposals;
      })
unfolding submit_proposal set_next_proposal_id set_proposal
submit_proposal-ok e req s id r = ground (arith, proposal_id-new_proposal e req s.params id)

-- An accepted submission names its proposer, title and description, states at least the minimum
-- deposit, changes governable parameters only, and stores one new proposal under the next number,
-- with the counter advanced.
pub submit_proposal-Submitted :
    (e : Env) (req : MsgSubmitProposal) (s : State) (id : ℕ)
    → (submit_proposal e req s).0 ≡ ok id
    → Submitted e req s (submit_proposal e req s).1 id
submit_proposal-Submitted e req s id r =
    let (valid, numbered, paid, listed, after) = submit_proposal-ok e req s id r in
    let (has_proposer, has_title, has_description) = validate_submission-ok req valid in
    let (deposit, min_deposit, read, min_read, enough) = check_deposit-ok _ _ paid in
    record {
      has_proposer = has_proposer;
      has_title = has_title;
      has_description = has_description;
      numbered = numbered;
      deposit = deposit;
      deposit_read = read;
      min_deposit = min_deposit;
      min_deposit_read = min_read;
      deposit_enough = enough;
      governable = check_changes-AllGovernable req.parameter_changes listed;
      after = after;
    }

-- A refused submission stores no proposal: only the counter may have advanced.
pub submit_proposal_refused :
    (e : Env) (req : MsgSubmitProposal) (s : State) (x : Error)
    → (submit_proposal e req s).0 ≡ err x
    → (submit_proposal e req s).1 ≡ record s { next_id = (submit_proposal e req s).1.next_id }
unfolding submit_proposal set_next_proposal_id set_proposal
submit_proposal_refused e req s x r = ground arith
