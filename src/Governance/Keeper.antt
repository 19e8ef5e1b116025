-- ===== src/Governance/Keeper.antt =====
-- x/governance/keeper/keeper.go: the stored state, its accessors, and the tally.
use volnix_protocol.Base.{
  ℕ, ◌+◌, ◌%◌, ◌^◌, Bool, true, false, Option, none, some, List, [], ◌∷◌, Text, codes, ltb, leb,
  ◌==◌, text_is_eq, nat_is_eq, if◌then◌else◌, Outcome, ok, err, Action, pure, raise, gets, lift,
  or_raise, modify, ◌>>=◌, ◌>>◌, ◌+ℤ◌, ltb_ℤ,
}
use volnix_protocol.Strconv.{parse_uint, format_uint, value_of, max_uint64}
use volnix_protocol.KvStore.{KvStore, nat_key, pair_key}
use volnix_protocol.KvStore
use volnix_protocol.Host.{Host, Env}
use volnix_protocol.Lizenz
use volnix_protocol.Anteil
use volnix_protocol.Consensus
use volnix_protocol.Governance.Types.{
  Proposal, Vote, Params, Error, VoteOption, status_is_eq, passed, rejected, yes_option, no_option,
  abstain_option, unspecified_option, proposal_not_found, vote_not_found, invalid_voter_address,
  panic, proposal_not_passed, execution_time_not_set, proposal_not_executable,
}

-- The parameters, the counter (absent until it is first written), the proposals and the votes; and
-- the parameters of the modules that governance writes, `none` while that keeper is not set.
pub record State : Type 0 where
  pub params : Params
  pub next_id : Option ℕ
  pub proposals : KvStore ℕ Proposal
  pub votes : KvStore (ℕ × Text) Vote
  pub lizenz : Option Lizenz.Params.Params
  pub anteil : Option Anteil.Params.Params
  pub consensus : Option Consensus.Params.Params

abbrev pub Handler : Type 0 → Type 0
Handler = Action State Error

-- A uint64 kept in 64 bits.
abbrev pub u64 : ℕ → ℕ
u64 n = n % 2 ^ 64

unfoldable pub get_next_proposal_id : State → ℕ
get_next_proposal_id s = elim s.next_id [ none ↦ 1 | some n ↦ n ]

unfoldable pub set_next_proposal_id : ℕ → Handler (Unit {0})
set_next_proposal_id n = modify λ s. record s { next_id = some n }

unfoldable pub set_proposal : Proposal → Handler (Unit {0})
set_proposal p = modify λ s. record s { proposals = KvStore.set p.proposal_id p s.proposals }

unfoldable pub get_proposal : ℕ → Handler Proposal
get_proposal id s = or_raise (KvStore.get id s.proposals) proposal_not_found s

unfoldable pub get_all_proposals : State → List Proposal
get_all_proposals s = KvStore.values s.proposals

unfoldable pub set_vote : Vote → Handler (Unit {0})
set_vote v = modify λ s. record s { votes = KvStore.set (v.proposal_id, v.voter) v s.votes }

unfoldable pub get_vote : ℕ → Text → Handler Vote
get_vote id voter s = or_raise (KvStore.get (id, voter) s.votes) vote_not_found s

unfoldable pub votes_of : ℕ → List Vote → List Vote
votes_of id [] = []
votes_of id (v ∷ vs) = let rest = votes_of id vs in if v.proposal_id == id then v ∷ rest else rest

unfoldable pub get_votes : ℕ → State → List Vote
unfolding votes_of
get_votes id s = votes_of id (KvStore.values s.votes)

-- `Amount.Uint64()`, which panics on a larger amount.
abbrev pub as_uint64 : ℕ → Outcome Error ℕ
as_uint64 n = if leb n max_uint64 then ok n else err panic

abbrev pub uwrt : Text
uwrt = codes "uwrt"

abbrev pub total_wrt_supply : ℕ
total_wrt_supply = 21000000000000

unfoldable pub get_wrt_balance : Env → Text → Outcome Error ℕ
get_wrt_balance e addr = elim e.bank [ none ↦ ok 0 | some b ↦ as_uint64 (b.balance addr uwrt) ]

unfoldable pub get_total_wrt_supply : Env → Outcome Error ℕ
get_total_wrt_supply e = elim e.bank [
  | none ↦ ok total_wrt_supply
  | some b ↦ if b.supply uwrt == 0 then ok total_wrt_supply else as_uint64 (b.supply uwrt)
]

unfoldable pub calculate_voting_power : Env → Text → Handler Text
calculate_voting_power e voter = do
  addr ← or_raise (e.account voter) invalid_voter_address
  balance ← lift (get_wrt_balance e addr)
  pure (format_uint balance)

-- The three sums of the loop, each in uint64.
pub record Tally : Type 0 where
  pub yes_votes : ℕ
  pub no_votes : ℕ
  pub abstain_votes : ℕ

abbrev pub add_power : VoteOption → ℕ → Tally → Tally
add_power yes_option n t = record t { yes_votes = u64 (t.yes_votes + n) }
add_power no_option n t = record t { no_votes = u64 (t.no_votes + n) }
add_power abstain_option n t = record t { abstain_votes = u64 (t.abstain_votes + n) }
add_power unspecified_option n t = t

abbrev pub count_vote : Vote → Tally → Tally
count_vote v t = elim (parse_uint max_uint64 v.voting_power) [
  | ok n ↦ add_power v.option n t
  | err e ↦ t
]

unfoldable pub count_votes : List Vote → Tally → Tally
count_votes [] t = t
count_votes (v ∷ vs) t = count_votes vs (count_vote v t)

abbrev pub no_tally : Tally
no_tally = record { yes_votes = 0; no_votes = 0; abstain_votes = 0 }

unfoldable pub with_totals : Tally → Proposal → Proposal
with_totals t p = record p {
  yes_votes = format_uint t.yes_votes;
  no_votes = format_uint t.no_votes;
  abstain_votes = format_uint t.abstain_votes;
  total_votes = format_uint (u64 (u64 (t.yes_votes + t.no_votes) + t.abstain_votes));
}

abbrev pub uint_of : Text → ℕ
uint_of s = value_of max_uint64 (parse_uint max_uint64 s)

module _ (h : Host) where
  -- `uint64(float64(n) * share)`, the share read by ParseFloat with its error dropped.
  unfoldable pub share_of : ℕ → Text → ℕ
  share_of n share = h.to_uint64 (h.times (h.of_uint64 n) (h.parse_float share).0)

  unfoldable pub is_proposal_passed : Env → Proposal → Params → Outcome Error Bool
  is_proposal_passed e p params = elim (get_total_wrt_supply e) [
    | err x ↦ err x
    | ok supply ↦ ok (
        if ltb (uint_of p.total_votes) (share_of supply params.quorum)
        then false
        else if leb (uint_of p.yes_votes) (share_of (uint_of p.total_votes) params.threshold)
        then false
        else ltb (uint_of p.no_votes) (uint_of p.yes_votes))
  ]

  unfoldable pub decide : Env → Params → Bool → Proposal → Proposal
  decide e params true p = record p {
    status = passed;
    execution_time = some (e.block_time +ℤ params.timelock_period);
  }
  decide e params false p = record p { status = rejected }

  unfoldable pub tally_votes : Env → ℕ → Handler (Unit {0})
  tally_votes e id = do
    proposal ← get_proposal id
    votes ← gets (get_votes id)
    let counted = with_totals (count_votes votes no_tally) proposal
    params ← gets (λ s. s.params)
    accepted ← lift (is_proposal_passed e counted params)
    set_proposal (decide e params accepted counted)

unfoldable pub can_execute_proposal : Env → ℕ → Handler Bool
can_execute_proposal e id = do
  proposal ← get_proposal id
  if proposal.status == passed then pure tt else raise proposal_not_passed
  time ← or_raise proposal.execution_time execution_time_not_set
  if ltb_ℤ e.block_time time then raise proposal_not_executable else pure true
