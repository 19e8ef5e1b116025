-- ===== src/Governance/Tally.antt =====
-- TallyVotes and isProposalPassed of x/governance/keeper/keeper.go, in numbers.
use volnix_protocol.Base.{
  ℕ, ◌+◌, ◌^◌, ◌<◌, Bool, true, false, ◌&&◌, List, [], ◌∷◌, ◌≡◌, arith, ok, err, ltb, leb,
  if◌then◌else◌, inl, inr, Outcome-cases, ◌∙◌,
}
use volnix_protocol.Strconv.{parse_uint, format_uint, max_uint64}
use volnix_protocol.Strconv.RoundTrip.{parse_uint-format_uint}
use volnix_protocol.Host.{Host, Env}
use volnix_protocol.Governance.Types.{
  Vote, VoteOption, Proposal, Params, unspecified_option, yes_option, no_option, abstain_option,
}
use volnix_protocol.Governance.Keeper.{
  Tally, count_vote, count_votes, no_tally, u64, with_totals, uint_of, share_of, is_proposal_passed,
  get_total_wrt_supply,
}

abbrev same_option : VoteOption → VoteOption → Bool
same_option yes_option yes_option = true
same_option no_option no_option = true
same_option abstain_option abstain_option = true
same_option unspecified_option unspecified_option = true
same_option _ _ = false

-- The power of a ballot; one that is no number counts for nothing.
abbrev pub power_of : Vote → ℕ
power_of v = elim (parse_uint max_uint64 v.voting_power) [ ok n ↦ n | err e ↦ 0 ]

-- The sum of the powers behind an option, with no bound.
unfoldable pub power_for : VoteOption → List Vote → ℕ
power_for o [] = 0
power_for o (v ∷ vs) = (if same_option o v.option then power_of v else 0) + power_for o vs

-- The three totals are uint64 values.
pub record InRange (t : Tally) : Type 0 where
  pub yes_fits : t.yes_votes < 2 ^ 64
  pub no_fits : t.no_votes < 2 ^ 64
  pub abstain_fits : t.abstain_votes < 2 ^ 64

record Adds (vs : List Vote) (t u : Tally) : Type 0 where
  yes_sum : u.yes_votes ≡ u64 (t.yes_votes + power_for yes_option vs)
  no_sum : u.no_votes ≡ u64 (t.no_votes + power_for no_option vs)
  abstain_sum : u.abstain_votes ≡ u64 (t.abstain_votes + power_for abstain_option vs)

count_vote-InRange : (v : Vote) (t : Tally) → InRange t → InRange (count_vote v t)
count_vote-InRange v t fits = ground arith

abbrev share : VoteOption → Vote → ℕ
share o v = if same_option o v.option then power_of v else 0

-- One ballot, before further ballots that add `n` to a total.
count_vote_yes :
    (v : Vote) (t : Tally) (n : ℕ)
    → u64 ((count_vote v t).yes_votes + n) ≡ u64 (t.yes_votes + (share yes_option v + n))
count_vote_yes v t n = ground arith

count_vote_no :
    (v : Vote) (t : Tally) (n : ℕ)
    → u64 ((count_vote v t).no_votes + n) ≡ u64 (t.no_votes + (share no_option v + n))
count_vote_no v t n = ground arith

count_vote_abstain :
    (v : Vote) (t : Tally) (n : ℕ)
    → u64 ((count_vote v t).abstain_votes + n)
      ≡ u64 (t.abstain_votes + (share abstain_option v + n))
count_vote_abstain v t n = ground arith

count_votes-Adds : (vs : List Vote) (t : Tally) → InRange t → Adds vs t (count_votes vs t)
unfolding count_votes power_for
count_votes-Adds [] t fits = ground arith
count_votes-Adds (v ∷ vs) t fits =
    let rest = count_votes-Adds vs (count_vote v t) (count_vote-InRange v t fits) in
    record {
      yes_sum = rest.yes_sum ∙ count_vote_yes v t (power_for yes_option vs);
      no_sum = rest.no_sum ∙ count_vote_no v t (power_for no_option vs);
      abstain_sum = rest.abstain_sum ∙ count_vote_abstain v t (power_for abstain_option vs);
    }

-- The three totals of a list of ballots.
abbrev pub totals_of : List Vote → Tally
totals_of vs = record {
  yes_votes = u64 (power_for yes_option vs);
  no_votes = u64 (power_for no_option vs);
  abstain_votes = u64 (power_for abstain_option vs);
}

-- The loop over the ballots computes the three sums of voting powers by option modulo 2^64, where
-- a ballot whose power is no uint64 counts for nothing.
pub count_votes-eq-totals_of : (vs : List Vote) → count_votes vs no_tally ≡ totals_of vs
count_votes-eq-totals_of vs =
    let sums = count_votes-Adds vs no_tally (omega arith) in
    ground (arith, sums.yes_sum, sums.no_sum, sums.abstain_sum)

abbrev pub total_of : Tally → ℕ
total_of t = u64 (u64 (t.yes_votes + t.no_votes) + t.abstain_votes)

pub totals_of-InRange : (vs : List Vote) → InRange (totals_of vs)
totals_of-InRange vs = omega arith

uint_of-format_uint : (n : ℕ) → n < 2 ^ 64 → uint_of (format_uint n) ≡ n
uint_of-format_uint n fits = rw (parse_uint-format_uint max_uint64 n (omega arith))

module _ (h : Host) where
  -- The three comparisons: the quorum is reached, the ayes pass the threshold and the noes.
  unfoldable pub passes : Params → ℕ → Tally → Bool
  passes params supply t =
      leb (share_of h supply params.quorum) (total_of t)
      && (ltb (share_of h (total_of t) params.threshold) t.yes_votes && ltb t.no_votes t.yes_votes)

  is_proposal_passed_read :
      (e : Env) (p : Proposal) (params : Params) (t : Tally)
      → uint_of p.total_votes ≡ total_of t
      → uint_of p.yes_votes ≡ t.yes_votes
      → uint_of p.no_votes ≡ t.no_votes
      → (accepted : Bool) → is_proposal_passed h e p params ≡ ok accepted
      → (supply : ℕ) × (get_total_wrt_supply e ≡ ok supply) × (accepted ≡ passes params supply t)
  unfolding is_proposal_passed passes
  is_proposal_passed_read e p params t at_total at_yes at_no accepted r =
      elim (Outcome-cases (get_total_wrt_supply e)) [
        | inl (supply, known) ↦ (supply, known, ground arith)
        | inr (x, failed) ↦ absurd (ground arith)
      ]

  -- On a proposal with the totals of `t` the decision is `passes`.
  pub is_proposal_passed-with_totals :
      (e : Env) (p : Proposal) (params : Params) (t : Tally)
      → InRange t
      → (accepted : Bool) → is_proposal_passed h e (with_totals t p) params ≡ ok accepted
      → (supply : ℕ) × (get_total_wrt_supply e ≡ ok supply) × (accepted ≡ passes params supply t)
  unfolding with_totals
  is_proposal_passed-with_totals e p params t fits =
      is_proposal_passed_read e (with_totals t p) params t
        (uint_of-format_uint (total_of t) (omega arith))
        (uint_of-format_uint t.yes_votes fits.yes_fits)
        (uint_of-format_uint t.no_votes fits.no_fits)
