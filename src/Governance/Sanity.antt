-- ===== src/Governance/Sanity.antt =====
-- The parameters of x/governance under ApplyParameterChange and ExecuteProposal.
use volnix_protocol.Base.{
  ℕ, pos, leb_ℤ, is_empty, Bool-cases, ok, ◌≡◌, arith, none, inl, inr, Outcome-cases, List, [], ◌∷◌,
  refl, Text, false,
}
use volnix_protocol.Strconv.{parse_uint, max_uint64}
use volnix_protocol.Host.{Host}
use volnix_protocol.Governance.Types.{Params, ParameterChange, validate}
use volnix_protocol.Governance.Keeper.{State}
use volnix_protocol.Governance.Applier.{
  check_unit_interval, updated_governance, stored_governance, apply_anteil_parameter_change,
  apply_governance_parameter_change, apply_consensus_parameter_change,
  apply_lizenz_parameter_change, apply_parameter_change, validate_parameter_change,
}
use volnix_protocol.Governance.Messages.{execute_changes}
use volnix_protocol.Governance.Governable.{is_governable}
use volnix_protocol.Governance.Switch.{by_module}

-- The periods are positive and no text is empty, the deposit is a uint64, and the two shares are
-- read by ParseFloat and neither below 0 nor above 1, which holds of a NaN too.
pub record IsSane (h : Host) (p : Params) : Type 0 where
  pub valid : validate p ≡ none
  pub least_deposit : ℕ
  pub deposit_read : parse_uint max_uint64 p.min_deposit ≡ ok least_deposit
  pub quorum_fits : check_unit_interval h p.quorum ≡ ok tt
  pub threshold_fits : check_unit_interval h p.threshold ≡ ok tt

module _ (h : Host) (c : ParameterChange) where
  updated_fits :
      (p q : Params)
      → updated_governance h c p ≡ ok q
      → check_unit_interval h p.quorum ≡ ok tt
      → check_unit_interval h p.threshold ≡ ok tt
      → (check_unit_interval h q.quorum ≡ ok tt) × (check_unit_interval h q.threshold ≡ ok tt)
  unfolding updated_governance
  updated_fits p q r a b = ground arith

  updated_deposit :
      (p q : Params) (n : ℕ)
      → updated_governance h c p ≡ ok q
      → parse_uint max_uint64 p.min_deposit ≡ ok n
      → (m : ℕ) × (parse_uint max_uint64 q.min_deposit ≡ ok m)
  unfolding updated_governance
  updated_deposit p q n r read = elim (Outcome-cases (parse_uint max_uint64 q.min_deposit)) [
    | inl found ↦ found
    | inr (x, bad) ↦ absurd (ground arith)
  ]

  updated_periods :
      (p q : Params)
      → updated_governance h c p ≡ ok q
      → leb_ℤ p.voting_period (pos 0) ≡ false
      → leb_ℤ p.timelock_period (pos 0) ≡ false
      → (leb_ℤ q.voting_period (pos 0) ≡ false) × (leb_ℤ q.timelock_period (pos 0) ≡ false)
  unfolding updated_governance
  updated_periods p q r a b = ground arith

stored_full :
    (h : Host) (p q : Params)
    → stored_governance p ≡ ok q
    → (is_empty p.quorum ≡ false) × (is_empty p.threshold ≡ false) × (q ≡ p)
unfolding stored_governance
stored_full h p q r = ground arith

read_full : (s : Text) (n : ℕ) → parse_uint max_uint64 s ≡ ok n → is_empty s ≡ false
unfolding parse_uint
read_full s n r = ground arith

valid_periods :
    (p : Params)
    → validate p ≡ none
    → (leb_ℤ p.voting_period (pos 0) ≡ false) × (leb_ℤ p.timelock_period (pos 0) ≡ false)
unfolding validate
valid_periods p r = ground arith

full_valid :
    (p : Params)
    → leb_ℤ p.voting_period (pos 0) ≡ false
    → leb_ℤ p.timelock_period (pos 0) ≡ false
    → is_empty p.min_deposit ≡ false
    → is_empty p.quorum ≡ false
    → is_empty p.threshold ≡ false
    → validate p ≡ none
unfolding validate
full_valid p a b d e f = rw (a, b, d, e, f) refl

governance_change-IsSane :
    (h : Host) (c : ParameterChange) (p q r : Params)
    → updated_governance h c p ≡ ok q
    → stored_governance q ≡ ok r
    → IsSane h p
    → IsSane h r
governance_change-IsSane h c p q r updated stored sane =
    let (voting_positive, timelock_positive) = valid_periods p sane.valid in
    let (a, b) = updated_periods h c p q updated voting_positive timelock_positive in
    let (d, read) = updated_deposit h c p q sane.least_deposit updated sane.deposit_read in
    let (e, f, same) = stored_full h q r stored in
    let (u, v) = updated_fits h c p q updated sane.quorum_fits sane.threshold_fits in
    rw same (record {
      valid = full_valid q a b (read_full q.min_deposit d read) e f;
      least_deposit = d;
      deposit_read = read;
      quorum_fits = u;
      threshold_fits = v;
    })

module _ (h : Host) (c : ParameterChange) (s : State) where
  applied-IsSane : IsSane h s.params → IsSane h (apply_governance_parameter_change h c s).1.params
  unfolding apply_governance_parameter_change
  applied-IsSane sane = elim (Outcome-cases (updated_governance h c s.params)) [
    | inl (q, updated) ↦ elim (Outcome-cases (stored_governance q)) [
      | inl (r, stored) ↦
          rw (updated, stored) (governance_change-IsSane h c s.params q r updated stored sane)
      | inr (x, bad) ↦ rw (updated, bad) sane
    ]
    | inr (x, bad) ↦ rw bad sane
  ]

  lizenz_same : (apply_lizenz_parameter_change h c s).1.params ≡ s.params
  unfolding apply_lizenz_parameter_change
  lizenz_same = ground arith

  anteil_same : (apply_anteil_parameter_change h c s).1.params ≡ s.params
  unfolding apply_anteil_parameter_change
  anteil_same = ground arith

  consensus_same : (apply_consensus_parameter_change h c s).1.params ≡ s.params
  unfolding apply_consensus_parameter_change
  consensus_same = ground arith

  -- Whatever a parameter change is and whether it is accepted, sane parameters of governance stay
  -- sane.
  pub apply_parameter_change-IsSane :
      IsSane h s.params → IsSane h (apply_parameter_change h c s).1.params
  unfolding apply_parameter_change
  apply_parameter_change-IsSane sane = elim (Bool-cases (is_governable c.module_name c.parameter)) [
    | inl g ↦
        by_module (λ o. IsSane h o.1.params) h c s g (λ _. rw lizenz_same sane)
          (λ _. rw anteil_same sane) (λ _. rw consensus_same sane) (λ _. applied-IsSane sane)
          (λ _ _ _ _. sane)
    | inr g ↦ rw g sane
  ]

pub execute_changes-IsSane :
    (h : Host) (cs : List ParameterChange) (s : State)
    → IsSane h s.params
    → IsSane h (execute_changes h cs s).1.params
unfolding execute_changes
execute_changes-IsSane h [] s sane = sane
execute_changes-IsSane h (c ∷ cs) s sane =
    let applied = apply_parameter_change-IsSane h c s sane in
    elim (Outcome-cases (validate_parameter_change h c)) [
      | inr (x, bad) ↦ rw bad sane
      | inl (_, good) ↦ elim (Outcome-cases (apply_parameter_change h c s).0) [
        | inl (_, done) ↦ rw (good, done) (execute_changes-IsSane h cs _ applied)
        | inr (x, bad) ↦ rw (good, bad) applied
      ]
    ]
