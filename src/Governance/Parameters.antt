-- ===== src/Governance/Parameters.antt =====
-- What ApplyParameterChange of x/governance/keeper/parameter_applier.go writes.
use volnix_protocol.Base.{
  ◌<◌, ◌≡◌, inl, inr, true, false, some, is_empty, ok, err, arith, Outcome-cases, Option-cases,
}
use volnix_protocol.Host.{Host}
use volnix_protocol.Lizenz
use volnix_protocol.Anteil
use volnix_protocol.Consensus
use volnix_protocol.Governance.Types.{ParameterChange, Params, Error}
use volnix_protocol.Governance.Governable.{
  is_governable, lizenz_name, anteil_name, consensus_name, governance_name,
}
use volnix_protocol.Governance.Keeper.{State}
use volnix_protocol.Governance.Settings.{
  Updated, lizenz_table, anteil_table, consensus_table, governance_table,
}
use volnix_protocol.Governance.Settings.Updates.{
  updated_lizenz-Updated, updated_anteil-Updated, updated_consensus-Updated,
  updated_governance-Updated,
}
use volnix_protocol.Governance.Switch.{by_module}
use volnix_protocol.Governance.Applier.{
  apply_parameter_change, apply_lizenz_parameter_change, apply_anteil_parameter_change,
  apply_consensus_parameter_change, apply_governance_parameter_change, updated_lizenz,
  updated_anteil, updated_consensus, updated_governance, stored_lizenz, stored_anteil,
  stored_governance,
}

-- The one parameter set that a change writes, by the module that it names: one entry of its table
-- is replaced, and the set that is stored passes the tests that can make SetParamSet panic.
pub data Applied (h : Host) (c : ParameterChange) (s s' : State) : Type 0 where
  to_lizenz :
      (old new : Lizenz.Params.Params)
      → c.module_name ≡ lizenz_name
      → s.lizenz ≡ some old
      → Updated h c.parameter c.new_value (lizenz_table old) (lizenz_table new)
      → 0 < new.max_activated_per_validator
      → s' ≡ record s { lizenz = some new }
      → Applied h c s s'
  to_anteil :
      (old new : Anteil.Params.Params)
      → c.module_name ≡ anteil_name
      → s.anteil ≡ some old
      → Updated h c.parameter c.new_value (anteil_table old) (anteil_table new)
      → (0 < new.max_open_orders) × (0 < new.min_liquidity_threshold)
      → s' ≡ record s { anteil = some new }
      → Applied h c s s'
  to_consensus :
      (old new : Consensus.Params.Params)
      → c.module_name ≡ consensus_name
      → s.consensus ≡ some old
      → Updated h c.parameter c.new_value (consensus_table old) (consensus_table new)
      → s' ≡ record s { consensus = some new }
      → Applied h c s s'
  to_governance :
      (new : Params)
      → c.module_name ≡ governance_name
      → Updated h c.parameter c.new_value (governance_table s.params) (governance_table new)
      → (is_empty new.quorum ≡ false) × (is_empty new.threshold ≡ false)
      → s' ≡ record s { params = new }
      → Applied h c s s'

stored_lizenz-ok :
    (p q : Lizenz.Params.Params)
    → stored_lizenz p ≡ ok q
    → (0 < p.max_activated_per_validator) × (q ≡ p)
unfolding stored_lizenz
stored_lizenz-ok p q r = ground arith

stored_anteil-ok :
    (p q : Anteil.Params.Params)
    → stored_anteil p ≡ ok q
    → ((0 < p.max_open_orders) × (0 < p.min_liquidity_threshold)) × (q ≡ p)
unfolding stored_anteil
stored_anteil-ok p q r = ground arith

stored_governance-ok :
    (p q : Params)
    → stored_governance p ≡ ok q
    → ((is_empty p.quorum ≡ false) × (is_empty p.threshold ≡ false)) × (q ≡ p)
unfolding stored_governance
stored_governance-ok p q r = ground arith

module _ (h : Host) (c : ParameterChange) (s : State) where
  lizenz-Applied :
      c.module_name ≡ lizenz_name
      → (apply_lizenz_parameter_change h c s).0 ≡ ok tt
      → Applied h c s (apply_lizenz_parameter_change h c s).1
  unfolding apply_lizenz_parameter_change
  lizenz-Applied named r = elim (Option-cases s.lizenz) [
    | inl unset ↦ absurd (ground arith)
    | inr (old, set) ↦ elim (Outcome-cases (updated_lizenz h c old)) [
      | inl (new, updated) ↦ elim (Outcome-cases (stored_lizenz new)) [
        | inl (kept, stored) ↦
            let (fits, same) = stored_lizenz-ok new kept stored in
            to_lizenz old new named set (updated_lizenz-Updated h c old new updated) fits
              (ground arith)
        | inr (x, bad) ↦ absurd (ground arith)
      ]
      | inr (x, bad) ↦ absurd (ground arith)
    ]
  ]

  anteil-Applied :
      c.module_name ≡ anteil_name
      → (apply_anteil_parameter_change h c s).0 ≡ ok tt
      → Applied h c s (apply_anteil_parameter_change h c s).1
  unfolding apply_anteil_parameter_change
  anteil-Applied named r = elim (Option-cases s.anteil) [
    | inl unset ↦ absurd (ground arith)
    | inr (old, set) ↦ elim (Outcome-cases (updated_anteil h c old)) [
      | inl (new, updated) ↦ elim (Outcome-cases (stored_anteil new)) [
        | inl (kept, stored) ↦
            let (fits, same) = stored_anteil-ok new kept stored in
            to_anteil old new named set (updated_anteil-Updated h c old new updated) fits
              (ground arith)
        | inr (x, bad) ↦ absurd (ground arith)
      ]
      | inr (x, bad) ↦ absurd (ground arith)
    ]
  ]

  consensus-Applied :
      c.module_name ≡ consensus_name
      → (apply_consensus_parameter_change h c s).0 ≡ ok tt
      → Applied h c s (apply_consensus_parameter_change h c s).1
  unfolding apply_consensus_parameter_change
  consensus-Applied named r = elim (Option-cases s.consensus) [
    | inl unset ↦ absurd (ground arith)
    | inr (old, set) ↦ elim (Outcome-cases (updated_consensus h c old)) [
      | inl (new, updated) ↦
          to_consensus old new named set (updated_consensus-Updated h c old new updated)
            (ground arith)
      | inr (x, bad) ↦ absurd (ground arith)
    ]
  ]

  governance-Applied :
      c.module_name ≡ governance_name
      → (apply_governance_parameter_change h c s).0 ≡ ok tt
      → Applied h c s (apply_governance_parameter_change h c s).1
  unfolding apply_governance_parameter_change
  governance-Applied named r = elim (Outcome-cases (updated_governance h c s.params)) [
    | inl (new, updated) ↦ elim (Outcome-cases (stored_governance new)) [
      | inl (kept, stored) ↦
          let (fits, same) = stored_governance-ok new kept stored in
          to_governance new named (updated_governance-Updated h c s.params new updated) fits
            (ground arith)
      | inr (x, bad) ↦ absurd (ground arith)
    ]
    | inr (x, bad) ↦ absurd (ground arith)
  ]

  accepted-governable :
      (apply_parameter_change h c s).0 ≡ ok tt → is_governable c.module_name c.parameter ≡ true
  unfolding apply_parameter_change
  accepted-governable r = ground arith

  -- An accepted parameter change is of a governable parameter and stores the parameter set of the
  -- module that it names. As a table from names to values the new set is the old one with one
  -- entry replaced: that of the parameter, which was there, now has what the new value reads as
  -- (the text, a number by ParseUint, a duration by ParseDuration), of the same kind as before.
  -- The stored set has what SetParamSet would panic without: a positive maximum of licences,
  -- positive open orders and liquidity threshold, a quorum and a threshold that are not empty.
  -- The rest of the state stays.
  pub apply_parameter_change-Applied :
      (apply_parameter_change h c s).0 ≡ ok tt
      → (is_governable c.module_name c.parameter ≡ true)
        × Applied h c s (apply_parameter_change h c s).1
  apply_parameter_change-Applied r =
      let g = accepted-governable r in
      (
        g,
        by_module (λ o. o.0 ≡ ok tt → Applied h c s o.1) h c s g lizenz-Applied anteil-Applied
            consensus-Applied governance-Applied (λ a b d f e. cc e) r,
      )

  -- A refused parameter change leaves the whole state as it was.
  pub apply_parameter_change_refused :
      (x : Error) → (apply_parameter_change h c s).0 ≡ err x → (apply_parameter_change h c s).1 ≡ s
  unfolding apply_parameter_change apply_lizenz_parameter_change apply_anteil_parameter_change
      apply_consensus_parameter_change apply_governance_parameter_change
  apply_parameter_change_refused x r = ground arith
