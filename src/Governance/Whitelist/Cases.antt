-- ===== src/Governance/Whitelist/Cases.antt =====
-- The switches of x/governance/keeper/parameter_applier.go on the names of parameters.
use volnix_protocol.Base.{
  Option-cases, ◌||◌, Bool, true, false, List, [], ◌∷◌, ◌≡◌, ◌≢◌, refl, arith, err, Text, text_eq,
  codes, ◌==◌, text_is_eq, inl, inr, if◌then◌else◌,
}
use volnix_protocol.Host.{Host}
use volnix_protocol.Lizenz
use volnix_protocol.Anteil
use volnix_protocol.Consensus
use volnix_protocol.Governance.Types.{ParameterChange, Params, unknown_parameter, unknown_module}
use volnix_protocol.Governance.Governable.{
  GovernableParameter, governable_parameters, is_governable, lizenz_name, anteil_name,
  consensus_name, governance_name,
}
use volnix_protocol.Governance.Applier.{
  updated_lizenz, updated_anteil, updated_consensus, updated_governance, check_unit_interval,
  apply_anteil_parameter_change, apply_consensus_parameter_change, apply_parameter_change,
  apply_lizenz_parameter_change, apply_governance_parameter_change, stored_anteil,
  stored_governance, stored_lizenz,
}
use mathlib.Core.Bool.{false≢true}
use volnix_protocol.Governance.Switch.{by_module}
use volnix_protocol.Governance.Whitelist.{every, listed_entry, governable-eq-listed}
use volnix_protocol.Governance.Keeper.{State}

-- A test of the key against each name, as a switch makes it.
one_of : List Text → Text → Bool
one_of [] key = false
one_of (k ∷ ks) key = key == k || one_of ks key

lizenz_names : List Text
lizenz_names =
    codes "activity_coefficient"
    ∷ codes "min_lzn_amount"
    ∷ codes "max_lzn_amount"
    ∷ codes "inactivity_period"
    ∷ codes "deactivation_period"
    ∷ []

anteil_names : List Text
anteil_names =
    codes "min_ant_amount"
    ∷ codes "max_ant_amount"
    ∷ codes "trading_fee_rate"
    ∷ codes "max_open_orders"
    ∷ []

consensus_names : List Text
consensus_names =
    codes "base_block_time" ∷ codes "high_activity_threshold" ∷ codes "low_activity_threshold" ∷ []

governance_names : List Text
governance_names =
    codes "voting_period"
    ∷ codes "timelock_period"
    ∷ codes "min_deposit"
    ∷ codes "quorum"
    ∷ codes "threshold"
    ∷ []

-- The cases of the switches of the applier.
has_case : Text → Text → Bool
has_case m p =
    if m == lizenz_name
    then one_of lizenz_names p
    else if m == anteil_name
    then one_of anteil_names p
    else if m == consensus_name
    then one_of consensus_names p
    else if m == governance_name
    then one_of governance_names p
    else false

entry_has_case : GovernableParameter → Bool
entry_has_case g = has_case g.module_name g.parameter

all_have_cases : every entry_has_case governable_parameters ≡ true
unfolding every entry_has_case has_case one_of text_eq lizenz_names anteil_names consensus_names
    governance_names
all_have_cases = refl

governable-has_case : (m p : Text) → is_governable m p ≡ true → has_case m p ≡ true
unfolding entry_has_case
governable-has_case m p g =
    let (e, _, at_module, at_parameter, passes) =
      listed_entry entry_has_case governable_parameters m p all_have_cases
        (cc (g, governable-eq-listed m p)) in
    rw (← at_module, ← at_parameter) passes

module _ (h : Host) (c : ParameterChange) where
  lizenz_case :
      (p : Lizenz.Params.Params)
      → one_of lizenz_names c.parameter ≡ true
      → updated_lizenz h c p ≢ err unknown_parameter
  unfolding updated_lizenz one_of lizenz_names
  lizenz_case p known r = ground (arith)

  anteil_case :
      (p : Anteil.Params.Params)
      → one_of anteil_names c.parameter ≡ true
      → updated_anteil h c p ≢ err unknown_parameter
  unfolding updated_anteil one_of anteil_names
  anteil_case p known r = ground (arith)

  consensus_case :
      (p : Consensus.Params.Params)
      → one_of consensus_names c.parameter ≡ true
      → updated_consensus h c p ≢ err unknown_parameter
  unfolding updated_consensus one_of consensus_names
  consensus_case p known r = ground arith

  governance_case :
      (p : Params)
      → one_of governance_names c.parameter ≡ true
      → updated_governance h c p ≢ err unknown_parameter
  unfolding updated_governance one_of governance_names check_unit_interval
  governance_case p known r = ground arith

  refused_lizenz :
      (s : State)
      → one_of lizenz_names c.parameter ≡ true
      → (apply_lizenz_parameter_change h c s).0 ≢ err unknown_parameter
  unfolding apply_lizenz_parameter_change stored_lizenz
  refused_lizenz s known r = elim (Option-cases s.lizenz) [
    | inl unset ↦ ground arith
    | inr (old, set) ↦ ground (arith, lizenz_case old known)
  ]

  refused_anteil :
      (s : State)
      → one_of anteil_names c.parameter ≡ true
      → (apply_anteil_parameter_change h c s).0 ≢ err unknown_parameter
  unfolding apply_anteil_parameter_change stored_anteil
  refused_anteil s known r = elim (Option-cases s.anteil) [
    | inl unset ↦ ground arith
    | inr (old, set) ↦ ground (arith, anteil_case old known)
  ]

  refused_consensus :
      (s : State)
      → one_of consensus_names c.parameter ≡ true
      → (apply_consensus_parameter_change h c s).0 ≢ err unknown_parameter
  unfolding apply_consensus_parameter_change
  refused_consensus s known r = elim (Option-cases s.consensus) [
    | inl unset ↦ ground arith
    | inr (old, set) ↦ ground (arith, consensus_case old known)
  ]

  refused_governance :
      (s : State)
      → one_of governance_names c.parameter ≡ true
      → (apply_governance_parameter_change h c s).0 ≢ err unknown_parameter
  unfolding apply_governance_parameter_change stored_governance
  refused_governance s known r = ground (arith, governance_case s.params known)

  lizenz_module : (s : State) → (apply_lizenz_parameter_change h c s).0 ≢ err unknown_module
  unfolding apply_lizenz_parameter_change stored_lizenz updated_lizenz
  lizenz_module s r = ground arith

  anteil_module : (s : State) → (apply_anteil_parameter_change h c s).0 ≢ err unknown_module
  unfolding apply_anteil_parameter_change stored_anteil updated_anteil
  anteil_module s r = ground arith

  consensus_module : (s : State) → (apply_consensus_parameter_change h c s).0 ≢ err unknown_module
  unfolding apply_consensus_parameter_change updated_consensus
  consensus_module s r = ground arith

  governance_module : (s : State) → (apply_governance_parameter_change h c s).0 ≢ err unknown_module
  unfolding apply_governance_parameter_change stored_governance updated_governance
      check_unit_interval
  governance_module s r = ground arith

  module _ (known : has_case c.module_name c.parameter ≡ true) where
    in_lizenz : c.module_name ≡ lizenz_name → one_of lizenz_names c.parameter ≡ true
    unfolding has_case text_eq
    in_lizenz e = rw e at known

    in_anteil : c.module_name ≡ anteil_name → one_of anteil_names c.parameter ≡ true
    unfolding has_case text_eq
    in_anteil e = rw e at known

    in_consensus : c.module_name ≡ consensus_name → one_of consensus_names c.parameter ≡ true
    unfolding has_case text_eq
    in_consensus e = rw e at known

    in_governance : c.module_name ≡ governance_name → one_of governance_names c.parameter ≡ true
    unfolding has_case text_eq
    in_governance e = rw e at known

    in_none :
        (c.module_name == lizenz_name) ≡ false
        → (c.module_name == anteil_name) ≡ false
        → (c.module_name == consensus_name) ≡ false
        → (c.module_name == governance_name) ≡ false
        → ⊥
    unfolding has_case
    in_none a b d f = false≢true (rw (a, b, d, f) at known)

  -- A change of a governable parameter is never refused as of an unknown parameter or an unknown
  -- module: every governable parameter has its case in the applier.
  pub governable_change_is_known :
      (s : State)
      → is_governable c.module_name c.parameter ≡ true
      → ((apply_parameter_change h c s).0 ≢ err unknown_parameter)
        × ((apply_parameter_change h c s).0 ≢ err unknown_module)
  governable_change_is_known s g =
      let known = governable-has_case c.module_name c.parameter g in
      by_module (λ r. (r.0 ≢ err unknown_parameter) × (r.0 ≢ err unknown_module)) h c s g
        (λ e. (refused_lizenz s (in_lizenz known e), lizenz_module s))
        (λ e. (refused_anteil s (in_anteil known e), anteil_module s))
        (λ e. (refused_consensus s (in_consensus known e), consensus_module s))
        (λ e. (refused_governance s (in_governance known e), governance_module s))
        (λ a b d f. absurd (in_none known a b d f))
