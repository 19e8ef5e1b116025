-- ===== src/Governance/Switch.antt =====
-- The switch of ApplyParameterChange on the name of the module, as one rule for proofs.
use volnix_protocol.Base.{
  true, false, ◌≡◌, err, text_eq_iff, Bool-cases, ◌==◌, text_is_eq, inl, inr, Outcome,
}
use volnix_protocol.Host.{Host}
use volnix_protocol.Governance.Types.{ParameterChange, Error, unknown_module}
use volnix_protocol.Governance.Governable.{
  is_governable, lizenz_name, anteil_name, consensus_name, governance_name,
}
use volnix_protocol.Governance.Keeper.{State}
use volnix_protocol.Governance.Applier.{
  apply_parameter_change, apply_lizenz_parameter_change, apply_anteil_parameter_change,
  apply_consensus_parameter_change, apply_governance_parameter_change,
}

-- What holds of the five branches holds of the change of a governable parameter.
pub by_module :
    (P : Outcome Error (Unit {0}) × State → Type 0)
    → (h : Host) (c : ParameterChange) (s : State) → is_governable c.module_name c.parameter ≡ true
    → (c.module_name ≡ lizenz_name → P (apply_lizenz_parameter_change h c s))
    → (c.module_name ≡ anteil_name → P (apply_anteil_parameter_change h c s))
    → (c.module_name ≡ consensus_name → P (apply_consensus_parameter_change h c s))
    → (c.module_name ≡ governance_name → P (apply_governance_parameter_change h c s))
    → ((c.module_name == lizenz_name) ≡ false
        → (c.module_name == anteil_name) ≡ false
        → (c.module_name == consensus_name) ≡ false
        → (c.module_name == governance_name) ≡ false
        → P (err unknown_module, s))
    → P (apply_parameter_change h c s)
unfolding apply_parameter_change
by_module P h c s g to_lz to_an to_co to_gv other =
    elim (Bool-cases (c.module_name == lizenz_name)) [
      | inl a ↦ rw (g, a) (to_lz ((text_eq_iff _ _).0 a))
      | inr a ↦ elim (Bool-cases (c.module_name == anteil_name)) [
        | inl b ↦ rw (g, a, b) (to_an ((text_eq_iff _ _).0 b))
        | inr b ↦ elim (Bool-cases (c.module_name == consensus_name)) [
          | inl d ↦ rw (g, a, b, d) (to_co ((text_eq_iff _ _).0 d))
          | inr d ↦ elim (Bool-cases (c.module_name == governance_name)) [
            | inl f ↦ rw (g, a, b, d, f) (to_gv ((text_eq_iff _ _).0 f))
            | inr f ↦ rw (g, a, b, d, f) (other a b d f)
          ]
        ]
      ]
    ]
