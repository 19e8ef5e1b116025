-- ===== src/Governance/Whitelist.antt =====
-- The list of governable parameters against the constitutional list and against the switches of
-- the applier.
pub mod Cases
use volnix_protocol.Base.{
  ◌||◌, ◌∙◌, Bool, true, false, some, none, Option, List, [], ◌∷◌, ◌++◌, ◌≡◌, ◌≢◌, refl, arith, err,
  Text, text_eq, text_eq_iff, codes, ◌==◌, text_is_eq, Bool-cases, inl, inr, ◌&&◌, if◌then◌else◌,
}
use volnix_protocol.Host.{Host}
use volnix_protocol.Lizenz
use volnix_protocol.Anteil
use volnix_protocol.Consensus
use volnix_protocol.Governance.Types.{ParameterChange, Params, unknown_parameter}
use volnix_protocol.Governance.Governable.{
  GovernableParameter, contains, constitutional_parameters, governable_parameters, find_parameter,
  get_governable_parameter, is_listed, is_governable, lizenz_name, anteil_name, consensus_name,
  governance_name,
}
use volnix_protocol.Governance.Applier.{
  updated_lizenz, updated_anteil, updated_consensus, updated_governance, check_unit_interval,
}

-- A test that every entry of a list passes.
every : (GovernableParameter → Bool) → List GovernableParameter → Bool
every test [] = true
every test (g ∷ gs) = test g && every test gs

-- A pair on the list is an entry that the search finds, and passes what all entries pass.
listed_entry :
    (test : GovernableParameter → Bool) (gs : List GovernableParameter) (m p : Text)
    → every test gs ≡ true
    → is_listed gs m p ≡ true
    → (g : GovernableParameter) × (find_parameter gs m p ≡ some g)
      × (g.module_name ≡ m)
      × (g.parameter ≡ p)
      × (test g ≡ true)
unfolding every is_listed find_parameter
listed_entry test [] m p passing listed = cc listed
listed_entry test (g ∷ gs) m p passing listed =
    elim (Bool-cases (g.module_name == m && g.parameter == p)) [
      | inl hit ↦ (
        g,
        rw hit,
        ground (arith, text_eq_iff g.module_name m),
        ground (arith, text_eq_iff g.parameter p),
        ground arith,
      )
      | inr miss ↦
          let (f, found, at_module, at_parameter, passes) =
            listed_entry test gs m p (ground arith) (ground arith) in
          (f, ground arith, at_module, at_parameter, passes)
    ]

not_constitutional : GovernableParameter → Bool
not_constitutional g =
    if contains constitutional_parameters (g.module_name ++ codes "_" ++ g.parameter)
    then false
    else true

none_constitutional : every not_constitutional governable_parameters ≡ true
unfolding every not_constitutional contains text_eq
none_constitutional = refl

listed_not_constitutional :
    (m p : Text)
    → is_listed governable_parameters m p ≡ true
    → contains constitutional_parameters (m ++ codes "_" ++ p) ≡ false
unfolding not_constitutional
listed_not_constitutional m p listed =
    let (g, _, at_module, at_parameter, passes) =
      listed_entry not_constitutional governable_parameters m p none_constitutional listed in
    rw (← at_module, ← at_parameter) (ground arith)

abbrev pub is_found : Option GovernableParameter → Bool
is_found none = false
is_found (some g) = true

listed-eq-found :
    (gs : List GovernableParameter) (m p : Text)
    → is_listed gs m p ≡ is_found (find_parameter gs m p)
unfolding is_listed find_parameter
listed-eq-found [] m p = refl
listed-eq-found (g ∷ gs) m p = ground (arith, listed-eq-found gs m p)

governable-eq-listed : (m p : Text) → is_governable m p ≡ is_listed governable_parameters m p
unfolding is_governable
governable-eq-listed m p = elim (Bool-cases (is_listed governable_parameters m p)) [
  | inl listed ↦ rw (listed_not_constitutional m p listed)
  | inr unlisted ↦ ground arith
]

-- The constitutional list and the list of governable parameters are disjoint: IsGovernable
-- answers exactly whether the pair is on the second list, and exactly then GetGovernableParameter
-- finds it.
pub is_governable-eq-listed :
    (m p : Text)
    → (is_governable m p ≡ is_listed governable_parameters m p)
      × (is_governable m p ≡ is_found (get_governable_parameter m p))
unfolding get_governable_parameter
is_governable-eq-listed m p =
    (governable-eq-listed m p, governable-eq-listed m p ∙ listed-eq-found governable_parameters m p)
