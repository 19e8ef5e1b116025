-- ===== src/Governance/Applier.antt =====
-- x/governance/keeper/parameter_applier.go: a parameter change is validated and applied to the
-- parameters of the module that it names. Storing a parameter set panics where a validator of the
-- set refuses a value; a panic leaves the state as it was, since the transaction is discarded.
use volnix_protocol.Base.{
  ℕ, Bool, true, false, ◌||◌, ◌^◌, ◌-◌, Option, none, some, Text, codes, is_empty, ◌==◌, text_is_eq,
  nat_is_eq, if◌then◌else◌, Outcome, ok, err, raise, gets, lift, or_raise, modify, ◌>>=◌, ℤ, pos,
  leb_ℤ,
}
use volnix_protocol.Strconv.{parse_uint, max_uint64}
use volnix_protocol.Host.{Host}
use volnix_protocol.Lizenz
use volnix_protocol.Anteil
use volnix_protocol.Consensus
use volnix_protocol.Governance.Types.{
  Params, ParameterChange, Error, constitutional_parameter, keeper_not_set, unknown_module,
  unknown_parameter, invalid_number, invalid_duration, invalid_float, not_positive,
  out_of_unit_interval, empty_module, empty_parameter, empty_new_value, panic,
}
use volnix_protocol.Governance.Governable.{
  is_governable, get_governable_parameter, GovernableParameter, string, uint64, uint32, duration,
  lizenz_name, anteil_name, consensus_name, governance_name,
}
use volnix_protocol.Governance.Keeper.{State, Handler}

abbrev pub checked : Bool → Error → Outcome Error (Unit {0})
checked true e = ok tt
checked false e = err e

abbrev pub number_of : ℕ → Text → Outcome Error ℕ
number_of top s = elim (parse_uint top s) [ ok n ↦ ok n | err e ↦ err invalid_number ]

abbrev pub max_uint32 : ℕ
max_uint32 = 2 ^ 32 - 1

infixl 10 ◌then_ok◌
abbrev pub ◌then_ok◌ : {A B : Type 0} → Outcome Error A → (A → Outcome Error B) → Outcome Error B
ok a then_ok f = f a
err e then_ok f = err e

abbrev pub not_empty : Text → Bool
not_empty s = if is_empty s then false else true

-- SetParamSet with the validators of the lizenz parameters.
unfoldable pub stored_lizenz : Lizenz.Params.Params → Outcome Error Lizenz.Params.Params
stored_lizenz p = if p.max_activated_per_validator == 0 then err panic else ok p

-- SetParamSet with the validators of the anteil parameters.
unfoldable pub stored_anteil : Anteil.Params.Params → Outcome Error Anteil.Params.Params
stored_anteil p =
    if p.max_open_orders == 0 || p.min_liquidity_threshold == 0 then err panic else ok p

-- SetParamSet with `validateDecimal` on the quorum and the threshold.
unfoldable pub stored_governance : Params → Outcome Error Params
stored_governance p = if is_empty p.quorum || is_empty p.threshold then err panic else ok p

module _ (h : Host) where
  abbrev pub duration_of : Text → Outcome Error ℤ
  duration_of s = elim (h.parse_duration s) [ none ↦ err invalid_duration | some d ↦ ok d ]

  abbrev pub positive_duration_of : Text → Outcome Error ℤ
  positive_duration_of s =
      duration_of s then_ok λ d. if leb_ℤ d (pos 0) then err not_positive else ok d

  -- ParseFloat and the test `x < 0 || x > 1`.
  unfoldable pub check_unit_interval : Text → Outcome Error (Unit {0})
  check_unit_interval s =
      if (h.parse_float s).1
      then (if h.less (h.parse_float s).0 (h.of_uint64 0)
            || h.less (h.of_uint64 1) (h.parse_float s).0
          then err out_of_unit_interval
          else ok tt)
      else err invalid_float

  unfoldable pub updated_lizenz :
      ParameterChange → Lizenz.Params.Params → Outcome Error Lizenz.Params.Params
  updated_lizenz c p =
      if c.parameter == codes "activity_coefficient"
      then ok (record p { activity_coefficient = c.new_value })
      else if c.parameter == codes "min_lzn_amount"
      then ok (record p { min_lzn_amount = c.new_value })
      else if c.parameter == codes "max_lzn_amount"
      then ok (record p { max_lzn_amount = c.new_value })
      else if c.parameter == codes "inactivity_period"
      then (duration_of c.new_value then_ok λ d. ok (record p { inactivity_period = d }))
      else if c.parameter == codes "deactivation_period"
      then (duration_of c.new_value then_ok λ d. ok (record p { deactivation_period = d }))
      else err unknown_parameter

  unfoldable pub apply_lizenz_parameter_change : ParameterChange → Handler (Unit {0})
  apply_lizenz_parameter_change c = do
    current ← gets (λ (s : State). s.lizenz)
    params ← or_raise current keeper_not_set
    new_params ← lift (updated_lizenz c params then_ok stored_lizenz)
    modify λ s. record s { lizenz = some new_params }

  unfoldable pub updated_anteil :
      ParameterChange → Anteil.Params.Params → Outcome Error Anteil.Params.Params
  updated_anteil c p =
      if c.parameter == codes "min_ant_amount"
      then ok (record p { min_ant_amount = c.new_value })
      else if c.parameter == codes "max_ant_amount"
      then ok (record p { max_ant_amount = c.new_value })
      else if c.parameter == codes "trading_fee_rate"
      then ok (record p { trading_fee_rate = c.new_value })
      else if c.parameter == codes "max_open_orders"
      then (number_of max_uint32 c.new_value then_ok λ n. ok (record p { max_open_orders = n }))
      else err unknown_parameter

  unfoldable pub apply_anteil_parameter_change : ParameterChange → Handler (Unit {0})
  apply_anteil_parameter_change c = do
    current ← gets (λ (s : State). s.anteil)
    params ← or_raise current keeper_not_set
    new_params ← lift (updated_anteil c params then_ok stored_anteil)
    modify λ s. record s { anteil = some new_params }

  unfoldable pub updated_consensus :
      ParameterChange → Consensus.Params.Params → Outcome Error Consensus.Params.Params
  updated_consensus c p =
      if c.parameter == codes "base_block_time"
      then (duration_of c.new_value then_ok λ d. ok (record p { base_block_time = c.new_value }))
      else if c.parameter == codes "high_activity_threshold"
      then (number_of max_uint64 c.new_value then_ok λ n.
          ok (record p { high_activity_threshold = n }))
      else if c.parameter == codes "low_activity_threshold"
      then (number_of max_uint64 c.new_value then_ok λ n.
          ok (record p { low_activity_threshold = n }))
      else err unknown_parameter

  unfoldable pub apply_consensus_parameter_change : ParameterChange → Handler (Unit {0})
  apply_consensus_parameter_change c = do
    current ← gets (λ (s : State). s.consensus)
    params ← or_raise current keeper_not_set
    new_params ← lift (updated_consensus c params)
    modify λ s. record s { consensus = some new_params }

  unfoldable pub updated_governance : ParameterChange → Params → Outcome Error Params
  updated_governance c p =
      if c.parameter == codes "voting_period"
      then (positive_duration_of c.new_value then_ok λ d. ok (record p { voting_period = d }))
      else if c.parameter == codes "timelock_period"
      then (positive_duration_of c.new_value then_ok λ d. ok (record p { timelock_period = d }))
      else if c.parameter == codes "min_deposit"
      then (number_of max_uint64 c.new_value then_ok λ n.
          ok (record p { min_deposit = c.new_value }))
      else if c.parameter == codes "quorum"
      then (check_unit_interval c.new_value then_ok λ _. ok (record p { quorum = c.new_value }))
      else if c.parameter == codes "threshold"
      then (check_unit_interval c.new_value then_ok λ _. ok (record p { threshold = c.new_value }))
      else err unknown_parameter

  unfoldable pub apply_governance_parameter_change : ParameterChange → Handler (Unit {0})
  apply_governance_parameter_change c = do
    params ← gets (λ (s : State). s.params)
    new_params ← lift (updated_governance c params then_ok stored_governance)
    modify λ s. record s { params = new_params }

  unfoldable pub apply_parameter_change : ParameterChange → Handler (Unit {0})
  apply_parameter_change c =
      if is_governable c.module_name c.parameter
      then (if c.module_name == lizenz_name
          then apply_lizenz_parameter_change c
          else if c.module_name == anteil_name
          then apply_anteil_parameter_change c
          else if c.module_name == consensus_name
          then apply_consensus_parameter_change c
          else if c.module_name == governance_name
          then apply_governance_parameter_change c
          else raise unknown_module)
      else raise constitutional_parameter

  -- The checks by the type of the parameter; the value is known to be non-empty there.
  unfoldable pub validate_value : Option GovernableParameter → Text → Outcome Error (Unit {0})
  validate_value none s = ok tt
  validate_value (some g) s = elim g.kind [
    | string ↦ checked (not_empty s) empty_new_value
    | uint64 ↦ number_of max_uint64 s then_ok λ _. ok tt
    | uint32 ↦ number_of max_uint64 s then_ok λ _. ok tt
    | duration ↦
        checked (not_empty s) empty_new_value then_ok λ _. positive_duration_of s then_ok λ _. ok tt
  ]

  unfoldable pub validate_parameter_change : ParameterChange → Outcome Error (Unit {0})
  validate_parameter_change c =
      if is_governable c.module_name c.parameter
      then (if is_empty c.module_name
          then err empty_module
          else if is_empty c.parameter
          then err empty_parameter
          else if is_empty c.new_value
          then err empty_new_value
          else validate_value (get_governable_parameter c.module_name c.parameter) c.new_value)
      else err constitutional_parameter
