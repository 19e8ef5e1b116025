-- ===== src/Governance/Genesis.antt =====
-- x/governance/genesis.go: the parameters and the counter at genesis.
use volnix_protocol.Base.{Option, none, some, lift, modify, ◌>>=◌, ◌>>◌}
use volnix_protocol.Governance.Types.{Params, Error, default_params, validate}
use volnix_protocol.Governance.Keeper.{State, Handler, set_next_proposal_id}
use volnix_protocol.Governance.Applier.{stored_governance}

-- The genesis state holds the parameters only; `none` is a nil genesis.
unfoldable pub genesis_params : Option Params → Params
genesis_params none = default_params
genesis_params (some p) = p

-- SetParams panics where a validator of the parameter set refuses a value.
unfoldable pub init_genesis : Option Params → Handler (Unit {0})
init_genesis g = do
  params ← lift (stored_governance (genesis_params g))
  modify λ s. record s { params = params }
  set_next_proposal_id 1

unfoldable pub export_genesis : State → Params
export_genesis s = s.params

unfoldable pub validate_genesis : Option Params → Option Error
validate_genesis none = none
validate_genesis (some p) = validate p
