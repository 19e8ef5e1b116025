-- ===== src/Lizenz/Messages.antt =====
-- x/lizenz: the two messages of keeper/msg_server.go, and the operations of keeper/keeper.go that
-- are made of the ones on a single licence.
use volnix_protocol.Base.{Bool, true, none, Text, is_empty, raise_if, ◌>>=◌, ◌>>◌, []}
use volnix_protocol.Host.{Host, Env}
use volnix_protocol.Lizenz.Types.{ActivatedLizenz, empty_validator, empty_amount, empty_reason}
use volnix_protocol.Lizenz.Neighbours.{Neighbours}
use volnix_protocol.Lizenz.Keeper.{
  Handler, get_activated_lizenz, set_activated_lizenz, update_activated_lizenz,
  delete_activated_lizenz,
}

pub record MsgActivateLzn : Type 0 where
  pub validator : Text
  pub amount : Text
  pub identity_hash : Text

pub record MsgDeactivateLzn : Type 0 where
  pub validator : Text
  pub amount : Text
  pub reason : Text

abbrev pub requested_lizenz : Env → MsgActivateLzn → ActivatedLizenz
requested_lizenz e req = record {
  validator = req.validator;
  amount = req.amount;
  activation_time = e.now;
  last_activity = e.now;
  identity_hash = req.identity_hash;
  consensus_participation = [];
  ant_market_access = [];
  performance_rating = [];
  is_eligible_for_rewards = true;
  total_rewards_earned = [];
  last_reward_block = [];
  last_reward_time = none;
}

module _ (n : Neighbours) (h : Host) where
  unfoldable pub activate_lzn : Env → MsgActivateLzn → Handler n (Unit {0})
  activate_lzn e req = do
    raise_if (is_empty req.validator) empty_validator
    raise_if (is_empty req.amount) empty_amount
    set_activated_lizenz n h e (requested_lizenz e req)

  unfoldable pub deactivate_lzn : Env → MsgDeactivateLzn → Handler n (Unit {0})
  deactivate_lzn e req = do
    raise_if (is_empty req.validator) empty_validator
    raise_if (is_empty req.reason) empty_reason
    l ← get_activated_lizenz n req.validator
    delete_activated_lizenz n e req.validator

  -- ActivateLizenz and DeactivateLizenz of the keeper.
  unfoldable pub set_eligible : Bool → Text → Handler n (Unit {0})
  set_eligible eligible validator = do
    l ← get_activated_lizenz n validator
    update_activated_lizenz n h (record l { is_eligible_for_rewards = eligible })

  unfoldable pub transfer_lizenz : Env → Text → Text → Handler n (Unit {0})
  transfer_lizenz e from to = do
    l ← get_activated_lizenz n from
    delete_activated_lizenz n e from
    set_activated_lizenz n h e (record l { validator = to })
