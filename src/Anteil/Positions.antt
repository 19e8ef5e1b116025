-- ===== src/Anteil/Positions.antt =====
-- x/anteil/keeper/keeper.go: the positions of the users.
use volnix_protocol.Base.{ℕ, none, some, [], Text, codes, ℤ, nat_eq, if◌then◌else◌, or_raise}
use volnix_protocol.KvStore.{KvStore, text_key}
use volnix_protocol.KvStore
use volnix_protocol.Anteil.Types.{UserPosition, position_not_found, parse_uint64}
use volnix_protocol.Anteil.Keeper.{State, Handler}
use volnix_protocol.Strconv.{format_uint}

unfoldable pub get_user_position : Text → Handler UserPosition
get_user_position user s = or_raise (KvStore.get user s.positions) position_not_found s

unfoldable pub set_user_position : UserPosition → State → State
set_user_position p s = record s { positions = KvStore.set p.owner p s.positions }

abbrev pub reset_position : ℤ → Text → Text → ℕ → UserPosition
reset_position now user ant_balance order_count = record {
  owner = user;
  ant_balance = ant_balance;
  locked_ant = [];
  available_ant = [];
  open_order_ids = [];
  total_trades = format_uint order_count;
  total_volume = [];
  last_activity = now;
}

-- UpdateUserPosition of the keeper, whatever was stored.
unfoldable pub update_user_position : ℤ → Text → Text → ℕ → State → State
update_user_position now user ant_balance order_count =
    set_user_position (reset_position now user ant_balance order_count)

abbrev pub burnt : ℤ → UserPosition → UserPosition
burnt now p = record p {
  ant_balance = codes "0";
  available_ant = codes "0";
  locked_ant = codes "0";
  last_activity = now;
}

unfoldable pub burn_ant_from_user : ℤ → Text → State → State
burn_ant_from_user now user s = elim (KvStore.get user s.positions) [
  | none ↦ s
  | some p ↦ if nat_eq (parse_uint64 p.ant_balance) 0 then s else set_user_position (burnt now p) s
]
