-- ===== src/Anteil/Trades.antt =====
-- x/anteil/keeper/keeper.go: trades between two orders.
pub mod Effect
use volnix_protocol.Base.{
  ℕ, ◌+◌, ◌%◌, ◌^◌, Bool, true, false, not, none, some, List, [], Text, codes, ℤ, gets, lift,
  or_raise, modify, raise_if, ◌>>=◌, ◌>>◌, is_some,
}
use volnix_protocol.KvStore.{KvStore, text_key}
use volnix_protocol.KvStore
use volnix_protocol.Anteil.Positions.{set_user_position}
use volnix_protocol.Anteil.Types.{
  Trade, UserPosition, is_trade_valid, trade_not_found, Order, ◌⁀◌, OrderSide, parse_uint64,
  invalid_order_type, OrderStatus, trade_already_exists,
}
use volnix_protocol.Anteil.Keeper.{State, Handler, get_order, update_order}
use volnix_protocol.Strconv.{format_uint}

unfoldable pub set_trade : Trade → Handler (Unit {0})
set_trade t = do
  lift (is_trade_valid t)
  exists ← gets (λ (s : State). is_some (KvStore.get t.trade_id s.trades))
  raise_if exists trade_already_exists
  modify λ s. record s { trades = KvStore.set t.trade_id t s.trades }

unfoldable pub get_trade : Text → Handler Trade
get_trade trade_id s = or_raise (KvStore.get trade_id s.trades) trade_not_found s

unfoldable pub get_all_trades : State → List Trade
get_all_trades s = KvStore.values s.trades

-- The stored position of a trader, or a new one.
unfoldable pub position_or_new : ℤ → Text → State → UserPosition
position_or_new now user s = elim (KvStore.get user s.positions) [
  | some p ↦ p
  | none ↦ record {
    owner = user;
    ant_balance = codes "0";
    locked_ant = [];
    available_ant = [];
    open_order_ids = [];
    total_trades = codes "0";
    total_volume = codes "0";
    last_activity = now;
  }
]

abbrev pub wrap_uint64 : ℕ → ℕ
wrap_uint64 n = n % 2 ^ 64

unfoldable pub counted : ℤ → Text → UserPosition → UserPosition
counted now amount p = record p {
  total_trades = format_uint (wrap_uint64 (parse_uint64 p.total_trades + 1));
  total_volume = format_uint (wrap_uint64 (parse_uint64 p.total_volume + parse_uint64 amount));
  last_activity = now;
}

unfoldable pub count_for : ℤ → Text → Text → State → State
count_for now amount user s = set_user_position (counted now amount (position_or_new now user s)) s

-- The seller's position is read after the buyer's is stored.
unfoldable pub update_user_position_for_trade : ℤ → Trade → State → State
update_user_position_for_trade now t s =
    count_for now t.ant_amount t.seller (count_for now t.ant_amount t.buyer s)

abbrev pub trade_id_of : Text → Text → Text
trade_id_of buy_order_id sell_order_id = codes "trade" ⁀ buy_order_id ⁀ sell_order_id

unfoldable pub trade_between : Order → Order → Text → Text → Trade
trade_between b o buy_order_id sell_order_id = record {
  trade_id = trade_id_of buy_order_id sell_order_id;
  buy_order_id = buy_order_id;
  sell_order_id = sell_order_id;
  buyer = b.owner;
  seller = o.owner;
  ant_amount = b.ant_amount;
  price = b.price;
  total_value = [];
  executed_at = none;
  identity_hash = [];
}

abbrev pub is_buy : OrderSide → Bool
is_buy OrderSide.buy = true
is_buy _ = false

abbrev pub is_sell : OrderSide → Bool
is_sell OrderSide.sell = true
is_sell _ = false

abbrev pub filled_order : Order → Order
filled_order o = record o { status = OrderStatus.filled }

unfoldable pub execute_trade : ℤ → Text → Text → Handler (Unit {0})
execute_trade now buy_order_id sell_order_id = do
  b ← get_order buy_order_id
  o ← get_order sell_order_id
  raise_if (not (is_buy b.order_side)) invalid_order_type
  raise_if (not (is_sell o.order_side)) invalid_order_type
  set_trade (trade_between b o buy_order_id sell_order_id)
  update_order (filled_order b)
  update_order (filled_order o)
  modify (update_user_position_for_trade now (trade_between b o buy_order_id sell_order_id))
