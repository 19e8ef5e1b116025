-- ===== src/Anteil/Market.antt =====
-- x/anteil/keeper/economic_engine.go: the figures of the market and the making of it.
pub mod Refusal
use volnix_protocol.Base.{
  ℕ, ◌+◌, not, ◌||◌, none, List, [], ◌∷◌, Text, codes, is_empty, ℤ, if◌then◌else◌, ok, gets, ◌>>=◌,
  ◌>>◌, length,
}
use volnix_protocol.Host.{Host}
use volnix_protocol.Anteil.Params.{Params}
use volnix_protocol.Anteil.Types.{Order, Trade, OrderSide, OrderStatus, OrderType, ◌⁀◌, unix}
use volnix_protocol.Anteil.Keeper.{State, Handler, get_all_orders, set_order}
use volnix_protocol.Anteil.Trades.{get_all_trades}
use volnix_protocol.Anteil.Engine.{is_open_order, value}
use volnix_protocol.Strconv.{format_int}

unfoldable pub count_open : List Order → ℕ
count_open [] = 0
count_open (o ∷ os) = (if is_open_order o then 1 else 0) + count_open os

module _ (h : Host) where
  pub record MarketMetrics : Type 0 where
    pub total_orders : ℕ
    pub active_orders : ℕ
    pub total_trades : ℕ
    pub total_volume : h.Float
    pub average_price : h.Float
    pub highest_price : h.Float
    pub lowest_price : h.Float
    pub price_spread : h.Float

  -- What the loop over the trades carries.
  pub record Sums : Type 0 where
    pub volume : h.Float
    pub total : h.Float
    pub highest : h.Float
    pub lowest : h.Float

  abbrev add_trade : Trade → Sums → Sums
  add_trade t x =
      let quantity = value h t.ant_amount in
      let price = value h t.price in
      record {
        volume = h.plus x.volume quantity;
        total = h.plus x.total (h.times quantity price);
        highest = if h.less x.highest price then price else x.highest;
        lowest = if h.less price x.lowest then price else x.lowest;
      }

  unfoldable pub add_trades : List Trade → Sums → Sums
  add_trades [] x = x
  add_trades (t ∷ ts) x = add_trades ts (add_trade t x)

  abbrev zero_float : h.Float
  zero_float = h.of_uint64 0

  abbrev no_trades : Sums
  no_trades = record {
    volume = zero_float;
    total = zero_float;
    highest = zero_float;
    lowest = h.of_uint64 999999;
  }

  unfoldable pub calculate_market_metrics : State → MarketMetrics
  calculate_market_metrics s =
      let x = add_trades (get_all_trades s) no_trades in
      record {
        total_orders = length (get_all_orders s);
        active_orders = count_open (get_all_orders s);
        total_trades = length (get_all_trades s);
        total_volume = x.volume;
        average_price = if h.less zero_float x.volume then h.over x.total x.volume else zero_float;
        highest_price = x.highest;
        lowest_price = x.lowest;
        price_spread = h.minus x.highest x.lowest;
      }

  -- A factor of the parameters, or the default where it is no positive number.
  abbrev pub factor : Text → Text → h.Float
  factor s default =
      if not (h.parse_float s).1 || h.at_most (value h s) zero_float
      then value h default
      else value h s

  abbrev order_size : Params → Text
  order_size p =
      if is_empty p.market_making_order_size then codes "1000.0" else p.market_making_order_size

  unfoldable pub maker_order : ℤ → Params → Text → OrderSide → h.Float → Order
  maker_order now p prefix side price = record {
    order_id = prefix ⁀ format_int (unix now);
    owner = codes "market_maker_system";
    order_type = OrderType.limit;
    order_side = side;
    ant_amount = order_size p;
    price = h.fixed 6 price;
    status = OrderStatus.status_open;
    created_at = none;
    expires_at = none;
    identity_hash = [];
  }

  unfoldable pub create_market_making_orders : ℤ → h.Float → Handler (Unit {0})
  create_market_making_orders now market_price = do
    p ← gets (λ (s : State). s.params)
    set_order (
        maker_order now p (codes "mm_buy") OrderSide.buy
          (h.times market_price (factor p.market_making_buy_discount (codes "0.99"))))
    set_order (
        maker_order now p (codes "mm_sell") OrderSide.sell
          (h.times market_price (factor p.market_making_sell_premium (codes "1.01"))))

  unfoldable pub process_market_making : ℤ → Handler (Unit {0})
  process_market_making now s =
      let metrics = calculate_market_metrics s in
      if h.less (value h (codes "0.1")) metrics.price_spread
      then create_market_making_orders now metrics.average_price s
      else (ok tt, s)
