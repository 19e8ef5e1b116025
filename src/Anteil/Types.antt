-- ===== src/Anteil/Types.antt =====
-- The records of x/anteil (types/types.go, proto/volnix/anteil/v1/types.proto), their checks and
-- constructors, and its errors.
use volnix_protocol.Base.{
  ℕ, Text, Option, Outcome, ℤ, List, ◌++◌, if◌then◌else◌, codes, pos, ◌∷◌, some, [], is_empty, ◌+ℤ◌,
  ◌/◌, err, ◌^◌, ok, negsuc,
}
use volnix_protocol.Strconv.{format_uint, format_int, parse_uint, max_uint64}
use volnix_protocol.Host.{hours}

pub data OrderType : Type 0 where
  unspecified limit market stop_loss take_profit : OrderType

pub data OrderSide : Type 0 where
  unspecified buy sell : OrderSide

pub data OrderStatus : Type 0 where
  unspecified status_open partially_filled filled cancelled expired : OrderStatus

pub data AuctionStatus : Type 0 where
  unspecified status_open closed settled cancelled : AuctionStatus

pub record Order : Type 0 where
  pub order_id : Text
  pub owner : Text
  pub order_type : OrderType
  pub order_side : OrderSide
  pub ant_amount : Text
  pub price : Text
  pub status : OrderStatus
  pub created_at : Option ℤ
  pub expires_at : Option ℤ
  pub identity_hash : Text

pub record Trade : Type 0 where
  pub trade_id : Text
  pub buy_order_id : Text
  pub sell_order_id : Text
  pub buyer : Text
  pub seller : Text
  pub ant_amount : Text
  pub price : Text
  pub total_value : Text
  pub executed_at : Option ℤ
  pub identity_hash : Text

pub record UserPosition : Type 0 where
  pub owner : Text
  pub ant_balance : Text
  pub locked_ant : Text
  pub available_ant : Text
  pub open_order_ids : List Text
  pub total_trades : Text
  pub total_volume : Text
  pub last_activity : ℤ

pub record Bid : Type 0 where
  pub bid_id : Text
  pub bidder : Text
  pub amount : Text
  pub submitted_at : ℤ
  pub identity_hash : Text

pub record Auction : Type 0 where
  pub auction_id : Text
  pub block_height : ℕ
  pub start_time : ℤ
  pub end_time : ℤ
  pub status : AuctionStatus
  pub bids : List Bid
  pub winning_bid : Text
  pub reserve_price : Text
  pub ant_amount : Text

pub data Error : Type 0 where
  empty_owner empty_ant_amount empty_price empty_identity_hash : Error
  empty_buy_order_id empty_sell_order_id empty_buyer empty_seller : Error
  empty_ant_balance empty_auction_id empty_reserve_price empty_bidder empty_bid_amount : Error
  order_not_found order_already_exists invalid_order_type : Error
  auction_not_found auction_closed trade_not_found trade_already_exists : Error
  auction_already_exists auction_not_closed auction_expired no_winning_bid : Error
  position_not_found bid_not_found : Error
  empty_order_id owner_mismatch unknown_accounts only_validators_bid : Error
  invalid_bid_amount invalid_reserve below_reserve invalid_rate invalid_limit nil_winner : Error

-- Seconds since the epoch: Unix of an instant.
abbrev pub unix : ℤ → ℤ
unix (pos n) = pos (n / 10 ^ 9)
unix (negsuc n) = negsuc (n / 10 ^ 9)

infixr 60 ◌⁀◌
abbrev pub ◌⁀◌ : Text → Text → Text
s ⁀ t = s ++ b'_' ∷ t

abbrev pub generate_order_id : Text → ℤ → Text
generate_order_id owner timestamp = codes "order" ⁀ owner ⁀ format_int (unix timestamp)

unfoldable pub new_order : ℤ → Text → OrderType → OrderSide → Text → Text → Text → Order
new_order now owner order_type order_side ant_amount price identity_hash = record {
  order_id = generate_order_id owner now;
  owner = owner;
  order_type = order_type;
  order_side = order_side;
  ant_amount = ant_amount;
  price = price;
  status = OrderStatus.status_open;
  created_at = some now;
  expires_at = some (now +ℤ hours 24);
  identity_hash = identity_hash;
}

unfoldable pub new_user_position : ℤ → Text → Text → UserPosition
new_user_position now owner ant_balance = record {
  owner = owner;
  ant_balance = ant_balance;
  locked_ant = codes "0";
  available_ant = ant_balance;
  open_order_ids = [];
  total_trades = codes "0";
  total_volume = codes "0";
  last_activity = now;
}

unfoldable pub new_auction : ℤ → ℕ → Text → Text → Auction
new_auction now block_height ant_amount reserve_price = record {
  auction_id = codes "auction" ⁀ format_uint block_height ⁀ format_int (unix now);
  block_height = block_height;
  start_time = now;
  end_time = now +ℤ hours 1;
  status = AuctionStatus.status_open;
  bids = [];
  winning_bid = [];
  reserve_price = reserve_price;
  ant_amount = ant_amount;
}

unfoldable pub is_order_valid : Order → Outcome Error (Unit {0})
is_order_valid o =
    if is_empty o.owner
    then err empty_owner
    else if is_empty o.ant_amount
    then err empty_ant_amount
    else if is_empty o.price
    then err empty_price
    else if is_empty o.identity_hash
    then err empty_identity_hash
    else ok tt

unfoldable pub is_trade_valid : Trade → Outcome Error (Unit {0})
is_trade_valid t =
    if is_empty t.buy_order_id
    then err empty_buy_order_id
    else if is_empty t.sell_order_id
    then err empty_sell_order_id
    else if is_empty t.buyer
    then err empty_buyer
    else if is_empty t.seller
    then err empty_seller
    else if is_empty t.ant_amount
    then err empty_ant_amount
    else if is_empty t.price
    then err empty_price
    else ok tt

unfoldable pub is_auction_valid : Auction → Outcome Error (Unit {0})
is_auction_valid a =
    if is_empty a.auction_id
    then err empty_auction_id
    else if is_empty a.reserve_price
    then err empty_reserve_price
    else if is_empty a.ant_amount
    then err empty_ant_amount
    else ok tt

-- ParseUint64: 0 where ParseUint fails.
abbrev pub parse_uint64 : Text → ℕ
parse_uint64 s = elim (parse_uint max_uint64 s) [ ok n ↦ n | err e ↦ 0 ]
