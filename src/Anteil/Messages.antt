-- ===== src/Anteil/Messages.antt =====
-- x/anteil/keeper/msg_server.go: the messages that reach the keeper.
use volnix_protocol.Base.{not, Text, is_empty, text_eq, pure, raise_if, ◌>>=◌, ◌>>◌}
use volnix_protocol.Host.{Host, Env}
use volnix_protocol.Anteil.Types.{
  new_order, OrderSide, OrderType, empty_owner, empty_order_id, empty_auction_id, Order,
  owner_mismatch, empty_ant_amount, empty_bidder, empty_price, auction_not_closed, empty_bid_amount,
}
use volnix_protocol.Anteil.Keeper.{Handler, set_order, get_order, cancel_order}
use volnix_protocol.Anteil.Auctions.{Accounts, get_auction, settle_auction, place_bid, is_closed}

pub record MsgPlaceOrder : Type 0 where
  pub owner : Text
  pub order_type : OrderType
  pub order_side : OrderSide
  pub ant_amount : Text
  pub price : Text
  pub identity_hash : Text

pub record MsgCancelOrder : Type 0 where
  pub owner : Text
  pub order_id : Text

pub record MsgPlaceBid : Type 0 where
  pub bidder : Text
  pub auction_id : Text
  pub amount : Text
  pub identity_hash : Text

pub record MsgSettleAuction : Type 0 where
  pub auction_id : Text
  pub winner : Text

abbrev pub requested_order : Env → MsgPlaceOrder → Order
requested_order e req =
    new_order e.now req.owner req.order_type req.order_side req.ant_amount req.price
      req.identity_hash

-- Gives the identifier of the order.
unfoldable pub place_order : Env → MsgPlaceOrder → Handler Text
place_order e req = do
  raise_if (is_empty req.owner) empty_owner
  raise_if (is_empty req.ant_amount) empty_ant_amount
  raise_if (is_empty req.price) empty_price
  set_order (requested_order e req)
  pure (requested_order e req).order_id

unfoldable pub cancel_own_order : MsgCancelOrder → Handler (Unit {0})
cancel_own_order req = do
  raise_if (is_empty req.order_id) empty_order_id
  raise_if (is_empty req.owner) empty_owner
  o ← get_order req.order_id
  raise_if (not (text_eq o.owner req.owner)) owner_mismatch
  cancel_order req.order_id

unfoldable pub bid_on_auction : Host → Env → Accounts → MsgPlaceBid → Handler (Unit {0})
bid_on_auction h e accounts req = do
  raise_if (is_empty req.auction_id) empty_auction_id
  raise_if (is_empty req.bidder) empty_bidder
  raise_if (is_empty req.amount) empty_bid_amount
  place_bid h e accounts req.auction_id req.bidder req.amount

unfoldable pub settle_closed_auction : MsgSettleAuction → Handler (Unit {0})
settle_closed_auction req = do
  raise_if (is_empty req.auction_id) empty_auction_id
  a ← get_auction req.auction_id
  raise_if (not (is_closed a.status)) auction_not_closed
  settle_auction req.auction_id
