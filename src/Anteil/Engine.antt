-- ===== src/Anteil/Engine.antt =====
-- x/anteil/keeper/economic_engine.go: order matching and the settlement of auctions.
pub mod Termination
pub mod Crossing
pub mod Offered
pub mod Overwriting
use volnix_protocol.Base.{
  ℕ, zero, suc, ◌+◌, Bool, true, false, ◌&&◌, Option, none, some, List, [], ◌∷◌, Text, ℤ,
  if◌then◌else◌, Outcome, ok, err, pure, modify, ◌>>=◌, ◌>>◌, raise, length,
}
use volnix_protocol.Host.{Host}
use volnix_protocol.Anteil.Types.{
  Order, Trade, Auction, Bid, OrderSide, OrderStatus, AuctionStatus, Error, nil_winner,
}
use volnix_protocol.Anteil.Keeper.{State, Handler, get_all_orders, update_order}
use volnix_protocol.Anteil.Positions.{update_user_position}
use volnix_protocol.Anteil.Trades.{set_trade, trade_id_of, is_sell, is_buy}
use volnix_protocol.Anteil.Auctions.{update_auction, get_all_auctions, is_open}

abbrev pub is_open_order : Order → Bool
is_open_order o = elim o.status [ OrderStatus.status_open ↦ true | _ ↦ false ]

abbrev pub is_filled : Order → Bool
is_filled o = elim o.status [ OrderStatus.filled ↦ true | _ ↦ false ]

-- The open orders of one side, in the order of the store.
unfoldable pub open_orders : (OrderSide → Bool) → List Order → List Order
open_orders on_side [] = []
open_orders on_side (o ∷ os) =
    let rest = open_orders on_side os in
    if is_open_order o && on_side o.order_side then o ∷ rest else rest

abbrev pub unless_filled : Order → List Order → List Order
unless_filled o os = if is_filled o then os else o ∷ os

-- GetBidsByAuction of the keeper finds none.
unfoldable pub get_bids_by_auction : Text → State → List Bid
get_bids_by_auction auction_id s = []

module _ (h : Host) where
  abbrev pub value : Text → h.Float
  value s = (h.parse_float s).0

  unfoldable pub trade_quantity : Order → Order → h.Float
  trade_quantity b o =
      if h.less (value o.ant_amount) (value b.ant_amount)
      then value o.ant_amount
      else value b.ant_amount

  unfoldable pub matched_trade : Order → Order → Trade
  matched_trade b o = record {
    trade_id = trade_id_of b.order_id o.order_id;
    buy_order_id = b.order_id;
    sell_order_id = o.order_id;
    buyer = b.owner;
    seller = o.owner;
    ant_amount = h.fixed 6 (trade_quantity b o);
    price = h.fixed 6 (value o.price);
    total_value = h.fixed 6 (h.times (trade_quantity b o) (value o.price));
    executed_at = none;
    identity_hash = [];
  }

  -- An order less a quantity.
  unfoldable pub reduced : h.Float → Order → Order
  reduced quantity o =
      let left = h.minus (value o.ant_amount) quantity in
      record o {
        ant_amount = h.fixed 6 left;
        status = if h.same left (h.of_uint64 0) then OrderStatus.filled else o.status;
      }

  unfoldable pub update_user_positions : ℤ → Trade → State → State
  update_user_positions now t s =
      let quantity = value t.ant_amount in
      update_user_position now t.seller (h.fixed 6 (h.opposite quantity)) 0
        (update_user_position now t.buyer (h.fixed 6 quantity) 1 s)

  -- The trade of two orders; gives both as they are after it.
  unfoldable pub match_orders : ℤ → Order → Order → Handler (Order × Order)
  match_orders now b o = do
    update_order (reduced (trade_quantity b o) b)
    update_order (reduced (trade_quantity b o) o)
    modify (update_user_positions now (matched_trade b o))
    set_trade (matched_trade b o)
    pure (reduced (trade_quantity b o) b, reduced (trade_quantity b o) o)

  -- The loop of executeMatching; `none` when the fuel runs out.
  unfoldable pub execute_matching :
      ℕ → ℤ → List Order → List Order → State → Option (Outcome Error (Unit {0}) × State)
  execute_matching fuel now [] os s = some (ok tt, s)
  execute_matching fuel now (b ∷ bs) [] s = some (ok tt, s)
  execute_matching zero now (b ∷ bs) (o ∷ os) s = none
  execute_matching (suc fuel) now (b ∷ bs) (o ∷ os) s =
      elim (h.at_most (value o.price) (value b.price)) [
        | false ↦ some (ok tt, s)
        | true ↦ elim (match_orders now b o s).0 [
          | err x ↦ some (err x, (match_orders now b o s).1)
          | ok after ↦
              execute_matching fuel now (unless_filled after.0 bs) (unless_filled after.1 os)
                (match_orders now b o s).1
        ]
      ]

  abbrev pub dearer : Order → Order → Bool
  dearer i j = h.less (value j.price) (value i.price)

  abbrev pub cheaper : Order → Order → Bool
  cheaper i j = h.less (value i.price) (value j.price)

  -- `arrange` is sort.Slice, which fixes no order between orders of one price.
  module _ (arrange : (Order → Order → Bool) → List Order → List Order) where
    abbrev pub buy_side : State → List Order
    buy_side s = arrange dearer (open_orders is_buy (get_all_orders s))

    abbrev pub sell_side : State → List Order
    sell_side s = arrange cheaper (open_orders is_sell (get_all_orders s))

    -- One turn for each order, and one to spare.
    unfoldable pub process_order_matching : ℤ → State → Option (Outcome Error (Unit {0}) × State)
    process_order_matching now s =
        execute_matching (1 + length (buy_side s) + length (sell_side s)) now (buy_side s)
          (sell_side s) s

  -- The highest bid that is above `highest`.
  unfoldable pub highest_bid : List Bid → Option Bid → h.Float → Option Bid
  highest_bid [] best highest = best
  highest_bid (b ∷ bs) best highest =
      if h.less highest (value b.amount)
      then highest_bid bs (some b) (value b.amount)
      else highest_bid bs best highest

  -- Without a winner the code would read a nil bid.
  unfoldable pub award : ℤ → Auction → Option Bid → Handler (Unit {0})
  award now a none = raise nil_winner
  award now a (some winner) = do
    update_auction (record a { status = AuctionStatus.settled; winning_bid = winner.bid_id })
    modify (update_user_position now winner.bidder (h.fixed 6 (value a.ant_amount)) 1)

  unfoldable pub settle_with : ℤ → Auction → List Bid → Handler (Unit {0})
  settle_with now a [] = update_auction (record a { status = AuctionStatus.cancelled })
  settle_with now a (b ∷ bs) = award now a (highest_bid (b ∷ bs) none (h.of_uint64 0))

  unfoldable pub settle_open : ℤ → List Auction → Handler (Unit {0})
  settle_open now [] s = (ok tt, s)
  settle_open now (a ∷ auctions) s =
      let rest = settle_open now auctions in
      if is_open a.status
      then (settle_with now a (get_bids_by_auction a.auction_id s) >>= λ _. rest) s
      else rest s

  unfoldable pub settle_auctions : ℤ → Handler (Unit {0})
  settle_auctions now s = settle_open now (get_all_auctions s) s
