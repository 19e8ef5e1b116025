-- ===== src/Anteil/Tests.antt =====
-- Runs of x/anteil with two traders, and what the theorems say of them.
use volnix_protocol.Base.{
  ◌≤◌, ◌≡◌, ◌≢◌, ◌⊎◌, refl, Bool, true, none, some, List, [], ◌∷◌, Text, codes, text_eq, text_lt,
  pos, ◌+ℤ◌, ◌-ℤ◌, ltb_ℤ, Outcome, ok, err, arith, String,
}
use volnix_protocol.Strconv.{max_uint64, parse_uint, format_uint, format_int}
use volnix_protocol.KvStore.{KvStore, text_key}
use volnix_protocol.KvStore
use volnix_protocol.Samples.{host, at_hour}
use volnix_protocol.Anteil.Distribution.Balances.{balance, granted}
use volnix_protocol.Lizenz.Neighbours.{Role}
use volnix_protocol.Anteil.Blocks.{end_blocker}
use volnix_protocol.Anteil.Invariant.{IsSound}
use volnix_protocol.Anteil.Invariant.Steps.{
  Steps, Chain, here, followed, creating, bidding, start, block, Chain-IsSound,
}
use volnix_protocol.Anteil.Invariant.Fates.{EveryStatus, is_over, settlement_refused}
use volnix_protocol.Anteil.Messages.{MsgPlaceBid, bid_on_auction, settle_closed_auction}
use volnix_protocol.Anteil.Params.{default_params}
use volnix_protocol.Anteil.Types.{
  Order, OrderType, OrderSide, OrderStatus, Trade, is_order_valid, is_trade_valid, Error,
  new_auction, is_auction_valid,
}
use volnix_protocol.Anteil.Keeper.{State, put_order, update_order, get_all_orders, get_order}
use volnix_protocol.Anteil.Positions.{set_user_position, update_user_position}
use volnix_protocol.Anteil.Trades.{get_all_trades, set_trade, execute_trade, trade_between}
use volnix_protocol.Anteil.Engine.{
  settle_open, settle_with, get_bids_by_auction, settle_auctions, match_orders, execute_matching,
  process_order_matching, open_orders, matched_trade, reduced, trade_quantity,
  update_user_positions,
}
use volnix_protocol.Anteil.Engine.Termination.{process_order_matching-Ends}
use volnix_protocol.Anteil.Engine.Offered.{Rearranges, Crossed, process_order_matching-Crossed}
use volnix_protocol.Anteil.Market.Refusal.{Futile, process_market_making-Futile}
use volnix_protocol.Ident.Types.{VerifiedAccount}
use volnix_protocol.Anteil.Distribution.{
  begin_blocker, is_due, distribute_ant_to_citizens, distribute_when_due,
}
use volnix_protocol.Anteil.Engine.Overwriting.{Overwritten, match_orders-Overwritten}
use volnix_protocol.Anteil.Trades.Effect.{PositionsNamed, Traded, execute_trade-Traded}
use volnix_protocol.Anteil.Auctions.{
  close_ended, get_all_auctions, check_bidder, get_auction, check_amount, store_bid, new_bid,
  update_winner, lead, verified, absent, set_auction, process_auctions, put_auction, place_bid,
  update_auction,
}
use volnix_protocol.Anteil.Distribution.Balances.{granted}
use volnix_protocol.Anteil.Distribution.Refinement.{distribute-bounded, distribute-granted}
use volnix_protocol.KvStore.Sorted.{IsSorted}
use volnix_protocol.Anteil.Auctions.Sweep.{IsRegistered}
use volnix_protocol.Anteil.Market.{process_market_making, calculate_market_metrics, add_trades}

abbrev empty_state : State
empty_state = record {
  params = default_params;
  orders = [];
  trades = [];
  positions = [];
  auctions = [];
  bids = [];
  last_distribution = none;
}

abbrev order_of : String → OrderSide → String → Order
order_of owner side price = record {
  order_id = codes owner;
  owner = codes owner;
  order_type = OrderType.limit;
  order_side = side;
  ant_amount = codes "10";
  price = codes price;
  status = OrderStatus.status_open;
  created_at = none;
  expires_at = none;
  identity_hash = codes "hash";
}

abbrev bid_order : Order
bid_order = order_of "bob" OrderSide.buy "5"

abbrev ask_order : Order
ask_order = order_of "ann" OrderSide.sell "4"

abbrev market : State
market = record empty_state { orders = (codes "ann", ask_order) ∷ (codes "bob", bid_order) ∷ [] }

abbrev as_stored : (Order → Order → Bool) → List Order → List Order
as_stored less os = os

as_stored-Rearranges : Rearranges as_stored
unfolding Rearranges
as_stored-Rearranges less o os m = m

process_order_matching-Ends_example :
    (r : Outcome Error (Unit {0}) × State) × (process_order_matching host as_stored (pos 0) market
      ≡ some r)
process_order_matching-Ends_example = process_order_matching-Ends host as_stored (pos 0) market

abbrev the_trade : Trade
the_trade = record {
  trade_id = codes "trade_bob_ann";
  buy_order_id = codes "bob";
  sell_order_id = codes "ann";
  buyer = codes "bob";
  seller = codes "ann";
  ant_amount = codes "10";
  price = codes "4";
  total_value = codes "40";
  executed_at = none;
  identity_hash = [];
}

abbrev matched : State
matched = (match_orders host (pos 0) bid_order ask_order market).1

matching_run : process_order_matching host as_stored (pos 0) market ≡ some (ok tt, matched)
unfolding process_order_matching execute_matching get_all_orders open_orders KvStore.values
    match_orders update_order is_order_valid KvStore.get reduced trade_quantity parse_uint
    format_uint put_order KvStore.set text_eq text_lt update_user_positions update_user_position
    set_user_position matched_trade set_trade is_trade_valid
matching_run = refl

trade_found : KvStore.get (codes "trade_bob_ann") matched.trades ≡ some the_trade
unfolding match_orders update_order is_order_valid KvStore.get reduced trade_quantity parse_uint
    format_uint put_order KvStore.set text_eq text_lt update_user_positions update_user_position
    set_user_position matched_trade set_trade is_trade_valid
trade_found = refl

process_order_matching-Crossed_example :
    (KvStore.get (codes "trade_bob_ann") market.trades ≡ some the_trade)
    ⊎ Crossed host market the_trade
process_order_matching-Crossed_example =
    process_order_matching-Crossed host as_stored as_stored-Rearranges (pos 0) market
      (ok tt, matched) matching_run (codes "trade_bob_ann") the_trade trade_found

process_market_making-Futile_example : Futile host (pos 0) market
process_market_making-Futile_example = process_market_making-Futile host (pos 0) market

match_accepted :
    (match_orders host (pos 0) bid_order ask_order market).0
    ≡ ok (
      reduced host (trade_quantity host bid_order ask_order) bid_order,
      reduced host (trade_quantity host bid_order ask_order) ask_order,
    )
unfolding match_orders update_order is_order_valid KvStore.get reduced trade_quantity parse_uint
    format_uint put_order KvStore.set text_eq text_lt update_user_positions update_user_position
    set_user_position matched_trade set_trade is_trade_valid
match_accepted = refl

two_traders : codes "ann" ≢ codes "bob"
two_traders same = absurd (ground arith)

match_orders-Overwritten_example :
    Overwritten host
      (pos 0)
      bid_order
      ask_order
      (match_orders host (pos 0) bid_order ask_order market).1
match_orders-Overwritten_example =
    match_orders-Overwritten host (pos 0) bid_order ask_order market _ match_accepted two_traders

nobody-PositionsNamed : PositionsNamed market
unfolding PositionsNamed KvStore.get
nobody-PositionsNamed user p found = absurd (ground arith)

trade_accepted : (execute_trade (pos 0) (codes "bob") (codes "ann") market).0 ≡ ok tt
unfolding execute_trade get_order KvStore.get text_eq set_trade trade_between is_trade_valid
    update_order is_order_valid put_order KvStore.set text_lt
trade_accepted = refl

execute_trade-Traded_example :
    Traded
      (pos 0)
      (codes "bob")
      (codes "ann")
      market
      (execute_trade (pos 0) (codes "bob") (codes "ann") market).1
execute_trade-Traded_example =
    execute_trade-Traded (pos 0) (codes "bob") (codes "ann") market nobody-PositionsNamed
      trade_accepted

abbrev citizen_of : String → VerifiedAccount
citizen_of name = record {
  address = codes name;
  role = Role.citizen;
  last_active = pos 0;
  identity_hash = codes "hash";
  zkp_proof = codes "proof";
  verification_provider = codes "provider";
  verification_date = none;
  is_active = true;
}

abbrev citizens : List VerifiedAccount
citizens = citizen_of "ann" ∷ citizen_of "bob" ∷ []

rate_read : parse_uint max_uint64 (codes "10000000") ≡ ok 10000000
unfolding parse_uint
rate_read = refl

limit_read : parse_uint max_uint64 (codes "1000000000") ≡ ok 1000000000
unfolding parse_uint
limit_read = refl

distribute-granted_example :
    ((distribute_ant_to_citizens (at_hour 1) (verified citizens) empty_state).0 ≡ ok tt)
    × (balance (distribute_ant_to_citizens (at_hour 1) (verified citizens) empty_state).1
        ≡ granted 10000000 1000000000 citizens (balance empty_state))
distribute-granted_example =
    distribute-granted (at_hour 1) citizens empty_state 10000000 1000000000 rate_read limit_read
      (omega arith)

nothing_held : (user : Text) → balance empty_state user ≤ 1000000000
unfolding balance KvStore.get
nothing_held user = omega arith

distribute-bounded_example :
    balance (distribute_ant_to_citizens (at_hour 1) (verified citizens) empty_state).1 (codes "ann")
    ≤ 1000000000
distribute-bounded_example =
    distribute-bounded (at_hour 1) (verified citizens) empty_state 1000000000 limit_read
      nothing_held (codes "ann")

first_time_due : is_due (at_hour 1).block_time empty_state ≡ true
unfolding is_due
first_time_due = refl

distributed : (distribute_ant_to_citizens (at_hour 1) (verified citizens) empty_state).0 ≡ ok tt
distributed =
    (distribute-granted (at_hour 1) citizens empty_state 10000000 1000000000 rate_read limit_read
      (omega arith)).0

an_hour_later :
    ltb_ℤ
      ((at_hour 2).block_time -ℤ (at_hour 1).block_time)
      empty_state.params.citizen_ant_distribution_period
    ≡ true
unfolding ◌-ℤ◌
an_hour_later = refl

nothing-IsSound : IsSound empty_state
unfolding IsSorted IsRegistered KvStore.get
nothing-IsSound = record { sorted = tt; registered = tt; led = λ id a found. absurd (ground arith) }

nothing-EveryStatus : EveryStatus is_over empty_state
unfolding EveryStatus KvStore.get
nothing-EveryStatus id a found = absurd (ground arith)

-- A block in which an auction is created and gets a bid.
abbrev opened : State
opened =
    (set_auction (new_auction (at_hour 1).now 1 (codes "100") (codes "5"))
      (begin_blocker (at_hour 1) absent empty_state).1).1

abbrev the_bid : MsgPlaceBid
the_bid = record {
  bidder = codes "val";
  auction_id = codes "auction_1_3600";
  amount = codes "7";
  identity_hash = codes "hash";
}

abbrev bid_on : State
bid_on = (bid_on_auction host (at_hour 1) absent the_bid opened).1

auction_and_bid : Steps host (begin_blocker (at_hour 1) absent empty_state).1 bid_on
auction_and_bid =
    followed (followed here (creating (at_hour 1) 1 (codes "100") (codes "5")))
      (bidding (at_hour 1) absent the_bid)

bid_accepted : (bid_on_auction host (at_hour 1) absent the_bid opened).0 ≡ ok tt
unfolding bid_on_auction begin_blocker process_auctions close_ended get_all_auctions KvStore.values
    distribute_when_due is_due distribute_ant_to_citizens set_auction new_auction is_auction_valid
    ◌+ℤ◌ KvStore.get KvStore.set put_auction format_uint format_int text_eq text_lt place_bid
    check_bidder get_auction check_amount parse_uint store_bid new_bid update_winner lead
    update_auction
bid_accepted = refl

abbrev block_end : State
block_end = (settle_auctions host (at_hour 1).now bid_on).1

block_ended : end_blocker host as_stored (at_hour 1) bid_on ≡ some block_end
unfolding bid_on_auction begin_blocker process_auctions close_ended get_all_auctions KvStore.values
    distribute_when_due is_due distribute_ant_to_citizens set_auction new_auction is_auction_valid
    ◌+ℤ◌ KvStore.get KvStore.set put_auction format_uint format_int text_eq text_lt place_bid
    check_bidder get_auction check_amount parse_uint store_bid new_bid update_winner lead
    update_auction end_blocker process_order_matching execute_matching get_all_orders open_orders
    settle_auctions settle_open settle_with get_bids_by_auction process_market_making
    calculate_market_metrics add_trades get_all_trades
block_ended = refl

one_block : Chain host as_stored empty_state block_end
one_block = block (at_hour 1) absent start auction_and_bid block_ended

Chain-IsSound_example : IsSound block_end
Chain-IsSound_example = Chain-IsSound host as_stored empty_state block_end one_block nothing-IsSound

settlement_refused_example :
    (x : Error) × ((settle_closed_auction
        (record { auction_id = codes "auction_1_3600"; winner = codes "val" })
        (begin_blocker (at_hour 3) absent block_end).1).0
      ≡ err x)
settlement_refused_example =
    settlement_refused host as_stored empty_state block_end _ (at_hour 3) absent nothing-IsSound
      nothing-EveryStatus one_block here
      (record { auction_id = codes "auction_1_3600"; winner = codes "val" })
