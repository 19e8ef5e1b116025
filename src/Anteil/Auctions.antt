-- ===== src/Anteil/Auctions.antt =====
-- x/anteil/keeper/keeper.go: auctions and bids.
pub mod Sweep
pub mod Closing
use volnix_protocol.Base.{
  Bool, true, false, not, ◌&&◌, ◌||◌, List, [], ◌∷◌, Text, is_empty, text_eq, text_lt, ℤ, ltb_ℤ,
  if◌then◌else◌, Outcome, ok, err, gets, lift, or_raise, modify, raise_if, ◌>>=◌, ◌>>◌, is_some,
}
use volnix_protocol.KvStore.{KvStore, text_key}
use volnix_protocol.KvStore
use volnix_protocol.Host.{Host, Env}
use volnix_protocol.Anteil.Types.{
  Auction, Bid, is_auction_valid, AuctionStatus, auction_not_found, ◌⁀◌, Error, bid_not_found,
  auction_not_closed, auction_closed, unknown_accounts, invalid_bid_amount, no_winning_bid,
  auction_expired, invalid_reserve, only_validators_bid, below_reserve, auction_already_exists,
}
use volnix_protocol.Anteil.Keeper.{State, Handler}
use volnix_protocol.Lizenz.Neighbours.{Role}
use volnix_protocol.Ident.Types.{VerifiedAccount}
use volnix_protocol.Strconv.{format_int}

unfoldable pub put_auction : Auction → State → State
put_auction a s = record s { auctions = KvStore.set a.auction_id a s.auctions }

unfoldable pub set_auction : Auction → Handler (Unit {0})
set_auction a = do
  lift (is_auction_valid a)
  exists ← gets (λ s. is_some (KvStore.get a.auction_id s.auctions))
  raise_if exists auction_already_exists
  modify (put_auction a)

unfoldable pub get_auction : Text → Handler Auction
get_auction auction_id s = or_raise (KvStore.get auction_id s.auctions) auction_not_found s

unfoldable pub update_auction : Auction → Handler (Unit {0})
update_auction a = do
  lift (is_auction_valid a)
  exists ← gets (λ s. is_some (KvStore.get a.auction_id s.auctions))
  raise_if (not exists) auction_not_found
  modify (put_auction a)

unfoldable pub get_all_auctions : State → List Auction
get_all_auctions s = KvStore.values s.auctions

abbrev pub is_open : AuctionStatus → Bool
is_open AuctionStatus.status_open = true
is_open _ = false

abbrev pub is_closed : AuctionStatus → Bool
is_closed AuctionStatus.closed = true
is_closed _ = false

abbrev pub with_status : AuctionStatus → Auction → Auction
with_status status a = record a { status = status }

-- The loop of ProcessAuctions over the auctions that were stored when it began.
unfoldable pub close_ended : ℤ → List Auction → Handler (Unit {0})
close_ended now [] s = (ok tt, s)
close_ended now (a ∷ auctions) s =
    let rest = close_ended now auctions in
    if is_open a.status && ltb_ℤ a.end_time now
    then (update_auction (with_status AuctionStatus.closed a) >>= λ _. rest) s
    else rest s

unfoldable pub process_auctions : Env → Handler (Unit {0})
process_auctions e s = close_ended e.block_time (get_all_auctions s) s

-- The ident keeper: not set, failing, or with the accounts that GetAllVerifiedAccounts gives.
pub data Accounts : Type 0 where
  absent failing : Accounts
  verified : List VerifiedAccount → Accounts

abbrev is_validator : Role → Bool
is_validator Role.validator_role = true
is_validator _ = false

unfoldable pub is_active_validator : Text → List VerifiedAccount → Bool
is_active_validator bidder [] = false
is_active_validator bidder (c ∷ cs) =
    text_eq c.address bidder && is_validator c.role && c.is_active || is_active_validator bidder cs

unfoldable pub check_bidder : Accounts → Text → Outcome Error (Unit {0})
check_bidder absent bidder = ok tt
check_bidder failing bidder = err unknown_accounts
check_bidder (verified cs) bidder =
    if is_active_validator bidder cs then ok tt else err only_validators_bid

unfoldable pub new_bid : Env → Text → Text → Text → Bid
new_bid e auction_id bidder amount = record {
  bid_id = auction_id ⁀ bidder ⁀ format_int e.block_height;
  bidder = bidder;
  amount = amount;
  submitted_at = e.now;
  identity_hash = [];
}

unfoldable pub get_bid : Text → Text → Handler Bid
get_bid auction_id bid_id s = or_raise (KvStore.get (auction_id ⁀ bid_id) s.bids) bid_not_found s

unfoldable pub store_bid : Text → Bid → State → State
store_bid auction_id b s = record s { bids = KvStore.set (auction_id ⁀ b.bid_id) b s.bids }

unfoldable pub lead : Bid → Auction → Handler (Unit {0})
lead b a = update_auction (record a { winning_bid = b.bid_id })

-- The amounts are compared as strings; a leader that is not found stays.
unfoldable pub update_winner : Text → Bid → Auction → Handler (Unit {0})
update_winner auction_id b a s =
    if is_empty a.winning_bid then lead b a s else elim (get_bid auction_id a.winning_bid s).0 [
      | ok current ↦ if text_lt current.amount b.amount then lead b a s else (ok tt, s)
      | err x ↦ (ok tt, s)
    ]

unfoldable pub settle_auction : Text → Handler (Unit {0})
settle_auction auction_id = do
  a ← get_auction auction_id
  raise_if (not (is_closed a.status)) auction_not_closed
  raise_if (is_empty a.winning_bid) no_winning_bid
  b ← get_bid auction_id a.winning_bid
  update_auction (with_status AuctionStatus.settled a)

module _ (h : Host) where
  unfoldable pub check_amount : Text → Text → Outcome Error (Unit {0})
  check_amount amount reserve_price =
      if not (h.parse_float amount).1
      then err invalid_bid_amount
      else if not (h.parse_float reserve_price).1
      then err invalid_reserve
      else if h.less (h.parse_float amount).0 (h.parse_float reserve_price).0
      then err below_reserve
      else ok tt

  unfoldable pub place_bid : Env → Accounts → Text → Text → Text → Handler (Unit {0})
  place_bid e accounts auction_id bidder amount = do
    lift (check_bidder accounts bidder)
    a ← get_auction auction_id
    raise_if (not (is_open a.status)) auction_closed
    raise_if (ltb_ℤ a.end_time e.block_time) auction_expired
    lift (check_amount amount a.reserve_price)
    modify (store_bid auction_id (new_bid e auction_id bidder amount))
    update_winner auction_id (new_bid e auction_id bidder amount) a
