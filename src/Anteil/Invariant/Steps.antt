-- ===== src/Anteil/Invariant/Steps.antt =====
-- The blocks of x/anteil: BeginBlocker, calls in any order and with any outcomes, EndBlocker.
use volnix_protocol.Base.{
  ℕ, ◌≡◌, ◌⊎◌, inl, inr, refl, sym, ap, subst, Bool, some, List, Text, ok, arith,
}
use volnix_protocol.Host.{Host, Env}
use volnix_protocol.Anteil.Types.{Auction, Order, is_auction_valid, new_auction}
use volnix_protocol.Anteil.Keeper.{State}
use volnix_protocol.Anteil.Auctions.{
  set_auction, put_auction, place_bid, settle_auction, Accounts, get_auction,
}
use volnix_protocol.Anteil.Invariant.{IsSound, Edit-IsSound, stored}
use volnix_protocol.Anteil.Invariant.Bids.{place_bid-IsSound, settle_auction-IsSound}
use volnix_protocol.Anteil.Invariant.Spared.{
  Spares-IsSound, place_order-Spares, cancel_own_order-Spares, execute_trade-Spares,
  burn_ant_from_user-Spares,
}
use volnix_protocol.Anteil.Invariant.Loops.{begin_blocker-IsSound, end_blocker-IsSound}
use volnix_protocol.Anteil.Messages.{
  MsgPlaceOrder, MsgCancelOrder, MsgPlaceBid, MsgSettleAuction, place_order, cancel_own_order,
  bid_on_auction, settle_closed_auction,
}
use volnix_protocol.Anteil.Distribution.{begin_blocker}
use volnix_protocol.Anteil.Blocks.{end_blocker}
use volnix_protocol.Anteil.Trades.{execute_trade}
use volnix_protocol.Anteil.Positions.{burn_ant_from_user}

pub create-cases :
    (a : Auction) (s : State)
    → ((set_auction a s).1 ≡ s)
      ⊎ ((is_auction_valid a ≡ ok tt) × ((set_auction a s).1 ≡ put_auction a s))
unfolding set_auction
create-cases a s = ground arith

pub bid-cases :
    (h : Host) (e : Env) (accounts : Accounts) (req : MsgPlaceBid) (s : State)
    → ((bid_on_auction h e accounts req s).1 ≡ s)
      ⊎ ((bid_on_auction h e accounts req s).1
          ≡ (place_bid h e accounts req.auction_id req.bidder req.amount s).1)
unfolding bid_on_auction
bid-cases h e accounts req s = ground arith

pub settle-cases :
    (req : MsgSettleAuction) (s : State)
    → ((settle_closed_auction req s).1 ≡ s)
      ⊎ ((settle_closed_auction req s).1 ≡ (settle_auction req.auction_id s).1)
unfolding settle_closed_auction get_auction
settle-cases req s = ground arith

module _ (h : Host) where
  -- One call, whatever it answers. The auctions that are created are those of NewAuction.
  pub data Step (s : State) : State → Type 0 where
    ordering : (e : Env) (req : MsgPlaceOrder) → Step s (place_order e req s).1
    cancelling : (req : MsgCancelOrder) → Step s (cancel_own_order req s).1
    trading : (e : Env) (b o : Text) → Step s (execute_trade e.now b o s).1
    burning : (e : Env) (user : Text) → Step s (burn_ant_from_user e.now user s)
    creating :
        (e : Env) (height : ℕ) (amount reserve : Text)
        → Step s (set_auction (new_auction e.now height amount reserve) s).1
    bidding :
        (e : Env) (accounts : Accounts) (req : MsgPlaceBid)
        → Step s (bid_on_auction h e accounts req s).1
    settling : (req : MsgSettleAuction) → Step s (settle_closed_auction req s).1

  pub data Steps (s : State) : State → Type 0 where
    here : Steps s s
    followed : {t u : State} → Steps s t → Step t u → Steps s u

  -- Whole blocks.
  pub data Chain (arrange : (Order → Order → Bool) → List Order → List Order) (s : State)
      : State → Type 0 where
    start : Chain arrange s s
    block :
        {t u v : State} (e : Env) (accounts : Accounts)
        → Chain arrange s t
        → Steps (begin_blocker e accounts t).1 u
        → end_blocker h arrange e u ≡ some v
        → Chain arrange s v

  created-IsSound :
      (e : Env) (height : ℕ) (amount reserve : Text) (s : State)
      → IsSound s
      → IsSound (set_auction (new_auction e.now height amount reserve) s).1
  unfolding new_auction put_auction
  created-IsSound e height amount reserve s sound =
      let a = new_auction e.now height amount reserve in
      elim (create-cases a s) [
        | inl same ↦ subst IsSound (sym same) sound
        | inr (valid, put) ↦
            Edit-IsSound s _ (stored a valid (inl refl) (ap State.auctions put) (ap State.bids put))
              sound
      ]

  Step-IsSound : (s s' : State) → Step s s' → IsSound s → IsSound s'
  Step-IsSound s s' (ordering e req) sound = Spares-IsSound s _ (place_order-Spares e req s) sound
  Step-IsSound s s' (cancelling req) sound =
      Spares-IsSound s _ (cancel_own_order-Spares req s) sound
  Step-IsSound s s' (trading e b o) sound =
      Spares-IsSound s _ (execute_trade-Spares e.now b o s) sound
  Step-IsSound s s' (burning e user) sound =
      Spares-IsSound s _ (burn_ant_from_user-Spares e.now user s) sound
  Step-IsSound s s' (creating e height amount reserve) sound =
      created-IsSound e height amount reserve s sound
  Step-IsSound s s' (bidding e accounts req) sound = elim (bid-cases h e accounts req s) [
    | inl same ↦ subst IsSound (sym same) sound
    | inr went ↦
        subst IsSound (sym went)
          (place_bid-IsSound h e accounts req.auction_id req.bidder req.amount s sound)
  ]
  Step-IsSound s s' (settling req) sound = elim (settle-cases req s) [
    | inl same ↦ subst IsSound (sym same) sound
    | inr went ↦ subst IsSound (sym went) (settle_auction-IsSound req.auction_id s sound)
  ]

  pub Steps-IsSound : (s s' : State) → Steps s s' → IsSound s → IsSound s'
  Steps-IsSound s s' here sound = sound
  Steps-IsSound s s' (followed {t} before step) sound =
      Step-IsSound t s' step (Steps-IsSound s t before sound)

  -- Any number of blocks of x/anteil, each with BeginBlocker, any calls with any outcomes
  -- (orders, cancellations, trades, burns, new auctions, bids, settlements) and EndBlocker, keep
  -- the auctions sorted by their identifiers, each valid and under its own, and the leading bid
  -- of each stored.
  pub Chain-IsSound :
      (arrange : (Order → Order → Bool) → List Order → List Order) (s s' : State)
      → Chain arrange s s'
      → IsSound s
      → IsSound s'
  Chain-IsSound arrange s s' start sound = sound
  Chain-IsSound arrange s s' (block {t} {u} e accounts before steps ended) sound =
      end_blocker-IsSound h arrange e u s' ended (
        Steps-IsSound (begin_blocker e accounts t).1 u steps
          (begin_blocker-IsSound e accounts t (Chain-IsSound arrange s t before sound)))
