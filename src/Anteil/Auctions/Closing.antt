-- ===== src/Anteil/Auctions/Closing.antt =====
-- x/anteil/keeper: what the two ProcessAuctions, of the keeper and of the economic engine, do to
-- the stored auctions.
use volnix_protocol.Base.{◌≡◌, refl, ap, Bool, ◌&&◌, List, [], ◌∷◌, ℤ, ltb_ℤ, if◌then◌else◌, ◌>>=◌}
use volnix_protocol.KvStore.{text_key}
use volnix_protocol.KvStore.Sorted.{IsSorted}
use volnix_protocol.Host.{Host, Env}
use volnix_protocol.Anteil.Types.{Auction, is_auction_valid}
use volnix_protocol.Anteil.Keeper.{State}
use volnix_protocol.Anteil.Auctions.{
  update_auction, close_ended, process_auctions, with_status, is_open, AuctionStatus,
  get_all_auctions, Handler,
}
use volnix_protocol.Anteil.Auctions.Sweep.{
  update_each, IsInPlace, SweptAll, update_each-SweptAll, IsRegistered,
}
use volnix_protocol.Anteil.Engine.{settle_open, settle_auctions, settle_with, get_bids_by_auction}

abbrev pub has_ended : ℤ → Auction → Bool
has_ended now a = is_open a.status && ltb_ℤ a.end_time now

abbrev pub is_open_auction : Auction → Bool
is_open_auction a = is_open a.status

with_status-IsInPlace : (status : AuctionStatus) → IsInPlace (with_status status)
with_status-IsInPlace status = record {
  same_id = λ a. refl;
  same_validity = λ a. unfold is_auction_valid in refl;
}

-- One turn of the loop before the rest of it.
abbrev turn : (Auction → Bool) → AuctionStatus → Auction → Handler (Unit {0}) → Handler (Unit {0})
turn p status a rest s =
    if p a then (update_auction (with_status status a) >>= λ _. rest) s else rest s

pub close_ended-eq-update_each :
    (now : ℤ) (auctions : List Auction)
    → close_ended now auctions
      ≡ update_each (has_ended now) (with_status AuctionStatus.closed) auctions
unfolding close_ended update_each
close_ended-eq-update_each now [] = refl
close_ended-eq-update_each now (a ∷ auctions) =
    ap (turn (has_ended now) AuctionStatus.closed a) (close_ended-eq-update_each now auctions)

pub settle_open-eq-update_each :
    (h : Host) (now : ℤ) (auctions : List Auction)
    → settle_open h now auctions
      ≡ update_each is_open_auction (with_status AuctionStatus.cancelled) auctions
unfolding settle_open update_each settle_with get_bids_by_auction
settle_open-eq-update_each h now [] = refl
settle_open-eq-update_each h now (a ∷ auctions) =
    ap (turn is_open_auction AuctionStatus.cancelled a) (settle_open-eq-update_each h now auctions)

pub process_auctions-SweptAll :
    (e : Env) (s : State)
    → IsSorted s.auctions
    → IsRegistered s.auctions
    → SweptAll (has_ended e.block_time) (with_status AuctionStatus.closed) s (process_auctions e s)
unfolding process_auctions
process_auctions-SweptAll e s sorted registered =
    rw (close_ended-eq-update_each e.block_time (get_all_auctions s)) (
      update_each-SweptAll (has_ended e.block_time) _ (with_status-IsInPlace AuctionStatus.closed) s
        sorted registered)

pub settle_auctions-SweptAll :
    (h : Host) (now : ℤ) (s : State)
    → IsSorted s.auctions
    → IsRegistered s.auctions
    → SweptAll is_open_auction (with_status AuctionStatus.cancelled) s (settle_auctions h now s)
unfolding settle_auctions
settle_auctions-SweptAll h now s sorted registered =
    rw (settle_open-eq-update_each h now (get_all_auctions s)) (
      update_each-SweptAll is_open_auction _ (with_status-IsInPlace AuctionStatus.cancelled) s
        sorted registered)
