-- ===== src/Anteil/Invariant/Bids.antt =====
-- What PlaceBid, SettleAuction and CreateAuction of x/anteil/keeper/keeper.go do to the auctions
-- and bids, and that they keep them sound.
use volnix_protocol.Base.{
  ◌≡◌, ◌⊎◌, inl, inr, refl, sym, ap, ◌∙◌, subst, true, none, some, Text, ok, arith, Option-cases,
}
use volnix_protocol.KvStore.{KvStore, text_key}
use volnix_protocol.KvStore
use volnix_protocol.Host.{Host, Env}
use volnix_protocol.Anteil.Types.{Auction, Bid, is_auction_valid, AuctionStatus, ◌⁀◌}
use volnix_protocol.Anteil.Keeper.{State}
use volnix_protocol.Anteil.Auctions.{
  update_auction, put_auction, with_status, is_open, is_closed, place_bid, settle_auction,
  store_bid, update_winner, lead, get_bid, get_auction, new_bid, Accounts,
}
use volnix_protocol.Anteil.Invariant.{
  IsSound, stored, received, Edit-IsSound, get-registered, IsLed,
}

pub update_auction-cases :
    (a : Auction) (s : State)
    → ((update_auction a s).1 ≡ s)
      ⊎ ((is_auction_valid a ≡ ok tt) × ((update_auction a s).1 ≡ put_auction a s))
unfolding update_auction
update_auction-cases a s = ground arith

-- A stored auction under its identifier, as the operations find it.
pub record Finds (id : Text) (s : State) (a : Auction) : Type 0 where
  pub found : KvStore.get id s.auctions ≡ some a
  pub own : a.auction_id ≡ id
  pub valid : is_auction_valid a ≡ ok tt

pub find :
    (id : Text) (s : State) (a : Auction)
    → IsSound s
    → KvStore.get id s.auctions ≡ some a
    → Finds id s a
find id s a sound found =
    let (own, valid) = get-registered id s.auctions a sound.registered found in
    record { found = found; own = own; valid = valid }

-- Storing an auction with another status, whose leader is the one before.
pub restated-IsSound :
    (status : AuctionStatus) (id : Text) (a : Auction) (s s' : State)
    → IsSound s
    → Finds id s a
    → s' ≡ put_auction (with_status status a) s
    → IsSound s'
unfolding put_auction is_auction_valid
restated-IsSound status id a s s' sound f put =
    Edit-IsSound s s'
      (stored (with_status status a) f.valid
        (subst (λ i. IsLed s.bids i a) (sym f.own) (sound.led id a f.found)) (ap State.auctions put)
        (ap State.bids put))
      sound

settle_step :
    (id : Text) (s : State) (a : Auction)
    → KvStore.get id s.auctions ≡ some a
    → ((settle_auction id s).1 ≡ s)
      ⊎ ((is_closed a.status ≡ true)
          × ((settle_auction id s).1 ≡ (update_auction (with_status AuctionStatus.settled a) s).1))
unfolding settle_auction get_auction get_bid
settle_step id s a found = ground arith

settle_missing :
    (id : Text) (s : State) → KvStore.get id s.auctions ≡ none → (settle_auction id s).1 ≡ s
unfolding settle_auction get_auction
settle_missing id s missing = ground arith

pub settle_auction-cases :
    (id : Text) (s : State)
    → ((settle_auction id s).1 ≡ s)
      ⊎ ((a : Auction) × (KvStore.get id s.auctions ≡ some a)
          × (is_closed a.status ≡ true)
          × ((settle_auction id s).1 ≡ put_auction (with_status AuctionStatus.settled a) s))
settle_auction-cases id s = elim (Option-cases (KvStore.get id s.auctions)) [
  | inl missing ↦ inl (settle_missing id s missing)
  | inr (a, found) ↦ elim (settle_step id s a found) [
    | inl same ↦ inl same
    | inr (closed, updated) ↦ elim (update_auction-cases (with_status AuctionStatus.settled a) s) [
      | inl same ↦ inl (updated ∙ same)
      | inr (valid, put) ↦ inr (a, found, closed, updated ∙ put)
    ]
  ]
]

pub settle_auction-IsSound : (id : Text) (s : State) → IsSound s → IsSound (settle_auction id s).1
settle_auction-IsSound id s sound = elim (settle_auction-cases id s) [
  | inl same ↦ subst IsSound (sym same) sound
  | inr (a, found, closed, put) ↦
      restated-IsSound AuctionStatus.settled id a s _ sound (find id s a sound found) put
]

module _ (h : Host) (e : Env) (accounts : Accounts) (id bidder amount : Text) where
  abbrev placed : Bid
  placed = new_bid e id bidder amount

  place_missing :
      (s : State)
      → KvStore.get id s.auctions ≡ none
      → (place_bid h e accounts id bidder amount s).1 ≡ s
  unfolding place_bid get_auction
  place_missing s missing = ground arith

  place_step :
      (s : State) (a : Auction)
      → KvStore.get id s.auctions ≡ some a
      → ((place_bid h e accounts id bidder amount s).1 ≡ s)
        ⊎ ((is_open a.status ≡ true)
            × ((place_bid h e accounts id bidder amount s).1
                ≡ (update_winner id placed a (store_bid id placed s)).1))
  unfolding place_bid get_auction
  place_step s a found = ground arith

  update_winner-cases :
      (b : Bid) (a : Auction) (s : State)
      → ((update_winner id b a s).1 ≡ s) ⊎ ((update_winner id b a s).1 ≡ (lead b a s).1)
  unfolding update_winner
  update_winner-cases b a s = ground arith

  -- A bid is refused, or stored, and leads if the auction says so.
  pub place_bid-cases :
      (s : State)
      → ((place_bid h e accounts id bidder amount s).1 ≡ s)
        ⊎ ((a : Auction) × (KvStore.get id s.auctions ≡ some a)
            × (is_open a.status ≡ true)
            × (((place_bid h e accounts id bidder amount s).1 ≡ store_bid id placed s)
                ⊎ ((place_bid h e accounts id bidder amount s).1
                    ≡ put_auction
                        (record a { winning_bid = placed.bid_id })
                        (store_bid id placed s))))
  unfolding lead
  place_bid-cases s = elim (Option-cases (KvStore.get id s.auctions)) [
    | inl missing ↦ inl (place_missing s missing)
    | inr (a, found) ↦ elim (place_step s a found) [
      | inl same ↦ inl same
      | inr (open_now, put) ↦ inr (
        a,
        found,
        open_now,
        elim (update_winner-cases placed a (store_bid id placed s)) [
          | inl same ↦ inl (put ∙ same)
          | inr leads ↦
              elim (update_auction-cases (record a { winning_bid = placed.bid_id })
                (store_bid id placed s)) [
                  | inl same ↦ inl (put ∙ leads ∙ same)
                  | inr (valid, led) ↦ inr (put ∙ leads ∙ led)
                ]
        ],
      )
    ]
  ]

  store_bid-IsSound : (s : State) → IsSound s → IsSound (store_bid id placed s)
  unfolding store_bid
  store_bid-IsSound s sound =
      Edit-IsSound s _ (received (id ⁀ placed.bid_id) placed refl refl) sound

  led_IsSound :
      (s : State) (a : Auction)
      → IsSound s
      → Finds id s a
      → IsSound (put_auction (record a { winning_bid = placed.bid_id }) (store_bid id placed s))
  unfolding store_bid put_auction is_auction_valid
  led_IsSound s a sound f =
      Edit-IsSound (store_bid id placed s) _
        (stored (record a { winning_bid = placed.bid_id }) f.valid
          (inr (placed, rw f.own (KvStore.get-set_self (id ⁀ placed.bid_id) placed s.bids))) refl
          refl)
        (store_bid-IsSound s sound)

  pub place_bid-IsSound :
      (s : State) → IsSound s → IsSound (place_bid h e accounts id bidder amount s).1
  place_bid-IsSound s sound = elim (place_bid-cases s) [
    | inl same ↦ subst IsSound (sym same) sound
    | inr (a, found, open_now, inl kept) ↦ subst IsSound (sym kept) (store_bid-IsSound s sound)
    | inr (a, found, open_now, inr leads) ↦
        subst IsSound (sym leads) (led_IsSound s a sound (find id s a sound found))
  ]
