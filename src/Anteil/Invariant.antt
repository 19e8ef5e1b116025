-- ===== src/Anteil/Invariant.antt =====
-- The invariant of the auctions and bids of x/anteil, and the operations on them.
pub mod Bids
pub mod Spared
pub mod Loops
pub mod Steps
pub mod Fates
use volnix_protocol.Base.{
  ◌≡◌, ◌⊎◌, inl, inr, subst, true, some, [], ◌∷◌, Text, is_empty, text_eq, ok, arith, Bool-cases,
  text_eq_iff,
}
use volnix_protocol.KvStore.{KvStore, text_key}
use volnix_protocol.KvStore
use volnix_protocol.KvStore.Sorted.{IsSorted, set-IsSorted, text_order}
use volnix_protocol.Anteil.Types.{Auction, Bid, is_auction_valid, ◌⁀◌}
use volnix_protocol.Anteil.Keeper.{State}
use volnix_protocol.Anteil.Auctions.Sweep.{IsRegistered}

abbrev pub IsOrderly : KvStore Text Auction → Type 0
IsOrderly m = IsSorted m × IsRegistered m

-- The leader of an auction has its bid stored.
abbrev pub IsLed : KvStore Text Bid → Text → Auction → Type 0
IsLed bids id a =
    (is_empty a.winning_bid ≡ true) ⊎ ((b : Bid) × (KvStore.get (id ⁀ a.winning_bid) bids ≡ some b))

-- The auctions are sorted by their identifiers, each is valid and stands under its own, and the
-- bid that leads it is stored.
pub record IsSound (s : State) : Type 0 where
  pub sorted : IsSorted s.auctions
  pub registered : IsRegistered s.auctions
  pub led : (id : Text) (a : Auction) → KvStore.get id s.auctions ≡ some a → IsLed s.bids id a

pub set-IsRegistered :
    (a : Auction) (m : KvStore Text Auction)
    → is_auction_valid a ≡ ok tt
    → IsRegistered m
    → IsRegistered (KvStore.set a.auction_id a m)
unfolding IsRegistered KvStore.set
set-IsRegistered a [] valid registered = ground arith
set-IsRegistered a ((k, w) ∷ m) valid (own, fine, registered) =
    ground (arith, set-IsRegistered a m valid registered)

-- An auction that is found is valid and has the identifier that was looked for.
pub get-registered :
    (id : Text) (m : KvStore Text Auction) (a : Auction)
    → IsRegistered m
    → KvStore.get id m ≡ some a
    → (a.auction_id ≡ id) × (is_auction_valid a ≡ ok tt)
unfolding IsRegistered KvStore.get
get-registered id [] a registered found = absurd (ground arith)
get-registered id ((k, w) ∷ m) a (own, valid, registered) found =
    ground (arith, get-registered id m a registered, text_eq_iff k id)

-- What an operation may do to the auctions and the bids.
pub data Edit (s s' : State) : Type 0 where
  untouched : s'.auctions ≡ s.auctions → s'.bids ≡ s.bids → Edit s s'
  stored :
      (a : Auction)
      → is_auction_valid a ≡ ok tt
      → IsLed s.bids a.auction_id a
      → s'.auctions ≡ KvStore.set a.auction_id a s.auctions
      → s'.bids ≡ s.bids
      → Edit s s'
  received :
      (k : Text) (b : Bid) → s'.auctions ≡ s.auctions → s'.bids ≡ KvStore.set k b s.bids → Edit s s'

set-IsLed :
    (k : Text) (b : Bid) (bids : KvStore Text Bid) (id : Text) (a : Auction)
    → IsLed bids id a
    → IsLed (KvStore.set k b bids) id a
set-IsLed k b bids id a (inl nobody) = inl nobody
set-IsLed k b bids id a (inr (c, there)) = elim (Bool-cases (text_eq k (id ⁀ a.winning_bid))) [
  | inl hit ↦ inr (b, ground (arith, KvStore.get-set (id ⁀ a.winning_bid) k b bids))
  | inr miss ↦ inr (c, ground (arith, KvStore.get-set (id ⁀ a.winning_bid) k b bids))
]

stored-IsLed :
    (bids : KvStore Text Bid) (m : KvStore Text Auction) (a : Auction)
    → IsLed bids a.auction_id a
    → ((id : Text) (c : Auction) → KvStore.get id m ≡ some c → IsLed bids id c)
    → (id : Text) (c : Auction) → KvStore.get id (KvStore.set a.auction_id a m) ≡ some c
    → IsLed bids id c
stored-IsLed bids m a led_a led id c found =
    elim (KvStore.get-set_cases id a.auction_id a c m found) [
      | inl (here, same) ↦ rw same (subst (λ i. IsLed bids i a) here led_a)
      | inr before ↦ led id c before
    ]

pub Edit-IsSound : (s s' : State) → Edit s s' → IsSound s → IsSound s'
Edit-IsSound s s' (untouched a b) sound = record {
  sorted = rw a sound.sorted;
  registered = rw a sound.registered;
  led = rw (a, b) sound.led;
}
Edit-IsSound s s' (stored x valid led a b) sound = record {
  sorted = rw a (set-IsSorted x.auction_id x s.auctions sound.sorted);
  registered = rw a (set-IsRegistered x s.auctions valid sound.registered);
  led = rw (a, b) (stored-IsLed s.bids s.auctions x led sound.led);
}
Edit-IsSound s s' (received k x a b) sound = record {
  sorted = rw a sound.sorted;
  registered = rw a sound.registered;
  led = rw (a, b) (λ id c found. set-IsLed k x s.bids id c (sound.led id c found));
}
