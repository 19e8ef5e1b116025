-- ===== src/Anteil/Invariant/Loops.antt =====
-- The loops of x/anteil over the stored auctions, and the two ends of a block that run them, keep
-- the auctions and bids sound.
use volnix_protocol.Base.{
  ◌≡◌, ◌⊎◌, inl, inr, refl, sym, ◌∙◌, subst, Bool, true, false, Option, none, some, List, [], ◌∷◌,
  ℤ, Outcome, arith, Outcome-cases, Option-cases, Bool-cases,
}
use volnix_protocol.KvStore.{KvStore, text_key}
use volnix_protocol.KvStore
use volnix_protocol.KvStore.Sorted.{set-IsSorted, text_order}
use volnix_protocol.Host.{Host, Env}
use volnix_protocol.Anteil.Types.{Auction, Order, AuctionStatus, Error}
use volnix_protocol.Anteil.Keeper.{State, Handler}
use volnix_protocol.Anteil.Auctions.{
  update_auction, put_auction, with_status, Accounts, process_auctions, get_all_auctions,
}
use volnix_protocol.Anteil.Auctions.Closing.{
  process_auctions-SweptAll, settle_auctions-SweptAll, has_ended, is_open_auction,
  settle_open-eq-update_each, close_ended-eq-update_each,
}
use volnix_protocol.Anteil.Auctions.Sweep.{update_each, SweptAll, advanced}
use volnix_protocol.Anteil.Invariant.{IsSound, IsOrderly, set-IsRegistered, IsLed}
use volnix_protocol.Anteil.Invariant.Bids.{update_auction-cases}
use volnix_protocol.Anteil.Invariant.Spared.{
  Spares-IsSound, distribute_when_due-Spares, matching-Spares,
}
use volnix_protocol.Anteil.Distribution.{begin_blocker, distribute_when_due}
use volnix_protocol.Anteil.Engine.{settle_auctions, process_order_matching}
use volnix_protocol.Anteil.Blocks.{end_blocker}
use volnix_protocol.Anteil.Market.Refusal.{process_market_making-Futile}

update_auction-IsOrderly :
    (a : Auction) (s : State) → IsOrderly s.auctions → IsOrderly (update_auction a s).1.auctions
unfolding put_auction
update_auction-IsOrderly a s orderly = elim (update_auction-cases a s) [
  | inl same ↦ subst (λ (t : State). IsOrderly t.auctions) (sym same) orderly
  | inr (valid, put) ↦
      subst (λ (t : State). IsOrderly t.auctions) (sym put)
        (
          set-IsSorted a.auction_id a s.auctions orderly.0,
          set-IsRegistered a s.auctions valid orderly.1,
        )
]

module _ (p : Auction → Bool) (f : Auction → Auction) where
  turn-cases :
      (a : Auction) (auctions : List Auction) (s : State)
      → (update_each p f (a ∷ auctions) s ≡ update_each p f auctions s)
        ⊎ ((update_each p f (a ∷ auctions) s ≡ update_each p f auctions (update_auction (f a) s).1)
            ⊎ ((update_each p f (a ∷ auctions) s).1 ≡ (update_auction (f a) s).1))
  unfolding update_each
  turn-cases a auctions s = elim (Bool-cases (p a)) [
    | inr passed ↦ inl (rw passed refl)
    | inl chosen ↦ elim (Outcome-cases (update_auction (f a) s).0) [
      | inl (u, done) ↦ inr (inl (ground arith))
      | inr (x, refused) ↦ inr (inr (ground arith))
    ]
  ]

  update_each-IsOrderly :
      (auctions : List Auction) (s : State)
      → IsOrderly s.auctions
      → IsOrderly (update_each p f auctions s).1.auctions
  update_each-IsOrderly [] s orderly = unfold update_each in orderly
  update_each-IsOrderly (a ∷ auctions) s orderly =
      let updated = update_auction-IsOrderly (f a) s orderly in
      elim (turn-cases a auctions s) [
        | inl same ↦
            subst (λ (r : Outcome Error (Unit {0}) × State). IsOrderly r.1.auctions) (sym same)
              (update_each-IsOrderly auctions s orderly)
        | inr (inl same) ↦
            subst (λ (r : Outcome Error (Unit {0}) × State). IsOrderly r.1.auctions) (sym same)
              (update_each-IsOrderly auctions (update_auction (f a) s).1 updated)
        | inr (inr same) ↦ subst (λ (t : State). IsOrderly t.auctions) (sym same) updated
      ]

-- The auction from which one was advanced.
pub advanced-cases :
    (p : Auction → Bool) (f : Auction → Auction) (o : Option Auction) (a : Auction)
    → advanced p f o ≡ some a
    → (c : Auction) × (o ≡ some c) × (((p c ≡ true) × (f c ≡ a)) ⊎ ((p c ≡ false) × (c ≡ a)))
advanced-cases p f none a found = absurd (ground arith)
advanced-cases p f (some c) a found = (
  c,
  refl,
  elim (Bool-cases (p c)) [
    | inl chosen ↦ inl (chosen, ground arith)
    | inr passed ↦ inr (passed, ground arith)
  ],
)

SweptAll-IsSound :
    (p : Auction → Bool) (status : AuctionStatus) (s : State) (r : Outcome Error (Unit {0}) × State)
    → SweptAll p (with_status status) s r
    → IsOrderly r.1.auctions
    → IsSound s
    → IsSound r.1
SweptAll-IsSound p status s r swept orderly sound = record {
  sorted = orderly.0;
  registered = orderly.1;
  led = λ id a found.
      let (c, before, cases) =
        advanced-cases p (with_status status) (KvStore.get id s.auctions) a
          (sym (swept.found id) ∙ found) in
      subst (λ (t : State). IsLed t.bids id a) (sym swept.frame)
        (elim cases [
          | inl (chosen, same) ↦ subst (IsLed s.bids id) same (sound.led id c before)
          | inr (passed, same) ↦ subst (IsLed s.bids id) same (sound.led id c before)
        ]);
}

process_auctions-IsSound : (e : Env) (s : State) → IsSound s → IsSound (process_auctions e s).1
process_auctions-IsSound e s sound =
    SweptAll-IsSound (has_ended e.block_time) AuctionStatus.closed s (process_auctions e s)
      (process_auctions-SweptAll e s sound.sorted sound.registered)
      (unfold process_auctions in
        subst (λ (loop : Handler (Unit {0})). IsOrderly (loop s).1.auctions)
          (sym (close_ended-eq-update_each e.block_time (get_all_auctions s)))
          (update_each-IsOrderly (has_ended e.block_time) (with_status AuctionStatus.closed)
            (get_all_auctions s) s (sound.sorted, sound.registered)))
      sound

settle_auctions-IsSound :
    (h : Host) (now : ℤ) (s : State) → IsSound s → IsSound (settle_auctions h now s).1
settle_auctions-IsSound h now s sound =
    SweptAll-IsSound is_open_auction AuctionStatus.cancelled s (settle_auctions h now s)
      (settle_auctions-SweptAll h now s sound.sorted sound.registered)
      (unfold settle_auctions in
        subst (λ (loop : Handler (Unit {0})). IsOrderly (loop s).1.auctions)
          (sym (settle_open-eq-update_each h now (get_all_auctions s)))
          (update_each-IsOrderly is_open_auction (with_status AuctionStatus.cancelled)
            (get_all_auctions s) s (sound.sorted, sound.registered)))
      sound

-- BeginBlocker closes the auctions that ended, and may then distribute.
pub begin_blocker-eq :
    (e : Env) (accounts : Accounts) (s : State)
    → IsSound s
    → (begin_blocker e accounts s).1 ≡ distribute_when_due e accounts (process_auctions e s).1
unfolding begin_blocker
begin_blocker-eq e accounts s sound =
    ground (arith, (process_auctions-SweptAll e s sound.sorted sound.registered).accepted)

pub begin_blocker-IsSound :
    (e : Env) (accounts : Accounts) (s : State) → IsSound s → IsSound (begin_blocker e accounts s).1
begin_blocker-IsSound e accounts s sound =
    subst IsSound (sym (begin_blocker-eq e accounts s sound)) (
      Spares-IsSound (process_auctions e s).1 _
        (distribute_when_due-Spares e accounts (process_auctions e s).1)
        (process_auctions-IsSound e s sound))

-- EndBlocker is the matching of orders, and then the cancelling of the open auctions.
pub end_blocker-cases :
    (h : Host) (arrange : (Order → Order → Bool) → List Order → List Order) (e : Env) (s s' : State)
    → end_blocker h arrange e s ≡ some s'
    → (r : Outcome Error (Unit {0}) × State) × (process_order_matching h arrange e.now s ≡ some r)
      × (s' ≡ (settle_auctions h e.now r.1).1)
unfolding end_blocker
end_blocker-cases h arrange e s s' run =
    elim (Option-cases (process_order_matching h arrange e.now s)) [
      | inl none_left ↦ absurd (ground arith)
      | inr (r, matched) ↦ (
        r,
        matched,
        ground (
          arith,
          (process_market_making-Futile h e.block_time (settle_auctions h e.now r.1).1).unchanged,
        ),
      )
    ]

pub end_blocker-IsSound :
    (h : Host) (arrange : (Order → Order → Bool) → List Order → List Order) (e : Env) (s s' : State)
    → end_blocker h arrange e s ≡ some s'
    → IsSound s
    → IsSound s'
end_blocker-IsSound h arrange e s s' run sound =
    let (r, matched, settled) = end_blocker-cases h arrange e s s' run in
    subst IsSound (sym settled) (
      settle_auctions-IsSound h e.now r.1
        (Spares-IsSound s r.1 (matching-Spares h arrange e.now s r matched) sound))
