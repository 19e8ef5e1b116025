-- ===== src/Anteil/Invariant/Fates.antt =====
-- What becomes of the auctions of x/anteil over whole blocks.
use volnix_protocol.Base.{
  ◌≡◌, inl, inr, refl, sym, ap, ◌∙◌, subst, Bool, true, false, not, ◌&&◌, some, List, Text, Outcome,
  err, arith, Outcome-cases, Option-cases,
}
use volnix_protocol.KvStore.{KvStore, text_key}
use volnix_protocol.KvStore
use volnix_protocol.Host.{Host, Env}
use volnix_protocol.Anteil.Engine.{settle_auctions}
use volnix_protocol.Anteil.Types.{Bid, Auction, Order, AuctionStatus, new_auction, Error}
use volnix_protocol.Anteil.Keeper.{State}
use volnix_protocol.Anteil.Auctions.{
  store_bid, new_bid, put_auction, place_bid, settle_auction, Accounts, is_open, is_closed,
  with_status, process_auctions, get_auction,
}
use volnix_protocol.Anteil.Auctions.Closing.{
  process_auctions-SweptAll, settle_auctions-SweptAll, has_ended, is_open_auction,
}
use volnix_protocol.Anteil.Auctions.Sweep.{SweptAll}
use volnix_protocol.Anteil.Invariant.{IsSound}
use volnix_protocol.Anteil.Invariant.Bids.{place_bid-cases, settle_auction-cases}
use volnix_protocol.Anteil.Invariant.Spared.{
  Spares-IsSound, Spares, place_order-Spares, cancel_own_order-Spares, execute_trade-Spares,
  burn_ant_from_user-Spares, distribute_when_due-Spares, matching-Spares,
}
use volnix_protocol.Anteil.Invariant.Loops.{
  begin_blocker-IsSound, end_blocker-cases, begin_blocker-eq, advanced-cases,
}
use volnix_protocol.Anteil.Invariant.Steps.{
  Step, Steps, Chain, ordering, cancelling, trading, burning, creating, bidding, settling, here,
  followed, start, block, Steps-IsSound, Chain-IsSound, bid-cases, settle-cases, create-cases,
}
use volnix_protocol.Anteil.Messages.{MsgSettleAuction, settle_closed_auction}
use volnix_protocol.Anteil.Distribution.{begin_blocker}
use volnix_protocol.Anteil.Blocks.{end_blocker}

-- Every stored auction has a status that the test accepts.
unfoldable pub EveryStatus : (AuctionStatus → Bool) → State → Type 0
EveryStatus p s = (id : Text) (a : Auction) → KvStore.get id s.auctions ≡ some a → p a.status ≡ true

abbrev pub not_closed : AuctionStatus → Bool
not_closed status = not (is_closed status)

-- Neither open nor closed.
abbrev pub is_over : AuctionStatus → Bool
is_over status = not (is_open status) && not (is_closed status)

module _ (p : AuctionStatus → Bool) where
  status_of :
      (s : State)
      → EveryStatus p s
      → (id : Text) (a : Auction) → KvStore.get id s.auctions ≡ some a
      → p a.status ≡ true
  unfolding EveryStatus
  status_of s every = every

  store_bid-EveryStatus :
      (id : Text) (b : Bid) (s : State) → EveryStatus p s → EveryStatus p (store_bid id b s)
  unfolding EveryStatus store_bid
  store_bid-EveryStatus id b s every = every

  Spares-EveryStatus : (s s' : State) → Spares s s' → EveryStatus p s → EveryStatus p s'
  unfolding EveryStatus
  Spares-EveryStatus s s' spares every id a found =
      every id a (subst (λ m. KvStore.get id m ≡ some a) spares.auctions found)

  put-EveryStatus :
      (a : Auction) (s : State)
      → p a.status ≡ true
      → EveryStatus p s
      → EveryStatus p (put_auction a s)
  unfolding EveryStatus put_auction
  put-EveryStatus a s fine every id c found =
      elim (KvStore.get-set_cases id a.auction_id a c s.auctions found) [
        | inl (own, same) ↦ rw same fine
        | inr before ↦ every id c before
      ]

  SweptAll-EveryStatus :
      (q : AuctionStatus → Bool) (chosen : Auction → Bool) (status : AuctionStatus) (s : State)
      (r : Outcome Error (Unit {0}) × State)
      → SweptAll chosen (with_status status) s r
      → ((a : Auction) → q a.status ≡ true → chosen a ≡ false → p a.status ≡ true)
      → ((a : Auction) → q a.status ≡ true → chosen a ≡ true → p status ≡ true)
      → EveryStatus q s
      → EveryStatus p r.1
  unfolding EveryStatus
  SweptAll-EveryStatus q chosen status s r swept passes restated every id a found =
      let (c, before, cases) =
        advanced-cases chosen (with_status status) (KvStore.get id s.auctions) a
          (sym (swept.found id) ∙ found) in
      elim cases [
        | inl (taken, same) ↦
            ap (λ (x : Auction). p x.status) (sym same) ∙ restated c (every id c before) taken
        | inr (left, same) ↦
            ap (λ (x : Auction). p x.status) (sym same) ∙ passes c (every id c before) left
      ]

open-not_closed : (status : AuctionStatus) → is_open status ≡ true → not_closed status ≡ true
open-not_closed status open_now = ground arith

open-or-not_closed : (status : AuctionStatus) → is_over status ≡ true → not_closed status ≡ true
open-or-not_closed status over = ground arith

not_closed-is_over :
    (status : AuctionStatus)
    → not_closed status ≡ true
    → is_open status ≡ false
    → is_over status ≡ true
not_closed-is_over status never shut = ground arith

settle-not_closed :
    (id : Text) (s : State)
    → EveryStatus not_closed s
    → EveryStatus not_closed (settle_auction id s).1
settle-not_closed id s every = elim (settle_auction-cases id s) [
  | inl same ↦ subst (EveryStatus not_closed) (sym same) every
  | inr (a, found, closed, put) ↦ absurd (ground (arith, status_of not_closed s every id a found))
]

module _ (h : Host) where
  bid-not_closed :
      (e : Env) (accounts : Accounts) (id bidder amount : Text) (s : State)
      → EveryStatus not_closed s
      → EveryStatus not_closed (place_bid h e accounts id bidder amount s).1
  unfolding store_bid
  bid-not_closed e accounts id bidder amount s every =
      elim (place_bid-cases h e accounts id bidder amount s) [
        | inl same ↦ subst (EveryStatus not_closed) (sym same) every
        | inr (a, found, open_now, inl kept) ↦
            subst (EveryStatus not_closed) (sym kept)
              (store_bid-EveryStatus not_closed id (new_bid e id bidder amount) s every)
        | inr (a, found, open_now, inr leads) ↦ subst (EveryStatus not_closed) (sym leads) (
            put-EveryStatus not_closed _ (store_bid id (new_bid e id bidder amount) s)
              (open-not_closed a.status open_now)
              (store_bid-EveryStatus not_closed id (new_bid e id bidder amount) s every))
      ]

  Step-not_closed :
      (s s' : State) → Step h s s' → EveryStatus not_closed s → EveryStatus not_closed s'
  Step-not_closed s s' (ordering e req) every =
      Spares-EveryStatus not_closed s _ (place_order-Spares e req s) every
  Step-not_closed s s' (cancelling req) every =
      Spares-EveryStatus not_closed s _ (cancel_own_order-Spares req s) every
  Step-not_closed s s' (trading e b o) every =
      Spares-EveryStatus not_closed s _ (execute_trade-Spares e.now b o s) every
  Step-not_closed s s' (burning e user) every =
      Spares-EveryStatus not_closed s _ (burn_ant_from_user-Spares e.now user s) every
  Step-not_closed s s' (creating e height amount reserve) every =
      elim (create-cases (new_auction e.now height amount reserve) s) [
        | inl same ↦ subst (EveryStatus not_closed) (sym same) every
        | inr (valid, put) ↦ subst (EveryStatus not_closed) (sym put) (
            put-EveryStatus not_closed (new_auction e.now height amount reserve) s
              (unfold new_auction in refl) every)
      ]
  Step-not_closed s s' (bidding e accounts req) every = elim (bid-cases h e accounts req s) [
    | inl same ↦ subst (EveryStatus not_closed) (sym same) every
    | inr went ↦
        subst (EveryStatus not_closed) (sym went)
          (bid-not_closed e accounts req.auction_id req.bidder req.amount s every)
  ]
  Step-not_closed s s' (settling req) every = elim (settle-cases req s) [
    | inl same ↦ subst (EveryStatus not_closed) (sym same) every
    | inr went ↦
        subst (EveryStatus not_closed) (sym went) (settle-not_closed req.auction_id s every)
  ]

  Steps-not_closed :
      (s s' : State) → Steps h s s' → EveryStatus not_closed s → EveryStatus not_closed s'
  Steps-not_closed s s' here every = every
  Steps-not_closed s s' (followed {t} before step) every =
      Step-not_closed t s' step (Steps-not_closed s t before every)

  begin-not_closed :
      (e : Env) (accounts : Accounts) (s : State)
      → IsSound s
      → EveryStatus is_over s
      → EveryStatus not_closed (begin_blocker e accounts s).1
  begin-not_closed e accounts s sound every =
      subst (EveryStatus not_closed) (sym (begin_blocker-eq e accounts s sound)) (
        Spares-EveryStatus not_closed (process_auctions e s).1 _
          (distribute_when_due-Spares e accounts (process_auctions e s).1)
          (SweptAll-EveryStatus not_closed is_over (has_ended e.block_time) AuctionStatus.closed s
            (process_auctions e s) (process_auctions-SweptAll e s sound.sorted sound.registered)
            (λ a over left. open-or-not_closed a.status over)
            (λ a over taken. absurd (ground arith)) every))

  end-is_over :
      (arrange : (Order → Order → Bool) → List Order → List Order) (e : Env) (s s' : State)
      → end_blocker h arrange e s ≡ some s'
      → IsSound s
      → EveryStatus not_closed s
      → EveryStatus is_over s'
  end-is_over arrange e s s' run sound every =
      let (r, matched, settled) = end_blocker-cases h arrange e s s' run in
      let spared = matching-Spares h arrange e.now s r matched in
      let calm = Spares-IsSound s r.1 spared sound in
      subst (EveryStatus is_over) (sym settled) (
        SweptAll-EveryStatus is_over not_closed is_open_auction AuctionStatus.cancelled r.1
          (settle_auctions h e.now r.1)
          (settle_auctions-SweptAll h e.now r.1 calm.sorted calm.registered)
          (λ a never left. not_closed-is_over a.status never left) (λ a never taken. refl)
          (Spares-EveryStatus not_closed s r.1 spared every))

  pub Chain-is_over :
      (arrange : (Order → Order → Bool) → List Order → List Order) (s s' : State)
      → IsSound s
      → EveryStatus is_over s
      → Chain h arrange s s'
      → EveryStatus is_over s'
  Chain-is_over arrange s s' sound every start = every
  Chain-is_over arrange s s' sound every (block {t} {u} e accounts before steps ended) =
      let so_far = Chain-IsSound h arrange s t before sound in
      let begun = begin_blocker-IsSound e accounts t so_far in
      end-is_over arrange e u s' ended
        (Steps-IsSound h (begin_blocker e accounts t).1 u steps begun)
        (Steps-not_closed (begin_blocker e accounts t).1 u steps
          (begin-not_closed e accounts t so_far (Chain-is_over arrange s t sound every before)))

  unclosed_refused :
      (req : MsgSettleAuction) (s : State)
      → EveryStatus not_closed s
      → (x : Error) × ((settle_closed_auction req s).0 ≡ err x)
  unfolding settle_closed_auction get_auction
  unclosed_refused req s every = elim (Outcome-cases (settle_closed_auction req s).0) [
    | inr refused ↦ refused
    | inl (u, done) ↦ elim (Option-cases (KvStore.get req.auction_id s.auctions)) [
      | inl missing ↦ absurd (ground arith)
      | inr (a, found) ↦
          absurd (ground (arith, status_of not_closed s every req.auction_id a found))
    ]
  ]

  -- On a chain that started from sound stores in which no auction was open or closed,
  -- SettleAuction is refused at every moment of every block: EndBlocker cancels all open
  -- auctions, so none lives to be closed.
  pub settlement_refused :
      (arrange : (Order → Order → Bool) → List Order → List Order) (s t u : State) (e : Env)
      (accounts : Accounts)
      → IsSound s
      → EveryStatus is_over s
      → Chain h arrange s t
      → Steps h (begin_blocker e accounts t).1 u
      → (req : MsgSettleAuction) → (x : Error) × ((settle_closed_auction req u).0 ≡ err x)
  settlement_refused arrange s t u e accounts sound every chain steps req = unclosed_refused req u (
      Steps-not_closed (begin_blocker e accounts t).1 u steps (
        begin-not_closed e accounts t (Chain-IsSound h arrange s t chain sound)
          (Chain-is_over arrange s t sound every chain)))
