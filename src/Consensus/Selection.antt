-- ===== src/Consensus/Selection.antt =====
-- x/consensus/keeper/keeper.go: the end of an auction, and what EndBlocker does with the auctions.
use volnix_protocol.Base.{
  ℕ, zero, suc, ◌+◌, ◌-◌, ◌%◌, ◌^◌, not, ◌&&◌, Option, none, some, List, [], ◌∷◌, ℤ, ltb, leb,
  nat_eq, if◌then◌else◌, ok, err, gets, modify, raise_if, ◌>>=◌, ◌>>◌, length,
}
use volnix_protocol.KvStore.{KvStore, nat_key, text_key}
use volnix_protocol.KvStore
use volnix_protocol.Strconv.{parse_uint, max_uint64, format_uint}
use volnix_protocol.Consensus.Types.{
  BidReveal, BlindAuction, AnteilKeeper, revealing, complete, is_committing, is_revealing,
  is_complete, not_in_reveal_phase, no_bids_revealed, zero_total_bid,
}
use volnix_protocol.Consensus.Auctions.{
  State, Handler, get_blind_auction, set_blind_auction, create_blind_auction, or_default,
}

-- What a reveal weighs; a text that is no uint64 weighs nothing.
unfoldable pub weight_of : BidReveal → ℕ
weight_of r = elim (parse_uint max_uint64 r.bid_amount) [ err x ↦ 0 | ok n ↦ n ]

-- The sum of all revealed bids, in 64 bits.
unfoldable pub total_bid : ℕ → List BidReveal → ℕ
total_bid sum [] = sum
total_bid sum (r ∷ rs) = total_bid ((sum + weight_of r) % 2 ^ 64) rs

-- The first reveal with which the running sum exceeds the ticket.
unfoldable pub drawn : ℕ → ℕ → List BidReveal → Option BidReveal
drawn ticket sum [] = none
drawn ticket sum (r ∷ rs) =
    let later = drawn ticket ((sum + weight_of r) % 2 ^ 64) rs in
    if ltb ticket ((sum + weight_of r) % 2 ^ 64) then some r else later

abbrev pub with_winner : ℤ → BidReveal → BlindAuction → BlindAuction
with_winner now r a = record a {
  winner = r.validator;
  winning_bid = r.bid_amount;
  phase = complete;
  end_time = some now;
}

module _ (W : Type 0) where
  unfoldable pub transition_auction_phase : ℕ → Handler W (Unit {0})
  transition_auction_phase height = do
    a ← get_blind_auction W height
    modify λ s.
        if is_committing a.phase then set_blind_auction W (record a { phase = revealing }) s else s

  unfoldable pub remove_if_complete : ℕ → State W → State W
  remove_if_complete height s = elim (KvStore.get height s.auctions) [
    | none ↦ s
    | some a ↦
        if is_complete a.phase then record s { auctions = KvStore.delete height s.auctions } else s
  ]

  -- The heights from 1 up to `n`.
  unfoldable pub remove_up_to : ℕ → State W → State W
  remove_up_to zero s = s
  remove_up_to (suc n) s = remove_if_complete (suc n) (remove_up_to n s)

  unfoldable pub cleanup_old_auctions : ℕ → State W → State W
  cleanup_old_auctions height s =
      let kept = or_default s.params.auction_history_blocks 100 in
      if leb height kept then s else remove_up_to (height - kept - 1) s

  module _ (anteil : Option (AnteilKeeper W)) where
    unfoldable pub burn_bid : BidReveal → State W → State W
    burn_bid r s = elim anteil [
      | none ↦ s
      | some k ↦ elim (k.ant_balance r.validator s.world) [
        | none ↦ s
        | some text ↦ elim (parse_uint max_uint64 text) [
          | err x ↦ s
          | ok balance ↦ elim (parse_uint max_uint64 r.bid_amount) [
            | err x ↦ s
            | ok bid ↦
                if leb bid balance
                then record s {
                  world =
                      k.update_user_position r.validator (format_uint (balance - bid)) 0 s.world;
                }
                else s
          ]
        ]
      ]
    ]

    unfoldable pub declare_winner : ℤ → BlindAuction → BidReveal → Handler W BidReveal
    declare_winner now a r = do
      modify (burn_bid r)
      modify (set_blind_auction W (with_winner now r a))
      gets (λ s. r)

    -- A draw that no reveal wins, which does not happen, is won by the first.
    unfoldable pub winner_among : ℕ → BidReveal → List BidReveal → BidReveal
    winner_among ticket first rs = elim (drawn ticket 0 (first ∷ rs)) [ none ↦ first | some r ↦ r ]

    unfoldable pub draw : ℤ → ℕ → BlindAuction → Handler W BidReveal
    draw now random a = elim a.reveals [
      | [] ↦ λ s. (err no_bids_revealed, s)
      | first ∷ rs ↦
          if nat_eq (total_bid 0 (first ∷ rs)) 0
          then (λ s. (err zero_total_bid, s))
          else declare_winner now a (winner_among (random % total_bid 0 (first ∷ rs)) first rs)
    ]

    -- `random` is rand.Uint64.
    unfoldable pub select_auction_winner : ℤ → ℕ → ℕ → Handler W BidReveal
    select_auction_winner now random height = do
      a ← get_blind_auction W height
      raise_if (not (is_revealing a.phase)) not_in_reveal_phase
      draw now random a

    -- The phase and the bids are those of the auction before any of the two steps.
    unfoldable pub advance : ℤ → ℕ → ℕ → BlindAuction → State W → State W
    advance now random height a s =
        if is_committing a.phase && ltb 0 (length a.commits)
        then (transition_auction_phase height s).1
        else if is_revealing a.phase && ltb 0 (length a.reveals)
        then (select_auction_winner now random height s).1
        else s

    unfoldable pub advance_current : ℤ → ℕ → ℕ → State W → State W
    advance_current now random height s = elim (KvStore.get height s.auctions) [
      | none ↦ s
      | some a ↦ advance now random height a s
    ]

    -- The part of EndBlocker on auctions, at a height.
    unfoldable pub process_auctions : ℤ → ℕ → ℕ → State W → State W
    process_auctions now random height s =
        let advanced = advance_current now random height s in
        let opened = create_blind_auction W now ((height + 1) % 2 ^ 64) advanced in
        cleanup_old_auctions height opened.1
