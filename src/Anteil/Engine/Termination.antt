-- ===== src/Anteil/Engine/Termination.antt =====
-- x/anteil/keeper/economic_engine.go: the loop of executeMatching ends.
use volnix_protocol.Base.{
  ℕ, zero, suc, ◌+◌, ◌<◌, ◌≡◌, inl, inr, refl, sym, subst, Bool, true, false, none, some, List, [],
  ◌∷◌, ℤ, if◌then◌else◌, Outcome, ok, err, length, arith, Outcome-cases, Bool-cases,
}
use volnix_protocol.KvStore.{text_key}
use volnix_protocol.KvStore
use volnix_protocol.Host.{Host}
use volnix_protocol.Anteil.Types.{Order, Trade}
use volnix_protocol.Anteil.Keeper.{State, update_order, put_order}
use volnix_protocol.Anteil.Positions.{update_user_position, set_user_position}
use volnix_protocol.Anteil.Trades.{set_trade}
use volnix_protocol.Anteil.Engine.{
  match_orders, reduced, matched_trade, update_user_positions, trade_id_of, trade_quantity, Error,
  ℕ, execute_matching, err, ◌∷◌, List, suc, Outcome, length, value, unless_filled, is_filled,
  process_order_matching, buy_side, sell_side,
}

module _ (h : Host) where
  abbrev HasTraded : Order → Order → State → Type 0
  HasTraded b o s =
      (t : Trade) × (KvStore.get (trade_id_of b.order_id o.order_id) s.trades ≡ some t)

  pub match_orders-ok :
      (now : ℤ) (b o : Order) (s : State) (after : Order × Order)
      → (match_orders h now b o s).0 ≡ ok after
      → (KvStore.get (trade_id_of b.order_id o.order_id) s.trades ≡ none)
        × (after ≡ (reduced h (trade_quantity h b o) b, reduced h (trade_quantity h b o) o))
        × ((match_orders h now b o s).1.trades
            ≡ KvStore.set (trade_id_of b.order_id o.order_id) (matched_trade h b o) s.trades)
  unfolding match_orders update_order set_trade put_order update_user_positions update_user_position
      set_user_position matched_trade
  match_orders-ok now b o s after r = ground arith

  match_orders_repeated :
      (now : ℤ) (b o : Order) (s : State)
      → HasTraded b o s
      → (x : Error) × ((match_orders h now b o s).0 ≡ err x)
  match_orders_repeated now b o s (t, there) = elim (Outcome-cases (match_orders h now b o s).0) [
    | inr refused ↦ refused
    | inl (after, r) ↦ absurd (ground (arith, match_orders-ok now b o s after r))
  ]

  abbrev Ends : ℕ → ℤ → List Order → List Order → State → Type 0
  Ends fuel now bs os s =
      (r : Outcome Error (Unit {0}) × State) × (execute_matching h fuel now bs os s ≡ some r)

  -- After a trade that filled neither order the next turn refuses the same trade.
  repeated-Ends :
      (fuel : ℕ) (now : ℤ) (b o : Order) (bs os : List Order) (s : State)
      → HasTraded b o s
      → Ends (suc fuel) now (b ∷ bs) (o ∷ os) s
  unfolding execute_matching
  repeated-Ends fuel now b o bs os s traded =
      let (x, refused) = match_orders_repeated now b o s traded in
      elim (Bool-cases (h.at_most (value h o.price) (value h b.price))) [
        | inl crossed ↦ ((err x, (match_orders h now b o s).1), ground arith)
        | inr apart ↦ ((ok tt, s), ground arith)
      ]

  abbrev WithFuel : ℕ → Type 0
  WithFuel fuel =
      (now : ℤ) (bs os : List Order) (s : State)
      → length bs + length os < fuel
      → Ends fuel now bs os s

  -- The lists after a turn, by whether its two orders were filled.
  continued-Ends :
      (fuel : ℕ)
      → WithFuel fuel
      → (now : ℤ) (b o : Order) (bs os : List Order) (s : State)
      → suc (length bs + length os) < fuel
      → HasTraded b o s
      → (b_filled o_filled : Bool)
      → Ends fuel now (if b_filled then bs else b ∷ bs) (if o_filled then os else o ∷ os) s
  continued-Ends zero ends now b o bs os s enough traded bf of = absurd (omega arith)
  continued-Ends (suc fuel) ends now b o bs os s enough traded true true =
      ends now bs os s (omega arith)
  continued-Ends (suc fuel) ends now b o bs os s enough traded true false =
      ends now bs (o ∷ os) s (omega arith)
  continued-Ends (suc fuel) ends now b o bs os s enough traded false true =
      ends now (b ∷ bs) os s (omega arith)
  continued-Ends (suc fuel) ends now b o bs os s enough traded false false =
      repeated-Ends fuel now b o bs os s traded

  after_match :
      (fuel : ℕ)
      → WithFuel fuel
      → (now : ℤ) (b o : Order) (bs os : List Order) (s : State) (after : Order × Order)
      → suc (length bs + length os) < fuel
      → (match_orders h now b o s).0 ≡ ok after
      → Ends fuel now
          (unless_filled after.0 bs)
          (unless_filled after.1 os)
          (match_orders h now b o s).1
  unfolding reduced
  after_match fuel ends now b o bs os s after enough r =
      let (fresh, same, stored) = match_orders-ok now b o s after r in
      subst
        (λ (a : Order × Order).
          Ends fuel now (unless_filled a.0 bs) (unless_filled a.1 os) (match_orders h now b o s).1)
        (sym same)
        (continued-Ends fuel ends now (reduced h (trade_quantity h b o) b)
          (reduced h (trade_quantity h b o) o) bs os (match_orders h now b o s).1 enough
          (
            matched_trade h b o,
            rw stored (
                KvStore.get-set_self (trade_id_of b.order_id o.order_id) (matched_trade h b o)
                  s.trades),
          )
          (is_filled (reduced h (trade_quantity h b o) b))
          (is_filled (reduced h (trade_quantity h b o) o)))

  execute_matching-Ends :
      (fuel : ℕ) (now : ℤ) (bs os : List Order) (s : State)
      → length bs + length os < fuel
      → Ends fuel now bs os s
  unfolding execute_matching
  execute_matching-Ends fuel now [] os s enough = ((ok tt, s), refl)
  execute_matching-Ends fuel now (b ∷ bs) [] s enough = ((ok tt, s), refl)
  execute_matching-Ends zero now (b ∷ bs) (o ∷ os) s enough = absurd (omega arith)
  execute_matching-Ends (suc fuel) now (b ∷ bs) (o ∷ os) s enough =
      elim (Outcome-cases (match_orders h now b o s).0) [
        | inr (x, refused) ↦ elim (Bool-cases (h.at_most (value h o.price) (value h b.price))) [
          | inl crossed ↦ ((err x, (match_orders h now b o s).1), ground arith)
          | inr apart ↦ ((ok tt, s), ground arith)
        ]
        | inl (after, r) ↦
            let (result, ends) =
              after_match fuel (execute_matching-Ends fuel) now b o bs os s after (omega arith) r in
            elim (Bool-cases (h.at_most (value h o.price) (value h b.price))) [
              | inl crossed ↦ (result, ground arith)
              | inr apart ↦ ((ok tt, s), ground arith)
            ]
      ]

  -- The order matching of EndBlocker always comes to a result, whatever orders are stored,
  -- however floats are read, compared and subtracted, and however sort.Slice arranges the orders.
  pub process_order_matching-Ends :
      (arrange : (Order → Order → Bool) → List Order → List Order) (now : ℤ) (s : State)
      → (r : Outcome Error (Unit {0}) × State) × (process_order_matching h arrange now s ≡ some r)
  unfolding process_order_matching
  process_order_matching-Ends arrange now s =
      execute_matching-Ends (1 + length (buy_side h arrange s) + length (sell_side h arrange s)) now
        (buy_side h arrange s) (sell_side h arrange s) s (omega arith)
