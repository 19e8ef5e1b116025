-- ===== src/Anteil/Market/Refusal.antt =====
-- x/anteil/keeper/economic_engine.go: what comes of the orders of the market maker.
use volnix_protocol.Base.{
  ◌≡◌, ◌⊎◌, inl, inr, refl, true, false, Text, codes, is_empty, ℤ, ok, err, arith, Outcome-cases,
  Bool-cases,
}
use volnix_protocol.Host.{Host}
use volnix_protocol.Anteil.Params.{Params}
use volnix_protocol.Anteil.Engine.{value}
use volnix_protocol.Anteil.Types.{is_order_valid, Error, Order, OrderSide}
use volnix_protocol.Anteil.Keeper.{State, set_order}
use volnix_protocol.Anteil.Market.{
  maker_order, create_market_making_orders, process_market_making, calculate_market_metrics, factor,
}

unidentified_refused :
    (o : Order) → is_empty o.identity_hash ≡ true → (x : Error) × (is_order_valid o ≡ err x)
unfolding is_order_valid
unidentified_refused o unnamed = elim (Outcome-cases (is_order_valid o)) [
  | inr refused ↦ refused
  | inl (u, valid) ↦ absurd (ground arith)
]

maker_order_refused :
    (h : Host) (now : ℤ) (p : Params) (prefix : Text) (side : OrderSide) (price : h.Float)
    → (x : Error) × (is_order_valid (maker_order h now p prefix side price) ≡ err x)
unfolding maker_order
maker_order_refused h now p prefix side price =
    unidentified_refused (maker_order h now p prefix side price) refl

-- Both orders of the market maker lack an identity hash.
create_market_making_orders_refused :
    (h : Host) (now : ℤ) (price : h.Float) (s : State)
    → (x : Error) × (create_market_making_orders h now price s ≡ (err x, s))
unfolding create_market_making_orders set_order
create_market_making_orders_refused h now price s =
    let (x, refused) =
      maker_order_refused h now s.params (codes "mm_buy") OrderSide.buy
        (h.times price (factor h s.params.market_making_buy_discount (codes "0.99"))) in
    (x, ground arith)

-- What ProcessMarketMaking comes to: it has nothing to do, or it fails.
pub record Futile (h : Host) (now : ℤ) (s : State) : Type 0 where
  pub unchanged : (process_market_making h now s).1 ≡ s
  pub outcome :
      ((h.less (value h (codes "0.1")) (calculate_market_metrics h s).price_spread ≡ false)
        × ((process_market_making h now s).0 ≡ ok tt))
      ⊎ ((h.less (value h (codes "0.1")) (calculate_market_metrics h s).price_spread ≡ true)
          × ((x : Error) × ((process_market_making h now s).0 ≡ err x)))

-- ProcessMarketMaking never changes the state: where the spread of prices is wide it fails, as
-- the orders of the market maker have no identity hash, and else it has nothing to do.
pub process_market_making-Futile : (h : Host) (now : ℤ) (s : State) → Futile h now s
unfolding process_market_making
process_market_making-Futile h now s =
    let (x, refused) =
      create_market_making_orders_refused h now (calculate_market_metrics h s).average_price s in
    elim (Bool-cases (h.less (value h (codes "0.1")) (calculate_market_metrics h s).price_spread)) [
      | inl wide ↦ record { unchanged = ground arith; outcome = inr (wide, (x, ground arith)) }
      | inr narrow ↦ record { unchanged = ground arith; outcome = inl (narrow, ground arith) }
    ]
