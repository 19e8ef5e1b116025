-- ===== src/Anteil/Engine/Offered.antt =====
-- x/anteil/keeper/economic_engine.go: the trades of ProcessOrderMatching are between open orders
-- of the store.
use volnix_protocol.Base.{
  ◌≡◌, ◌⊎◌, inl, inr, subst, Bool, true, some, List, [], ◌∷◌, Text, ℤ, Outcome, arith,
}
use mathlib.Core.List.{Memᴰ}
use mathlib.Core.List.Memᴰ
use volnix_protocol.Anteil.Engine.Crossing.{execute_matching-FromHere}
use volnix_protocol.KvStore.{text_key}
use volnix_protocol.KvStore
use volnix_protocol.Host.{Host}
use volnix_protocol.Anteil.Types.{Order, Trade}
use volnix_protocol.Anteil.Keeper.{State}
use volnix_protocol.Anteil.Engine.{
  process_order_matching, value, Error, is_buy, open_orders, OrderSide, is_sell, get_all_orders,
  is_open_order,
}

open_orders-cases :
    (on_side : OrderSide → Bool) (x : Order) (os : List Order)
    → ((open_orders on_side (x ∷ os) ≡ x ∷ open_orders on_side os)
        × (is_open_order x ≡ true)
        × (on_side x.order_side ≡ true))
      ⊎ (open_orders on_side (x ∷ os) ≡ open_orders on_side os)
unfolding open_orders
open_orders-cases on_side x os = ground arith

abbrev Offers : (OrderSide → Bool) → Order → List Order → Type 0
Offers on_side o os = Memᴰ o os × (is_open_order o ≡ true) × (on_side o.order_side ≡ true)

later-Offers :
    (on_side : OrderSide → Bool) (o x : Order) (os : List Order)
    → Offers on_side o os
    → Offers on_side o (x ∷ os)
later-Offers on_side o x os (stored, is_open, side) = (Memᴰ.tail stored, is_open, side)

open_orders-Offers :
    (on_side : OrderSide → Bool) (o : Order) (os : List Order)
    → Memᴰ o (open_orders on_side os)
    → Memᴰ o os × (is_open_order o ≡ true) × (on_side o.order_side ≡ true)
unfolding open_orders
open_orders-Offers on_side o [] m = absurd (Memᴰ.not-nil m)
open_orders-Offers on_side o (x ∷ os) m = elim (open_orders-cases on_side x os) [
  | inr same ↦ later-Offers on_side o x os (open_orders-Offers on_side o os (subst (Memᴰ o) same m))
  | inl (same, is_open, side) ↦ elim (Memᴰ.cases_cons (subst (Memᴰ o) same m)) [
    | inl e ↦ (Memᴰ.head e, cc (is_open, e), cc (side, e))
    | inr m' ↦ later-Offers on_side o x os (open_orders-Offers on_side o os m')
  ]
]

-- sort.Slice makes no new orders.
unfoldable pub Rearranges : ((Order → Order → Bool) → List Order → List Order) → Type 0
Rearranges arrange =
    (less : Order → Order → Bool) (o : Order) (os : List Order)
    → Memᴰ o (arrange less os)
    → Memᴰ o os

-- A stored order that is open, on a side of the market.
pub record IsOffered (on_side : OrderSide → Bool) (s : State) (o : Order) : Type 0 where
  pub stored : Memᴰ o (get_all_orders s)
  pub is_open : is_open_order o ≡ true
  pub side : on_side o.order_side ≡ true

module _ (h : Host) where
  pub record Crossed (s : State) (t : Trade) : Type 0 where
    pub b : Order
    pub o : Order
    pub b_offered : IsOffered is_buy s b
    pub o_offered : IsOffered is_sell s o
    pub crossed : h.at_most (value h o.price) (value h b.price) ≡ true
    pub of_buy : (t.buy_order_id ≡ b.order_id) × (t.buyer ≡ b.owner)
    pub of_sell : (t.sell_order_id ≡ o.order_id) × (t.seller ≡ o.owner)
    pub at_price : t.price ≡ h.fixed 6 (value h o.price)

  offered :
      (on_side : OrderSide → Bool) (s : State) (o : Order)
      → Memᴰ o (open_orders on_side (get_all_orders s))
      → IsOffered on_side s o
  offered on_side s o m =
      let (stored, is_open, side) = open_orders-Offers on_side o (get_all_orders s) m in
      record { stored = stored; is_open = is_open; side = side }

  -- Where sort.Slice makes no new orders, every trade that is stored after the order matching was
  -- stored before it, or is of a stored open buy order and a stored open sell order, names their
  -- owners, and has the price of the sell order, which is no higher than that of the buy order.
  pub process_order_matching-Crossed :
      (arrange : (Order → Order → Bool) → List Order → List Order)
      → Rearranges arrange
      → (now : ℤ) (s : State) (r : Outcome Error (Unit {0}) × State)
      → process_order_matching h arrange now s ≡ some r
      → (k : Text) (t : Trade) → KvStore.get k r.1.trades ≡ some t
      → (KvStore.get k s.trades ≡ some t) ⊎ Crossed s t
  unfolding process_order_matching Rearranges
  process_order_matching-Crossed arrange rearranges now s r run k t found =
      elim (execute_matching-FromHere h _ now _ _ s r run k t found) [
        | inl before ↦ inl before
        | inr m ↦ inr (record {
          b = m.b;
          o = m.o;
          b_offered = offered is_buy s m.b (rearranges _ m.b _ m.b_listed);
          o_offered = offered is_sell s m.o (rearranges _ m.o _ m.o_listed);
          crossed = m.crossed;
          of_buy = m.of_buy;
          of_sell = m.of_sell;
          at_price = m.at_price;
        })
      ]
