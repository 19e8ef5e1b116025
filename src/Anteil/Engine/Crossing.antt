-- ===== src/Anteil/Engine/Crossing.antt =====
-- x/anteil/keeper/economic_engine.go: which trades the matching of orders makes.
use volnix_protocol.Base.{
  ℕ, zero, suc, ◌≡◌, ◌⊎◌, inl, inr, refl, ap, subst, Bool, true, false, some, List, [], ◌∷◌, Text,
  ℤ, if◌then◌else◌, Outcome, ok, arith, Outcome-cases, Bool-cases,
}
use mathlib.Core.List.{Memᴰ}
use mathlib.Core.List.Memᴰ
use volnix_protocol.KvStore.{text_key}
use volnix_protocol.KvStore
use volnix_protocol.Host.{Host}
use volnix_protocol.Anteil.Types.{Order, Trade}
use volnix_protocol.Anteil.Keeper.{State, update_order, put_order}
use volnix_protocol.Anteil.Positions.{update_user_position, set_user_position}
use volnix_protocol.Anteil.Trades.{set_trade}
use volnix_protocol.Anteil.Engine.Termination.{match_orders-ok}
use volnix_protocol.Anteil.Engine.{
  match_orders, execute_matching, reduced, matched_trade, update_user_positions, value,
  unless_filled, Error, trade_id_of, trade_quantity, is_filled,
}

-- An order of the list that differs in its amount and status only.
record Listed (o : Order) (os : List Order) : Type 0 where
  pub original : Order
  pub listed : Memᴰ original os
  pub same_id : original.order_id ≡ o.order_id
  pub same_owner : original.owner ≡ o.owner
  pub same_price : original.price ≡ o.price

Listed-self : (o : Order) (os : List Order) → Memᴰ o os → Listed o os
Listed-self o os m = record {
  original = o;
  listed = m;
  same_id = refl;
  same_owner = refl;
  same_price = refl;
}

module _ (h : Host) where
  -- A trade of a buy order and a sell order of these lists, at the price of the latter, which is
  -- no higher than that of the former.
  pub record MatchedFrom (bs os : List Order) (t : Trade) : Type 0 where
    pub b : Order
    pub o : Order
    pub b_listed : Memᴰ b bs
    pub o_listed : Memᴰ o os
    pub crossed : h.at_most (value h o.price) (value h b.price) ≡ true
    pub of_buy : (t.buy_order_id ≡ b.order_id) × (t.buyer ≡ b.owner)
    pub of_sell : (t.sell_order_id ≡ o.order_id) × (t.seller ≡ o.owner)
    pub at_price : t.price ≡ h.fixed 6 (value h o.price)

  -- A turn leaves the heads of the lists out or alters their amount and status.
  Includes : List Order → List Order → Type 0
  Includes os all = (o : Order) → Memᴰ o os → Listed o all

  Includes-MatchedFrom :
      (bs os all_bs all_os : List Order) (t : Trade)
      → Includes bs all_bs
      → Includes os all_os
      → MatchedFrom bs os t
      → MatchedFrom all_bs all_os t
  unfolding Includes
  Includes-MatchedFrom bs os all_bs all_os t in_b in_o m =
      let b = in_b m.b m.b_listed in
      let o = in_o m.o m.o_listed in
      record {
        b = b.original;
        o = o.original;
        b_listed = b.listed;
        o_listed = o.listed;
        crossed = cc (m.crossed, b.same_price, o.same_price);
        of_buy = (cc (m.of_buy.0, b.same_id), cc (m.of_buy.1, b.same_owner));
        of_sell = (cc (m.of_sell.0, o.same_id), cc (m.of_sell.1, o.same_owner));
        at_price = cc (m.at_price, o.same_price);
      }

  reduced-Listed :
      (quantity : h.Float) (o x : Order) (os : List Order)
      → x ≡ reduced h quantity o
      → Listed x (o ∷ os)
  unfolding reduced
  reduced-Listed quantity o x os e = record {
    original = o;
    listed = Memᴰ.head refl;
    same_id = cc (ap Order.order_id e);
    same_owner = cc (ap Order.owner e);
    same_price = cc (ap Order.price e);
  }

  Includes-reduced :
      (quantity : h.Float) (o : Order) (os : List Order) (filled : Bool)
      → Includes (if filled then os else reduced h quantity o ∷ os) (o ∷ os)
  unfolding Includes
  Includes-reduced quantity o os true x m = Listed-self x (o ∷ os) (Memᴰ.tail m)
  Includes-reduced quantity o os false x m = elim (Memᴰ.cases_cons m) [
    | inl e ↦ reduced-Listed quantity o x os e
    | inr m' ↦ Listed-self x (o ∷ os) (Memᴰ.tail m')
  ]

  match_orders-made :
      (now : ℤ) (b o : Order) (s : State) (k : Text) (t : Trade)
      → KvStore.get k (match_orders h now b o s).1.trades ≡ some t
      → (KvStore.get k s.trades ≡ some t) ⊎ (matched_trade h b o ≡ t)
  unfolding match_orders matched_trade update_order set_trade put_order update_user_positions
      update_user_position set_user_position
  match_orders-made now b o s k t found = ground (
    arith,
    KvStore.get-set_cases k (trade_id_of b.order_id o.order_id) (matched_trade h b o) t s.trades,
  )

  matched_trade-MatchedFrom :
      (b o : Order) (bs os : List Order)
      → h.at_most (value h o.price) (value h b.price) ≡ true
      → MatchedFrom (b ∷ bs) (o ∷ os) (matched_trade h b o)
  unfolding matched_trade
  matched_trade-MatchedFrom b o bs os crossed = record {
    b = b;
    o = o;
    b_listed = Memᴰ.head refl;
    o_listed = Memᴰ.head refl;
    crossed = crossed;
    of_buy = (refl, refl);
    of_sell = (refl, refl);
    at_price = refl;
  }

  abbrev pub FromHere : List Order → List Order → State → Text → Trade → Type 0
  FromHere bs os s k t = (KvStore.get k s.trades ≡ some t) ⊎ MatchedFrom bs os t

  turn-FromHere :
      (now : ℤ) (b o : Order) (bs os : List Order) (s : State) (k : Text) (t : Trade)
      → h.at_most (value h o.price) (value h b.price) ≡ true
      → KvStore.get k (match_orders h now b o s).1.trades ≡ some t
      → FromHere (b ∷ bs) (o ∷ os) s k t
  turn-FromHere now b o bs os s k t crossed found = elim (match_orders-made now b o s k t found) [
    | inl before ↦ inl before
    | inr made ↦
        inr
          (subst (MatchedFrom (b ∷ bs) (o ∷ os)) made (matched_trade-MatchedFrom b o bs os crossed))
  ]

  abbrev pub Runs :
      ℕ → ℤ → List Order → List Order → State → Outcome Error (Unit {0}) × State → Type 0
  Runs fuel now bs os s r = execute_matching h fuel now bs os s ≡ some r

  -- One turn of the loop, from the result of the whole.
  pub execute_matching-cases :
      (fuel : ℕ) (now : ℤ) (b o : Order) (bs os : List Order) (s : State)
      (r : Outcome Error (Unit {0}) × State)
      → Runs (suc fuel) now (b ∷ bs) (o ∷ os) s r
      → (r.1 ≡ s)
        ⊎ ((h.at_most (value h o.price) (value h b.price) ≡ true)
            × ((r.1 ≡ (match_orders h now b o s).1)
                ⊎ ((after : Order × Order) × ((match_orders h now b o s).0 ≡ ok after)
                    × Runs fuel now
                        (unless_filled after.0 bs)
                        (unless_filled after.1 os)
                        (match_orders h now b o s).1
                        r)))
  unfolding execute_matching
  execute_matching-cases fuel now b o bs os s r run =
      elim (Bool-cases (h.at_most (value h o.price) (value h b.price))) [
        | inr apart ↦ inl ground arith
        | inl crossed ↦ inr (
          crossed,
          elim (Outcome-cases (match_orders h now b o s).0) [
            | inr (x, refused) ↦ inl ground arith
            | inl (after, done) ↦ inr (after, done, ground arith)
          ],
        )
      ]

  kept-FromHere :
      (now : ℤ) (b o : Order) (bs os : List Order) (s : State) (t : Trade) (after : Order × Order)
      → (match_orders h now b o s).0 ≡ ok after
      → MatchedFrom (unless_filled after.0 bs) (unless_filled after.1 os) t
      → MatchedFrom (b ∷ bs) (o ∷ os) t
  kept-FromHere now b o bs os s t after done m =
      let (fresh, same, stored) = match_orders-ok h now b o s after done in
      let b' = reduced h (trade_quantity h b o) b in
      let o' = reduced h (trade_quantity h b o) o in
      Includes-MatchedFrom (unless_filled b' bs) (unless_filled o' os) (b ∷ bs) (o ∷ os) t
        (Includes-reduced (trade_quantity h b o) b bs (is_filled b'))
        (Includes-reduced (trade_quantity h b o) o os (is_filled o'))
        (subst (λ (a : Order × Order). MatchedFrom (unless_filled a.0 bs) (unless_filled a.1 os) t)
          same m)

  pub execute_matching-FromHere :
      (fuel : ℕ) (now : ℤ) (bs os : List Order) (s : State) (r : Outcome Error (Unit {0}) × State)
      → Runs fuel now bs os s r
      → (k : Text) (t : Trade) → KvStore.get k r.1.trades ≡ some t
      → FromHere bs os s k t
  unfolding execute_matching
  execute_matching-FromHere fuel now [] os s r run k t found = inl (ground arith)
  execute_matching-FromHere fuel now (b ∷ bs) [] s r run k t found = inl (ground arith)
  execute_matching-FromHere zero now (b ∷ bs) (o ∷ os) s r run k t found = ground arith
  execute_matching-FromHere (suc fuel) now (b ∷ bs) (o ∷ os) s r run k t found =
      elim (execute_matching-cases fuel now b o bs os s r run) [
        | inl same ↦ inl (subst (λ (x : State). KvStore.get k x.trades ≡ some t) same found)
        | inr (crossed, inl same) ↦
            turn-FromHere now b o bs os s k t crossed
              (subst (λ (x : State). KvStore.get k x.trades ≡ some t) same found)
        | inr (crossed, inr (after, done, more)) ↦
            elim (execute_matching-FromHere fuel now (unless_filled after.0 bs)
              (unless_filled after.1 os) (match_orders h now b o s).1 r more k t found) [
                | inl before ↦ turn-FromHere now b o bs os s k t crossed before
                | inr m ↦ inr (kept-FromHere now b o bs os s t after done m)
              ]
      ]
