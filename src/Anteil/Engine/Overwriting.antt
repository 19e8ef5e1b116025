-- ===== src/Anteil/Engine/Overwriting.antt =====
-- x/anteil/keeper/economic_engine.go: what a matched trade does to the positions of its parties.
use volnix_protocol.Base.{◌≡◌, ◌≢◌, ap, ◌∙◌, some, ℤ, ok, arith}
use volnix_protocol.KvStore.{KvStore, text_key}
use volnix_protocol.KvStore
use volnix_protocol.Host.{Host}
use volnix_protocol.Anteil.Types.{Order}
use volnix_protocol.Anteil.Keeper.{State, update_order, put_order}
use volnix_protocol.Anteil.Positions.{update_user_position, set_user_position, reset_position}
use volnix_protocol.Anteil.Trades.{set_trade}
use volnix_protocol.Anteil.Engine.{
  match_orders, matched_trade, update_user_positions, value, trade_quantity,
}

module _ (h : Host) where
  -- The quantity as the positions get it: printed with six decimals, read, and printed again.
  abbrev pub printed_quantity : Order → Order → h.Float
  printed_quantity b o = value h (h.fixed 6 (trade_quantity h b o))

  pub record Overwritten (now : ℤ) (b o : Order) (s' : State) : Type 0 where
    pub buyer :
        KvStore.get b.owner s'.positions
        ≡ some (reset_position now b.owner (h.fixed 6 (printed_quantity b o)) 1)
    pub seller :
        KvStore.get o.owner s'.positions
        ≡ some (reset_position now o.owner (h.fixed 6 (h.opposite (printed_quantity b o))) 0)

  match_orders-positions :
      (now : ℤ) (b o : Order) (s : State) (after : Order × Order)
      → (match_orders h now b o s).0 ≡ ok after
      → (match_orders h now b o s).1.positions
        ≡ KvStore.set o.owner
            (reset_position now o.owner (h.fixed 6 (h.opposite (printed_quantity b o))) 0)
            (KvStore.set b.owner
              (reset_position now b.owner (h.fixed 6 (printed_quantity b o)) 1)
              s.positions)
  unfolding match_orders update_order set_trade put_order update_user_positions update_user_position
      set_user_position matched_trade
  match_orders-positions now b o s after r = ground arith

  -- A matched trade of two different owners that is accepted replaces the positions of both by
  -- new ones: the balance of the buyer is the quantity of this trade and that of the seller its
  -- negative, with one trade and none, whatever they held.
  pub match_orders-Overwritten :
      (now : ℤ) (b o : Order) (s : State) (after : Order × Order)
      → (match_orders h now b o s).0 ≡ ok after
      → o.owner ≢ b.owner
      → Overwritten now b o (match_orders h now b o s).1
  match_orders-Overwritten now b o s after r two =
      let put = match_orders-positions now b o s after r in
      record {
        buyer =
            ap (KvStore.get b.owner) put
            ∙ KvStore.get-set_ne b.owner o.owner _ _ two
            ∙ KvStore.get-set_self b.owner _ s.positions;
        seller = ap (KvStore.get o.owner) put ∙ KvStore.get-set_self o.owner _ _;
      }
