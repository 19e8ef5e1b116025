-- ===== src/Anteil/Blocks.antt =====
-- x/anteil/keeper/keeper.go: EndBlocker.
use volnix_protocol.Base.{Bool, Option, none, some, List}
use volnix_protocol.Host.{Host, Env}
use volnix_protocol.Anteil.Types.{Order}
use volnix_protocol.Anteil.Keeper.{State}
use volnix_protocol.Anteil.Engine.{process_order_matching, settle_auctions}
use volnix_protocol.Anteil.Market.{process_market_making}

module _ (h : Host) (arrange : (Order → Order → Bool) → List Order → List Order) where
  -- Each part runs on what the one before it left; their errors are logged. `none` stands for a
  -- matching that does not end.
  unfoldable pub end_blocker : Env → State → Option State
  end_blocker e s = elim (process_order_matching h arrange e.now s) [
    | none ↦ none
    | some matched ↦
        some (process_market_making h e.block_time (settle_auctions h e.now matched.1).1).1
  ]
