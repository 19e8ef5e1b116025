-- ===== src/Anteil/Keeper.antt =====
-- x/anteil/keeper/keeper.go: what the keeper stores, and the orders.
use volnix_protocol.Base.{
  not, Option, List, [], ◌∷◌, Text, text_eq, ℤ, if◌then◌else◌, Action, gets, lift, or_raise, modify,
  raise_if, ◌>>=◌, ◌>>◌, is_some,
}
use volnix_protocol.KvStore.{KvStore, text_key}
use volnix_protocol.KvStore
use volnix_protocol.Anteil.Params.{Params}
use volnix_protocol.Anteil.Types.{
  Order, Trade, UserPosition, Auction, Bid, Error, OrderStatus, order_not_found, is_order_valid,
  order_already_exists,
}

-- A bid stands under the identifier of its auction, `_` and its own.
pub record State : Type 0 where
  pub params : Params
  pub orders : KvStore Text Order
  pub trades : KvStore Text Trade
  pub positions : KvStore Text UserPosition
  pub auctions : KvStore Text Auction
  pub bids : KvStore Text Bid
  pub last_distribution : Option ℤ

abbrev pub Handler : Type 0 → Type 0
Handler = Action State Error

unfoldable pub put_order : Order → State → State
put_order o s = record s { orders = KvStore.set o.order_id o s.orders }

unfoldable pub set_order : Order → Handler (Unit {0})
set_order o = do
  lift (is_order_valid o)
  exists ← gets (λ s. is_some (KvStore.get o.order_id s.orders))
  raise_if exists order_already_exists
  modify (put_order o)

unfoldable pub get_order : Text → Handler Order
get_order order_id s = or_raise (KvStore.get order_id s.orders) order_not_found s

unfoldable pub update_order : Order → Handler (Unit {0})
update_order o = do
  lift (is_order_valid o)
  exists ← gets (λ s. is_some (KvStore.get o.order_id s.orders))
  raise_if (not exists) order_not_found
  modify (put_order o)

unfoldable pub cancel_order : Text → Handler (Unit {0})
cancel_order order_id = do
  o ← get_order order_id
  update_order (record o { status = OrderStatus.cancelled })

unfoldable pub delete_order : Text → Handler (Unit {0})
delete_order order_id = do
  exists ← gets (λ s. is_some (KvStore.get order_id s.orders))
  raise_if (not exists) order_not_found
  modify λ s. record s { orders = KvStore.delete order_id s.orders }

unfoldable pub get_all_orders : State → List Order
get_all_orders s = KvStore.values s.orders

abbrev owned_by : Text → List Order → List Order
owned_by owner [] = []
owned_by owner (o ∷ os) =
    let rest = owned_by owner os in if text_eq o.owner owner then o ∷ rest else rest

unfoldable pub get_orders_by_owner : Text → State → List Order
get_orders_by_owner owner s = owned_by owner (KvStore.values s.orders)
