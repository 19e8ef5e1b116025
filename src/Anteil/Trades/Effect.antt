-- ===== src/Anteil/Trades/Effect.antt =====
-- x/anteil/keeper/keeper.go: all that an accepted executeTrade presupposes and does.
use volnix_protocol.Base.{
  ◌≡◌, inl, inr, refl, ap, ◌∙◌, true, Option, none, some, Text, codes, text_eq, ℤ, if◌then◌else◌,
  ok, err, arith, Outcome-cases, Option-cases, Bool-cases, text_eq_iff,
}
use volnix_protocol.KvStore.{KvStore, text_key}
use volnix_protocol.KvStore
use volnix_protocol.Anteil.Types.{Order, Trade, UserPosition, Error}
use volnix_protocol.Anteil.Keeper.{State, get_order, update_order, put_order}
use volnix_protocol.Anteil.Positions.{set_user_position}
use volnix_protocol.Anteil.Trades.{
  execute_trade, set_trade, trade_between, trade_id_of, filled_order, is_buy, is_sell,
  update_user_position_for_trade, count_for, counted, position_or_new,
}

-- The position stored for a user is that user's.
unfoldable pub PositionsNamed : State → Type 0
PositionsNamed s =
    (user : Text) (p : UserPosition) → KvStore.get user s.positions ≡ some p → p.owner ≡ user

abbrev stored_balance : Option UserPosition → Text
stored_balance none = codes "0"
stored_balance (some p) = p.ant_balance

-- The balance on record, "0" where there is no position.
pub balance_text : Text → State → Text
balance_text user s = stored_balance (KvStore.get user s.positions)

pub record Traded (now : ℤ) (buy sell : Text) (s s' : State) : Type 0 where
  pub b : Order
  pub o : Order
  pub b_stored : KvStore.get buy s.orders ≡ some b
  pub o_stored : KvStore.get sell s.orders ≡ some o
  pub b_side : is_buy b.order_side ≡ true
  pub o_side : is_sell o.order_side ≡ true
  pub fresh : KvStore.get (trade_id_of buy sell) s.trades ≡ none
  pub recorded :
      s'.trades ≡ KvStore.set (trade_id_of buy sell) (trade_between b o buy sell) s.trades
  pub filled :
      s'.orders
      ≡ KvStore.set o.order_id (filled_order o) (KvStore.set b.order_id (filled_order b) s.orders)
  -- No ANT moves.
  pub balances : (user : Text) → balance_text user s' ≡ balance_text user s

position_or_new-owner :
    (now : ℤ) (user : Text) (s : State)
    → PositionsNamed s
    → (position_or_new now user s).owner ≡ user
unfolding position_or_new PositionsNamed
position_or_new-owner now user s named = elim (Option-cases (KvStore.get user s.positions)) [
  | inl missing ↦ ground arith
  | inr (p, found) ↦ ground (arith, named user p found)
]

position_or_new-balance :
    (now : ℤ) (user : Text) (s : State)
    → (position_or_new now user s).ant_balance ≡ balance_text user s
unfolding position_or_new balance_text
position_or_new-balance now user s = elim (Option-cases (KvStore.get user s.positions)) [
  | inl missing ↦ ground arith
  | inr (p, found) ↦ ground arith
]

count_for-found :
    (now : ℤ) (amount user other : Text) (s : State)
    → PositionsNamed s
    → KvStore.get other (count_for now amount user s).positions ≡ (
        if text_eq user other
        then some (counted now amount (position_or_new now user s))
        else KvStore.get other s.positions)
unfolding count_for set_user_position counted
count_for-found now amount user other s named =
    let p = position_or_new now user s in
    KvStore.get-set other p.owner (counted now amount p) s.positions
    ∙ ap
        (λ (u : Text).
          if text_eq u other then some (counted now amount p) else KvStore.get other s.positions)
        (position_or_new-owner now user s named)

count_for-balance :
    (now : ℤ) (amount user other : Text) (s : State)
    → PositionsNamed s
    → balance_text other (count_for now amount user s) ≡ balance_text other s
unfolding balance_text counted
count_for-balance now amount user other s named = elim (Bool-cases (text_eq user other)) [
  | inr miss ↦ ground (arith, count_for-found now amount user other s named)
  | inl hit ↦ ground (
    arith,
    count_for-found now amount user other s named,
    position_or_new-balance now user s,
    text_eq_iff user other,
  )
]

count_for-PositionsNamed :
    (now : ℤ) (amount user : Text) (s : State)
    → PositionsNamed s
    → PositionsNamed (count_for now amount user s)
unfolding PositionsNamed counted
count_for-PositionsNamed now amount user s named other q found =
    elim (Bool-cases (text_eq user other)) [
      | inr miss ↦ ground (arith, count_for-found now amount user other s named, named other q)
      | inl hit ↦ ground (
        arith,
        count_for-found now amount user other s named,
        position_or_new-owner now user s named,
        text_eq_iff user other,
      )
    ]

settled-balance :
    (now : ℤ) (t : Trade) (s : State) (user : Text)
    → PositionsNamed s
    → balance_text user (update_user_position_for_trade now t s) ≡ balance_text user s
unfolding update_user_position_for_trade
settled-balance now t s user named =
    let bought = count_for now t.ant_amount t.buyer s in
    count_for-balance now t.ant_amount t.seller user bought
      (count_for-PositionsNamed now t.ant_amount t.buyer s named)
    ∙ count_for-balance now t.ant_amount t.buyer user s named

execute_trade-ok :
    (now : ℤ) (buy sell : Text) (s : State) (b o : Order)
    → KvStore.get buy s.orders ≡ some b
    → KvStore.get sell s.orders ≡ some o
    → (execute_trade now buy sell s).0 ≡ ok tt
    → (is_buy b.order_side ≡ true)
      × (is_sell o.order_side ≡ true)
      × (KvStore.get (trade_id_of buy sell) s.trades ≡ none)
      × ((execute_trade now buy sell s).1
          ≡ update_user_position_for_trade now (trade_between b o buy sell) (record s {
            trades = KvStore.set (trade_id_of buy sell) (trade_between b o buy sell) s.trades;
            orders =
                KvStore.set o.order_id
                  (filled_order o)
                  (KvStore.set b.order_id (filled_order b) s.orders);
          }))
unfolding execute_trade get_order set_trade update_order put_order
execute_trade-ok now buy sell s b o b_stored o_stored r = unfold trade_between in ground arith

both_found :
    (now : ℤ) (buy sell : Text) (s : State)
    → (execute_trade now buy sell s).0 ≡ ok tt
    → (b : Order) × (KvStore.get buy s.orders ≡ some b)
      × ((o : Order) × (KvStore.get sell s.orders ≡ some o))
unfolding execute_trade get_order
both_found now buy sell s r = elim (Option-cases (KvStore.get buy s.orders)) [
  | inl missing ↦ absurd (ground arith)
  | inr (b, b_stored) ↦ elim (Option-cases (KvStore.get sell s.orders)) [
    | inl missing ↦ absurd (ground arith)
    | inr (o, o_stored) ↦ (b, b_stored, (o, o_stored))
  ]
]

settled-frame :
    (now : ℤ) (t : Trade) (s : State)
    → ((update_user_position_for_trade now t s).trades ≡ s.trades)
      × ((update_user_position_for_trade now t s).orders ≡ s.orders)
unfolding update_user_position_for_trade count_for set_user_position
settled-frame now t s = (refl, refl)

-- The orders and the trades are no part of a balance.
booked-balance :
    (now : ℤ) (t : Trade) (orders : KvStore Text Order) (trades : KvStore Text Trade) (s : State)
    (user : Text)
    → PositionsNamed s
    → balance_text user
        (update_user_position_for_trade now t (record s { orders = orders; trades = trades }))
      ≡ balance_text user s
unfolding balance_text PositionsNamed
booked-balance now t orders trades s user named =
    settled-balance now t (record s { orders = orders; trades = trades }) user named

-- Where every position stands under its owner, an accepted executeTrade was of a stored buy order
-- and a stored sell order that had not traded with each other; it stores their trade, marks both
-- as filled, and leaves every balance as it was.
pub execute_trade-Traded :
    (now : ℤ) (buy sell : Text) (s : State)
    → PositionsNamed s
    → (execute_trade now buy sell s).0 ≡ ok tt
    → Traded now buy sell s (execute_trade now buy sell s).1
execute_trade-Traded now buy sell s named r =
    let (b, b_stored, (o, o_stored)) = both_found now buy sell s r in
    let (b_side, o_side, fresh, after) = execute_trade-ok now buy sell s b o b_stored o_stored r in
    rw after (record {
      b = b;
      o = o;
      b_stored = b_stored;
      o_stored = o_stored;
      b_side = b_side;
      o_side = o_side;
      fresh = fresh;
      recorded = (settled-frame now _ _).0;
      filled = (settled-frame now _ _).1;
      balances = λ user. booked-balance now _ _ _ s user named;
    })

-- A pair of orders trades once.
pub execute_trade_once :
    (now : ℤ) (buy sell : Text) (s : State) (t : Trade)
    → KvStore.get (trade_id_of buy sell) s.trades ≡ some t
    → (x : Error) × ((execute_trade now buy sell s).0 ≡ err x)
execute_trade_once now buy sell s t there = elim (Outcome-cases (execute_trade now buy sell s).0) [
  | inr refused ↦ refused
  | inl (u, done) ↦
      let (b, b_stored, (o, o_stored)) = both_found now buy sell s done in
      absurd (ground (arith, execute_trade-ok now buy sell s b o b_stored o_stored done))
]
