-- ===== src/Anteil/Invariant/Spared.antt =====
-- The calls of x/anteil that touch neither auctions nor bids.
use volnix_protocol.Base.{
  ℕ, zero, suc, ◌≡◌, inl, inr, refl, sym, ap, ◌∙◌, subst, Bool, some, List, [], ◌∷◌, Text, ℤ,
  Outcome, arith, Outcome-cases,
}
use volnix_protocol.KvStore.{text_key}
use volnix_protocol.Strconv.{parse_uint, max_uint64}
use volnix_protocol.Anteil.Auctions.{absent, failing, verified, Accounts}
use volnix_protocol.Host.{Env, Host}
use volnix_protocol.Anteil.Types.{Trade, Order, Error}
use volnix_protocol.Anteil.Keeper.{
  State, set_order, update_order, get_order, cancel_order, put_order,
}
use volnix_protocol.Anteil.Invariant.{IsSound, untouched, Edit-IsSound}
use volnix_protocol.Anteil.Messages.{MsgPlaceOrder, MsgCancelOrder, place_order, cancel_own_order}
use volnix_protocol.Anteil.Distribution.{
  pay_all, pay, distribute_when_due, distribute_ant_to_citizens,
}
use volnix_protocol.Anteil.Trades.{
  execute_trade, update_user_position_for_trade, count_for, set_trade,
}
use volnix_protocol.Anteil.Positions.{burn_ant_from_user, set_user_position, update_user_position}
use volnix_protocol.Ident.Types.{VerifiedAccount}
use volnix_protocol.Anteil.Engine.{
  execute_matching, match_orders, update_user_positions, unless_filled, process_order_matching,
}
use volnix_protocol.Anteil.Auctions.{Accounts, verified}
use volnix_protocol.Anteil.Engine.Crossing.{execute_matching-cases}

-- Neither an auction nor a bid is touched.
pub record Spares (s s' : State) : Type 0 where
  pub auctions : s'.auctions ≡ s.auctions
  pub bids : s'.bids ≡ s.bids

pub Spares-trans : (s t u : State) → Spares s t → Spares t u → Spares s u
Spares-trans s t u a b = record { auctions = b.auctions ∙ a.auctions; bids = b.bids ∙ a.bids }

pub Spares-IsSound : (s s' : State) → Spares s s' → IsSound s → IsSound s'
Spares-IsSound s s' a = Edit-IsSound s s' (untouched a.auctions a.bids)

pub place_order-Spares :
    (e : Env) (req : MsgPlaceOrder) (s : State) → Spares s (place_order e req s).1
unfolding place_order set_order put_order
place_order-Spares e req s = record { auctions = ground arith; bids = ground arith }

pub update_order-Spares : (o : Order) (s : State) → Spares s (update_order o s).1
unfolding update_order put_order
update_order-Spares o s = record { auctions = ground arith; bids = ground arith }

pub cancel_own_order-Spares :
    (req : MsgCancelOrder) (s : State) → Spares s (cancel_own_order req s).1
unfolding cancel_own_order get_order cancel_order update_order put_order
cancel_own_order-Spares req s = record { auctions = ground arith; bids = ground arith }

pub update_user_position_for_trade-Spares :
    (now : ℤ) (t : Trade) (s : State) → Spares s (update_user_position_for_trade now t s)
unfolding update_user_position_for_trade count_for set_user_position
update_user_position_for_trade-Spares now t s = record { auctions = refl; bids = refl }

pub execute_trade-Spares : (now : ℤ) (b o : Text) (s : State) → Spares s (execute_trade now b o s).1
unfolding execute_trade get_order set_trade update_order put_order update_user_position_for_trade
    count_for set_user_position
execute_trade-Spares now b o s = record { auctions = ground arith; bids = ground arith }

pub burn_ant_from_user-Spares :
    (now : ℤ) (user : Text) (s : State) → Spares s (burn_ant_from_user now user s)
unfolding burn_ant_from_user set_user_position
burn_ant_from_user-Spares now user s = record { auctions = ground arith; bids = ground arith }

pub pay_all-Spares :
    (now : ℤ) (rate limit : ℕ) (cs : List VerifiedAccount) (s : State)
    → Spares s (pay_all now rate limit cs s)
unfolding pay_all
pay_all-Spares now rate limit [] s = record { auctions = refl; bids = refl }
pay_all-Spares now rate limit (c ∷ cs) s =
    Spares-trans s (pay now rate limit c s) _
      (unfold pay in record { auctions = ground arith; bids = ground arith })
      (pay_all-Spares now rate limit cs (pay now rate limit c s))

pub distribute-Spares :
    (e : Env) (accounts : Accounts) (s : State)
    → Spares s (distribute_ant_to_citizens e accounts s).1
unfolding distribute_ant_to_citizens
distribute-Spares e absent s = record { auctions = refl; bids = refl }
distribute-Spares e failing s = record { auctions = refl; bids = refl }
distribute-Spares e (verified cs) s =
    elim (Outcome-cases (parse_uint max_uint64 s.params.citizen_ant_reward_rate)) [
      | inr (x, bad) ↦ record { auctions = ground arith; bids = ground arith }
      | inl (rate, read) ↦
          elim (Outcome-cases (parse_uint max_uint64 s.params.citizen_ant_accumulation_limit)) [
            | inr (x, bad) ↦ record { auctions = ground arith; bids = ground arith }
            | inl (limit, also_read) ↦
                let paid = pay_all-Spares e.now rate limit cs s in
                record {
                  auctions = ground (arith, paid.auctions);
                  bids = ground (arith, paid.bids);
                }
          ]
    ]

pub distribute_when_due-Spares :
    (e : Env) (accounts : Accounts) (s : State) → Spares s (distribute_when_due e accounts s)
unfolding distribute_when_due
distribute_when_due-Spares e accounts s =
    let same = distribute-Spares e accounts s in
    record { auctions = ground (arith, same.auctions); bids = ground (arith, same.bids) }

match_orders-Spares :
    (h : Host) (now : ℤ) (b o : Order) (s : State) → Spares s (match_orders h now b o s).1
unfolding match_orders update_order set_trade put_order update_user_positions update_user_position
    set_user_position
match_orders-Spares h now b o s = record { auctions = ground arith; bids = ground arith }

unchanged : (s s' : State) → s' ≡ s → Spares s s'
unchanged s s' same = record { auctions = ap State.auctions same; bids = ap State.bids same }

execute_matching-Spares :
    (h : Host) (fuel : ℕ) (now : ℤ) (bs os : List Order) (s : State)
    (r : Outcome Error (Unit {0}) × State)
    → execute_matching h fuel now bs os s ≡ some r
    → Spares s r.1
unfolding execute_matching
execute_matching-Spares h fuel now [] os s r run = unchanged s r.1 (ground arith)
execute_matching-Spares h fuel now (b ∷ bs) [] s r run = unchanged s r.1 (ground arith)
execute_matching-Spares h zero now (b ∷ bs) (o ∷ os) s r run = absurd (ground arith)
execute_matching-Spares h (suc fuel) now (b ∷ bs) (o ∷ os) s r run =
    elim (execute_matching-cases h fuel now b o bs os s r run) [
      | inl same ↦ unchanged s r.1 same
      | inr (crossed, inl same) ↦ subst (Spares s) (sym same) (match_orders-Spares h now b o s)
      | inr (crossed, inr (after, done, more)) ↦
          Spares-trans s (match_orders h now b o s).1 r.1 (match_orders-Spares h now b o s) (
            execute_matching-Spares h fuel now (unless_filled after.0 bs) (unless_filled after.1 os)
              (match_orders h now b o s).1 r more)
    ]

pub matching-Spares :
    (h : Host) (arrange : (Order → Order → Bool) → List Order → List Order) (now : ℤ) (s : State)
    (r : Outcome Error (Unit {0}) × State)
    → process_order_matching h arrange now s ≡ some r
    → Spares s r.1
unfolding process_order_matching
matching-Spares h arrange now s r run = execute_matching-Spares h _ now _ _ s r run
