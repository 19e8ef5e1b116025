-- ===== src/Anteil/Distribution.antt =====
-- x/anteil/keeper/keeper.go: the daily ANT of citizens and validators.
pub mod Balances
pub mod Refinement
pub mod Period
use volnix_protocol.Base.{
  ℕ, ◌+◌, Bool, true, false, not, ◌&&◌, none, some, List, [], ◌∷◌, Text, codes, ℤ, ◌-ℤ◌, leb_ℤ, ltb,
  leb, if◌then◌else◌, ok, err, modify, ◌>>◌,
}
use volnix_protocol.KvStore.{KvStore, text_key}
use volnix_protocol.KvStore
use volnix_protocol.Anteil.Auctions.{Accounts, absent, failing, verified, process_auctions}
use volnix_protocol.Host.{Env}
use volnix_protocol.Anteil.Types.{
  UserPosition, new_user_position, unknown_accounts, parse_uint64, invalid_rate, invalid_limit,
}
use volnix_protocol.Anteil.Keeper.{State, Handler}
use volnix_protocol.Ident.Types.{VerifiedAccount}
use volnix_protocol.Anteil.Auctions.{Accounts, process_auctions, verified}
use volnix_protocol.Anteil.Trades.{wrap_uint64}
use volnix_protocol.Strconv.{format_uint, parse_uint, max_uint64}
use volnix_protocol.Lizenz.Neighbours.{Role}
use volnix_protocol.Ident.Types.{VerifiedAccount}

-- Whether an account takes part: the active citizens and validators.
abbrev has_role : Role → Bool
has_role Role.citizen = true
has_role Role.validator_role = true
has_role _ = false

abbrev pub is_recipient : VerifiedAccount → Bool
is_recipient c = has_role c.role && c.is_active

unfoldable pub position_of : ℤ → Text → State → UserPosition
position_of now user s = elim (KvStore.get user s.positions) [
  | some p ↦ p
  | none ↦ new_user_position now user (codes "0")
]

-- The sum is one of uint64.
unfoldable pub raised : ℕ → ℕ → ℕ → ℕ
raised rate limit balance =
    let sum = wrap_uint64 (balance + rate) in if ltb limit sum then limit else sum

abbrev pub with_balance : ℤ → ℕ → UserPosition → UserPosition
with_balance now balance p = record p {
  ant_balance = format_uint balance;
  available_ant = format_uint balance;
  last_activity = now;
}

-- The body of the loop for one account, whose position is stored under its address.
unfoldable pub pay : ℤ → ℕ → ℕ → VerifiedAccount → State → State
pay now rate limit c s =
    let p = position_of now c.address s in
    let balance = parse_uint64 p.ant_balance in
    if not (is_recipient c) then s else if leb limit balance then s else record s {
      positions =
          KvStore.set c.address (with_balance now (raised rate limit balance) p) s.positions;
    }

unfoldable pub pay_all : ℤ → ℕ → ℕ → List VerifiedAccount → State → State
pay_all now rate limit [] s = s
pay_all now rate limit (c ∷ cs) s = pay_all now rate limit cs (pay now rate limit c s)

unfoldable pub distribute_ant_to_citizens : Env → Accounts → Handler (Unit {0})
distribute_ant_to_citizens e absent s = (ok tt, s)
distribute_ant_to_citizens e failing s = (err unknown_accounts, s)
distribute_ant_to_citizens e (verified cs) s =
    elim (parse_uint max_uint64 s.params.citizen_ant_reward_rate) [
      | err x ↦ (err invalid_rate, s)
      | ok rate ↦ elim (parse_uint max_uint64 s.params.citizen_ant_accumulation_limit) [
        | err x ↦ (err invalid_limit, s)
        | ok limit ↦ (ok tt, pay_all e.now rate limit cs s)
      ]
    ]

-- Never before, or long enough ago.
unfoldable pub is_due : ℤ → State → Bool
is_due now s = elim s.last_distribution [
  | none ↦ true
  | some last ↦ leb_ℤ s.params.citizen_ant_distribution_period (now -ℤ last)
]

unfoldable pub distribute_when_due : Env → Accounts → State → State
distribute_when_due e accounts s =
    if is_due e.block_time s
    then elim (distribute_ant_to_citizens e accounts s).0 [
      | ok u ↦ record (distribute_ant_to_citizens e accounts s).1 {
        last_distribution = some e.block_time;
      }
      | err x ↦ (distribute_ant_to_citizens e accounts s).1
    ]
    else s

unfoldable pub begin_blocker : Env → Accounts → Handler (Unit {0})
begin_blocker e accounts = do process_auctions e; modify (distribute_when_due e accounts)
