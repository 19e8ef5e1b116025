-- ===== src/Anteil/Distribution/Refinement.antt =====
-- x/anteil/keeper/keeper.go: the loop of DistributeAntToCitizens against the distribution on plain
-- numbers, and the limit.
use volnix_protocol.Base.{
  ℕ, ◌+◌, ◌≤◌, ◌≡◌, inl, inr, refl, ap, ◌∙◌, fun_ext, ◌&&◌, List, [], ◌∷◌, Text, text_eq, ℤ, leb,
  if◌then◌else◌, ok, arith, Outcome-cases, Bool-cases,
}
use volnix_protocol.Strconv.{parse_uint, max_uint64}
use volnix_protocol.Strconv.Range.{parse_uint_le}
use volnix_protocol.Host.{Env}
use volnix_protocol.Ident.Types.{VerifiedAccount}
use volnix_protocol.Anteil.Keeper.{State}
use volnix_protocol.Anteil.Auctions.{Accounts, absent, failing, verified}
use volnix_protocol.Anteil.Distribution.{pay, pay_all, distribute_ant_to_citizens, is_recipient}
use volnix_protocol.Anteil.Distribution.Balances.{
  balance, grant, granted, topped_up, pay-balance, raised-eq-grant, raised_le,
}

topped_up-eq-grant :
    (rate limit b : ℕ) → limit + rate ≤ max_uint64 → topped_up rate limit b ≡ grant rate limit b
topped_up-eq-grant rate limit b room = elim (Bool-cases (leb limit b)) [
  | inl full ↦ rw full refl
  | inr below ↦ rw below (raised-eq-grant rate limit b room below ∙ rw below refl)
]

pay_all-granted :
    (now : ℤ) (rate limit : ℕ) (cs : List VerifiedAccount) (s : State)
    → limit + rate ≤ max_uint64
    → balance (pay_all now rate limit cs s) ≡ granted rate limit cs (balance s)
unfolding pay_all granted
pay_all-granted now rate limit [] s room = refl
pay_all-granted now rate limit (c ∷ cs) s room =
    pay_all-granted now rate limit cs (pay now rate limit c s) room
    ∙ ap (granted rate limit cs) (
        fun_ext λ user.
          pay-balance now rate limit c s user (omega arith)
          ∙ ap (λ (n : ℕ). if is_recipient c && text_eq c.address user then n else balance s user)
              (topped_up-eq-grant rate limit (balance s user) room))

-- While the limit and the rate add up to a uint64, DistributeAntToCitizens succeeds and does to
-- the balances what the distribution on plain numbers does: each active citizen or validator in
-- turn gets the rate, up to the limit, and no other balance changes.
pub distribute-granted :
    (e : Env) (cs : List VerifiedAccount) (s : State) (rate limit : ℕ)
    → parse_uint max_uint64 s.params.citizen_ant_reward_rate ≡ ok rate
    → parse_uint max_uint64 s.params.citizen_ant_accumulation_limit ≡ ok limit
    → limit + rate ≤ max_uint64
    → ((distribute_ant_to_citizens e (verified cs) s).0 ≡ ok tt)
      × (balance (distribute_ant_to_citizens e (verified cs) s).1
          ≡ granted rate limit cs (balance s))
unfolding distribute_ant_to_citizens
distribute-granted e cs s rate limit read_rate read_limit room =
    ground (arith, pay_all-granted e.now rate limit cs s room)

abbrev Within : ℕ → State → Type 0
Within limit s = (user : Text) → balance s user ≤ limit

pay-Within :
    (now : ℤ) (rate limit : ℕ) (c : VerifiedAccount) (s : State)
    → limit ≤ max_uint64
    → Within limit s
    → Within limit (pay now rate limit c s)
pay-Within now rate limit c s small within user = ground (
  arith,
  pay-balance now rate limit c s user small,
  raised_le rate limit (balance s user),
  within user,
)

pay_all-Within :
    (now : ℤ) (rate limit : ℕ) (cs : List VerifiedAccount) (s : State)
    → limit ≤ max_uint64
    → Within limit s
    → Within limit (pay_all now rate limit cs s)
unfolding pay_all
pay_all-Within now rate limit [] s small within = within
pay_all-Within now rate limit (c ∷ cs) s small within =
    pay_all-Within now rate limit cs (pay now rate limit c s) small
      (pay-Within now rate limit c s small within)

-- If no balance is above the accumulation limit, none is after DistributeAntToCitizens, whatever
-- the rate, overflow of the sum included, and whatever the ident keeper answers.
pub distribute-bounded :
    (e : Env) (accounts : Accounts) (s : State) (limit : ℕ)
    → parse_uint max_uint64 s.params.citizen_ant_accumulation_limit ≡ ok limit
    → ((user : Text) → balance s user ≤ limit)
    → (user : Text) → balance (distribute_ant_to_citizens e accounts s).1 user ≤ limit
unfolding distribute_ant_to_citizens
distribute-bounded e absent s limit read within user = within user
distribute-bounded e failing s limit read within user = within user
distribute-bounded e (verified cs) s limit read within user =
    elim (Outcome-cases (parse_uint max_uint64 s.params.citizen_ant_reward_rate)) [
      | inr (x, bad) ↦ ground (arith, within user)
      | inl (rate, read_rate) ↦ ground (
        arith,
        pay_all-Within e.now rate limit cs s
            (parse_uint_le max_uint64 s.params.citizen_ant_accumulation_limit limit read) within
            user,
      )
    ]
