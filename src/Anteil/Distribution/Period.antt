-- ===== src/Anteil/Distribution/Period.antt =====
-- x/anteil/keeper/keeper.go: how often BeginBlocker distributes.
use volnix_protocol.Base.{
  ℕ, ◌≡◌, inl, inr, refl, ◌∙◌, true, List, [], ◌∷◌, ℤ, ◌-ℤ◌, ltb_ℤ, ok, arith, Outcome-cases,
}
use volnix_protocol.Strconv.{parse_uint, max_uint64}
use volnix_protocol.Anteil.Auctions.{absent, failing, verified}
use volnix_protocol.Host.{Env}
use volnix_protocol.Anteil.Keeper.{State}
use volnix_protocol.Anteil.Auctions.{Accounts}
use volnix_protocol.Anteil.Distribution.{
  distribute_ant_to_citizens, distribute_when_due, is_due, pay_all, pay, VerifiedAccount,
}

pay-params :
    (now : ℤ) (rate limit : ℕ) (c : VerifiedAccount) (s : State)
    → (pay now rate limit c s).params ≡ s.params
unfolding pay
pay-params now rate limit c s = ground arith

pay_all-params :
    (now : ℤ) (rate limit : ℕ) (cs : List VerifiedAccount) (s : State)
    → (pay_all now rate limit cs s).params ≡ s.params
unfolding pay_all
pay_all-params now rate limit [] s = refl
pay_all-params now rate limit (c ∷ cs) s =
    pay_all-params now rate limit cs (pay now rate limit c s) ∙ pay-params now rate limit c s

distribute-params :
    (e : Env) (accounts : Accounts) (s : State)
    → (distribute_ant_to_citizens e accounts s).1.params ≡ s.params
unfolding distribute_ant_to_citizens
distribute-params e absent s = refl
distribute-params e failing s = refl
distribute-params e (verified cs) s =
    elim (Outcome-cases (parse_uint max_uint64 s.params.citizen_ant_reward_rate)) [
      | inr (x, bad) ↦ ground arith
      | inl (rate, read) ↦
          elim (Outcome-cases (parse_uint max_uint64 s.params.citizen_ant_accumulation_limit)) [
            | inr (x, bad) ↦ ground arith
            | inl (limit, also_read) ↦ ground (arith, pay_all-params e.now rate limit cs s)
          ]
    ]

-- After a distribution that was due and succeeded, a BeginBlocker whose block time is less than
-- the distribution period later distributes nothing.
pub distribute_once_per_period :
    (e later : Env) (accounts accounts' : Accounts) (s : State)
    → is_due e.block_time s ≡ true
    → (distribute_ant_to_citizens e accounts s).0 ≡ ok tt
    → ltb_ℤ (later.block_time -ℤ e.block_time) s.params.citizen_ant_distribution_period ≡ true
    → distribute_when_due later accounts' (distribute_when_due e accounts s)
      ≡ distribute_when_due e accounts s
unfolding distribute_when_due is_due
distribute_once_per_period e later accounts accounts' s due done soon =
    ground (arith, distribute-params e accounts s)
