-- ===== src/Ident/Blocks.antt =====
-- x/ident/keeper/keeper.go: BeginBlocker and EndBlocker.
use volnix_protocol.Base.{
  ◌+◌, ◌-◌, ◌*◌, ◌/◌, ◌^◌, Bool, false, Option, none, some, List, [], ◌∷◌, Text, ℤ, pos, negsuc,
  ◌-ℤ◌, ltb_ℤ, if◌then◌else◌, ok, modify, ◌>>=◌, ◌>>◌,
}
use volnix_protocol.KvStore.{KvStore, text_key}
use volnix_protocol.KvStore
use volnix_protocol.Host.{Env}
use volnix_protocol.Lizenz.Neighbours.{Role}
use volnix_protocol.Ident.Types.{VerifiedAccount, RoleMigration, Params, is_citizen}
use volnix_protocol.Ident.Keeper.{
  State, Handler, update_verified_account, release_identity_hash, execute_role_migration,
  get_all_verified_accounts,
}

-- How long an account of the role may be inactive; guests are skipped.
abbrev pub activity_period : Params → Role → Option ℤ
activity_period p Role.citizen = some p.citizen_activity_period
activity_period p Role.validator_role = some p.validator_activity_period
activity_period p Role.guest = none
activity_period p Role.unspecified = none

unfoldable pub is_inactive : Params → ℤ → VerifiedAccount → Bool
is_inactive p now a = elim (activity_period p a.role) [
  | none ↦ false
  | some period ↦ ltb_ℤ period (now -ℤ a.last_active)
]

-- An instant in whole seconds: what Unix keeps of it.
abbrev pub whole_seconds : ℤ → ℤ
whole_seconds (pos n) = pos (n / 10 ^ 9 * 10 ^ 9)
whole_seconds (negsuc n) = negsuc ((n / 10 ^ 9 + 1) * 10 ^ 9 - 1)

module _ (W : Type 0) where
  -- GetAllRoleMigrations
  unfoldable pub get_all_role_migrations : State W → List RoleMigration
  get_all_role_migrations s = KvStore.values s.migrations

  -- The loop of processRoleMigrations. What fails is logged; its writes stay.
  unfoldable pub execute_pending : ℤ → List RoleMigration → State W → State W
  execute_pending now [] s = s
  execute_pending now (m ∷ ms) s =
      execute_pending now ms (
        if m.is_completed
        then s
        else (execute_role_migration W now m.from_address m.to_address s).1)

  unfoldable pub process_role_migrations : ℤ → State W → State W
  process_role_migrations now s = execute_pending now (get_all_role_migrations s) s

  -- The loop of updateAccountActivity over the accounts that were stored when it began.
  unfoldable pub touch_all : ℤ → List VerifiedAccount → Handler W (Unit {0})
  touch_all seconds [] s = (ok tt, s)
  touch_all seconds (a ∷ rest) s =
      let more = touch_all seconds rest in
      (update_verified_account W (record a { last_active = seconds }) >>= λ _. more) s

  unfoldable pub end_blocker : Env → Handler W (Unit {0})
  end_blocker e s = touch_all (whole_seconds e.block_time) (get_all_verified_accounts W s) s

  -- `burn` is BurnAntFromUser of the anteil keeper, whose errors are logged, where it is set.
  module _ (burn : Option (Text → W → W)) where
    unfoldable pub burn_ant : VerifiedAccount → State W → State W
    burn_ant a s = elim burn [
      | none ↦ s
      | some from_user ↦
          if is_citizen a.role then record s { world = from_user a.address s.world } else s
    ]

    unfoldable pub demote : VerifiedAccount → Handler W (Unit {0})
    demote a = do
      modify (burn_ant a)
      modify (release_identity_hash W a.address)
      update_verified_account W (record a { role = Role.guest })

    -- The loop of checkAccountActivity.
    unfoldable pub demote_inactive : Params → ℤ → List VerifiedAccount → Handler W (Unit {0})
    demote_inactive p now [] s = (ok tt, s)
    demote_inactive p now (a ∷ rest) s =
        let more = demote_inactive p now rest in
        if is_inactive p now a then (demote a >>= λ _. more) s else more s

    unfoldable pub check_account_activity : Env → Handler W (Unit {0})
    check_account_activity e s =
        demote_inactive s.params e.block_time (get_all_verified_accounts W s) s

    unfoldable pub begin_blocker : Env → Handler W (Unit {0})
    begin_blocker e = do check_account_activity e; modify (process_role_migrations e.now)
