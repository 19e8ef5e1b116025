-- ===== src/Lizenz/Blocks.antt =====
-- x/lizenz/keeper/keeper.go: licences in deactivation, and what BeginBlocker does to the inactive.
use volnix_protocol.Base.{
  is_some, not, List, [], ◌∷◌, Text, codes, is_empty, if◌then◌else◌, ok, err, gets, lift, or_raise,
  modify, raise_if, ◌>>=◌, ◌>>◌, ℤ, ◌-ℤ◌, ltb_ℤ,
}
use volnix_protocol.KvStore.{KvStore, text_key}
use volnix_protocol.KvStore
use volnix_protocol.Host.{Env}
use volnix_protocol.Lizenz.Types.{
  ActivatedLizenz, DeactivatingLizenz, new_deactivating_lizenz, is_deactivating_lizenz_valid,
  lizenz_already_exists, lizenz_not_found, empty_validator,
}
use volnix_protocol.Lizenz.Neighbours.{Neighbours}
use volnix_protocol.Lizenz.Keeper.{State, Handler, delete_activated_lizenz}

module _ (n : Neighbours) where
  unfoldable pub set_deactivating_lizenz : DeactivatingLizenz → Handler n (Unit {0})
  set_deactivating_lizenz l = do
    lift (is_deactivating_lizenz_valid l)
    exists ← gets (λ (s : State n). is_some (KvStore.get l.validator s.deactivating))
    raise_if exists lizenz_already_exists
    modify λ s. record s { deactivating = KvStore.set l.validator l s.deactivating }

  unfoldable pub get_deactivating_lizenz : Text → Handler n DeactivatingLizenz
  get_deactivating_lizenz validator s =
      if is_empty validator
      then (err empty_validator, s)
      else or_raise (KvStore.get validator s.deactivating) lizenz_not_found s

  unfoldable pub delete_deactivating_lizenz : Text → Handler n (Unit {0})
  delete_deactivating_lizenz validator = do
    raise_if (is_empty validator) empty_validator
    exists ← gets (λ (s : State n). is_some (KvStore.get validator s.deactivating))
    raise_if (not exists) lizenz_not_found
    modify λ s. record s { deactivating = KvStore.delete validator s.deactivating }

  -- Moves one licence into deactivation.
  unfoldable pub retire : Env → ActivatedLizenz → Handler n (Unit {0})
  retire e l = do
    set_deactivating_lizenz
        (new_deactivating_lizenz e.now l.validator l.amount (codes "inactivity"))
    delete_activated_lizenz n e l.validator

  -- The loop of CheckInactiveLizenz over the licences that were stored when it began.
  unfoldable pub retire_inactive : Env → ℤ → List ActivatedLizenz → Handler n (Unit {0})
  retire_inactive e threshold [] s = (ok tt, s)
  retire_inactive e threshold (l ∷ ls) s =
      let rest = retire_inactive e threshold ls in
      if ltb_ℤ l.last_activity threshold then (retire e l >>= λ _. rest) s else rest s

  unfoldable pub check_inactive_lizenz : Env → Handler n (Unit {0})
  check_inactive_lizenz e s =
      retire_inactive e (e.block_time -ℤ s.params.inactivity_period) (KvStore.values s.activated) s

  -- The loop of ProcessDeactivatingLizenz.
  unfoldable pub release_ended : ℤ → List DeactivatingLizenz → Handler n (Unit {0})
  release_ended threshold [] s = (ok tt, s)
  release_ended threshold (l ∷ ls) s =
      let rest = release_ended threshold ls in
      if ltb_ℤ l.deactivation_end threshold
      then (delete_deactivating_lizenz l.validator >>= λ _. rest) s
      else rest s

  unfoldable pub process_deactivating_lizenz : Env → Handler n (Unit {0})
  process_deactivating_lizenz e s =
      release_ended (e.block_time -ℤ s.params.deactivation_period) (KvStore.values s.deactivating) s

  unfoldable pub begin_blocker : Env → Handler n (Unit {0})
  begin_blocker e = check_inactive_lizenz e >> process_deactivating_lizenz e
