-- ===== src/Lizenz/Moa.antt =====
-- x/lizenz/keeper/keeper.go: the minimum obligation of activity (MOA) of a validator.
use volnix_protocol.Base.{
  Bool, Text, codes, is_empty, if◌then◌else◌, ok, err, pure, lift, or_raise, modify, ◌>>=◌, ◌>>◌,
  leb_ℤ,
}
use volnix_protocol.Strconv.{parse_int}
use volnix_protocol.KvStore.{KvStore, text_key}
use volnix_protocol.KvStore
use volnix_protocol.Host.{Host, Env}
use volnix_protocol.Lizenz.Types.{
  MoaStatus, is_moa_status_valid, update_moa_status_activity, update_activated_lizenz_activity,
  calculate_moa, empty_validator, lizenz_not_found, invalid_current_moa, invalid_required_moa,
}
use volnix_protocol.Lizenz.Neighbours.{Neighbours}
use volnix_protocol.Lizenz.Keeper.{Handler, get_activated_lizenz, update_activated_lizenz}

module _ (n : Neighbours) where
  unfoldable pub set_moa_status : MoaStatus → Handler n (Unit {0})
  set_moa_status m = do
    lift (is_moa_status_valid m)
    modify λ s. record s { moa_statuses = KvStore.set m.validator m s.moa_statuses }

  unfoldable pub get_moa_status : Text → Handler n MoaStatus
  get_moa_status validator s =
      if is_empty validator
      then (err empty_validator, s)
      else or_raise (KvStore.get validator s.moa_statuses) lizenz_not_found s

  unfoldable pub check_moa : Text → Handler n Bool
  check_moa validator = do
    m ← get_moa_status validator
    current ←
        lift (elim (parse_int m.current_moa) [ ok z ↦ ok z | err x ↦ err invalid_current_moa ])
    required ←
        lift (elim (parse_int m.required_moa) [ ok z ↦ ok z | err x ↦ err invalid_required_moa ])
    pure (leb_ℤ required current)

  -- UpdateLizenzActivity, in its two halves; what is not stored is passed over.
  unfoldable pub touch_lizenz : Host → Env → Text → Handler n (Unit {0})
  touch_lizenz h e validator s = elim (get_activated_lizenz n validator s).0 [
    | ok l ↦ update_activated_lizenz n h (update_activated_lizenz_activity e.now l) s
    | err x ↦ (ok tt, s)
  ]

  unfoldable pub touch_moa_status : Env → Text → Handler n (Unit {0})
  touch_moa_status e validator s = elim (get_moa_status validator s).0 [
    | ok m ↦
        set_moa_status (update_moa_status_activity e.now (calculate_moa (codes "activity_data")) m)
          s
    | err x ↦ (ok tt, s)
  ]

  unfoldable pub update_lizenz_activity : Host → Env → Text → Handler n (Unit {0})
  update_lizenz_activity h e validator = touch_lizenz h e validator >> touch_moa_status e validator
