-- ===== src/Lizenz/Tests.antt =====
-- Runs of x/lizenz with one validator, and what the theorems say of them.
use volnix_protocol.Base.{
  ℕ, ◌+◌, ◌-◌, ◌≡◌, ◌≢◌, refl, ok, err, some, true, codes, text_eq, [], ◌∷◌, Text, pos, ltb_ℤ, ◌-ℤ◌,
  ◌+ℤ◌,
}
use volnix_protocol.Strconv.{parse_int, parse_uint, format_int, format_uint}
use volnix_protocol.KvStore.{text_key}
use volnix_protocol.KvStore
use volnix_protocol.KvStore.Sorted.{IsSorted, AllAfter}
use volnix_protocol.Samples.{host, at_hour}
use volnix_protocol.Lizenz.Params.{default_params}
use volnix_protocol.Lizenz.Types.{
  ActivatedLizenz, DeactivatingLizenz, below_min_amount, new_deactivating_lizenz,
  is_activated_lizenz_valid, is_deactivating_lizenz_valid,
}
use volnix_protocol.Lizenz.Neighbours.{Neighbours, Role}
use volnix_protocol.Lizenz.Keeper.{
  State, set_activated_lizenz, delete_activated_lizenz, validate_identity_and_role,
  validate_lizenz_amount, validate_max_lzn_activation_limit, get_total_activated_lizenz,
  sum_amounts, within_limit, current_amount, get_activated_lizenz, store_lizenz,
  register_validator_in_consensus,
}
use volnix_protocol.Lizenz.Messages.{
  MsgActivateLzn, MsgDeactivateLzn, activate_lzn, deactivate_lzn, requested_lizenz,
}
use volnix_protocol.Lizenz.Activation.{Activated, set_activated_lizenz-Activated}
use volnix_protocol.Lizenz.Retirement.{Swept, IsNamed, inactive_at}
use volnix_protocol.Lizenz.Retirement.Sweep.{check_inactive_lizenz-Swept, begin_blocker_stuck}
use volnix_protocol.Lizenz.Blocks.{
  check_inactive_lizenz, begin_blocker, retire_inactive, retire, set_deactivating_lizenz,
  process_deactivating_lizenz, release_ended, delete_deactivating_lizenz,
}
use volnix_protocol.Lizenz.Release.{IsLabelled, unless_ended, process_deactivating_lizenz_lem}
use volnix_protocol.Lizenz.Invariant.{IsSound, Every}
use volnix_protocol.Lizenz.Invariant.Steps.{calls, calls-IsSound, activate, begin_block}
use volnix_protocol.Lizenz.Unbacked.{plus_sign_locks_nothing}
use volnix_protocol.Lizenz.RoundTrip.{deactivate-activate}

-- The world is the amount in the escrow; everyone is a validator with an active account.
abbrev village : Neighbours
village = record {
  World = ℕ;
  has_ident = true;
  has_bank = true;
  has_consensus = true;
  has_anteil = true;
  get_verified_account = λ w a. some (record { is_active = true; role = Role.validator_role });
  lock = λ a v w. (true, w + v);
  unlock = λ a v w. (true, w - v);
  set_validator = λ v t w. (true, w);
  set_validator_weight = λ v a w. (true, w);
  set_user_position = λ v w. (true, w);
}

abbrev fresh_state : State village
fresh_state = record {
  params = default_params;
  activated = [];
  deactivating = [];
  moa_statuses = [];
  world = 0;
}

fresh-IsSound : IsSound village default_params fresh_state
unfolding Every IsSorted IsNamed
fresh-IsSound = record {
  params_same = refl;
  licensed = tt;
  leaving = tt;
  activated_sorted = tt;
  activated_named = tt;
  deactivating_sorted = tt;
}

abbrev request : Text → MsgActivateLzn
request amount = record { validator = codes "val"; amount = amount; identity_hash = codes "hash" }

abbrev give_back : MsgDeactivateLzn
give_back = record { validator = codes "val"; amount = codes "2000000"; reason = codes "leaving" }

abbrev licence : ActivatedLizenz
licence = requested_lizenz (at_hour 0) (request (codes "2000000"))

set_accepted : (set_activated_lizenz village host (at_hour 0) licence fresh_state).0 ≡ ok tt
unfolding set_activated_lizenz is_activated_lizenz_valid validate_identity_and_role KvStore.get
    validate_lizenz_amount parse_int parse_uint validate_max_lzn_activation_limit
    get_total_activated_lizenz format_int sum_amounts KvStore.values format_uint within_limit
    current_amount get_activated_lizenz
set_accepted = refl

activate_accepted :
    (activate_lzn village host (at_hour 0) (request (codes "2000000")) fresh_state).0 ≡ ok tt
unfolding activate_lzn set_activated_lizenz is_activated_lizenz_valid validate_identity_and_role
    KvStore.get validate_lizenz_amount parse_int parse_uint validate_max_lzn_activation_limit
    get_total_activated_lizenz format_int sum_amounts KvStore.values format_uint within_limit
    current_amount get_activated_lizenz
activate_accepted = refl

-- The amount with a plus sign.
abbrev signed_licence : ActivatedLizenz
signed_licence = requested_lizenz (at_hour 0) (request (codes "+2000000"))

plus_accepted : (set_activated_lizenz village host (at_hour 0) signed_licence fresh_state).0 ≡ ok tt
unfolding set_activated_lizenz is_activated_lizenz_valid validate_identity_and_role KvStore.get
    validate_lizenz_amount parse_int parse_uint validate_max_lzn_activation_limit
    get_total_activated_lizenz format_int sum_amounts KvStore.values format_uint within_limit
    current_amount get_activated_lizenz
plus_accepted = refl

plus_sign_locks_nothing_example :
    (KvStore.get
        (codes "val")
        (set_activated_lizenz village host (at_hour 0) signed_licence fresh_state).1.activated
      ≡ some signed_licence)
    × ((set_activated_lizenz village host (at_hour 0) signed_licence fresh_state).1.world
        ≡ (register_validator_in_consensus village signed_licence 0).1)
plus_sign_locks_nothing_example =
    plus_sign_locks_nothing village host (at_hour 0) signed_licence fresh_state (codes "2000000")
      plus_accepted refl

poor_refused :
    (set_activated_lizenz village host
      (at_hour 0)
      (requested_lizenz (at_hour 0) (request (codes "5")))
      fresh_state).0
    ≡ err below_min_amount
unfolding set_activated_lizenz is_activated_lizenz_valid validate_identity_and_role KvStore.get
    validate_lizenz_amount parse_int parse_uint validate_max_lzn_activation_limit
    get_total_activated_lizenz format_int sum_amounts KvStore.values format_uint within_limit
    current_amount get_activated_lizenz
poor_refused = refl

deactivate_accepted :
    (deactivate_lzn village host
      (at_hour 1)
      give_back
      (activate_lzn village host (at_hour 0) (request (codes "2000000")) fresh_state).1).0
    ≡ ok tt
unfolding deactivate_lzn delete_activated_lizenz activate_lzn set_activated_lizenz
    is_activated_lizenz_valid validate_identity_and_role KvStore.get validate_lizenz_amount
    parse_int parse_uint validate_max_lzn_activation_limit get_total_activated_lizenz format_int
    sum_amounts KvStore.values format_uint within_limit current_amount get_activated_lizenz
    KvStore.set store_lizenz register_validator_in_consensus text_eq
deactivate_accepted = refl

abbrev idle_state : State village
idle_state = record fresh_state { activated = (codes "val", licence) ∷ [] }

idle-IsSorted : IsSorted idle_state.activated
unfolding IsSorted AllAfter
idle-IsSorted = (tt, tt)

idle-IsNamed : IsNamed idle_state.activated
unfolding IsNamed
idle-IsNamed = (refl, tt)

sweep_accepted : (check_inactive_lizenz village (at_hour 200) idle_state).0 ≡ ok tt
unfolding check_inactive_lizenz retire_inactive retire set_deactivating_lizenz
    is_deactivating_lizenz_valid delete_activated_lizenz KvStore.values KvStore.get KvStore.set
    text_eq ◌-ℤ◌ ◌+ℤ◌ parse_uint
sweep_accepted = refl

abbrev leaving : DeactivatingLizenz
leaving = new_deactivating_lizenz (pos 0) (codes "val") (codes "2000000") (codes "inactivity")

abbrev twice_idle_state : State village
twice_idle_state = record idle_state { deactivating = (codes "val", leaving) ∷ [] }

set_activated_lizenz-Activated_example :
    Activated village host
      (at_hour 0)
      licence
      fresh_state
      (set_activated_lizenz village host (at_hour 0) licence fresh_state).1
set_activated_lizenz-Activated_example =
    set_activated_lizenz-Activated village host (at_hour 0) licence fresh_state set_accepted

deactivate-activate_example :
    KvStore.get
      (codes "val")
      (deactivate_lzn village host
        (at_hour 1)
        give_back
        (activate_lzn village host
          (at_hour 0)
          (request (codes "2000000"))
          fresh_state).1).1.activated
    ≡ KvStore.get (codes "val") fresh_state.activated
deactivate-activate_example =
    deactivate-activate village host (at_hour 0) (at_hour 1) (request (codes "2000000")) give_back
      fresh_state refl activate_accepted deactivate_accepted (codes "val")

check_inactive_lizenz-Swept_example :
    Swept village
      (at_hour 200).now
      (codes "val")
      (inactive_at
        (codes "val")
        ((at_hour 200).block_time -ℤ idle_state.params.inactivity_period)
        idle_state.activated)
      idle_state
      (check_inactive_lizenz village (at_hour 200) idle_state).1
check_inactive_lizenz-Swept_example =
    check_inactive_lizenz-Swept village (at_hour 200) idle_state (codes "val") idle-IsSorted
      idle-IsNamed sweep_accepted

licence_found : KvStore.get (codes "val") idle_state.activated ≡ some licence
unfolding KvStore.get text_eq
licence_found = refl

leaving_found : KvStore.get (codes "val") twice_idle_state.deactivating ≡ some leaving
unfolding KvStore.get text_eq
leaving_found = refl

licence_idle :
    ltb_ℤ licence.last_activity
      ((at_hour 200).block_time -ℤ twice_idle_state.params.inactivity_period)
    ≡ true
unfolding ◌-ℤ◌
licence_idle = refl

begin_blocker_stuck_example : (begin_blocker village (at_hour 200) twice_idle_state).0 ≢ ok tt
begin_blocker_stuck_example =
    begin_blocker_stuck village (at_hour 200) twice_idle_state (codes "val") licence leaving
      idle-IsSorted idle-IsNamed licence_found licence_idle leaving_found

calls-IsSound_example : IsSound village default_params (
    calls village host
      (activate (at_hour 0) (request (codes "2000000")) ∷ begin_block (at_hour 200) ∷ [])
      fresh_state)
calls-IsSound_example =
    calls-IsSound village host default_params
      (activate (at_hour 0) (request (codes "2000000")) ∷ begin_block (at_hour 200) ∷ [])
      fresh_state fresh-IsSound

leaving-IsSorted : IsSorted twice_idle_state.deactivating
unfolding IsSorted AllAfter
leaving-IsSorted = (tt, tt)

leaving-IsLabelled : IsLabelled twice_idle_state.deactivating
unfolding IsLabelled
leaving-IsLabelled = (refl, tt)

release_accepted : (process_deactivating_lizenz village (at_hour 200) twice_idle_state).0 ≡ ok tt
unfolding process_deactivating_lizenz release_ended delete_deactivating_lizenz KvStore.values
    KvStore.get text_eq ◌-ℤ◌ ◌+ℤ◌
release_accepted = refl

process_deactivating_lizenz_lem_example :
    (KvStore.get
        (codes "val")
        (process_deactivating_lizenz village (at_hour 200) twice_idle_state).1.deactivating
      ≡ unless_ended
          ((at_hour 200).block_time -ℤ twice_idle_state.params.deactivation_period)
          (KvStore.get (codes "val") twice_idle_state.deactivating))
    × ((process_deactivating_lizenz village (at_hour 200) twice_idle_state).1.activated
        ≡ twice_idle_state.activated)
process_deactivating_lizenz_lem_example =
    process_deactivating_lizenz_lem village (at_hour 200) twice_idle_state (codes "val")
      leaving-IsSorted leaving-IsLabelled release_accepted
