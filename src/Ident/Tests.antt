-- ===== src/Ident/Tests.antt =====
-- Runs of x/ident with one citizen, and what the theorems say of them.
use volnix_protocol.Base.{
  ◌≡◌, refl, false, Option, none, some, [], ◌∷◌, Text, codes, text_eq, pos, ◌-ℤ◌, ltb_ℤ, ok, err,
  arith,
}
use volnix_protocol.KvStore.{KvStore, text_key}
use volnix_protocol.KvStore
use volnix_protocol.KvStore.Sorted.{AllAfter, IsSorted, text_order}
use volnix_protocol.Samples.{at_hour}
use volnix_protocol.Lizenz.Neighbours.{Role}
use volnix_protocol.Anteil
use volnix_protocol.Anteil.Positions.{burn_ant_from_user}
use volnix_protocol.Ident.Types.{
  VerifiedAccount, Error, default_params, new_verified_account, validate_account,
  duplicate_identity_hash,
}
use volnix_protocol.Ident.Keeper.{State, set_verified_account}
use volnix_protocol.Ident.Blocks.{end_blocker, check_account_activity, whole_seconds}
use volnix_protocol.Ident.Messages.{MsgMigrateRole, migrate_role}
use volnix_protocol.Ident.Migration.{migrate_role_refused}
use volnix_protocol.Ident.Renewal.{IsRegistered}
use volnix_protocol.Ident.Activity.{nobody_demoted}

-- The anteil keeper that burns ANT, with empty stores.
abbrev market : Anteil.Keeper.State
market = record {
  params = Anteil.Params.default_params;
  orders = [];
  trades = [];
  positions = [];
  auctions = [];
  bids = [];
  last_distribution = none;
}

abbrev ann : VerifiedAccount
ann = new_verified_account (pos 0) (codes "ann") Role.citizen (codes "hash")

abbrev town : State Anteil.Keeper.State
town = record {
  params = default_params;
  accounts = (codes "ann", ann) ∷ [];
  identity_hashes = (codes "hash", codes "ann") ∷ [];
  migrations = [];
  world = market;
}

-- An identity that is in use is refused for another address.
reuse_refused :
    (set_verified_account Anteil.Keeper.State (record ann { address = codes "bob" }) town).0
    ≡ err duplicate_identity_hash
unfolding set_verified_account validate_account KvStore.get text_eq
reuse_refused = refl

abbrev move_out : MsgMigrateRole
move_out = record {
  from_address = codes "ann";
  to_address = codes "ann2";
  zkp_proof = codes "proof";
}

migrate_role_refused_example :
    (x : Error) × ((migrate_role Anteil.Keeper.State (pos 0) move_out town).0 ≡ err x)
migrate_role_refused_example =
    migrate_role_refused Anteil.Keeper.State (pos 0) move_out town (omega arith)

town-IsSorted : IsSorted town.accounts
unfolding IsSorted AllAfter
town-IsSorted = (tt, tt)

town-IsRegistered : IsRegistered town.accounts
unfolding IsRegistered validate_account
town-IsRegistered = (refl, refl, tt)

citizens_recent :
    ltb_ℤ town.params.citizen_activity_period
      ((at_hour 2).block_time -ℤ whole_seconds (at_hour 1).block_time)
    ≡ false
unfolding ◌-ℤ◌
citizens_recent = refl

validators_recent :
    ltb_ℤ town.params.validator_activity_period
      ((at_hour 2).block_time -ℤ whole_seconds (at_hour 1).block_time)
    ≡ false
unfolding ◌-ℤ◌
validators_recent = refl

abbrev burner : Option (Text → Anteil.Keeper.State → Anteil.Keeper.State)
burner = some (burn_ant_from_user (pos 0))

nobody_demoted_example :
    check_account_activity Anteil.Keeper.State burner
      (at_hour 2)
      (end_blocker Anteil.Keeper.State (at_hour 1) town).1
    ≡ (ok tt, (end_blocker Anteil.Keeper.State (at_hour 1) town).1)
nobody_demoted_example =
    nobody_demoted Anteil.Keeper.State burner (at_hour 1) (at_hour 2) town town-IsSorted
      town-IsRegistered citizens_recent validators_recent
