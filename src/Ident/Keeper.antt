-- ===== src/Ident/Keeper.antt =====
-- x/ident/keeper/keeper.go: verified accounts, the index of their identity hashes, and role
-- migrations.
use volnix_protocol.Base.{
  ℕ, ◌+◌, Bool, true, false, not, ◌&&◌, ◌||◌, none, some, List, [], ◌∷◌, Text, is_empty, text_eq, ℤ,
  ltb, leb, if◌then◌else◌, Outcome, ok, err, Action, gets, lift, or_raise, modify, raise_if, ◌>>=◌,
  ◌>>◌, is_some,
}
use volnix_protocol.KvStore.{KvStore, text_key}
use volnix_protocol.KvStore
use volnix_protocol.Lizenz.Neighbours.{Role}
use volnix_protocol.Anteil.Types.{◌⁀◌}
use volnix_protocol.Ident.Types.{
  VerifiedAccount, RoleMigration, Params, Error, validate_account, with_role, account_not_found,
  role_migration_not_found, duplicate_identity_hash, account_already_exists, limit_exceeded,
  invalid_migration_status, already_verified, is_citizen, is_unspecified, is_validator_role,
  invalid_role, is_guest, invalid_role_choice, downgrade_not_allowed,
}

-- `W` is the state of the anteil keeper, which burns ANT. A migration stands under its two
-- addresses, joined by `_`.
pub record State (W : Type 0) : Type 0 where
  pub params : Params
  pub accounts : KvStore Text VerifiedAccount
  pub identity_hashes : KvStore Text Text
  pub migrations : KvStore Text RoleMigration
  pub world : W

-- The accounts of one role.
unfoldable pub count_role : (Role → Bool) → List VerifiedAccount → ℕ
count_role has_role [] = 0
count_role has_role (a ∷ rest) = (if has_role a.role then 1 else 0) + count_role has_role rest

-- Old role, new role.
unfoldable pub validate_role_change : Role → Role → Outcome Error (Unit {0})
validate_role_change old new =
    if is_unspecified new
    then err invalid_role
    else if is_validator_role old && is_guest new
    then err downgrade_not_allowed
    else if is_citizen old && is_guest new
    then err downgrade_not_allowed
    else ok tt

module _ (W : Type 0) where
  abbrev pub Handler : Type 0 → Type 0
  Handler = Action (State W) Error

  unfoldable pub get_verified_account : Text → Handler VerifiedAccount
  get_verified_account address s = or_raise (KvStore.get address s.accounts) account_not_found s

  unfoldable pub get_all_verified_accounts : State W → List VerifiedAccount
  get_all_verified_accounts s = KvStore.values s.accounts

  unfoldable pub check_limit : (Role → Bool) → State W → Outcome Error (Unit {0})
  check_limit has_role s =
      if leb s.params.max_identities_per_address (count_role has_role (get_all_verified_accounts s))
      then err limit_exceeded
      else ok tt

  unfoldable pub check_account_limits : Role → State W → Outcome Error (Unit {0})
  check_account_limits Role.citizen s = check_limit is_citizen s
  check_account_limits Role.validator_role s = check_limit is_validator_role s
  check_account_limits Role.guest s = err invalid_role
  check_account_limits Role.unspecified s = err invalid_role

  unfoldable pub limits_for_new : Role → State W → Outcome Error (Unit {0})
  limits_for_new role s =
      if ltb s.params.max_identities_per_address 10000 then check_account_limits role s else ok tt

  unfoldable pub put_account : VerifiedAccount → State W → State W
  put_account a s = record s { accounts = KvStore.set a.address a s.accounts }

  unfoldable pub put_hash : Text → Text → State W → State W
  put_hash hash address s = record s {
    identity_hashes = KvStore.set hash address s.identity_hashes;
  }

  unfoldable pub drop_hash : Text → State W → State W
  drop_hash hash s = record s { identity_hashes = KvStore.delete hash s.identity_hashes }

  unfoldable pub set_verified_account : VerifiedAccount → Handler (Unit {0})
  set_verified_account a = do
    lift (validate_account a)
    exists ← gets (λ s. is_some (KvStore.get a.address s.accounts))
    raise_if exists account_already_exists
    taken ← gets (λ s. is_some (KvStore.get a.identity_hash s.identity_hashes))
    raise_if taken duplicate_identity_hash
    within ← gets (limits_for_new a.role)
    lift within
    modify (put_account a)
    modify (put_hash a.identity_hash a.address)

  -- Whether the hash is used by another address: CheckDuplicateIdentityHash.
  unfoldable pub check_duplicate_identity_hash : Text → Text → State W → Outcome Error (Unit {0})
  check_duplicate_identity_hash hash address s = elim (KvStore.get hash s.identity_hashes) [
    | none ↦ ok tt
    | some user ↦ if text_eq user address then ok tt else err duplicate_identity_hash
  ]

  -- The index follows a change of the hash.
  unfoldable pub move_hash : VerifiedAccount → VerifiedAccount → Handler (Unit {0})
  move_hash existing a s =
      if text_eq existing.identity_hash a.identity_hash
      then (ok tt, s)
      else elim (check_duplicate_identity_hash a.identity_hash a.address s) [
        | err x ↦ (err x, s)
        | ok u ↦ (ok tt, put_hash a.identity_hash a.address (drop_hash existing.identity_hash s))
      ]

  unfoldable pub update_verified_account : VerifiedAccount → Handler (Unit {0})
  update_verified_account a = do
    lift (validate_account a)
    existing ← get_verified_account a.address
    move_hash existing a
    modify (put_account a)

  unfoldable pub delete_verified_account : Text → Handler (Unit {0})
  delete_verified_account address = do
    exists ← gets (λ s. is_some (KvStore.get address s.accounts))
    raise_if (not exists) account_not_found
    modify λ s. record s { accounts = KvStore.delete address s.accounts }

  unfoldable pub release_identity_hash : Text → State W → State W
  release_identity_hash address s = elim (KvStore.get address s.accounts) [
    | none ↦ s
    | some a ↦ if is_empty a.identity_hash then s else drop_hash a.identity_hash s
  ]

  unfoldable pub update_account_activity : ℤ → Text → Handler (Unit {0})
  update_account_activity now address = do
    a ← get_verified_account address
    update_verified_account (record a { last_active = now })

  unfoldable pub change_account_role : ℤ → Text → Role → Handler (Unit {0})
  change_account_role now address role = do
    a ← get_verified_account address
    lift (validate_role_change a.role role)
    within ← gets (check_account_limits role)
    lift within
    update_verified_account (with_role now role a)

  unfoldable pub validate_role_choice : Text → Role → State W → Outcome Error (Unit {0})
  validate_role_choice address desired s =
      if is_some (KvStore.get address s.accounts)
      then err already_verified
      else if is_citizen desired || is_validator_role desired
      then ok tt
      else err invalid_role_choice

  unfoldable pub set_role_migration : RoleMigration → State W → State W
  set_role_migration m s = record s {
    migrations = KvStore.set (m.from_address ⁀ m.to_address) m s.migrations;
  }

  unfoldable pub get_role_migration : Text → Text → Handler RoleMigration
  get_role_migration from to s =
      or_raise (KvStore.get (from ⁀ to) s.migrations) role_migration_not_found s

  abbrev pub target_account : ℤ → Text → RoleMigration → VerifiedAccount → VerifiedAccount
  target_account now to m source = record {
    address = to;
    role = source.role;
    last_active = now;
    identity_hash = m.migration_hash;
    zkp_proof = [];
    verification_provider = source.verification_provider;
    verification_date = some now;
    is_active = true;
  }

  -- The old mapping goes first, where the migration keeps the hash.
  unfoldable pub free_hash : RoleMigration → VerifiedAccount → State W → State W
  free_hash m source s =
      if text_eq source.identity_hash m.migration_hash then drop_hash source.identity_hash s else s

  unfoldable pub execute_role_migration : ℤ → Text → Text → Handler (Unit {0})
  execute_role_migration now from to = do
    m ← get_role_migration from to
    raise_if m.is_completed invalid_migration_status
    source ← get_verified_account from
    modify (free_hash m source)
    set_verified_account (target_account now to m source)
    update_verified_account (record source { is_active = false })
    modify (set_role_migration (record m { is_completed = true; migration_date = some now }))
