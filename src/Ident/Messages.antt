-- ===== src/Ident/Messages.antt =====
-- x/ident/keeper/msg_server.go: changes and migrations of roles.
use volnix_protocol.Base.{
  false, none, ◌∷◌, ◌++◌, Text, codes, is_empty, ℤ, ltb, if◌then◌else◌, Outcome, ok, err, lift,
  modify, raise_if, ◌>>=◌, ◌>>◌, length,
}
use volnix_protocol.Lizenz.Neighbours.{Role}
use volnix_protocol.Ident.Types.{
  VerifiedAccount, RoleMigration, Error, empty_proof, empty_address, empty_identity_hash,
  is_unspecified, invalid_role, short_proof,
}
use volnix_protocol.Ident.Keeper.{
  Handler, get_verified_account, set_role_migration, execute_role_migration, change_account_role,
}

pub record MsgMigrateRole : Type 0 where
  pub from_address : Text
  pub to_address : Text
  pub zkp_proof : Text

pub record MsgChangeRole : Type 0 where
  pub address : Text
  pub new_role : Role
  pub zkp_proof : Text

-- ValidateRoleChangeProof tests the form of the proof only.
unfoldable pub validate_role_change_proof : Text → Text → Outcome Error (Unit {0})
validate_role_change_proof identity_hash zkp_proof =
    if is_empty zkp_proof
    then err empty_proof
    else if is_empty identity_hash
    then err empty_identity_hash
    else if ltb (length zkp_proof) 16
    then err short_proof
    else ok tt

abbrev pub requested_migration : MsgMigrateRole → VerifiedAccount → RoleMigration
requested_migration req source = record {
  from_address = req.from_address;
  to_address = req.to_address;
  from_role = source.role;
  to_role = source.role;
  migration_date = none;
  migration_hash = codes "migration-" ++ req.from_address ++ b'-' ∷ req.to_address;
  zkp_proof = req.zkp_proof;
  is_completed = false;
}

module _ (W : Type 0) where
  unfoldable pub migrate_role : ℤ → MsgMigrateRole → Handler W (Unit {0})
  migrate_role now req = do
    raise_if (is_empty req.from_address) empty_address
    raise_if (is_empty req.to_address) empty_address
    raise_if (is_empty req.zkp_proof) empty_proof
    source ← get_verified_account W req.from_address
    modify (set_role_migration W (requested_migration req source))
    execute_role_migration W now req.from_address req.to_address

  unfoldable pub change_role : ℤ → MsgChangeRole → Handler W (Unit {0})
  change_role now req = do
    raise_if (is_empty req.address) empty_address
    raise_if (is_unspecified req.new_role) invalid_role
    raise_if (is_empty req.zkp_proof) empty_proof
    a ← get_verified_account W req.address
    lift (validate_role_change_proof a.identity_hash req.zkp_proof)
    change_account_role W now req.address req.new_role
