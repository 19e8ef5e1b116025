-- ===== src/Ident/Types.antt =====
-- The records of x/ident (types/account.go, types/params.go, types/errors.go,
-- proto/volnix/ident/v1) and their checks.
use volnix_protocol.Base.{
  ℕ, ◌*◌, Bool, true, false, Option, none, [], Text, is_empty, ℤ, if◌then◌else◌, Outcome, ok, err,
}
use volnix_protocol.Host.{hours}
use volnix_protocol.Lizenz.Neighbours.{Role}

pub record VerifiedAccount : Type 0 where
  pub address : Text
  pub role : Role
  pub last_active : ℤ
  pub identity_hash : Text
  pub zkp_proof : Text
  pub verification_provider : Text
  pub verification_date : Option ℤ
  pub is_active : Bool

pub record RoleMigration : Type 0 where
  pub from_address : Text
  pub to_address : Text
  pub from_role : Role
  pub to_role : Role
  pub migration_date : Option ℤ
  pub migration_hash : Text
  pub zkp_proof : Text
  pub is_completed : Bool

-- The parameters that the keeper reads.
pub record Params : Type 0 where
  pub citizen_activity_period : ℤ
  pub validator_activity_period : ℤ
  pub max_identities_per_address : ℕ

abbrev pub default_params : Params
default_params = record {
  citizen_activity_period = hours (365 * 24);
  validator_activity_period = hours (180 * 24);
  max_identities_per_address = 1;
}

pub data Error : Type 0 where
  empty_address empty_identity_hash invalid_role : Error
  account_already_exists account_not_found duplicate_identity_hash : Error
  role_migration_not_found invalid_migration_status : Error
  invalid_role_choice already_verified limit_exceeded downgrade_not_allowed : Error
  empty_proof short_proof : Error

abbrev pub is_unspecified : Role → Bool
is_unspecified Role.unspecified = true
is_unspecified _ = false

abbrev pub is_guest : Role → Bool
is_guest Role.guest = true
is_guest _ = false

abbrev pub is_citizen : Role → Bool
is_citizen Role.citizen = true
is_citizen _ = false

abbrev pub is_validator_role : Role → Bool
is_validator_role Role.validator_role = true
is_validator_role _ = false

unfoldable pub validate_account : VerifiedAccount → Outcome Error (Unit {0})
validate_account a =
    if is_empty a.address
    then err empty_address
    else if is_empty a.identity_hash
    then err empty_identity_hash
    else if is_unspecified a.role
    then err invalid_role
    else ok tt

abbrev pub new_verified_account : ℤ → Text → Role → Text → VerifiedAccount
new_verified_account now address role identity_hash = record {
  address = address;
  role = role;
  last_active = now;
  identity_hash = identity_hash;
  zkp_proof = [];
  verification_provider = [];
  verification_date = none;
  is_active = true;
}

-- ChangeAccountRole of types/account.go.
abbrev pub with_role : ℤ → Role → VerifiedAccount → VerifiedAccount
with_role now role a = record a { role = role; last_active = now }
