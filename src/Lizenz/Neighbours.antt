-- ===== src/Lizenz/Neighbours.antt =====
-- The modules around x/lizenz as its keeper interfaces show them (IdentKeeperInterface,
-- ConsensusKeeperInterface, AnteilKeeperInterface and BankKeeperInterface of keeper/keeper.go).
use volnix_protocol.Base.{ℕ, Bool, Option, Text, ℤ}

pub data Role : Type 0 where
  unspecified guest citizen validator_role : Role

-- What GetVerifiedAccount tells that the keeper looks at.
pub record VerifiedAccount : Type 0 where
  pub is_active : Bool
  pub role : Role

-- `World` is the state of the other modules. Each call gives whether it succeeded beside the world
-- after it; a keeper that is not set has its flag false.
pub record Neighbours : Type 1 where
  pub World : Type 0
  pub has_ident : Bool
  pub has_bank : Bool
  pub has_consensus : Bool
  pub has_anteil : Bool
  pub get_verified_account : World → Text → Option VerifiedAccount
  -- SendCoinsFromAccountToModule and SendCoinsFromModuleToAccount, of an amount of ulzn
  pub lock : Text → ℕ → World → Bool × World
  pub unlock : Text → ℕ → World → Bool × World
  pub set_validator : Text → ℤ → World → Bool × World
  pub set_validator_weight : Text → Text → World → Bool × World
  pub set_user_position : Text → World → Bool × World
