-- ===== src/Consensus/Types.antt =====
-- The records of x/consensus (proto/volnix/consensus/v1), its errors, and the interface to the
-- anteil keeper.
use volnix_protocol.Base.{ℕ, Bool, true, false, Option, List, Text, ℤ}
use volnix_protocol.Strconv.{NumError}

pub data AuctionPhase : Type 0 where
  unspecified committing revealing complete : AuctionPhase

pub record EncryptedBid : Type 0 where
  pub validator : Text
  pub commit_hash : Text
  pub block_height : ℕ
  pub commit_time : ℤ

pub record BidReveal : Type 0 where
  pub validator : Text
  pub nonce : Text
  pub bid_amount : Text
  pub block_height : ℕ
  pub reveal_time : ℤ

pub record BlindAuction : Type 0 where
  pub block_height : ℕ
  pub phase : AuctionPhase
  pub commits : List EncryptedBid
  pub reveals : List BidReveal
  pub winner : Text
  pub winning_bid : Text
  pub start_time : ℤ
  pub end_time : Option ℤ

-- An entry of the JSON list of a validator's bids.
pub record BidEntry : Type 0 where
  pub bid_amount : Text
  pub timestamp : ℤ
  pub block_height : ℤ

pub record HalvingInfo : Type 0 where
  pub last_halving_height : ℕ
  pub halving_interval : ℕ
  pub next_halving_height : ℕ
  pub estimated_next_halving_date : Option ℤ
  pub last_halving_date : Option ℤ

pub data Error : Type 0 where
  empty_validator_address unauthorized : Error
  auction_not_found not_in_commit_phase already_committed invalid_commit_hash : Error
  not_in_reveal_phase bid_not_committed bid_already_revealed commit_hash_mismatch : Error
  invalid_bid_amount no_position insufficient_balance bid_too_large too_many_bids : Error
  no_bids_revealed zero_total_bid empty_nonce panic : Error
  unreadable_balance : NumError → Error

-- The anteil keeper on its state `W`: GetUserPosition with the AntBalance of the position
-- (`none` for any error), and UpdateUserPosition, whose error is logged.
pub record AnteilKeeper (W : Type 0) : Type 0 where
  pub ant_balance : Text → W → Option Text
  pub update_user_position : Text → Text → ℕ → W → W

abbrev pub is_committing : AuctionPhase → Bool
is_committing committing = true
is_committing _ = false

abbrev pub is_revealing : AuctionPhase → Bool
is_revealing revealing = true
is_revealing _ = false

abbrev pub is_complete : AuctionPhase → Bool
is_complete complete = true
is_complete _ = false
