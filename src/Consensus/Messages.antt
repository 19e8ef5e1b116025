-- ===== src/Consensus/Messages.antt =====
-- x/consensus/keeper/msg_server.go: the bids and the halving.
use volnix_protocol.Base.{ℕ, ◌-◌, ◌%◌, ◌^◌, Option, Text, is_empty, ℤ, pos, negsuc, raise_if, ◌>>◌}
use volnix_protocol.Host.{Host, Env}
use volnix_protocol.Consensus.Types.{
  AnteilKeeper, empty_validator_address, invalid_commit_hash, empty_nonce, invalid_bid_amount,
}
use volnix_protocol.Consensus.Auctions.{Handler, commit_bid, reveal_bid, or_default}

pub record MsgCommitBid : Type 0 where
  pub validator : Text
  pub commit_hash : Text
  pub block_height : ℕ

pub record MsgRevealBid : Type 0 where
  pub validator : Text
  pub nonce : Text
  pub bid_amount : Text
  pub block_height : ℕ

-- uint64 of an int64.
abbrev pub as_height : ℤ → ℕ
as_height (pos n) = n % 2 ^ 64
as_height (negsuc n) = 2 ^ 64 - 1 - n % 2 ^ 64

module _ (W : Type 0) where
  unfoldable pub submit_commit : Env → MsgCommitBid → Handler W (Unit {0})
  submit_commit e req = do
    raise_if (is_empty req.validator) empty_validator_address
    raise_if (is_empty req.commit_hash) invalid_commit_hash
    commit_bid W e.now req.validator req.commit_hash
        (or_default req.block_height (as_height e.block_height))

  module _ (anteil : Option (AnteilKeeper W)) where
    unfoldable pub submit_reveal : Host → (Text → Text) → Env → MsgRevealBid → Handler W (Unit {0})
    submit_reveal h sha256_hex e req = do
      raise_if (is_empty req.validator) empty_validator_address
      raise_if (is_empty req.nonce) empty_nonce
      raise_if (is_empty req.bid_amount) invalid_bid_amount
      reveal_bid W anteil h sha256_hex e req.validator req.nonce req.bid_amount
          (or_default req.block_height (as_height e.block_height))
