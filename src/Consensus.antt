-- ===== src/Consensus.antt =====
-- x/consensus: validators and blocks.
pub mod Params
pub mod Types
pub mod Auctions
pub mod Selection
pub mod Messages
pub mod Rewards
pub mod Distribution
pub mod Shares
pub mod Halving
pub mod Lottery
pub mod Sealed
mod Tests
