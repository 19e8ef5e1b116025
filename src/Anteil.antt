-- ===== src/Anteil.antt =====
-- x/anteil: the internal market for ANT, its auctions and the distribution to citizens.
pub mod Params
pub mod Types
pub mod Keeper
pub mod Positions
pub mod Trades
pub mod Auctions
pub mod Distribution
pub mod Engine
pub mod Market
pub mod Blocks
pub mod Messages
pub mod Invariant
mod Tests
