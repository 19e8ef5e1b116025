-- ===== src/Lizenz.antt =====
-- x/lizenz: the licences of the validators.
pub mod Params
pub mod Types
pub mod Neighbours
pub mod Keeper
pub mod Messages
pub mod Blocks
pub mod Moa
pub mod Activation
pub mod Unbacked
pub mod Retirement
pub mod Invariant
pub mod RoundTrip
pub mod Release
mod Tests
