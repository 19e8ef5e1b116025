-- ===== src/Ident.antt =====
-- x/ident: who is verified, and in which role.
pub mod Types
pub mod Keeper
pub mod Blocks
pub mod Messages
pub mod Migration
pub mod Renewal
pub mod Activity
mod Tests
