-- ===== src/Governance.antt =====
-- x/governance: proposals, votes, and the execution of accepted parameter changes.
pub mod Types
pub mod Governable
pub mod Keeper
pub mod Applier
pub mod Messages
pub mod Voting
pub mod Tally
pub mod Decision
pub mod Submission
pub mod Execution
pub mod Genesis
pub mod Reach
pub mod Settings
pub mod Parameters
pub mod Switch
pub mod Whitelist
pub mod Sanity
pub mod Panics
pub mod Acceptance
pub mod Tests
