-- ===== src/Governance.antt =====
-- governance/src/lib.rs: proposals of parameter changes, weighted votes, quorum and timelock.
pub mod Types
pub mod Calls
pub mod Machine
pub mod Tally
pub mod Ballots
pub mod Runs
pub mod Status
pub mod Lifecycle
pub mod Decision
mod Tests
