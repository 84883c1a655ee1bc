-- ===== src/DealEscrow.antt =====
-- deal_escrow/src/lib.rs and validation.rs: deposits for a deal, the release of rent with a window
-- in which it can be disputed, the circuit breaker and the life cycle of a deal.
pub mod Types
pub mod Funds
pub mod Releases
pub mod Admin
pub mod Upgrades
pub mod Machine
pub mod Effects
pub mod Account
pub mod Settlements
pub mod Moves
pub mod Movements
pub mod Settings
pub mod Cases
pub mod Steps
pub mod Runs
pub mod Ledger
pub mod Replay
pub mod Payouts
pub mod Solvency
pub mod Funded
pub mod Lifecycle
pub mod Stuck
pub mod Returns
pub mod Fixture
mod Tests
