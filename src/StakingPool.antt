-- ===== src/StakingPool.antt =====
-- staking_pool/src/lib.rs and validation.rs: the contract `StakingPool`. `Types` has its state,
-- `Deposits` the two loops of `unstake`, `Calls` the entry points and `Payload` the receipt hash.
pub mod Types
pub mod Deposits
pub mod Calls
pub mod Staking
pub mod Upgrades
pub mod Effects
pub mod Invariant
pub mod Machine
pub mod Payouts
pub mod Solvency
pub mod Frozen
pub mod Versions
pub mod Payload
mod Fixture
mod Tests
