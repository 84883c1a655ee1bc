-- ===== src/MvpStakingPool.antt =====
-- mvp_staking_pool/src/lib.rs: stakes, the part of them that is in use, and rewards by a global index.
pub mod Types
pub mod Calls
pub mod Upgrades
pub mod Machine
pub mod Accrual
pub mod Effects
pub mod Payments
pub mod Sound
pub mod Rewards
pub mod Writes
pub mod Payouts
pub mod Solvency
pub mod Funding
pub mod Runs
pub mod Claims
pub mod InUse
mod Tests
