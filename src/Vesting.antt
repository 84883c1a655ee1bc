-- ===== src/Vesting.antt =====
-- vesting_schedule/src/lib.rs: linear vesting with a cliff, claims and revocation.
pub mod Types
pub mod Calls
pub mod Curve
pub mod Claims
pub mod Machine
pub mod Invariant
pub mod Payments
mod Tests
