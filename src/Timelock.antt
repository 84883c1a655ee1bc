-- ===== src/Timelock.antt =====
-- timelock/src/lib.rs: delayed execution of the admin's transactions.
pub mod Types
pub mod Calls
pub mod Effects
pub mod Machine
pub mod Log
pub mod Delay
pub mod Pausing
pub mod Paused
mod Tests
