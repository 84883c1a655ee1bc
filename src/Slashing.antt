-- ===== src/Slashing.antt =====
-- slashing_module/src/lib.rs: slashes that are committed, revealed, and finalised or cancelled, the
-- jail, and the history of the inspectors.
pub mod Types
pub mod Calls
pub mod Evidence
pub mod Finality
pub mod Machine
pub mod Effects
pub mod Reduction
pub mod Resolution
pub mod Cancellation
pub mod Cases
pub mod Changes
pub mod Final
pub mod Backed
pub mod Conserved
mod Tests
