-- ===== src/Multisig.antt =====
-- multisig_admin/src/lib.rs: proposals that a number of signers approve.
pub mod Types
pub mod Calls
pub mod Signers
pub mod Invariant
pub mod Runs
pub mod Approval
pub mod Final
mod Tests
