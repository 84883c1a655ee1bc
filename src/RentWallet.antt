-- ===== src/RentWallet.antt =====
-- rent_wallet/src/lib.rs, monthly_cap.rs and validation.rs: balances that the admin credits and
-- debits, with a cap on what is debited in a month.
pub mod Types
pub mod Calls
pub mod Upgrades
pub mod Machine
pub mod Effects
pub mod Cases
pub mod Ledger
pub mod Cap
mod Tests
