-- ===== src/Lib.antt =====
-- Shelterflex contracts: a model of the Soroban contracts that hold stakes, rents and deals, slash,
-- vote, delay, vest and administer, and of the crates that they link. Paths are from the repository's root.
--
-- Parts. A contract is a state record with a field for each storage key, and a function for each
-- entry point: it takes the environment of the call, the arguments and the state, and ends with the
-- new state (and the value that the entry point returns), with an error of the contract, or with a
-- trap. The guards stand in the order of the code, and a call that does not return leaves the state
-- as it was, which is what the host does. The contracts link three crates: the gates on the admin,
-- the reentrancy lock and the upgrade governance; StakingPool, MvpStakingPool and DealEscrow call
-- all three, RentWallet the gates and the upgrade governance, Governance the gates, VestingSchedule
-- the lock. Governance reads stakes from a staking pool, and the timelock calls any contract; both
-- are parameters.
--
--   Prelude, Prelude/*          Booleans, integers for i128, lists and maps
--   Host                        outcomes, the environment, checked arithmetic
--   AccessControl               soroban_access_control_core/src/lib.rs
--   Reentrancy                  soroban_reentrancy_guard/src/lib.rs
--   Pausable                    soroban_pausable_core/src/lib.rs
--   Balances, Token             maps of balances with their sum, and what a token contract is
--   Upgrade                     soroban_upgrade_governance_core/src/lib.rs: the calls;
--                               Upgrade/Laws and Upgrade/Machine their effects and their runs
--   StakingPool                 staking_pool/src/lib.rs and validation.rs: Types is the state
--                               (DataKey), Deposits the loops of `unstake`, Calls, Staking and
--                               Upgrades the entry points, Payload the receipt hash; Effects,
--                               Invariant, Payouts, Solvency, Frozen, Versions hold proofs, and
--                               Machine the runs of calls
--   DealEscrow                  deal_escrow/src/lib.rs and validation.rs: Types is the state (the
--                               keys of a deal are the record Deals), Funds has `init`, `deposit`
--                               and `release`, Releases the rent releases and their settlement,
--                               Admin the settings, the migration, the circuit breaker and the life
--                               cycle, Upgrades the upgrade calls; Effects, Settlements, Settings,
--                               Account, Moves, Cases, Steps hold the lemmas, Machine and Runs the
--                               runs, Ledger the abstract machine of an account, Movements and Replay the
--                               refinement of it, and Payouts, Solvency, Funded, Lifecycle, Stuck,
--                               Returns the other proofs
--   RentWallet                  rent_wallet/src/lib.rs, monthly_cap.rs and validation.rs: Types
--                               (with the cap), Calls and Upgrades; Machine has the runs with a log,
--                               and Effects, Cases, Ledger, Cap the proofs
--   MvpStakingPool              mvp_staking_pool/src/lib.rs: Types (with the accrual), Calls and
--                               Upgrades; Machine and Runs have the runs, and Accrual, Effects, Payments,
--                               Rewards, Sound, Writes, Payouts, Solvency, Funding, Claims, InUse
--                               the proofs
--   Slashing                    slashing_module/src/lib.rs: Types, Calls, Evidence (commitments and
--                               proposals) and Finality; Machine has the runs, and Effects,
--                               Reduction, Resolution, Cancellation, Cases, Changes, Final, Backed, Conserved the proofs
--   Governance                  governance/src/lib.rs: Types and Calls; Machine has the runs, and
--                               Tally, Ballots, Status, Lifecycle, Decision, Runs the proofs
--   Timelock                    timelock/src/lib.rs: Types and Calls; Machine has the runs with a
--                               log, and Effects, Pausing, Paused, Log, Delay the proofs
--   Vesting                     vesting_schedule/src/lib.rs: Types (with the vesting curve) and
--                               Calls; Machine has the runs, and Curve, Claims, Invariant, Payments
--                               the proofs
--   Multisig                    multisig_admin/src/lib.rs: Types and Calls, with the panics as
--                               errors; Signers, Invariant, Runs, Approval and Final the proofs
--
-- Correspondence. Functions keep the names of the code. Numbers: u32 and u64 are natural numbers
-- with `checked_u32` and `checked_u64` at each sum, and an i128 is an integer with `checked_i128` at
-- each operation; the release profile of Cargo.toml turns overflow into a trap. Addresses, hashes,
-- symbols and texts that are only compared, tested for being empty or passed on are numbers (0 for the empty
-- one) or lists of bytes. A `for` loop
-- over indices is a recursion on the rounds left, and the digit loop one on the cells of its array:
-- no fuel is needed. Writes that the code makes one by one are gathered at the end of a call, since
-- all or none of them are kept.
--
-- Parameters. The token contract's transfer, the staking pool that governance asks, the contracts
-- that the timelock calls, the XDR encoders and SHA-256, and what the SDK makes of a stored `None`
-- that is read as an address. Whether an address has authorised a call, whether it can do so a
-- second time in the same call, and which code is uploaded are functions of the environment. The
-- second is asked in `emergency_pause`, whose list may name an address twice, and for a guardian
-- who is the caller; elsewhere an entry point requires one address. A contract that is called
-- cannot call back, as the host forbids it.
--
-- Left out: events, the time to live and the archival of entries (but for the expiry of the
-- timelock's temporary entries, which is a step of its machine), queries that only read one key, and
-- the other contracts of the repository.
pub mod Prelude
pub mod Host
pub mod AccessControl
pub mod Reentrancy
pub mod Pausable
pub mod Upgrade
pub mod Balances
pub mod Token
pub mod StakingPool
pub mod DealEscrow
pub mod RentWallet
pub mod MvpStakingPool
pub mod Slashing
pub mod Governance
pub mod Timelock
pub mod Vesting
pub mod Multisig
