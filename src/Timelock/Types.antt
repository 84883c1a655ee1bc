-- ===== src/Timelock/Types.antt =====
-- timelock/src/lib.rs: the state, a field for each storage key, and what the host and the other
-- contracts do. A hash, a symbol and an argument are numbers, which are only compared or passed on.
use shelterflex_contracts.Prelude.{ℕ, Bool, Option, List}
use shelterflex_contracts.Host.{Env}

-- 14 days, in seconds.
abbrev pub grace_period : ℕ
grace_period = 1209600

abbrev pub u64_max : ℕ
u64_max = 18446744073709551615

pub data Error : Type 0 where
  already_initialized not_authorized invalid_delay transaction_already_queued : Error
  transaction_not_queued timestamp_not_met transaction_expired : Error
  insufficient_multisig_approvals contract_paused : Error

-- `T` is the state of the contracts that the timelock calls.
pub record State (T : Type 0) : Type 0 where
  pub admin : Option ℕ
  pub min_delay : Option ℕ
  pub max_delay : Option ℕ
  pub queued : ℕ → Option ℕ
  pub multisig_members : Option (List ℕ)
  pub paused : Option Bool
  pub world : T

-- A transaction: the target, the function and its arguments.
pub record Tx : Type 0 where
  pub target : ℕ
  pub function : ℕ
  pub args : List ℕ

-- `tx_hash tx eta` is the SHA-256 of the XDR of the target, the function, the arguments and the
-- ETA; `invoke` is the call of the target, and `none` its trap.
pub record External (T : Type 0) : Type 0 where
  pub tx_hash : Tx → ℕ → ℕ
  pub invoke : Env → Tx → T → Option (T × ℕ)
