-- ===== src/StakingPool/Types.antt =====
-- staking_pool/src/lib.rs: the state of the contract, a field for each storage key, and the readers
-- of the keys. The upgrade keys are those of the linked crate.
use shelterflex_contracts.Prelude.{
  ℕ, Bool, false, Option, none, some, ℤ, pos, unwrap_or, Map, lookup,
}
use shelterflex_contracts.Host.{unwrap, Outcome, Env, ok}
use shelterflex_contracts.Upgrade.{Store}

pub record Deposit : Type 0 where
  pub amount : ℤ
  pub timestamp : ℕ

pub data Error : Type 0 where
  already_initialized not_authorized paused invalid_amount insufficient_balance : Error
  tokens_locked no_stake_timestamp reentrancy_detected upgrade_already_pending : Error
  no_upgrade_pending upgrade_delay_not_met invalid_upgrade_version : Error
  incompatible_state_schema invalid_lock_period : Error

-- `T` is the state of the token contracts. `operator` is what stands at the key: nothing, or an
-- `Option<Address>`, since `set_operator` writes one.
pub record State (T : Type 0) : Type 0 where
  pub upgrade : Store
  pub operator : Option (Option ℕ)
  pub token : Option ℕ
  pub staked_balance : Map ℤ
  pub total_staked : Option ℤ
  pub paused_flag : Option Bool
  pub lock_period : Option ℕ
  pub deposit_count : ℕ → Option ℕ
  pub deposits : ℕ → ℕ → Option Deposit
  pub reentrancy : Option Bool
  pub tokens : T

-- What is not part of this repository: `transfer env token from to amount` of the token contract at
-- the address `token` (`none` is a trap), and what the SDK's typed read makes of a stored `None`.
pub record External (T : Type 0) : Type 0 where
  pub transfer : Env → ℕ → ℕ → ℕ → ℤ → T → Option T
  pub read_void : Outcome Error (Option ℕ)

module _ {T : Type 0} where
  unfoldable pub get_staked_balance : State T → ℕ → ℤ
  get_staked_balance s user = unwrap_or (lookup user s.staked_balance) (pos 0)

  unfoldable pub get_total_staked : State T → ℤ
  get_total_staked s = unwrap_or s.total_staked (pos 0)

  unfoldable pub get_lock_period : State T → ℕ
  get_lock_period s = unwrap_or s.lock_period 0

  unfoldable pub get_deposit_count : State T → ℕ → ℕ
  get_deposit_count s user = unwrap_or (s.deposit_count user) 0

  unfoldable pub is_paused : State T → Bool
  is_paused s = unwrap_or s.paused_flag false

  unfoldable pub get_admin : State T → Outcome Error ℕ
  get_admin s = unwrap s.upgrade.admin

  unfoldable pub get_token : State T → Outcome Error ℕ
  get_token s = unwrap s.token

  unfoldable pub get_operator : External T → State T → Outcome Error (Option ℕ)
  get_operator x s = elim s.operator [
    | none ↦ ok none
    | some o ↦ elim o [ none ↦ x.read_void | some a ↦ ok (some a) ]
  ]
