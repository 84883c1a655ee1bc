-- ===== src/StakingPool/Calls.antt =====
-- staking_pool/src/lib.rs and validation.rs: the entry points. A call returns the new state; the
-- events that it publishes carry no state and are left out, and so is the time to live of the
-- entries, which every entry point extends.
use shelterflex_contracts.Prelude.{ℕ, true, false, some, ltb, leb_ℤ, ℤ, pos, is_some}
use shelterflex_contracts.Host.{◌>>=◌, ◌>>◌, fail_if, map_err, Outcome, Env, ok}
use shelterflex_contracts.Pausable.{as_pausable, PausableError}
use shelterflex_contracts.AccessControl.{require_admin_permission}
use shelterflex_contracts.StakingPool.Types.{
  is_paused, get_admin, Error, State, already_initialized, not_authorized, paused, invalid_amount,
  invalid_lock_period,
}

unfoldable pub require_valid_amount : ℤ → Outcome Error (Unit {0})
require_valid_amount amount = fail_if (leb_ℤ amount (pos 0)) invalid_amount

unfoldable pub require_valid_lock_period : ℕ → Outcome Error (Unit {0})
require_valid_lock_period lock_period = fail_if (ltb 31536000 lock_period) invalid_lock_period

module _ {T : Type 0} where
  unfoldable pub require_not_paused : State T → Outcome Error (Unit {0})
  unfolding is_paused
  require_not_paused s = fail_if (is_paused s) paused

  -- The gate of the admin's calls: the stored admin, then the shared check.
  unfoldable pub require_admin : Env → ℕ → State T → Outcome Error (Unit {0})
  unfolding get_admin require_admin_permission
  require_admin env caller s = do
    current_admin ← get_admin s
    require_admin_permission env current_admin caller not_authorized

  unfoldable pub init : ℕ → ℕ → State T → Outcome Error (State T)
  init admin token s = do
    fail_if (is_some s.upgrade.admin) already_initialized
    let u = s.upgrade
    ok (record s {
      upgrade = record u { admin = some admin; contract_version = some 1; schema_version = some 1 };
      token = some token;
      total_staked = some (pos 0);
      lock_period = some 0;
      paused_flag = some false;
    })

  unfoldable pub set_admin : Env → ℕ → ℕ → State T → Outcome Error (State T)
  unfolding require_admin
  set_admin env admin new_admin s = do
    require_admin env admin s
    let u = s.upgrade
    ok (record s { upgrade = record u { admin = some new_admin } })

  unfoldable pub set_lock_period : Env → ℕ → ℕ → State T → Outcome Error (State T)
  unfolding require_admin require_valid_lock_period
  set_lock_period env admin seconds s = do
    require_admin env admin s
    require_valid_lock_period seconds
    ok (record s { lock_period = some seconds })

  -- The trait `Pausable` has errors of its own: any refusal is its `NotAuthorized`.
  unfoldable pub pause : Env → ℕ → State T → Outcome PausableError (State T)
  unfolding require_admin
  pause env admin s = do
    map_err as_pausable (require_admin env admin s)
    ok (record s { paused_flag = some true })

  unfoldable pub unpause : Env → ℕ → State T → Outcome PausableError (State T)
  unfolding require_admin
  unpause env admin s = do
    map_err as_pausable (require_admin env admin s)
    ok (record s { paused_flag = some false })
