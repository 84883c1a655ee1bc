-- ===== src/StakingPool/Upgrades.antt =====
-- staking_pool/src/lib.rs: the entry points that govern upgrades. They call the linked crate on the
-- upgrade keys, translate its errors, and add the check that the stored schema fits the version.
use shelterflex_contracts.Prelude.{ℕ, true, not, none, some, ◌==◌, unwrap_or}
use shelterflex_contracts.Host.{◌>>=◌, ◌>>◌, fail_if, ok_or, map_err, Outcome, Env, ok}
use shelterflex_contracts.Upgrade
use shelterflex_contracts.StakingPool.Types.{
  Error, State, not_authorized, upgrade_already_pending, no_upgrade_pending, upgrade_delay_not_met,
  invalid_upgrade_version, incompatible_state_schema,
}
use shelterflex_contracts.StakingPool.Calls.{require_admin}

abbrev pub as_not_authorized : Upgrade.Error → Error
as_not_authorized e = not_authorized

abbrev pub propose_error : Upgrade.Error → Error
propose_error Upgrade.upgrade_already_pending = upgrade_already_pending
propose_error Upgrade.invalid_upgrade_version = invalid_upgrade_version
propose_error Upgrade.incompatible_schema_version = incompatible_state_schema
propose_error _ = not_authorized

abbrev pub execute_error : Upgrade.Error → Error
execute_error Upgrade.no_pending_upgrade = no_upgrade_pending
execute_error Upgrade.upgrade_delay_not_elapsed = upgrade_delay_not_met
execute_error _ = not_authorized

module _ {T : Type 0} where
  unfoldable pub contract_version : State T → ℕ
  contract_version s = unwrap_or s.upgrade.contract_version 0

  unfoldable pub state_schema_version : State T → ℕ
  state_schema_version s = unwrap_or s.upgrade.schema_version 0

  -- The calls of the linked upgrade crate, on the upgrade keys.
  abbrev pub with_upgrade : State T → Outcome Error Upgrade.Store → Outcome Error (State T)
  with_upgrade s r = r >>= λ u. ok (record s { upgrade = u })

  unfoldable pub set_guardian : Env → ℕ → ℕ → State T → Outcome Error (State T)
  set_guardian env admin guardian s =
      with_upgrade s
        (map_err as_not_authorized (Upgrade.set_guardian env admin (some guardian) s.upgrade))

  unfoldable pub set_upgrade_delay : Env → ℕ → ℕ → State T → Outcome Error (State T)
  set_upgrade_delay env admin delay_seconds s =
      with_upgrade s
        (map_err as_not_authorized (Upgrade.set_upgrade_delay env admin delay_seconds s.upgrade))

  unfoldable pub propose_upgrade : Env → ℕ → ℕ → ℕ → State T → Outcome Error (State T)
  unfolding contract_version state_schema_version
  propose_upgrade env admin new_wasm_hash new_version s = do
    let schema = state_schema_version s
    fail_if (not (schema == contract_version s)) incompatible_state_schema
    with_upgrade s (
        map_err propose_error
          (Upgrade.propose_upgrade env admin new_wasm_hash new_version (some schema) s.upgrade))

  unfoldable pub execute_upgrade : Env → ℕ → ℕ → State T → Outcome Error (State T)
  execute_upgrade env admin new_wasm_hash s =
      with_upgrade s
        (map_err execute_error (Upgrade.execute_upgrade env admin new_wasm_hash s.upgrade))

  unfoldable pub emergency_upgrade : Env → ℕ → ℕ → ℕ → State T → Outcome Error (State T)
  unfolding contract_version state_schema_version
  emergency_upgrade env admin new_wasm_hash new_version s = do
    let schema = state_schema_version s
    fail_if (not (schema == contract_version s)) incompatible_state_schema
    with_upgrade s (
        map_err as_not_authorized (
          Upgrade.emergency_upgrade env admin new_wasm_hash new_version (some schema) true
            s.upgrade))

  unfoldable pub cancel_upgrade : Env → ℕ → State T → Outcome Error (State T)
  unfolding require_admin
  cancel_upgrade env admin s = do
    require_admin env admin s
    ok_or s.upgrade.pending_hash no_upgrade_pending
    let u = s.upgrade
    ok (record s {
      upgrade = record u { pending_hash = none; pending_at = none; pending_version = none };
    })
