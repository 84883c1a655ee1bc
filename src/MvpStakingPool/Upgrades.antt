-- ===== src/MvpStakingPool/Upgrades.antt =====
-- mvp_staking_pool/src/lib.rs: the entry points that govern upgrades. They call the linked crate on the
-- upgrade keys with version 0, and translate its errors.
use shelterflex_contracts.Prelude.{ℕ, true, none, some}
use shelterflex_contracts.Host.{◌>>=◌, ◌>>◌, ok_or, map_err, Outcome, Env, ok}
use shelterflex_contracts.Upgrade
use shelterflex_contracts.AccessControl.{require_admin_permission}
use shelterflex_contracts.MvpStakingPool.Types.{
  get_admin, Error, State, upgrade_already_pending, no_upgrade_pending, upgrade_delay_not_met,
  not_authorized,
}

unfoldable pub as_not_authorized : Upgrade.Error → Error
as_not_authorized e = not_authorized

unfoldable pub propose_error : Upgrade.Error → Error
propose_error Upgrade.upgrade_already_pending = upgrade_already_pending
propose_error _ = not_authorized

unfoldable pub execute_error : Upgrade.Error → Error
execute_error Upgrade.no_pending_upgrade = no_upgrade_pending
execute_error Upgrade.upgrade_delay_not_elapsed = upgrade_delay_not_met
execute_error _ = not_authorized

module _ {T : Type 0} where
  -- The calls of the linked upgrade crate, on the upgrade keys.
  abbrev pub with_upgrade : State T → Outcome Error Upgrade.Store → Outcome Error (State T)
  with_upgrade s r = r >>= λ u. ok (record s { upgrade = u })

  unfoldable pub set_guardian : Env → ℕ → ℕ → State T → Outcome Error (State T)
  set_guardian env admin guardian s =
      with_upgrade s
        (map_err as_not_authorized (Upgrade.set_guardian env admin (some guardian) s.upgrade))

  unfoldable pub set_upgrade_delay : Env → ℕ → ℕ → State T → Outcome Error (State T)
  set_upgrade_delay env admin delay_seconds s =
      with_upgrade s
        (map_err as_not_authorized (Upgrade.set_upgrade_delay env admin delay_seconds s.upgrade))

  unfoldable pub propose_upgrade : Env → ℕ → ℕ → State T → Outcome Error (State T)
  propose_upgrade env admin new_wasm_hash s =
      with_upgrade s
        (map_err propose_error (Upgrade.propose_upgrade env admin new_wasm_hash 0 none s.upgrade))

  unfoldable pub execute_upgrade : Env → ℕ → ℕ → State T → Outcome Error (State T)
  execute_upgrade env admin new_wasm_hash s =
      with_upgrade s
        (map_err execute_error (Upgrade.execute_upgrade env admin new_wasm_hash s.upgrade))

  unfoldable pub emergency_upgrade : Env → ℕ → ℕ → State T → Outcome Error (State T)
  emergency_upgrade env admin new_wasm_hash s = with_upgrade s (
      map_err as_not_authorized
        (Upgrade.emergency_upgrade env admin new_wasm_hash 0 none true s.upgrade))

  -- The version of the pending upgrade stays where it is.
  unfoldable pub cancel_upgrade : Env → ℕ → State T → Outcome Error (State T)
  unfolding get_admin require_admin_permission
  cancel_upgrade env admin s = do
    current_admin ← get_admin s
    require_admin_permission env current_admin admin not_authorized
    ok_or s.upgrade.pending_hash no_upgrade_pending
    let u = s.upgrade
    ok (record s { upgrade = record u { pending_hash = none; pending_at = none } })
