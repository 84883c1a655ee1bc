-- ===== src/Upgrade.antt =====
-- soroban_upgrade_governance_core/src/lib.rs: the upgrade governance that contracts link. Its keys
-- lie in the instance storage of the contract, a field for each; `wasm` is the code that the
-- instance runs, which `update_current_contract_wasm` replaces. A version is a u32, a time a u64,
-- and a hash is only compared. The events carry no state and are left out.
use shelterflex_contracts.Prelude.{
  ℕ, ◌+◌, Bool, true, false, not, Option, none, some, ltb, ◌==◌, unwrap_or, is_some, [], ◌∷◌,
}
use shelterflex_contracts.Host.{
  ◌>>=◌, ◌>>◌, fail_if, ok_or, unwrap, require_auth, require_auth_after, require_uploaded,
  checked_u64, checked_u32, Outcome, Env, ok, err,
}
pub mod Laws
pub mod Machine
mod Tests

pub record Store : Type 0 where
  pub admin : Option ℕ
  pub guardian : Option ℕ
  pub pending_hash : Option ℕ
  pub pending_at : Option ℕ
  pub pending_version : Option ℕ
  pub contract_version : Option ℕ
  pub upgrade_delay : Option ℕ
  pub schema_version : Option ℕ
  pub wasm : ℕ

pub data Error : Type 0 where
  not_authorized upgrade_already_pending no_pending_upgrade upgrade_delay_not_elapsed : Error
  guardian_not_configured invalid_upgrade_version incompatible_schema_version : Error

unfoldable pub get_admin : Store → Outcome Error ℕ
get_admin s = unwrap s.admin

unfoldable pub get_contract_version : Store → ℕ
get_contract_version s = unwrap_or s.contract_version 0

unfoldable pub get_storage_schema_version : Store → ℕ
get_storage_schema_version s = unwrap_or s.schema_version 1

-- `if let Some(new_schema) = new_schema_version { if new_schema < current_schema … }`
abbrev pub is_older_schema : Option ℕ → ℕ → Bool
is_older_schema none current = false
is_older_schema (some new_schema) current = ltb new_schema current

unfoldable pub validate_upgrade_safety : Store → ℕ → Option ℕ → Outcome Error (Unit {0})
unfolding get_contract_version get_storage_schema_version
validate_upgrade_safety s new_version new_schema_version = do
  expected ← checked_u32 (get_contract_version s + 1)
  fail_if (not (new_version == expected)) invalid_upgrade_version
  fail_if (is_older_schema new_schema_version (get_storage_schema_version s))
      incompatible_schema_version

-- The admin comparison stands before `require_auth` here.
unfoldable pub require_admin_first : Env → ℕ → Store → Outcome Error (Unit {0})
unfolding get_admin
require_admin_first env caller s = do
  current_admin ← get_admin s
  fail_if (not (caller == current_admin)) not_authorized
  require_auth env caller

unfoldable pub propose_upgrade : Env → ℕ → ℕ → ℕ → Option ℕ → Store → Outcome Error Store
unfolding require_admin_first validate_upgrade_safety
propose_upgrade env caller new_wasm_hash new_version new_schema_version s = do
  require_admin_first env caller s
  fail_if (is_some s.pending_hash) upgrade_already_pending
  validate_upgrade_safety s new_version new_schema_version
  ok (record s {
    pending_hash = some new_wasm_hash;
    pending_at = some env.timestamp;
    pending_version = some new_version;
  })

-- The three `remove`s of the pending upgrade, the new version, and the new code.
abbrev pub install : ℕ → ℕ → Store → Store
install new_wasm_hash version s = record s {
  pending_hash = none;
  pending_at = none;
  pending_version = none;
  contract_version = some version;
  wasm = new_wasm_hash;
}

unfoldable pub execute_upgrade : Env → ℕ → ℕ → Store → Outcome Error Store
unfolding require_admin_first
execute_upgrade env caller new_wasm_hash s = do
  require_admin_first env caller s
  hash ← ok_or s.pending_hash no_pending_upgrade
  proposed_at ← ok_or s.pending_at no_pending_upgrade
  version ← ok_or s.pending_version no_pending_upgrade
  fail_if (not (hash == new_wasm_hash)) no_pending_upgrade
  ready_at ← checked_u64 (proposed_at + unwrap_or s.upgrade_delay 0)
  fail_if (ltb env.timestamp ready_at) upgrade_delay_not_elapsed
  require_uploaded env new_wasm_hash
  ok (install new_wasm_hash version s)

-- A guardian that is required must be there; one that is there must authorise.
abbrev pub require_guardian_auth : Env → ℕ → Bool → Option ℕ → Outcome Error (Unit {0})
require_guardian_auth env caller true none = err guardian_not_configured
require_guardian_auth env caller false none = ok tt
require_guardian_auth env caller _ (some g) = require_auth_after env (caller ∷ []) g

unfoldable pub emergency_upgrade : Env → ℕ → ℕ → ℕ → Option ℕ → Bool → Store → Outcome Error Store
unfolding require_admin_first validate_upgrade_safety
emergency_upgrade env caller new_wasm_hash new_version new_schema_version require_guardian s = do
  require_admin_first env caller s
  validate_upgrade_safety s new_version new_schema_version
  require_guardian_auth env caller require_guardian s.guardian
  require_uploaded env new_wasm_hash
  ok (install new_wasm_hash new_version s)

-- A caller that is not the admin must still authorise before it is refused.
unfoldable pub require_admin_auth_first : Env → ℕ → Store → Outcome Error (Unit {0})
unfolding get_admin
require_admin_auth_first env caller s = do
  current_admin ← get_admin s
  require_auth env caller
  fail_if (not (caller == current_admin)) not_authorized

unfoldable pub set_upgrade_delay : Env → ℕ → ℕ → Store → Outcome Error Store
unfolding require_admin_auth_first
set_upgrade_delay env caller delay_seconds s = do
  require_admin_auth_first env caller s
  ok (record s { upgrade_delay = some delay_seconds })

unfoldable pub set_guardian : Env → ℕ → Option ℕ → Store → Outcome Error Store
unfolding require_admin_auth_first
set_guardian env caller guardian s = do
  require_admin_auth_first env caller s
  ok (record s { guardian = guardian })

unfoldable pub initialize_upgrade_governance : ℕ → Option ℕ → ℕ → ℕ → ℕ → Store → Store
initialize_upgrade_governance new_admin new_guardian initial_version initial_schema_version delay
      s =
    record s {
      admin = some new_admin;
      guardian = elim new_guardian [ none ↦ s.guardian | some g ↦ some g ];
      contract_version = some initial_version;
      schema_version = some initial_schema_version;
      upgrade_delay = some delay;
    }
