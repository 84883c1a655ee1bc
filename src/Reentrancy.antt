-- ===== src/Reentrancy.antt =====
-- soroban_reentrancy_guard/src/lib.rs: the lock that a contract keeps under a key of its own. The
-- value at the key is the argument and the result; a missing key reads as unlocked.
use shelterflex_contracts.Prelude.{Bool, true, false, Option, some, unwrap_or}
use shelterflex_contracts.Host.{◌>>◌, fail_if, Outcome, ok}

unfoldable pub enter : {E : Type 0} → Option Bool → E → Outcome E (Option Bool)
enter flag on_reentry = do fail_if (unwrap_or flag false) on_reentry; ok (some true)

unfoldable pub exit : Option Bool → Option Bool
exit flag = some false
