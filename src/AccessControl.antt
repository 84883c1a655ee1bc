-- ===== src/AccessControl.antt =====
-- soroban_access_control_core/src/lib.rs: the admin and operator gates that the contracts link.
-- `deny` only publishes an event and hands its error back, so it is its error here.
use shelterflex_contracts.Prelude.{
  ℕ, ◌≡◌, Bool, true, false, not, Option, none, some, arith, ◌==◌, if◌then◌else◌,
}
use shelterflex_contracts.Host.{◌>>◌, fail_if, require_auth, Outcome, Env, ok, err}

unfoldable pub require_admin_permission : {E : Type 0} → Env → ℕ → ℕ → E → Outcome E (Unit {0})
require_admin_permission env admin caller not_authorized = do
  require_auth env caller
  fail_if (not (caller == admin)) not_authorized

abbrev pub is_role : Option ℕ → ℕ → Bool
is_role none caller = false
is_role (some op) caller = caller == op

unfoldable pub require_admin_or_operator_permission :
    {E : Type 0} → Env → ℕ → Option ℕ → ℕ → E → Outcome E (Unit {0})
require_admin_or_operator_permission env admin operator caller not_authorized = do
  require_auth env caller
  if caller == admin then ok tt else if is_role operator caller then ok tt else err not_authorized

unfoldable pub require_admin_auth : {E : Type 0} → Env → ℕ → Outcome E (Unit {0})
require_admin_auth env admin = require_auth env admin

-- The strict gate passes exactly where the caller is the admin and has authorised the call, and
-- refuses with the given error exactly where an authorised caller is somebody else.
pub require_admin_permission_lem :
    {E : Type 0} (env : Env) (admin caller : ℕ) (e : E)
    → (require_admin_permission env admin caller e ≡ ok tt
        → (caller ≡ admin) × (env.authorized caller ≡ true))
      × (caller ≡ admin
          → env.authorized caller ≡ true
          → require_admin_permission env admin caller e ≡ ok tt)
unfolding require_admin_permission
require_admin_permission_lem env admin caller e = (λ h. ground arith, λ p q. ground arith)
