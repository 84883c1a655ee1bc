-- ===== src/RentWallet/Calls.antt =====
-- rent_wallet/src/lib.rs: the entry points, but those that govern upgrades. Events and the time to
-- live of the entries are left out.
use shelterflex_contracts.Prelude.{
  ℕ, true, false, not, some, ◌+ℤ◌, ◌-ℤ◌, ltb_ℤ, fits_i128, ℤ, pos, is_some, update,
}
use shelterflex_contracts.Host.{◌>>=◌, ◌>>◌, fail_if, map_err, checked_i128, Outcome, Env, ok}
use shelterflex_contracts.Pausable.{as_pausable, PausableError}
use shelterflex_contracts.RentWallet.Types.{
  max_amount, validate_amount, get_balance, put_balance, require_not_paused, require_admin,
  check_and_record_debit, Error, State, already_initialized, invalid_amount, insufficient_balance,
  amount_too_large, balance_overflow,
}

unfoldable pub init : ℕ → State → Outcome Error State
init admin s = do
  fail_if (is_some s.upgrade.admin) already_initialized
  let u = s.upgrade
  ok (record s {
    upgrade = record u { admin = some admin; contract_version = some 1; schema_version = some 1 };
    paused_flag = some false;
  })

unfoldable pub credit : Env → ℕ → ℕ → ℤ → State → Outcome Error State
unfolding require_admin require_not_paused validate_amount get_balance put_balance
credit env admin user amount s = do
  require_admin env admin s
  require_not_paused s
  validate_amount amount
  let new_balance = get_balance s user +ℤ amount
  fail_if (not (fits_i128 new_balance)) balance_overflow
  ok (put_balance user new_balance s)

unfoldable pub debit : Env → ℕ → ℕ → ℤ → State → Outcome Error State
unfolding require_admin require_not_paused validate_amount get_balance put_balance
    check_and_record_debit
debit env admin user amount s = do
  require_admin env admin s
  require_not_paused s
  validate_amount amount
  let cur = get_balance s user
  fail_if (ltb_ℤ cur amount) insufficient_balance
  recorded ← check_and_record_debit env user amount s
  new_balance ← checked_i128 (cur -ℤ amount)
  ok (put_balance user new_balance recorded)

unfoldable pub set_admin : Env → ℕ → ℕ → State → Outcome Error State
unfolding require_admin
set_admin env admin new_admin s = do
  require_admin env admin s
  let u = s.upgrade
  ok (record s { upgrade = record u { admin = some new_admin } })

unfoldable pub pause : Env → ℕ → State → Outcome PausableError State
unfolding require_admin
pause env admin s = do
  map_err as_pausable (require_admin env admin s)
  ok (record s { paused_flag = some true })

unfoldable pub unpause : Env → ℕ → State → Outcome PausableError State
unfolding require_admin
unpause env admin s = do
  map_err as_pausable (require_admin env admin s)
  ok (record s { paused_flag = some false })

-- The check that the two setters of a cap share.
unfoldable pub require_valid_cap : ℤ → Outcome Error (Unit {0})
require_valid_cap cap = do
  fail_if (ltb_ℤ cap (pos 0)) invalid_amount
  fail_if (ltb_ℤ max_amount cap) amount_too_large

unfoldable pub set_default_monthly_cap : Env → ℕ → ℤ → State → Outcome Error State
unfolding require_admin require_valid_cap
set_default_monthly_cap env admin cap s = do
  require_admin env admin s
  require_valid_cap cap
  ok (record s { monthly_cap_default = some cap })

unfoldable pub set_user_monthly_cap : Env → ℕ → ℕ → ℤ → State → Outcome Error State
unfolding require_admin require_valid_cap
set_user_monthly_cap env admin user cap s = do
  require_admin env admin s
  require_valid_cap cap
  ok (record s { monthly_cap_override = update user (some cap) s.monthly_cap_override })
