-- ===== src/RentWallet/Types.antt =====
-- rent_wallet/src/lib.rs, monthly_cap.rs and validation.rs: the state, the readers of the keys, the
-- checks, and the monthly cap.
use shelterflex_contracts.Prelude.{
  ℕ, ◌/◌, ◌%◌, Bool, false, Option, some, if◌then◌else◌, ◌+ℤ◌, ltb_ℤ, eqb_ℤ, ℤ, pos, unwrap_or,
  update,
}
use shelterflex_contracts.Host.{◌>>=◌, ◌>>◌, fail_if, unwrap, checked_i128, Outcome, Env, ok}
use shelterflex_contracts.AccessControl.{require_admin_permission}
use shelterflex_contracts.Upgrade

pub data Error : Type 0 where
  already_initialized not_authorized paused invalid_amount insufficient_balance : Error
  upgrade_already_pending no_upgrade_pending upgrade_delay_not_met amount_too_large : Error
  balance_overflow invalid_time_value empty_string string_too_long invalid_string_char : Error
  same_address invalid_upgrade_version incompatible_state_schema monthly_cap_exceeded : Error

pub record State : Type 0 where
  pub upgrade : Upgrade.Store
  pub balances : ℕ → Option ℤ
  pub paused_flag : Option Bool
  pub monthly_cap_default : Option ℤ
  pub monthly_cap_override : ℕ → Option ℤ
  pub monthly_spent : ℕ → ℕ → Option ℤ

abbrev pub max_amount : ℤ
max_amount = pos 1000000000000000000

unfoldable pub validate_amount : ℤ → Outcome Error (Unit {0})
validate_amount amount = do
  fail_if (ltb_ℤ amount (pos 1)) invalid_amount
  fail_if (ltb_ℤ max_amount amount) amount_too_large

unfoldable pub get_admin : State → Outcome Error ℕ
get_admin s = unwrap s.upgrade.admin

unfoldable pub get_balance : State → ℕ → ℤ
get_balance s user = unwrap_or (s.balances user) (pos 0)

unfoldable pub put_balance : ℕ → ℤ → State → State
put_balance user amount s = record s { balances = update user (some amount) s.balances }

unfoldable pub get_paused_state : State → Bool
get_paused_state s = unwrap_or s.paused_flag false

unfoldable pub require_not_paused : State → Outcome Error (Unit {0})
unfolding get_paused_state
require_not_paused s = fail_if (get_paused_state s) paused

unfoldable pub require_admin : Env → ℕ → State → Outcome Error (Unit {0})
unfolding get_admin require_admin_permission
require_admin env caller s = do
  current_admin ← get_admin s
  require_admin_permission env current_admin caller not_authorized

-- The `as u32` of the source.
unfoldable pub current_month_key : Env → ℕ
current_month_key env = env.timestamp / 2592000 % 4294967296

unfoldable pub get_monthly_cap_default : State → ℤ
get_monthly_cap_default s = unwrap_or s.monthly_cap_default (pos 0)

unfoldable pub effective_cap : State → ℕ → ℤ
unfolding get_monthly_cap_default
effective_cap s user = unwrap_or (s.monthly_cap_override user) (get_monthly_cap_default s)

unfoldable pub get_monthly_spent : Env → State → ℕ → ℤ
unfolding current_month_key
get_monthly_spent env s user = unwrap_or (s.monthly_spent user (current_month_key env)) (pos 0)

unfoldable pub record_monthly_spent : Env → ℕ → ℤ → State → Outcome Error State
unfolding current_month_key
record_monthly_spent env user additional s = do
  let key = current_month_key env
  spent ← checked_i128 (unwrap_or (s.monthly_spent user key) (pos 0) +ℤ additional)
  ok (record s {
    monthly_spent = update user (update key (some spent) (s.monthly_spent user)) s.monthly_spent;
  })

-- A cap of 0 is no cap: nothing is checked and nothing is recorded.
unfoldable pub check_and_record_debit : Env → ℕ → ℤ → State → Outcome Error State
unfolding effective_cap get_monthly_spent record_monthly_spent
check_and_record_debit env user amount s =
    let cap = effective_cap s user in
    if eqb_ℤ cap (pos 0) then ok s else (do
      after ← checked_i128 (get_monthly_spent env s user +ℤ amount)
      fail_if (ltb_ℤ cap after) monthly_cap_exceeded
      record_monthly_spent env user amount s)
