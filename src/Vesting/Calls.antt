-- ===== src/Vesting/Calls.antt =====
-- vesting_schedule/src/lib.rs: the entry points. Events and the time to live of the entries are left
-- out. The scope guard of `claim` and `revoke` takes the lock and gives it back at the end.
use shelterflex_contracts.Prelude.{
  ℕ, Bool, true, false, not, ◌||◌, some, ltb, leb, ◌==◌, if◌then◌else◌, ◌+ℤ◌, ◌-ℤ◌, leb_ℤ, ℤ, pos,
  unwrap_or, is_some, update,
}
use shelterflex_contracts.Host.{
  ◌>>=◌, ◌>>◌, fail_if, ok_or, require_auth, checked_i128, Outcome, Env, ok,
}
use shelterflex_contracts.Reentrancy.{enter, exit}
use shelterflex_contracts.Vesting.Types.{
  calculate_claimable_amount, Error, State, already_initialized, not_authorized, paused,
  invalid_amount, schedule_not_found, schedule_already_exists, invalid_time_parameters,
  invalid_cliff_time, cliff_not_reached, not_revocable, already_revoked, schedule_revoked,
  nothing_to_claim, reentrancy_detected,
}

unfoldable pub require_admin : Env → ℕ → State → Outcome Error (Unit {0})
require_admin env caller s = do
  admin ← ok_or s.admin not_authorized
  require_auth env caller
  fail_if (not (caller == admin)) not_authorized

unfoldable pub require_not_paused : State → Outcome Error (Unit {0})
require_not_paused s = fail_if (unwrap_or s.paused_flag false) paused

unfoldable pub initialize : Env → ℕ → ℕ → State → Outcome Error State
initialize env admin token s = do
  fail_if (is_some s.admin) already_initialized
  require_auth env admin
  ok (record s { admin = some admin; token = some token; contract_version = some 1 })

unfoldable pub create_vesting_schedule :
    Env → ℕ → ℕ → ℤ → ℕ → ℕ → ℕ → Bool → State → Outcome Error State
unfolding require_admin
create_vesting_schedule env admin beneficiary total_amount start_time end_time cliff_time revocable
      s =
    do
      require_admin env admin s
      fail_if (leb_ℤ total_amount (pos 0)) invalid_amount
      fail_if (leb end_time start_time) invalid_time_parameters
      fail_if (ltb cliff_time start_time || ltb end_time cliff_time) invalid_cliff_time
      fail_if (is_some (s.schedules beneficiary)) schedule_already_exists
      let schedule = some (record {
        beneficiary = beneficiary;
        total_amount = total_amount;
        claimed_amount = pos 0;
        start_time = start_time;
        end_time = end_time;
        cliff_time = cliff_time;
        revocable = revocable;
        revoked = false;
      })
      ok (record s { schedules = update beneficiary schedule s.schedules })

unfoldable pub claim : Env → ℕ → State → Outcome Error (State × ℤ)
unfolding require_not_paused enter exit
claim env beneficiary s = do
  require_not_paused s
  require_auth env beneficiary
  schedule ← ok_or (s.schedules beneficiary) schedule_not_found
  fail_if schedule.revoked schedule_revoked
  fail_if (ltb env.timestamp schedule.cliff_time) cliff_not_reached
  claimable ← calculate_claimable_amount schedule env.timestamp
  fail_if (leb_ℤ claimable (pos 0)) nothing_to_claim
  claimed ← checked_i128 (schedule.claimed_amount +ℤ claimable)
  let updated = some (record schedule { claimed_amount = claimed })
  locked ← enter s.reentrancy reentrancy_detected
  ok (
    record s { schedules = update beneficiary updated s.schedules; reentrancy = exit locked },
    claimable,
  )

unfoldable pub revoke : Env → ℕ → ℕ → State → Outcome Error (State × ℤ)
unfolding require_admin enter exit
revoke env admin beneficiary s = do
  require_admin env admin s
  schedule ← ok_or (s.schedules beneficiary) schedule_not_found
  fail_if (not schedule.revocable) not_revocable
  fail_if schedule.revoked already_revoked
  unclaimed ← checked_i128 (schedule.total_amount -ℤ schedule.claimed_amount)
  let updated = some (record schedule { revoked = true })
  locked ← enter s.reentrancy reentrancy_detected
  ok (
    record s { schedules = update beneficiary updated s.schedules; reentrancy = exit locked },
    unclaimed,
  )

unfoldable pub get_claimable_amount : Env → ℕ → State → Outcome Error ℤ
get_claimable_amount env beneficiary s = do
  schedule ← ok_or (s.schedules beneficiary) schedule_not_found
  if schedule.revoked then ok (pos 0) else calculate_claimable_amount schedule env.timestamp

unfoldable pub set_admin : Env → ℕ → ℕ → State → Outcome Error State
unfolding require_admin
set_admin env admin new_admin s = do
  require_admin env admin s
  ok (record s { admin = some new_admin })

unfoldable pub pause : Env → ℕ → State → Outcome Error State
unfolding require_admin
pause env admin s = do require_admin env admin s; ok (record s { paused_flag = some true })

unfoldable pub unpause : Env → ℕ → State → Outcome Error State
unfolding require_admin
unpause env admin s = do require_admin env admin s; ok (record s { paused_flag = some false })
