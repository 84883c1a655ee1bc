-- ===== src/Vesting/Types.antt =====
-- vesting_schedule/src/lib.rs: the schedule, the state with a field for each storage key, and the
-- amounts that have vested and can be claimed.
use shelterflex_contracts.Prelude.{
  ℕ, ◌-◌, Bool, Option, ltb, leb, if◌then◌else◌, ◌*ℤ◌, ◌/ℤ◌, min_ℤ, saturating_sub, ℤ, pos,
}
use shelterflex_contracts.Host.{◌>>=◌, checked_i128, Outcome, ok}

pub record VestingSchedule : Type 0 where
  pub beneficiary : ℕ
  pub total_amount : ℤ
  pub claimed_amount : ℤ
  pub start_time : ℕ
  pub end_time : ℕ
  pub cliff_time : ℕ
  pub revocable : Bool
  pub revoked : Bool

pub data Error : Type 0 where
  already_initialized not_authorized paused invalid_amount insufficient_balance : Error
  schedule_not_found schedule_already_exists invalid_time_parameters : Error
  invalid_cliff_time cliff_not_reached not_revocable already_revoked token_not_set : Error
  schedule_revoked nothing_to_claim reentrancy_detected : Error

pub record State : Type 0 where
  pub contract_version : Option ℕ
  pub admin : Option ℕ
  pub paused_flag : Option Bool
  pub schedules : ℕ → Option VestingSchedule
  pub token : Option ℕ
  pub reentrancy : Option Bool

-- The product may overflow an i128, which traps.
unfoldable pub calculate_vested_amount : VestingSchedule → ℕ → Outcome Error ℤ
calculate_vested_amount schedule current_time =
    if ltb current_time schedule.start_time
    then ok (pos 0)
    else if leb schedule.end_time current_time
    then ok schedule.total_amount
    else if leb schedule.end_time schedule.start_time
    then ok (pos 0)
    else (checked_i128 (pos (current_time - schedule.start_time) *ℤ schedule.total_amount)
        >>= λ scaled.
            ok (min_ℤ (scaled /ℤ (schedule.end_time - schedule.start_time)) schedule.total_amount))

unfoldable pub calculate_claimable_amount : VestingSchedule → ℕ → Outcome Error ℤ
calculate_claimable_amount schedule current_time =
    if ltb current_time schedule.cliff_time
    then ok (pos 0)
    else (calculate_vested_amount schedule current_time >>= λ vested.
        ok (saturating_sub vested schedule.claimed_amount))
