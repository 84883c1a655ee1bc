-- ===== src/Vesting/Tests.antt =====
-- vesting_schedule/src/lib.rs: the properties at concrete calls.
use shelterflex_contracts.Prelude.{
  ℕ, ◌-◌, ◌*◌, ◌≡◌, refl, true, false, ◌||◌, none, some, List, [], ◌∷◌, arith, ltb, leb,
  if◌then◌else◌, ◌+ℤ◌, ◌-ℤ◌, ◌*ℤ◌, ◌/ℤ◌, ◌≤ℤ◌, saturating_sub, pos, update,
}
use shelterflex_contracts.Host.{Env, ok, err, trap}
use shelterflex_contracts.Reentrancy.{enter, exit}
use shelterflex_contracts.Vesting.Types.{
  calculate_vested_amount, calculate_claimable_amount, VestingSchedule, State, cliff_not_reached,
  schedule_revoked,
}
use shelterflex_contracts.Vesting.Calls.{
  require_not_paused, initialize, create_vesting_schedule, claim, revoke,
}
use shelterflex_contracts.Vesting.Curve.{
  vested_at, calculate_vested_amount_eq, calculate_vested_amount_mono, IsSchedule,
}
use shelterflex_contracts.Vesting.Claims.{
  claim_answer, claim_eq, revoke_ok, revoke-claim, IsRevoked,
}
use shelterflex_contracts.Vesting.Machine.{
  note_claim, step, run, IsTyped, AllTyped, Call, inits, creates, claims,
}
use shelterflex_contracts.Vesting.Payments.{run-claims_bounded}

abbrev at : ℕ → Env
at time = record {
  authorized = λ a. true;
  reauthorized = λ a. false;
  timestamp = time;
  sequence = 1;
  current = 50;
  uploaded = λ hash. true;
}

abbrev blank : State
blank = record {
  contract_version = none;
  admin = none;
  paused_flag = none;
  schedules = λ b. none;
  token = none;
  reentrancy = none;
}

-- 1000 tokens over 100 seconds, of which a quarter is claimed.
abbrev grant : VestingSchedule
grant = record {
  beneficiary = 2;
  total_amount = pos 1000;
  claimed_amount = pos 250;
  start_time = 100;
  end_time = 200;
  cliff_time = 120;
  revocable = true;
  revoked = false;
}

abbrev granted : State
granted = record blank {
  admin = some 1;
  token = some 9;
  schedules = update 2 (some grant) (λ b. none);
}

abbrev after_claim : State
after_claim = record granted {
  schedules = update 2 (some (record grant { claimed_amount = pos 500 })) granted.schedules;
  reentrancy = some false;
}

claim_test : claim (at 150) 2 granted ≡ ok (after_claim, pos 250)
unfolding claim require_not_paused calculate_claimable_amount calculate_vested_amount saturating_sub
    enter exit ◌+ℤ◌ ◌-ℤ◌ ◌*ℤ◌ ◌/ℤ◌
claim_test = refl

claim_early_test : claim (at 119) 2 granted ≡ err cliff_not_reached
unfolding claim require_not_paused
claim_early_test = refl

grant-IsSchedule : IsSchedule grant 1000
grant-IsSchedule = record {
  total_pos = refl;
  in_range = omega arith;
  in_order = omega arith;
  after_start = omega arith;
  before_end = omega arith;
}

calculate_vested_amount_eq_test : calculate_vested_amount grant 150 ≡ (
    if ltb 150 100
      || leb 200 150
      || ltb ((150 - 100) * 1000) 170141183460469231731687303715884105728
    then ok (pos (vested_at grant 1000 150))
    else trap)
calculate_vested_amount_eq_test = calculate_vested_amount_eq grant 1000 150 grant-IsSchedule

vested_test : calculate_vested_amount grant 150 ≡ ok (pos 500)
unfolding calculate_vested_amount ◌*ℤ◌ ◌/ℤ◌
vested_test = refl

vested_late_test : calculate_vested_amount grant 175 ≡ ok (pos 750)
unfolding calculate_vested_amount ◌*ℤ◌ ◌/ℤ◌
vested_late_test = refl

calculate_vested_amount_mono_test :
    (pos 0 ≤ℤ pos 500) × (pos 500 ≤ℤ pos 750) × (pos 750 ≤ℤ grant.total_amount)
calculate_vested_amount_mono_test =
    calculate_vested_amount_mono grant 1000 150 175 (pos 500) (pos 750) grant-IsSchedule
      (omega arith) vested_test vested_late_test

claim_eq_example : claim (at 150) 2 granted ≡ claim_answer (at 150) 2 grant 1000 250 granted
claim_eq_example =
    claim_eq (at 150) 2 grant 1000 250 granted refl grant-IsSchedule refl (omega arith) refl

abbrev after_revoke : State
after_revoke = record granted {
  schedules = update 2 (some (record grant { revoked = true })) granted.schedules;
  reentrancy = some false;
}

revoke_test : revoke (at 150) 1 2 granted ≡ ok (after_revoke, pos 750)
unfolding revoke enter exit ◌-ℤ◌
revoke_test = refl

revoke_ok_test : IsRevoked 2 grant granted after_revoke (pos 750)
revoke_ok_test = revoke_ok (at 150) 1 2 grant granted after_revoke (pos 750) refl revoke_test

revoke-claim_test : claim (at 300) 2 after_revoke ≡ err schedule_revoked
revoke-claim_test =
    revoke-claim (at 150) (at 300) 1 2 granted after_revoke (pos 750) revoke_test refl refl

abbrev calls : List (Env × Call)
calls =
    (at 1, inits 1 9)
    ∷ (at 90, creates 1 2 (pos 1000) 100 200 120 true)
    ∷ (at 125, claims 2)
    ∷ (at 150, claims 2)
    ∷ []

-- The schedule after the two claims.
abbrev half_claimed : VestingSchedule
half_claimed = record grant { claimed_amount = pos 500 }

half_claimed_test : (run calls blank (λ b. pos 0)).0.schedules 2 ≡ some half_claimed
unfolding run step note_claim initialize create_vesting_schedule claim require_not_paused
    calculate_claimable_amount calculate_vested_amount saturating_sub enter exit ◌+ℤ◌ ◌-ℤ◌ ◌*ℤ◌ ◌/ℤ◌
half_claimed_test = refl

run-claims_bounded_example :
    ((run calls blank (λ b. pos 0)).1 2 ≡ pos 500)
    × (pos 0 ≤ℤ (run calls blank (λ b. pos 0)).1 2)
    × ((run calls blank (λ b. pos 0)).1 2 ≤ℤ pos 1000)
unfolding AllTyped IsTyped
run-claims_bounded_example =
    run-claims_bounded calls blank 2 half_claimed
      (record { no_schedule_yet = λ b. refl; not_locked = refl }) (tt, (refl, (tt, (tt, tt))))
      half_claimed_test
