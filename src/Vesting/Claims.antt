-- ===== src/Vesting/Claims.antt =====
-- vesting_schedule/src/lib.rs: what `claim` and `revoke` do, on all branches.
use shelterflex_contracts.Prelude.{
  ℕ, ◌-◌, ◌*◌, ◌≤◌, ◌<◌, ◌≡◌, refl, inl, inr, true, false, not, ◌||◌, none, some, arith, ltb, leb,
  if◌then◌else◌, Bool-cases, Option-cases, ◌+ℤ◌, ◌-ℤ◌, leb_ℤ, ℤ, pos, unwrap_or, update,
}
use shelterflex_contracts.Host.{◌>>=◌, ◌>>◌, fail_if, checked_i128, Outcome, Env, ok, err, trap}
use shelterflex_contracts.Vesting.Types.{
  calculate_claimable_amount, VestingSchedule, Error, State, paused, cliff_not_reached,
  schedule_revoked, nothing_to_claim, reentrancy_detected,
}
use shelterflex_contracts.Vesting.Calls.{require_not_paused, claim, revoke}
use shelterflex_contracts.Vesting.Curve.{
  vested_at, vested_at_le, calculate_vested_amount_eq, saturating_sub_pos, IsSchedule,
}
use shelterflex_contracts.Reentrancy.{enter, exit}

-- The state after a claim that brought the claimed amount of a schedule up to `claimed`.
unfoldable pub with_claim : ℕ → VestingSchedule → ℕ → State → State
with_claim b schedule claimed s = record s {
  schedules = update b (some (record schedule { claimed_amount = pos claimed })) s.schedules;
  reentrancy = some false;
}

-- The answer to a claim on a schedule that exists, over the natural numbers.
unfoldable pub claim_answer : Env → ℕ → VestingSchedule → ℕ → ℕ → State → Outcome Error (State × ℤ)
claim_answer env b schedule total claimed s =
    if unwrap_or s.paused_flag false
    then err paused
    else if not (env.authorized b)
    then trap
    else if schedule.revoked
    then err schedule_revoked
    else if ltb env.timestamp schedule.cliff_time
    then err cliff_not_reached
    else if leb schedule.end_time env.timestamp
        || ltb ((env.timestamp - schedule.start_time) * total)
            170141183460469231731687303715884105728
    then (let vested = vested_at schedule total env.timestamp in
        if leb vested claimed
        then err nothing_to_claim
        else ok (with_claim b schedule vested s, pos (vested - claimed)))
    else trap

claimable_eq :
    (schedule : VestingSchedule) (total claimed now : ℕ)
    → IsSchedule schedule total
    → schedule.claimed_amount ≡ pos claimed
    → claimed ≤ total
    → schedule.cliff_time ≤ now
    → calculate_claimable_amount schedule now ≡ (
        if leb schedule.end_time now
          || ltb ((now - schedule.start_time) * total) 170141183460469231731687303715884105728
        then ok (pos (vested_at schedule total now) -ℤ pos claimed)
        else trap)
unfolding calculate_claimable_amount
claimable_eq schedule total claimed now i c le late =
    rw (calculate_vested_amount_eq schedule total now i, c)
      (ground (
        arith,
        i.after_start,
        i.in_range,
        vested_at_le schedule total now,
        saturating_sub_pos (vested_at schedule total now) claimed,
      ))

-- The end of a claim, after the amount is known.
unfoldable finish_claim : ℕ → VestingSchedule → ℤ → State → Outcome Error (State × ℤ)
finish_claim b schedule claimable s = do
  fail_if (leb_ℤ claimable (pos 0)) nothing_to_claim
  total ← checked_i128 (schedule.claimed_amount +ℤ claimable)
  locked ← enter s.reentrancy reentrancy_detected
  ok (
    record s {
      schedules = update b (some (record schedule { claimed_amount = total })) s.schedules;
      reentrancy = exit locked;
    },
    claimable,
  )

finish_claim_eq :
    (b : ℕ) (schedule : VestingSchedule) (vested claimed : ℕ) (s : State)
    → schedule.claimed_amount ≡ pos claimed
    → vested < 170141183460469231731687303715884105728
    → unwrap_or s.reentrancy false ≡ false
    → finish_claim b schedule (pos vested -ℤ pos claimed) s ≡ (
        if leb vested claimed
        then err nothing_to_claim
        else ok (with_claim b schedule vested s, pos (vested - claimed)))
unfolding finish_claim with_claim enter exit ◌+ℤ◌ ◌-ℤ◌
finish_claim_eq b schedule vested claimed s c fits free = rw c (ground arith)

-- For a well-formed schedule of which no more than the total is claimed, and an open reentrancy
-- lock, `claim` is, on all branches, the function that checks the pause, the authorisation, the
-- revocation and the cliff in this order, traps if the product of the time passed and the total
-- overflows before the end, refuses if no more has vested than is claimed, and else returns the
-- difference and stores what has vested as the claimed amount, with nothing else changed.
pub claim_eq :
    (env : Env) (b : ℕ) (schedule : VestingSchedule) (total claimed : ℕ) (s : State)
    → s.schedules b ≡ some schedule
    → IsSchedule schedule total
    → schedule.claimed_amount ≡ pos claimed
    → claimed ≤ total
    → unwrap_or s.reentrancy false ≡ false
    → claim env b s ≡ claim_answer env b schedule total claimed s
unfolding claim claim_answer require_not_paused finish_claim
claim_eq env b schedule total claimed s e i c le free =
    elim (Bool-cases (ltb env.timestamp schedule.cliff_time)) [
      | inl early ↦ rw (e, early) (ground arith)
      | inr late ↦
          rw (e, late, claimable_eq schedule total claimed env.timestamp i c le (ground arith))
            (ground (
              arith,
              i.in_range,
              vested_at_le schedule total env.timestamp,
              finish_claim_eq b schedule (vested_at schedule total env.timestamp) claimed s c,
            ))
    ]

-- What a claim that returned has checked and done.
pub record IsClaimed (env : Env) (b : ℕ) (schedule : VestingSchedule) (total claimed : ℕ)
    (s t : State) (amount : ℤ) : Type 0 where
  pub not_paused : unwrap_or s.paused_flag false ≡ false
  pub signed : env.authorized b ≡ true
  pub not_revoked : schedule.revoked ≡ false
  pub after_cliff : schedule.cliff_time ≤ env.timestamp
  pub some_left : claimed < vested_at schedule total env.timestamp
  pub paid : amount ≡ pos (vested_at schedule total env.timestamp - claimed)
  pub written : t ≡ with_claim b schedule (vested_at schedule total env.timestamp) s

pub claim_answer_ok :
    (env : Env) (b : ℕ) (schedule : VestingSchedule) (total claimed : ℕ) (s t : State) (amount : ℤ)
    → claim_answer env b schedule total claimed s ≡ ok (t, amount)
    → IsClaimed env b schedule total claimed s t amount
unfolding claim_answer
claim_answer_ok env b schedule total claimed s t amount h = record {
  not_paused = ground arith;
  signed = ground arith;
  not_revoked = ground arith;
  after_cliff = ground arith;
  some_left = ground arith;
  paid = ground arith;
  written = ground arith;
}

-- What a revocation that returned has checked and done.
pub record IsRevoked (b : ℕ) (schedule : VestingSchedule) (s t : State) (unclaimed : ℤ)
    : Type 0 where
  pub can_revoke : schedule.revocable ≡ true
  pub was_live : schedule.revoked ≡ false
  pub answer : unclaimed ≡ schedule.total_amount -ℤ schedule.claimed_amount
  pub written : t ≡ record s {
    schedules = update b (some (record schedule { revoked = true })) s.schedules;
    reentrancy = some false;
  }

pub revoke_ok :
    (env : Env) (a b : ℕ) (schedule : VestingSchedule) (s t : State) (unclaimed : ℤ)
    → s.schedules b ≡ some schedule
    → revoke env a b s ≡ ok (t, unclaimed)
    → IsRevoked b schedule s t unclaimed
unfolding revoke enter exit
revoke_ok env a b schedule s t unclaimed e h = record {
  can_revoke = ground arith;
  was_live = ground arith;
  answer = ground arith;
  written = ground arith;
}

revoked-claim :
    (env : Env) (b : ℕ) (schedule : VestingSchedule) (s : State)
    → s.schedules b ≡ some schedule
    → schedule.revoked ≡ true
    → env.authorized b ≡ true
    → unwrap_or s.paused_flag false ≡ false
    → claim env b s ≡ err schedule_revoked
unfolding claim require_not_paused
revoked-claim env b schedule s e r auth p = ground arith

pub no_schedule :
    (env : Env) (a b : ℕ) (s t : State) (unclaimed : ℤ)
    → s.schedules b ≡ none
    → revoke env a b s ≡ ok (t, unclaimed)
    → ⊥
unfolding revoke
no_schedule env a b s t unclaimed e h = ground arith

-- In the state that a revocation has left, a claim that the beneficiary has authorised, made while
-- the contract is not paused, fails as revoked.
pub revoke-claim :
    (env later : Env) (a b : ℕ) (s t : State) (unclaimed : ℤ)
    → revoke env a b s ≡ ok (t, unclaimed)
    → later.authorized b ≡ true
    → unwrap_or t.paused_flag false ≡ false
    → claim later b t ≡ err schedule_revoked
unfolding claim require_not_paused
revoke-claim env later a b s t unclaimed h auth p = elim (Option-cases (s.schedules b)) [
  | inl e ↦ absurd (no_schedule env a b s t unclaimed e h)
  | inr (schedule, e) ↦
      let r = revoke_ok env a b schedule s t unclaimed e h in
      revoked-claim later b (record schedule { revoked = true }) t (rw r.written (ground arith))
        refl auth p
]
