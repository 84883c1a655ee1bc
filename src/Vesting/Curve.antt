-- ===== src/Vesting/Curve.antt =====
-- vesting_schedule/src/lib.rs: the curve of `calculate_vested_amount`, over the natural numbers.
use shelterflex_contracts.Prelude.{
  ℕ, ◌-◌, ◌*◌, ◌/◌, ◌≤◌, ◌<◌, ◌≡◌, ◌||◌, arith, ltb, leb, if◌then◌else◌, ◌-ℤ◌, ◌/ℤ◌, ◌≤ℤ◌, min_ℤ,
  pos-*ℤ, saturating_sub, ℤ, pos,
}
use shelterflex_contracts.Host.{ok, trap}
use shelterflex_contracts.Vesting.Types.{calculate_vested_amount, VestingSchedule}
use native.Mathlib.Nat.{div-le_of_le-mul, le-div_iff_mul-le, div-mul-le_self, mul-le-mul_right}

-- A schedule as `create_vesting_schedule` accepts it: `total` tokens over a span of time.
pub record IsSchedule (schedule : VestingSchedule) (total : ℕ) : Type 0 where
  pub total_pos : schedule.total_amount ≡ pos total
  pub in_range : total < 170141183460469231731687303715884105728
  pub in_order : schedule.start_time < schedule.end_time
  pub after_start : schedule.start_time ≤ schedule.cliff_time
  pub before_end : schedule.cliff_time ≤ schedule.end_time

-- What has vested at a time, over the natural numbers.
unfoldable pub vested_at : VestingSchedule → ℕ → ℕ → ℕ
vested_at schedule total now =
    if ltb now schedule.start_time
    then 0
    else if leb schedule.end_time now
    then total
    else (now - schedule.start_time) * total / (schedule.end_time - schedule.start_time)

part_le : (a d n : ℕ) → a ≤ d → a * n / d ≤ n
part_le a d n h = div-le_of_le-mul d (grind arith)

pub vested_at_le :
    (schedule : VestingSchedule) (total now : ℕ) → vested_at schedule total now ≤ total
unfolding vested_at
vested_at_le schedule total now =
    ground
      (arith, part_le (now - schedule.start_time) (schedule.end_time - schedule.start_time) total)

min_of_part : (a d n : ℕ) → a ≤ d → min_ℤ (pos (a * n / d)) (pos n) ≡ pos (a * n / d)
min_of_part a d n h = ground (arith, part_le a d n h)

-- For a well-formed schedule, `calculate_vested_amount` is nothing before the start, the total from
-- the end on, and in between the total times the time passed over the duration, rounded down; it
-- traps exactly where that product reaches 2^127 strictly between the ends.
pub calculate_vested_amount_eq :
    (schedule : VestingSchedule) (total now : ℕ)
    → IsSchedule schedule total
    → calculate_vested_amount schedule now ≡ (
        if ltb now schedule.start_time
          || leb schedule.end_time now
          || ltb ((now - schedule.start_time) * total) 170141183460469231731687303715884105728
        then ok (pos (vested_at schedule total now))
        else trap)
unfolding calculate_vested_amount vested_at ◌/ℤ◌
calculate_vested_amount_eq schedule total now i =
    rw (i.total_pos, pos-*ℤ (now - schedule.start_time) total)
      (ground (
        arith,
        i.in_order,
        min_of_part (now - schedule.start_time) (schedule.end_time - schedule.start_time) total,
      ))

div_mono : (a b d : ℕ) → 0 < d → a ≤ b → a / d ≤ b / d
div_mono a b d p h = (le-div_iff_mul-le p).1 (omega (arith, div-mul-le_self a d))

part_mono : (a b d n : ℕ) → 0 < d → a ≤ b → a * n / d ≤ b * n / d
part_mono a b d n p h = div_mono (a * n) (b * n) d p (mul-le-mul_right n h)

-- What has vested never falls, and the total has vested from the end of the schedule on.
pub vested_at_mono :
    (schedule : VestingSchedule) (total now later : ℕ)
    → now ≤ later
    → vested_at schedule total now ≤ vested_at schedule total later
unfolding vested_at
vested_at_mono schedule total now later h = ground (
  arith,
  part_le (now - schedule.start_time) (schedule.end_time - schedule.start_time) total,
  part_mono (now - schedule.start_time) (later - schedule.start_time)
      (schedule.end_time - schedule.start_time) total,
)

pub saturating_sub_pos :
    (v c : ℕ)
    → v < 170141183460469231731687303715884105728
    → c < 170141183460469231731687303715884105728
    → saturating_sub (pos v) (pos c) ≡ pos v -ℤ pos c
unfolding saturating_sub ◌-ℤ◌
saturating_sub_pos v c h k = ground arith

vested_value :
    (schedule : VestingSchedule) (total now : ℕ) (v : ℤ)
    → IsSchedule schedule total
    → calculate_vested_amount schedule now ≡ ok v
    → v ≡ pos (vested_at schedule total now)
vested_value schedule total now v i e =
    ground (arith, calculate_vested_amount_eq schedule total now i)

-- Of a well-formed schedule, what has vested at a time at which the computation returns is not
-- negative, no more than what has vested at a later such time, and never more than the total.
pub calculate_vested_amount_mono :
    (schedule : VestingSchedule) (total now later : ℕ) (v w : ℤ)
    → IsSchedule schedule total
    → now ≤ later
    → calculate_vested_amount schedule now ≡ ok v
    → calculate_vested_amount schedule later ≡ ok w
    → (pos 0 ≤ℤ v) × (v ≤ℤ w) × (w ≤ℤ schedule.total_amount)
unfolding vested_at
calculate_vested_amount_mono schedule total now later v w i h e f =
    let p = vested_value schedule total now v i e in
    let q = vested_value schedule total later w i f in
    rw (p, q, i.total_pos)
      (
        omega arith,
        omega (arith, vested_at_mono schedule total now later h),
        omega (arith, vested_at_le schedule total later),
      )
