-- ===== src/Vesting/Invariant.antt =====
-- vesting_schedule/src/lib.rs: schedules and payments between the calls.
use shelterflex_contracts.Prelude.{
  ℕ, ◌≤◌, ◌≡◌, refl, Bool, true, false, Option, none, some, arith, ℕ_discrete, ◌==◌, if◌then◌else◌,
  ==_refl, ==_ne, fits_i128, ℤ, pos, negsuc, unwrap_or, is_some, update,
}
use shelterflex_contracts.Host.{commit, Outcome, Env, ok, err, trap}
use shelterflex_contracts.Vesting.Types.{VestingSchedule, Error, State}
use shelterflex_contracts.Vesting.Calls.{
  initialize, create_vesting_schedule, set_admin, pause, unpause,
}
use shelterflex_contracts.Vesting.Curve.{IsSchedule}
use shelterflex_contracts.Vesting.Machine.{Paid}

-- A schedule, the amount claimed from it, and what was paid out.
pub record IsSound (schedule : VestingSchedule) (paid : ℤ) : Type 0 where
  pub total : ℕ
  pub claimed : ℕ
  pub well_formed : IsSchedule schedule total
  pub claimed_pos : schedule.claimed_amount ≡ pos claimed
  pub within : claimed ≤ total
  pub paid_out : paid ≡ pos claimed

unfoldable pub Entry : Option VestingSchedule → ℤ → Type 0
Entry none paid = paid ≡ pos 0
Entry (some schedule) paid = IsSound schedule paid

pub record IsValid (s : State) (paid : Paid) : Type 0 where
  pub unlocked : unwrap_or s.reentrancy false ≡ false
  pub entries : (b : ℕ) → Entry (s.schedules b) (paid b)

pub Same-IsValid :
    (s t : State) (paid : Paid)
    → (t.schedules ≡ s.schedules) × (t.reentrancy ≡ s.reentrancy)
    → IsValid s paid
    → IsValid t paid
Same-IsValid s t paid (e, f) i = record {
  unlocked = rw f i.unlocked;
  entries = λ b. rw e (i.entries b);
}

-- The calls that leave schedules and lock alone.
module _ (env : Env) (s : State) where
  unfoldable pub Same : State → Type 0
  Same t = (t.schedules ≡ s.schedules) × (t.reentrancy ≡ s.reentrancy)

  pub init-Same : (a token : ℕ) → Same (commit s (initialize env a token s))
  unfolding initialize Same
  init-Same a token = (ground arith, ground arith)

  pub admin-Same : (a new : ℕ) → Same (commit s (set_admin env a new s))
  unfolding set_admin Same
  admin-Same a new = (ground arith, ground arith)

  pub pause-Same : (a : ℕ) → Same (commit s (pause env a s))
  unfolding pause Same
  pause-Same a = (ground arith, ground arith)

  pub unpause-Same : (a : ℕ) → Same (commit s (unpause env a s))
  unfolding unpause Same
  unpause-Same a = (ground arith, ground arith)

-- A write of one entry that is sound.
pub set-IsValid :
    (s t : State) (paid after : Paid) (b : ℕ) (schedule : VestingSchedule)
    → t.schedules ≡ update b (some schedule) s.schedules
    → unwrap_or t.reentrancy false ≡ false
    → ((j : ℕ) → after j ≡ (if j == b then after b else paid j))
    → IsSound schedule (after b)
    → IsValid s paid
    → IsValid t after
unfolding Entry
set-IsValid s t paid after b schedule e f g i v = record {
  unlocked = f;
  entries = λ j. rw e (elim (ℕ_discrete j b) [
    | yes p ↦ rw (p, ==_refl b) i
    | no p ↦ rw (g j, ==_ne j b p) (v.entries j)
  ]);
}

none-Entry :
    (o : Option VestingSchedule) (paid : ℤ) → is_some o ≡ false → Entry o paid → paid ≡ pos 0
unfolding Entry
none-Entry none paid h e = e
none-Entry (some a) paid h e = cc

-- A schedule that `create_vesting_schedule` made.
record IsCreated (b : ℕ) (total : ℤ) (s t : State) : Type 0 where
  schedule : VestingSchedule
  amount : ℕ
  is_schedule : IsSchedule schedule amount
  unclaimed : schedule.claimed_amount ≡ pos 0
  was_free : is_some (s.schedules b) ≡ false
  written : t.schedules ≡ update b (some schedule) s.schedules
  same_lock : t.reentrancy ≡ s.reentrancy

create_ok :
    (env : Env) (a b : ℕ) (total : ℕ) (start end cliff : ℕ) (can : Bool) (s t : State)
    → fits_i128 (pos total) ≡ true
    → create_vesting_schedule env a b (pos total) start end cliff can s ≡ ok t
    → IsCreated b (pos total) s t
unfolding create_vesting_schedule
create_ok env a b total start end cliff can s t fits h = record {
  schedule = record {
    beneficiary = b;
    total_amount = pos total;
    claimed_amount = pos 0;
    start_time = start;
    end_time = end;
    cliff_time = cliff;
    revocable = can;
    revoked = false;
  };
  amount = total;
  is_schedule = record {
    total_pos = refl;
    in_range = ground arith;
    in_order = ground arith;
    after_start = ground arith;
    before_end = ground arith;
  };
  unclaimed = refl;
  was_free = ground arith;
  written = ground arith;
  same_lock = ground arith;
}

Created-IsValid :
    (b : ℕ) (total : ℤ) (s t : State) (paid : Paid)
    → IsCreated b total s t
    → IsValid s paid
    → IsValid t paid
Created-IsValid b total s t paid c i =
    set-IsValid s t paid paid b c.schedule c.written (rw c.same_lock i.unlocked) (λ j. ground arith)
      (record {
        total = c.amount;
        claimed = 0;
        well_formed = c.is_schedule;
        claimed_pos = c.unclaimed;
        within = ground arith;
        paid_out = none-Entry _ _ c.was_free (i.entries b);
      })
      i

not_negative :
    (env : Env) (a b n start end cliff : ℕ) (can : Bool) (s t : State)
    → create_vesting_schedule env a b (negsuc n) start end cliff can s ≡ ok t
    → ⊥
unfolding create_vesting_schedule
not_negative env a b n start end cliff can s t h = ground arith

pub create-IsValid :
    (env : Env) (a b : ℕ) (total : ℤ) (start end cliff : ℕ) (can : Bool) (s : State) (paid : Paid)
    (r : Outcome Error State)
    → fits_i128 total ≡ true
    → create_vesting_schedule env a b total start end cliff can s ≡ r
    → IsValid s paid
    → IsValid (commit s r) paid
create-IsValid env a b (pos n) start end cliff can s paid (ok t) f h i =
    Created-IsValid b (pos n) s t paid (create_ok env a b n start end cliff can s t f h) i
create-IsValid env a b (negsuc n) start end cliff can s paid (ok t) f h i =
    absurd (not_negative env a b n start end cliff can s t h)
create-IsValid env a b total start end cliff can s paid (err e) f h i = i
create-IsValid env a b total start end cliff can s paid trap f h i = i
