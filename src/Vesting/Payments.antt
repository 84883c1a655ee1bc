-- ===== src/Vesting/Payments.antt =====
-- vesting_schedule/src/lib.rs: claims, revocations and runs against the invariant.
use shelterflex_contracts.Prelude.{
  ℕ, ◌-◌, ◌<◌, ◌≡◌, refl, sym, ◌∙◌, inl, inr, true, false, Option, none, some, List, [], ◌∷◌, arith,
  Option-cases, ◌+ℤ◌, ◌≤ℤ◌, ℤ, pos, unwrap_or, update,
}
use shelterflex_contracts.Host.{commit, state_of, Outcome, Env, ok, err, trap}
use shelterflex_contracts.Vesting.Types.{VestingSchedule, Error, State}
use shelterflex_contracts.Vesting.Calls.{require_not_paused, claim, revoke}
use shelterflex_contracts.Vesting.Curve.{vested_at, vested_at_le}
use shelterflex_contracts.Vesting.Claims.{
  with_claim, claim_eq, claim_answer_ok, revoke_ok, no_schedule, IsClaimed,
}
use shelterflex_contracts.Vesting.Machine.{
  Paid, note_claim, step, run, IsTyped, AllTyped, Call, inits, sets_admin, revokes, creates, claims,
  pauses, unpauses,
}
use shelterflex_contracts.Vesting.Invariant.{
  Entry, Same-IsValid, Same, init-Same, admin-Same, pause-Same, unpause-Same, set-IsValid,
  create-IsValid, IsSound, IsValid,
}

some-injective : {A : Type 0} {a b : A} → some a ≡ some b → a ≡ b
some-injective e = cc

IsSound-Entry :
    {o : Option VestingSchedule} {schedule : VestingSchedule} {paid : ℤ}
    → o ≡ some schedule
    → Entry o paid
    → IsSound schedule paid
unfolding Entry
IsSound-Entry {o = none} e i = absurd (cc)
IsSound-Entry {o = some a} e i = rw (← some-injective e) i

no_claim :
    (env : Env) (b : ℕ) (s t : State) (amount : ℤ)
    → s.schedules b ≡ none
    → claim env b s ≡ ok (t, amount)
    → ⊥
unfolding claim require_not_paused
no_claim env b s t amount e h = ground arith

revoke-IsValid :
    (env : Env) (a b : ℕ) (s : State) (paid : Paid) (r : Outcome Error (State × ℤ))
    → revoke env a b s ≡ r
    → IsValid s paid
    → IsValid (commit s (state_of r)) paid
revoke-IsValid env a b s paid (ok (t, u)) h i = elim (Option-cases (s.schedules b)) [
  | inl e ↦ absurd (no_schedule env a b s t u e h)
  | inr (schedule, e) ↦
      let r = revoke_ok env a b schedule s t u e h in
      let v = IsSound-Entry e (i.entries b) in
      set-IsValid s t paid paid b (record schedule { revoked = true }) (rw r.written refl)
        (rw r.written refl) (λ j. ground arith)
        (record {
          total = v.total;
          claimed = v.claimed;
          well_formed = record {
            total_pos = v.well_formed.total_pos;
            in_range = v.well_formed.in_range;
            in_order = v.well_formed.in_order;
            after_start = v.well_formed.after_start;
            before_end = v.well_formed.before_end;
          };
          claimed_pos = v.claimed_pos;
          within = v.within;
          paid_out = v.paid_out;
        })
        i
]
revoke-IsValid env a b s paid (err e) h i = i
revoke-IsValid env a b s paid trap h i = i

claim_sum :
    (before : ℤ) (claimed vested : ℕ) (amount : ℤ) (b : ℕ) (paid : Paid)
    → before ≡ pos claimed
    → amount ≡ pos (vested - claimed)
    → claimed < vested
    → update b (before +ℤ amount) paid b ≡ pos vested
unfolding ◌+ℤ◌
claim_sum before claimed vested amount b paid e f lt = rw (e, f) (ground arith)

-- The amount that a claim adds brings what was paid up to what has vested.
claim-IsValid :
    (env : Env) (b : ℕ) (schedule : VestingSchedule) (s t : State) (paid : Paid) (amount : ℤ)
    → (v : IsSound schedule (paid b)) → IsClaimed env b schedule v.total v.claimed s t amount
    → IsValid s paid
    → IsValid t (update b (paid b +ℤ amount) paid)
unfolding with_claim
claim-IsValid env b schedule s t paid amount v c i =
    set-IsValid s t paid (update b (paid b +ℤ amount) paid) b
      (record schedule { claimed_amount = pos (vested_at schedule v.total env.timestamp) })
      (rw c.written refl) (rw c.written refl) (λ j. ground arith)
      (record {
        total = v.total;
        claimed = vested_at schedule v.total env.timestamp;
        well_formed = record {
          total_pos = v.well_formed.total_pos;
          in_range = v.well_formed.in_range;
          in_order = v.well_formed.in_order;
          after_start = v.well_formed.after_start;
          before_end = v.well_formed.before_end;
        };
        claimed_pos = refl;
        within = vested_at_le schedule v.total env.timestamp;
        paid_out =
            claim_sum (paid b) v.claimed (vested_at schedule v.total env.timestamp) amount b paid
              v.paid_out c.paid c.some_left;
      })
      i

note_claim-IsValid :
    (env : Env) (b : ℕ) (s : State) (paid : Paid) (r : Outcome Error (State × ℤ))
    → claim env b s ≡ r
    → IsValid s paid
    → IsValid (note_claim b s paid r).0 (note_claim b s paid r).1
unfolding note_claim
note_claim-IsValid env b s paid (ok (t, amount)) h i = elim (Option-cases (s.schedules b)) [
  | inl e ↦ absurd (no_claim env b s t amount e h)
  | inr (schedule, e) ↦
      let v = IsSound-Entry e (i.entries b) in
      let c = claim_answer_ok env b schedule v.total v.claimed s t amount (
        sym (
          claim_eq env b schedule v.total v.claimed s e v.well_formed v.claimed_pos v.within
            i.unlocked)
        ∙ h) in
      claim-IsValid env b schedule s t paid amount v c i
]
note_claim-IsValid env b s paid (err e) h i = i
note_claim-IsValid env b s paid trap h i = i

pub step-IsValid :
    (env : Env) (c : Call) (s : State) (paid : Paid)
    → IsTyped c
    → IsValid s paid
    → IsValid (step env c s paid).0 (step env c s paid).1
unfolding step IsTyped Same
step-IsValid env (inits a token) s paid typed i = Same-IsValid s _ paid (init-Same env s a token) i
step-IsValid env (sets_admin a new) s paid typed i =
    Same-IsValid s _ paid (admin-Same env s a new) i
step-IsValid env (revokes a b) s paid typed i = revoke-IsValid env a b s paid _ refl i
step-IsValid env (creates a b total start end cliff can) s paid typed i =
    create-IsValid env a b total start end cliff can s paid _ typed refl i
step-IsValid env (claims b) s paid typed i = note_claim-IsValid env b s paid _ refl i
step-IsValid env (pauses a) s paid typed i = Same-IsValid s _ paid (pause-Same env s a) i
step-IsValid env (unpauses a) s paid typed i = Same-IsValid s _ paid (unpause-Same env s a) i

-- Every run keeps the invariant: of each schedule no more is claimed than its total, and what was
-- paid out is what the schedule says.
pub run-IsValid :
    (cs : List (Env × Call)) (s : State) (paid : Paid)
    → AllTyped cs
    → IsValid s paid
    → IsValid (run cs s paid).0 (run cs s paid).1
unfolding run AllTyped
run-IsValid [] s paid typed i = i
run-IsValid ((env, c) ∷ cs) s paid (ty, tys) i =
    run-IsValid cs _ _ tys (step-IsValid env c s paid ty i)

-- Nothing is stored yet.
pub record IsFresh (s : State) : Type 0 where
  pub no_schedule_yet : (b : ℕ) → s.schedules b ≡ none
  pub not_locked : unwrap_or s.reentrancy false ≡ false

fresh-IsValid : (s : State) → IsFresh s → IsValid s (λ b. pos 0)
unfolding Entry
fresh-IsValid s f = record { unlocked = f.not_locked; entries = λ b. rw (f.no_schedule_yet b) refl }

sound_bounds :
    (schedule : VestingSchedule) (paid : ℤ)
    → IsSound schedule paid
    → (paid ≡ schedule.claimed_amount) × (pos 0 ≤ℤ paid) × (paid ≤ℤ schedule.total_amount)
sound_bounds schedule paid v = (
  v.paid_out ∙ sym v.claimed_pos,
  rw v.paid_out (omega arith),
  rw (v.paid_out, v.well_formed.total_pos) (omega (arith, v.within)),
)

-- After any sequence of calls on fresh storage whose i128 arguments are in range, the sum of what a
-- beneficiary with a schedule has claimed is the schedule's claimed amount, is not negative and is
-- at most the schedule's total.
pub run-claims_bounded :
    (cs : List (Env × Call)) (s : State) (b : ℕ) (schedule : VestingSchedule)
    → IsFresh s
    → AllTyped cs
    → (run cs s (λ b. pos 0)).0.schedules b ≡ some schedule
    → ((run cs s (λ b. pos 0)).1 b ≡ schedule.claimed_amount)
      × (pos 0 ≤ℤ (run cs s (λ b. pos 0)).1 b)
      × ((run cs s (λ b. pos 0)).1 b ≤ℤ schedule.total_amount)
run-claims_bounded cs s b schedule f typed e =
    sound_bounds schedule _
      (IsSound-Entry e ((run-IsValid cs s _ typed (fresh-IsValid s f)).entries b))
