-- ===== src/Vesting/Machine.antt =====
-- vesting_schedule/src/lib.rs: the contract as a state machine with the sum of what each
-- beneficiary has claimed.
use shelterflex_contracts.Prelude.{ℕ, ◌≡◌, Bool, true, List, [], ◌∷◌, ◌+ℤ◌, fits_i128, ℤ, update}
use shelterflex_contracts.Host.{commit, state_of, Outcome, Env, ok, err, trap}
use shelterflex_contracts.Vesting.Types.{Error, State}
use shelterflex_contracts.Vesting.Calls.{
  initialize, create_vesting_schedule, claim, revoke, set_admin, pause, unpause,
}

pub data Call : Type 0 where
  inits sets_admin revokes : ℕ → ℕ → Call
  creates : ℕ → ℕ → ℤ → ℕ → ℕ → ℕ → Bool → Call
  claims pauses unpauses : ℕ → Call

-- What each beneficiary has claimed so far.
abbrev pub Paid : Type 0
Paid = ℕ → ℤ

unfoldable pub note_claim : ℕ → State → Paid → Outcome Error (State × ℤ) → State × Paid
note_claim b s paid (ok (t, amount)) = (t, update b (paid b +ℤ amount) paid)
note_claim b s paid (err e) = (s, paid)
note_claim b s paid trap = (s, paid)

unfoldable pub step : Env → Call → State → Paid → State × Paid
step env (inits a token) s paid = (commit s (initialize env a token s), paid)
step env (sets_admin a new) s paid = (commit s (set_admin env a new s), paid)
step env (revokes a b) s paid = (commit s (state_of (revoke env a b s)), paid)
step env (creates a b total start end cliff can) s paid =
    (commit s (create_vesting_schedule env a b total start end cliff can s), paid)
step env (claims b) s paid = note_claim b s paid (claim env b s)
step env (pauses a) s paid = (commit s (pause env a s), paid)
step env (unpauses a) s paid = (commit s (unpause env a s), paid)

unfoldable pub run : List (Env × Call) → State → Paid → State × Paid
run [] s paid = (s, paid)
run ((env, c) ∷ cs) s paid = let (t, p) = step env c s paid in run cs t p

-- An argument of type i128 is in its range.
unfoldable pub IsTyped : Call → Type 0
IsTyped (inits a token) = Unit {0}
IsTyped (sets_admin a new) = Unit {0}
IsTyped (revokes a b) = Unit {0}
IsTyped (creates a b total start end cliff can) = fits_i128 total ≡ true
IsTyped (claims b) = Unit {0}
IsTyped (pauses a) = Unit {0}
IsTyped (unpauses a) = Unit {0}

unfoldable pub AllTyped : List (Env × Call) → Type 0
AllTyped [] = Unit {0}
AllTyped ((env, c) ∷ cs) = IsTyped c × AllTyped cs
