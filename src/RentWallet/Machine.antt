-- ===== src/RentWallet/Machine.antt =====
-- rent_wallet/src/lib.rs: the contract as a state machine with a log of the credits and debits that
-- returned, the last one first.
use shelterflex_contracts.Prelude.{ℕ, List, [], ◌∷◌, pos_part, ℤ}
use shelterflex_contracts.Host.{commit, Outcome, Env, ok, err, trap}
use shelterflex_contracts.RentWallet.Types.{current_month_key, Error, State}
use shelterflex_contracts.RentWallet.Calls.{
  init, credit, debit, set_admin, pause, unpause, set_default_monthly_cap, set_user_monthly_cap,
}
use shelterflex_contracts.RentWallet.Upgrades.{
  set_guardian, set_upgrade_delay, propose_upgrade, execute_upgrade, emergency_upgrade,
  cancel_upgrade,
}

pub data Call : Type 0 where
  inits : ℕ → Call
  credits debits : ℕ → ℕ → ℤ → Call
  sets_admin sets_guardian sets_delay executes : ℕ → ℕ → Call
  pauses unpauses cancels : ℕ → Call
  proposes emergency : ℕ → ℕ → ℕ → Call
  sets_default_cap : ℕ → ℤ → Call
  sets_user_cap : ℕ → ℕ → ℤ → Call

-- A debit with the month it was made in.
pub data Entry : Type 0 where
  credited : ℕ → ℕ → Entry
  debited : ℕ → ℕ → ℕ → Entry

unfoldable pub note : Entry → State → List Entry → Outcome Error State → State × List Entry
note e s log (ok t) = (t, e ∷ log)
note e s log (err _) = (s, log)
note e s log trap = (s, log)

unfoldable pub step : Env → Call → State → List Entry → State × List Entry
step env (inits a) s log = (commit s (init a s), log)
step env (credits a user amount) s log =
    note (credited user (pos_part amount)) s log (credit env a user amount s)
step env (debits a user amount) s log =
    note (debited user (current_month_key env) (pos_part amount)) s log (debit env a user amount s)
step env (sets_admin a new) s log = (commit s (set_admin env a new s), log)
step env (sets_guardian a g) s log = (commit s (set_guardian env a g s), log)
step env (sets_delay a n) s log = (commit s (set_upgrade_delay env a n s), log)
step env (executes a h) s log = (commit s (execute_upgrade env a h s), log)
step env (pauses a) s log = (commit s (pause env a s), log)
step env (unpauses a) s log = (commit s (unpause env a s), log)
step env (cancels a) s log = (commit s (cancel_upgrade env a s), log)
step env (proposes a h n) s log = (commit s (propose_upgrade env a h n s), log)
step env (emergency a h n) s log = (commit s (emergency_upgrade env a h n s), log)
step env (sets_default_cap a cap) s log = (commit s (set_default_monthly_cap env a cap s), log)
step env (sets_user_cap a user cap) s log = (commit s (set_user_monthly_cap env a user cap s), log)

unfoldable pub run : List (Env × Call) → State → List Entry → State × List Entry
run [] s log = (s, log)
run ((env, c) ∷ cs) s log = let (t, l) = step env c s log in run cs t l
