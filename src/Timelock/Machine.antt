-- ===== src/Timelock/Machine.antt =====
-- timelock/src/lib.rs: the contract as a state machine, with a log of what was queued and executed.
-- A call that fails leaves the state as it was; `lapses` is the end of a temporary entry's time to
-- live, which the ledger may reach at any point.
use shelterflex_contracts.Prelude.{ℕ, none, List, [], ◌∷◌}
use shelterflex_contracts.Host.{commit, Outcome, Env, ok, err, trap}
use shelterflex_contracts.Timelock.Types.{Error, State, Tx, External}
use shelterflex_contracts.Timelock.Calls.{
  init, queue, execute, cancel, emergency_pause, unpause, expire, set_min_delay,
}
use shelterflex_contracts.Timelock.Effects.{set_entry}

pub data Call : Type 0 where
  inits : ℕ → ℕ → ℕ → List ℕ → Call
  queues : ℕ → Tx → ℕ → Call
  executes : Tx → ℕ → Call
  cancels expires raises : ℕ → ℕ → Call
  pauses : List ℕ → Call
  unpauses : ℕ → Call
  lapses : ℕ → Call

-- A hash is queued, or executed, at a time.
pub data Event : Type 0 where
  queued : ℕ → ℕ → Event
  executed : ℕ → ℕ → Event

-- A state with its log, newest event first.
abbrev pub Logged : Type 0 → Type 0
Logged T = State T × List Event

module _ {T : Type 0} where
  unfoldable pub note_queued : ℕ → Logged T → Outcome Error (State T × ℕ) → Logged T
  note_queued now (s, log) (ok (t, h)) = (t, queued now h ∷ log)
  note_queued now (s, log) (err e) = (s, log)
  note_queued now (s, log) trap = (s, log)

  unfoldable pub note_executed : ℕ → ℕ → Logged T → Outcome Error (State T × ℕ) → Logged T
  note_executed now h (s, log) (ok (t, r)) = (t, executed now h ∷ log)
  note_executed now h (s, log) (err e) = (s, log)
  note_executed now h (s, log) trap = (s, log)

  unfoldable pub step : External T → Env → Call → Logged T → Logged T
  step x env (inits a low high ms) (s, log) = (commit s (init a low high ms s), log)
  step x env (queues a tx delay) (s, log) =
      note_queued env.timestamp (s, log) (queue x env a tx delay s)
  step x env (executes tx eta) (s, log) =
      note_executed env.timestamp (x.tx_hash tx eta) (s, log) (execute x env tx eta s)
  step x env (cancels a h) (s, log) = (commit s (cancel env a h s), log)
  step x env (expires a h) (s, log) = (commit s (expire env a h s), log)
  step x env (raises a low) (s, log) = (commit s (set_min_delay env a low s), log)
  step x env (pauses ms) (s, log) = (commit s (emergency_pause env ms s), log)
  step x env (unpauses a) (s, log) = (commit s (unpause env a s), log)
  step x env (lapses h) (s, log) = (set_entry h none s, log)

  unfoldable pub run : External T → List (Env × Call) → Logged T → Logged T
  run x [] l = l
  run x ((env, c) ∷ cs) l = run x cs (step x env c l)
