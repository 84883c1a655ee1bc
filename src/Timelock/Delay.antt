-- ===== src/Timelock/Delay.antt =====
-- timelock/src/lib.rs: the delay between queueing and execution, over runs.
use shelterflex_contracts.Prelude.{
  ℕ, ◌≤◌, ◌≡◌, refl, sym, inl, inr, none, List, [], ◌∷◌, arith, ℕ_discrete,
}
use shelterflex_contracts.Host.{Outcome, Env, ok, err, trap}
use shelterflex_contracts.Timelock.Types.{Error, State, Tx, External}
use shelterflex_contracts.Timelock.Calls.{init, queue, execute}
use shelterflex_contracts.Timelock.Effects.{queue_ok, execute_ok, IsQueued, IsExecuted}
use shelterflex_contracts.Timelock.Machine.{
  note_queued, note_executed, step, run, Call, Event, inits, queues, executes, cancels, expires,
  raises, pauses, unpauses, lapses, queued, executed,
}
use shelterflex_contracts.Timelock.Log.{
  IsBacked, AllBacked, queueings, executions, later-IsBacked, Keeps-IsSafe, init-Keeps,
  cancel-Keeps, expire-Keeps, raise-Keeps, pause-Keeps, unpause-Keeps, lapse-Keeps, IsSafe,
}

-- The two calls that write to the log.
module _ {T : Type 0} (floor : ℕ) (x : External T) (env : Env) (s : State T)
    (log : List Event) where
  queue-IsSafe :
      (a : ℕ) (tx : Tx) (delay : ℕ) (t : State T) (h : ℕ)
      → IsQueued x env a tx delay s t h
      → IsSafe floor s log
      → IsSafe floor t (queued env.timestamp h ∷ log)
  unfolding IsBacked AllBacked queueings executions
  queue-IsSafe a tx delay t h q i = rw q.stored (record {
    admin_set = i.admin_set;
    above_floor = i.above_floor;
    queue_backed = λ j eta e. elim (ℕ_discrete j h) [
      | yes p ↦ inl (sym p, ground (arith, q.long_enough, i.above_floor))
      | no p ↦ inr (i.queue_backed j eta (ground arith))
    ];
    all_backed = i.all_backed;
    once = λ j. ground (arith, i.once j, q.was_free);
  })

  execute-IsSafe :
      (tx : Tx) (eta : ℕ) (t : State T) (result : ℕ)
      → IsExecuted x env tx eta s t result
      → IsSafe floor s log
      → IsSafe floor t (executed env.timestamp (x.tx_hash tx eta) ∷ log)
  unfolding IsBacked AllBacked queueings executions
  execute-IsSafe tx eta t result q i = rw q.left (record {
    admin_set = i.admin_set;
    above_floor = i.above_floor;
    queue_backed = λ j e f. i.queue_backed j e (ground arith);
    all_backed = (
      later-IsBacked floor _ eta env.timestamp log q.due (i.queue_backed _ eta q.was_queued),
      i.all_backed,
    );
    once = λ j. ground (arith, i.once j, q.was_queued);
  })

  note_queued-IsSafe :
      (a : ℕ) (tx : Tx) (delay : ℕ) (r : Outcome Error (State T × ℕ))
      → queue x env a tx delay s ≡ r
      → IsSafe floor s log
      → IsSafe floor
          (note_queued env.timestamp (s, log) r).0
          (note_queued env.timestamp (s, log) r).1
  unfolding note_queued
  note_queued-IsSafe a tx delay (ok (t, h)) e i =
      queue-IsSafe a tx delay t h (queue_ok x env a tx delay s t h e) i
  note_queued-IsSafe a tx delay (err k) e i = i
  note_queued-IsSafe a tx delay trap e i = i

  note_executed-IsSafe :
      (tx : Tx) (eta : ℕ) (r : Outcome Error (State T × ℕ))
      → execute x env tx eta s ≡ r
      → IsSafe floor s log
      → IsSafe floor
          (note_executed env.timestamp (x.tx_hash tx eta) (s, log) r).0
          (note_executed env.timestamp (x.tx_hash tx eta) (s, log) r).1
  unfolding note_executed
  note_executed-IsSafe tx eta (ok (t, r)) e i =
      execute-IsSafe tx eta t r (execute_ok x env tx eta s t r e) i
  note_executed-IsSafe tx eta (err k) e i = i
  note_executed-IsSafe tx eta trap e i = i

pub step-IsSafe :
    {T : Type 0} (floor : ℕ) (x : External T) (env : Env) (c : Call) (s : State T)
    (log : List Event)
    → IsSafe floor s log
    → IsSafe floor (step x env c (s, log)).0 (step x env c (s, log)).1
unfolding step
step-IsSafe floor x env (inits a low high ms) s log i =
    Keeps-IsSafe floor s _ log (init-Keeps env s a low high ms i.admin_set) i
step-IsSafe floor x env (queues a tx delay) s log i =
    note_queued-IsSafe floor x env s log a tx delay _ refl i
step-IsSafe floor x env (executes tx eta) s log i =
    note_executed-IsSafe floor x env s log tx eta _ refl i
step-IsSafe floor x env (cancels a h) s log i =
    Keeps-IsSafe floor s _ log (cancel-Keeps env s a h) i
step-IsSafe floor x env (expires a h) s log i =
    Keeps-IsSafe floor s _ log (expire-Keeps env s a h) i
step-IsSafe floor x env (raises a low) s log i =
    Keeps-IsSafe floor s _ log (raise-Keeps env s a low) i
step-IsSafe floor x env (pauses ms) s log i = Keeps-IsSafe floor s _ log (pause-Keeps env s ms) i
step-IsSafe floor x env (unpauses a) s log i = Keeps-IsSafe floor s _ log (unpause-Keeps env s a) i
step-IsSafe floor x env (lapses h) s log i = Keeps-IsSafe floor s _ log (lapse-Keeps env s h) i

pub run-IsSafe :
    {T : Type 0} (floor : ℕ) (x : External T) (cs : List (Env × Call)) (s : State T)
    (log : List Event)
    → IsSafe floor s log
    → IsSafe floor (run x cs (s, log)).0 (run x cs (s, log)).1
unfolding run
run-IsSafe floor x [] s log i = i
run-IsSafe floor x ((env, c) ∷ cs) s log i =
    run-IsSafe floor x cs _ _ (step-IsSafe floor x env c s log i)

init-IsSafe :
    {T : Type 0} (a low high : ℕ) (ms : List ℕ) (s t : State T)
    → ((h : ℕ) → s.queued h ≡ none)
    → init a low high ms s ≡ ok t
    → IsSafe low t []
unfolding init AllBacked executions queueings
init-IsSafe a low high ms s t e h = record {
  admin_set = ground arith;
  above_floor = ground arith;
  queue_backed = λ j eta f. absurd (ground (arith, e j));
  all_backed = tt;
  once = λ j. ground (arith, e j);
}

-- After the initialisation of a timelock with an empty queue, and any sequence of calls and
-- expiries of entries, each transaction that was executed had been queued before it in the log, at
-- least the initial minimum delay before its execution.
pub run-AllBacked :
    {T : Type 0} (x : External T) (a low high : ℕ) (ms : List ℕ) (cs : List (Env × Call))
    (s t : State T)
    → ((h : ℕ) → s.queued h ≡ none)
    → init a low high ms s ≡ ok t
    → AllBacked low (run x cs (t, [])).1
run-AllBacked x a low high ms cs s t e h =
    (run-IsSafe low x cs t [] (init-IsSafe a low high ms s t e h)).all_backed

-- After the initialisation of a timelock with an empty queue, and any sequence of calls and
-- expiries of entries, each transaction hash has been executed at most as often as it has been
-- queued.
pub executions-bounded :
    {T : Type 0} (x : External T) (a low high : ℕ) (ms : List ℕ) (cs : List (Env × Call))
    (s t : State T) (h : ℕ)
    → ((h : ℕ) → s.queued h ≡ none)
    → init a low high ms s ≡ ok t
    → executions h (run x cs (t, [])).1 ≤ queueings h (run x cs (t, [])).1
executions-bounded x a low high ms cs s t h e i =
    omega (arith, (run-IsSafe low x cs t [] (init-IsSafe a low high ms s t e i)).once h)
