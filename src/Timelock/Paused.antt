-- ===== src/Timelock/Paused.antt =====
-- timelock/src/lib.rs: runs of a paused timelock.
use shelterflex_contracts.Prelude.{
  ℕ, ◌≡◌, refl, ◌∙◌, Bool, true, false, List, [], ◌∷◌, arith, unwrap_or, is_some,
}
use shelterflex_contracts.Host.{Env, ok}
use shelterflex_contracts.Timelock.Types.{State, External}
use shelterflex_contracts.Timelock.Calls.{
  init, queue, execute, cancel, emergency_pause, expire, set_min_delay,
}
use shelterflex_contracts.Timelock.Machine.{
  Logged, note_queued, note_executed, step, run, Call, Event, inits, queues, executes, cancels,
  expires, raises, pauses, unpauses, lapses,
}
use shelterflex_contracts.Timelock.Log.{executions}

abbrev is_unpause : Call → Bool
is_unpause (unpauses a) = true
is_unpause _ = false

-- No call of the list is an `unpause`.
unfoldable pub NoUnpause : List (Env × Call) → Type 0
NoUnpause [] = Unit {0}
NoUnpause ((env, c) ∷ cs) = (is_unpause c ≡ false) × NoUnpause cs

-- A paused timelock with an admin.
record IsPaused {T : Type 0} (s : State T) : Type 0 where
  has_admin : is_some s.admin ≡ true
  flag : unwrap_or s.paused false ≡ true

-- What a step on a paused timelock keeps.
record Holds {T : Type 0} (h : ℕ) (s : State T) (log : List Event) (l : Logged T) : Type 0 where
  still : IsPaused l.0
  same_world : l.0.world ≡ s.world
  same_executions : executions h l.1 ≡ executions h log

step-Holds :
    {T : Type 0} (x : External T) (env : Env) (c : Call) (h : ℕ) (s : State T) (log : List Event)
    → is_unpause c ≡ false
    → IsPaused s
    → Holds h s log (step x env c (s, log))
unfolding step init cancel expire set_min_delay emergency_pause queue execute note_queued
    note_executed executions
step-Holds x env (inits a low high ms) h s log n p = ground (arith, p.has_admin)
step-Holds x env (queues a tx delay) h s log n p = ground arith
step-Holds x env (executes tx eta) h s log n p = ground (arith, p.flag)
step-Holds x env (cancels a j) h s log n p = ground arith
step-Holds x env (expires a j) h s log n p = ground arith
step-Holds x env (raises a low) h s log n p = ground arith
step-Holds x env (pauses ms) h s log n p = ground arith
step-Holds x env (unpauses a) h s log n p = cc
step-Holds x env (lapses j) h s log n p = ground arith

run-Holds :
    {T : Type 0} (x : External T) (cs : List (Env × Call)) (h : ℕ) (s : State T) (log : List Event)
    → NoUnpause cs
    → IsPaused s
    → Holds h s log (run x cs (s, log))
unfolding run NoUnpause
run-Holds x [] h s log n p = record { still = p; same_world = refl; same_executions = refl }
run-Holds x ((env, c) ∷ cs) h s log (n, ns) p =
    let one = step-Holds x env c h s log n p in
    let rest = run-Holds x cs h _ _ ns one.still in
    record {
      still = rest.still;
      same_world = rest.same_world ∙ one.same_world;
      same_executions = rest.same_executions ∙ one.same_executions;
    }

emergency_pause-IsPaused :
    {T : Type 0} (env : Env) (ms : List ℕ) (s t : State T)
    → is_some s.admin ≡ true
    → emergency_pause env ms s ≡ ok t
    → IsPaused t × (t.world ≡ s.world)
unfolding emergency_pause
emergency_pause-IsPaused env ms s t a e =
    (record { has_admin = ground arith; flag = ground arith }, ground arith)

-- From the state that an emergency pause of a timelock with an admin has left, any sequence of
-- calls and expiries of entries without an `unpause` leaves the called contracts' state as it was
-- before the pause and executes nothing.
pub run-pause :
    {T : Type 0} (x : External T) (env : Env) (ms : List ℕ) (cs : List (Env × Call)) (h : ℕ)
    (s t : State T) (log : List Event)
    → is_some s.admin ≡ true
    → emergency_pause env ms s ≡ ok t
    → NoUnpause cs
    → ((run x cs (t, log)).0.world ≡ s.world)
      × (executions h (run x cs (t, log)).1 ≡ executions h log)
run-pause x env ms cs h s t log a e n =
    let (p, w) = emergency_pause-IsPaused env ms s t a e in
    let k = run-Holds x cs h t log n p in (k.same_world ∙ w, k.same_executions)
