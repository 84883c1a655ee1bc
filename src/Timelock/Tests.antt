-- ===== src/Timelock/Tests.antt =====
-- timelock/src/lib.rs: the properties at concrete calls. The world of the called contracts is a
-- number, and a call adds its function to it.
use shelterflex_contracts.Prelude.{
  ℕ, ◌+◌, ◌*◌, ◌≤◌, ◌≡◌, refl, true, false, none, some, List, [], ◌∷◌, arith, ltb, if◌then◌else◌,
}
use shelterflex_contracts.Host.{Env, ok, err, trap}
use shelterflex_contracts.Timelock.Types.{
  grace_period, State, Tx, External, invalid_delay, transaction_not_queued, timestamp_not_met,
  transaction_expired, contract_paused,
}
use shelterflex_contracts.Timelock.Calls.{
  init, queue, execute, cancel, emergency_pause, expire, set_min_delay,
}
use shelterflex_contracts.Timelock.Effects.{
  set_entry, queue_ok, execute_ok, queue-execute, IsQueued, IsExecuted,
}
use shelterflex_contracts.Timelock.Paused.{NoUnpause, run-pause}
use shelterflex_contracts.Timelock.Pausing.{
  AllApprove, AreDistinct, emergency_pause_ok, emergency_pause_distinct, emergency_pause_total,
  pause-execute,
}
use shelterflex_contracts.Timelock.Machine.{
  note_queued, note_executed, step, run, Call, queues, executes, queued, executed,
}
use shelterflex_contracts.Timelock.Log.{AllBacked, queueings, executions}
use shelterflex_contracts.Timelock.Delay.{run-AllBacked, executions-bounded}

abbrev ledger : External ℕ
ledger = record {
  tx_hash = λ tx eta. tx.target + 100 * tx.function + 10000 * eta;
  invoke = λ env tx w. some (w + tx.function, 77);
}

abbrev at : ℕ → Env
at time = record {
  authorized = λ a. true;
  reauthorized = λ a. false;
  timestamp = time;
  sequence = 1;
  current = 50;
  uploaded = λ hash. true;
}

abbrev blank : State ℕ
blank = record {
  admin = none;
  min_delay = none;
  max_delay = none;
  queued = λ h. none;
  multisig_members = none;
  paused = none;
  world = 0;
}

abbrev members : List ℕ
members = 5 ∷ 6 ∷ 7 ∷ []

abbrev ready : State ℕ
ready = record blank {
  admin = some 1;
  min_delay = some 100;
  max_delay = some 1000;
  multisig_members = some members;
  paused = some false;
}

abbrev upgrade_tx : Tx
upgrade_tx = record { target = 9; function = 3; args = [] }

-- 9 + 100 * 3 + 10000 * 700
abbrev entry : ℕ
entry = 7000309

abbrev after_queue : State ℕ
after_queue = set_entry entry (some 700) ready

init_test : init 1 100 1000 members blank ≡ ok ready
unfolding init
init_test = refl

queue_test : queue ledger (at 500) 1 upgrade_tx 200 ready ≡ ok (after_queue, entry)
unfolding queue
queue_test = refl

execute_test :
    execute ledger (at 700) upgrade_tx 700 after_queue
    ≡ ok (record (set_entry entry none after_queue) { world = 3 }, 77)
unfolding execute
execute_test = refl

cancel_test : cancel (at 600) 1 entry after_queue ≡ ok (set_entry entry none after_queue)
unfolding cancel
cancel_test = refl

expire_test : expire (at 1300) 1 entry after_queue ≡ err timestamp_not_met
unfolding expire
expire_test = refl

set_min_delay_test : set_min_delay (at 1) 1 99 ready ≡ err invalid_delay
unfolding set_min_delay
set_min_delay_test = refl

abbrev calls : List (Env × Call)
calls =
    (at 500, queues 1 upgrade_tx 200)
    ∷ (at 710, executes upgrade_tx 700)
    ∷ (at 720, executes upgrade_tx 700)
    ∷ []

run-log_test : (run ledger calls (ready, [])).1 ≡ executed 710 entry ∷ queued 500 entry ∷ []
unfolding run step queue execute note_queued note_executed
run-log_test = refl

run-AllBacked_example : AllBacked 100 (run ledger calls (ready, [])).1
run-AllBacked_example =
    run-AllBacked ledger 1 100 1000 members calls blank ready (λ h. refl) init_test

executions-bounded_example :
    executions entry (run ledger calls (ready, [])).1
    ≤ queueings entry (run ledger calls (ready, [])).1
executions-bounded_example =
    executions-bounded ledger 1 100 1000 members calls blank ready entry (λ h. refl) init_test

queue_ok_test : IsQueued ledger (at 500) 1 upgrade_tx 200 ready after_queue entry
queue_ok_test = queue_ok ledger (at 500) 1 upgrade_tx 200 ready after_queue entry queue_test

execute_ok_test :
    IsExecuted ledger
      (at 700)
      upgrade_tx
      700
      after_queue
      (record (set_entry entry none after_queue) { world = 3 })
      77
execute_ok_test =
    execute_ok ledger (at 700) upgrade_tx 700 after_queue
      (record (set_entry entry none after_queue) { world = 3 }) 77 execute_test

abbrev executed_at_710 : State ℕ
executed_at_710 = record (set_entry entry none after_queue) { world = 3 }

queue-execute_example :
    execute ledger
      (at 710)
      upgrade_tx
      (500 + 200)
      (if false then set_entry entry none after_queue else after_queue)
    ≡ (if false
        then err transaction_not_queued
        else if ltb 710 (500 + 200)
        then err timestamp_not_met
        else if ltb (500 + 200 + grace_period) 710
        then err transaction_expired
        else ok (executed_at_710, 77))
queue-execute_example =
    queue-execute ledger (at 500) (at 710) 1 upgrade_tx 200 ready after_queue entry false 3 77
      queue_test refl refl (omega arith)

abbrev after_pause : State ℕ
after_pause = record ready { paused = some true }

pause_test : emergency_pause (at 2) (5 ∷ 6 ∷ []) ready ≡ ok after_pause
unfolding emergency_pause
pause_test = refl

emergency_pause_ok_test :
    (2 ≤ 2)
    × AllApprove (at 2) members (5 ∷ 6 ∷ [])
    × (after_pause ≡ record ready { paused = some true })
emergency_pause_ok_test =
    emergency_pause_ok (at 2) (5 ∷ 6 ∷ []) members ready after_pause refl pause_test

emergency_pause_distinct_example :
    (2 ≤ 2)
    × (AreDistinct [] (5 ∷ 6 ∷ [])
        × (AllApprove (at 2) members (5 ∷ 6 ∷ [])
            × (after_pause ≡ record ready { paused = some true })))
emergency_pause_distinct_example =
    emergency_pause_distinct (at 2) (5 ∷ 6 ∷ []) members ready after_pause (λ a. refl) refl
      pause_test

emergency_pause_total_test :
    emergency_pause (at 2) (6 ∷ 7 ∷ []) ready ≡ ok (record ready { paused = some true })
unfolding AllApprove AreDistinct
emergency_pause_total_test =
    emergency_pause_total (at 2) (6 ∷ 7 ∷ []) members ready refl (omega arith)
      (refl, refl, (refl, refl, tt)) (refl, (refl, tt))

twice_test : emergency_pause (at 2) (6 ∷ 6 ∷ []) ready ≡ trap
unfolding emergency_pause
twice_test = refl

pause-execute_test : execute ledger (at 700) upgrade_tx 700 after_pause ≡ err contract_paused
pause-execute_test =
    pause-execute ledger (at 2) (at 700) (5 ∷ 6 ∷ []) upgrade_tx 700 ready after_pause pause_test

abbrev while_paused : List (Env × Call)
while_paused = (at 600, queues 1 upgrade_tx 200) ∷ (at 810, executes upgrade_tx 800) ∷ []

run-pause_test :
    ((run ledger while_paused (after_pause, [])).0.world ≡ 0)
    × (executions entry (run ledger while_paused (after_pause, [])).1 ≡ executions entry [])
unfolding NoUnpause
run-pause_test =
    run-pause ledger (at 2) (5 ∷ 6 ∷ []) while_paused entry ready after_pause [] refl pause_test
      (refl, (refl, tt))
