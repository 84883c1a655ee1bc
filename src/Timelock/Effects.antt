-- ===== src/Timelock/Effects.antt =====
-- timelock/src/lib.rs: what `queue` and `execute` do, each on all branches.
use shelterflex_contracts.Prelude.{
  ℕ, ◌+◌, ◌≤◌, ◌<◌, ◌≡◌, refl, inl, inr, Bool, true, false, Option, none, some, arith, ltb,
  if◌then◌else◌, Option-cases, unwrap_or, is_some, update,
}
use shelterflex_contracts.Host.{>>=-eq-ok, Env, ok, err}
use shelterflex_contracts.Timelock.Types.{
  grace_period, u64_max, State, Tx, External, transaction_not_queued, timestamp_not_met,
  transaction_expired,
}
use shelterflex_contracts.Timelock.Calls.{require_admin, queue, execute}

pub require_admin_ok :
    {T : Type 0} (env : Env) (a : ℕ) (s : State T) {u : Unit {0}}
    → require_admin env a s ≡ ok u
    → (s.admin ≡ some a) × (env.authorized a ≡ true)
unfolding require_admin
require_admin_ok env a s h = ground arith

-- The state with one entry of the queue written.
abbrev pub set_entry : {T : Type 0} → ℕ → Option ℕ → State T → State T
set_entry h entry s = record s { queued = update h entry s.queued }

-- What a call of `queue` that returned has checked and done.
pub record IsQueued {T : Type 0} (x : External T) (env : Env) (a : ℕ) (tx : Tx) (delay : ℕ)
    (s t : State T) (h : ℕ) : Type 0 where
  pub by_admin : s.admin ≡ some a
  pub signed : env.authorized a ≡ true
  pub long_enough : unwrap_or s.min_delay 0 ≤ delay
  pub short_enough : delay ≤ unwrap_or s.max_delay u64_max
  pub in_range : env.timestamp + delay < 18446744073709551616
  pub was_free : s.queued h ≡ none
  pub hashed : h ≡ x.tx_hash tx (env.timestamp + delay)
  pub stored : t ≡ set_entry h (some (env.timestamp + delay)) s

is_some-none : {A : Type 0} (o : Option A) → is_some o ≡ false → o ≡ none
is_some-none none h = refl
is_some-none (some a) h = cc

-- Where `queue` returns, the stored admin is the caller and has authorised it, the delay is within
-- the stored bounds, the ETA is the time plus the delay and a u64, the hash of the transaction with
-- it was not queued, and only its entry, now the ETA, differs from before.
pub queue_ok :
    {T : Type 0} (x : External T) (env : Env) (a : ℕ) (tx : Tx) (delay : ℕ) (s t : State T) (h : ℕ)
    → queue x env a tx delay s ≡ ok (t, h)
    → IsQueued x env a tx delay s t h
unfolding queue
queue_ok x env a tx delay s t h e =
    let adm = >>=-eq-ok (require_admin env a s) _ e in
    let who = require_admin_ok env a s adm.1 in
    record {
      by_admin = who.0;
      signed = who.1;
      long_enough = ground arith;
      short_enough = ground arith;
      in_range = ground arith;
      was_free = ground arith;
      hashed = ground arith;
      stored = ground arith;
    }

-- What a call of `execute` that returned has checked and done.
pub record IsExecuted {T : Type 0} (x : External T) (env : Env) (tx : Tx) (eta : ℕ) (s t : State T)
    (result : ℕ) : Type 0 where
  pub not_paused : unwrap_or s.paused false ≡ false
  pub was_queued : s.queued (x.tx_hash tx eta) ≡ some eta
  pub due : eta ≤ env.timestamp
  pub not_stale : env.timestamp ≤ eta + grace_period
  pub new_world : T
  pub called : x.invoke env tx s.world ≡ some (new_world, result)
  pub left : t ≡ record (set_entry (x.tx_hash tx eta) none s) { world = new_world }

-- Where `execute` returns, the timelock was not paused, the transaction was queued for the given
-- ETA, the time is from the ETA up to the end of the grace period, the called contract returned the
-- result, and only its state and the removed entry differ from before.
pub execute_ok :
    {T : Type 0} (x : External T) (env : Env) (tx : Tx) (eta : ℕ) (s t : State T) (result : ℕ)
    → execute x env tx eta s ≡ ok (t, result)
    → IsExecuted x env tx eta s t result
unfolding execute
execute_ok x env tx eta s t result e = elim (Option-cases (x.invoke env tx s.world)) [
  | inl n ↦ ground arith
  | inr ((w, r), n) ↦ record {
    not_paused = ground arith;
    was_queued = ground arith;
    due = ground arith;
    not_stale = ground arith;
    new_world = w;
    called = ground arith;
    left = ground arith;
  }
]

-- After a call of `queue` that returned, and if its ETA plus the grace period fits a u64, the
-- timelock is not paused and the called contract returns: once the ledger has let the temporary
-- entry lapse, the execution of the transaction is refused as not queued, whatever the time; while
-- the entry is kept, it is refused before the ETA, refused after the grace period, and returns in
-- between, with the entry removed and the called contract's new state and result.
pub queue-execute :
    {T : Type 0} (x : External T) (env later : Env) (a : ℕ) (tx : Tx) (delay : ℕ) (s t : State T)
    (h : ℕ) (lapsed : Bool) (world : T) (result : ℕ)
    → queue x env a tx delay s ≡ ok (t, h)
    → unwrap_or t.paused false ≡ false
    → x.invoke later tx t.world ≡ some (world, result)
    → env.timestamp + delay + grace_period < 18446744073709551616
    → execute x later tx (env.timestamp + delay) (if lapsed then set_entry h none t else t) ≡ (
        if lapsed
        then err transaction_not_queued
        else if ltb later.timestamp (env.timestamp + delay)
        then err timestamp_not_met
        else if ltb (env.timestamp + delay + grace_period) later.timestamp
        then err transaction_expired
        else ok (record (set_entry h none t) { world = world }, result))
unfolding execute
queue-execute x env later a tx delay s t h false world result e p i fits =
    let q = queue_ok x env a tx delay s t h e in rw (q.hashed, q.stored) (ground arith)
queue-execute x env later a tx delay s t h true world result e p i fits =
    let q = queue_ok x env a tx delay s t h e in rw (q.hashed) (ground arith)
