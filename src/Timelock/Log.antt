-- ===== src/Timelock/Log.antt =====
-- timelock/src/lib.rs: what the log says of delays, and the calls that do not write to it.
use shelterflex_contracts.Prelude.{
  ℕ, ◌+◌, ◌≤◌, ◌≡◌, refl, sym, ◌∙◌, ◌⊎◌, inl, inr, true, Option, none, some, List, [], ◌∷◌, arith,
  ◌==◌, if◌then◌else◌, unwrap_or, is_some,
}
use shelterflex_contracts.Timelock.Types.{State}
use shelterflex_contracts.Timelock.Machine.{Event, queued, executed}
use shelterflex_contracts.Host.{commit, Env}
use shelterflex_contracts.Timelock.Calls.{
  init, cancel, emergency_pause, unpause, expire, set_min_delay,
}
use shelterflex_contracts.Timelock.Effects.{set_entry}

-- The log says that `h` was queued `floor` seconds or more before `time`.
unfoldable pub IsBacked : ℕ → ℕ → ℕ → List Event → Type 0
IsBacked floor h time [] = ⊥
IsBacked floor h time (queued at k ∷ log) =
    ((k ≡ h) × (at + floor ≤ time)) ⊎ IsBacked floor h time log
IsBacked floor h time (executed at k ∷ log) = IsBacked floor h time log

-- Each execution of the log is backed by what the log says before it.
unfoldable pub AllBacked : ℕ → List Event → Type 0
AllBacked floor [] = Unit {0}
AllBacked floor (queued at h ∷ log) = AllBacked floor log
AllBacked floor (executed at h ∷ log) = IsBacked floor h at log × AllBacked floor log

-- How often the log queues, and executes, a hash.
unfoldable pub queueings : ℕ → List Event → ℕ
queueings h [] = 0
queueings h (queued at k ∷ log) = (if h == k then 1 else 0) + queueings h log
queueings h (executed at k ∷ log) = queueings h log

unfoldable pub executions : ℕ → List Event → ℕ
executions h [] = 0
executions h (queued at k ∷ log) = executions h log
executions h (executed at k ∷ log) = (if h == k then 1 else 0) + executions h log

module _ {T : Type 0} where
  -- An admin is set, the delay has not gone below `floor`, what is in the queue is backed, and so
  -- is all that was executed.
  pub record IsSafe (floor : ℕ) (s : State T) (log : List Event) : Type 0 where
    pub admin_set : is_some s.admin ≡ true
    pub above_floor : floor ≤ unwrap_or s.min_delay 0
    pub queue_backed : (h eta : ℕ) → s.queued h ≡ some eta → IsBacked floor h eta log
    pub all_backed : AllBacked floor log
    pub once :
        (h : ℕ) → executions h log + (if is_some (s.queued h) then 1 else 0) ≤ queueings h log

pub later-IsBacked :
    (floor h t u : ℕ) (log : List Event) → t ≤ u → IsBacked floor h t log → IsBacked floor h u log
unfolding IsBacked
later-IsBacked floor h t u [] l b = b
later-IsBacked floor h t u (queued at k ∷ log) l (inl (e, le)) = inl (e, omega arith)
later-IsBacked floor h t u (queued at k ∷ log) l (inr b) = inr (later-IsBacked floor h t u log l b)
later-IsBacked floor h t u (executed at k ∷ log) l b = later-IsBacked floor h t u log l b

-- A step of the state alone: the queue loses entries at most, and the delay does not fall.
pub record Keeps {T : Type 0} (s t : State T) : Type 0 where
  pub still_admin : is_some s.admin ≡ true → is_some t.admin ≡ true
  pub not_lower : unwrap_or s.min_delay 0 ≤ unwrap_or t.min_delay 0
  pub not_more : (h : ℕ) → (t.queued h ≡ s.queued h) ⊎ (t.queued h ≡ none)

queue-IsBacked_after :
    (floor : ℕ) (log : List Event) (a b : Option ℕ) (h eta : ℕ)
    → (b ≡ a) ⊎ (b ≡ none)
    → ((eta : ℕ) → a ≡ some eta → IsBacked floor h eta log)
    → b ≡ some eta
    → IsBacked floor h eta log
queue-IsBacked_after floor log a b h eta (inl e) f g = f eta (sym e ∙ g)
queue-IsBacked_after floor log a b h eta (inr e) f g = absurd (cc)

fewer_entries :
    (a b : Option ℕ)
    → (b ≡ a) ⊎ (b ≡ none)
    → (if is_some b then 1 else 0) ≤ (if is_some a then 1 else 0)
fewer_entries a b c = ground arith

module _ {T : Type 0} (floor : ℕ) (s t : State T) (log : List Event) where
  pub Keeps-IsSafe : Keeps s t → IsSafe floor s log → IsSafe floor t log
  Keeps-IsSafe k i = record {
    admin_set = k.still_admin i.admin_set;
    above_floor = omega (arith, k.not_lower, i.above_floor);
    queue_backed = λ h eta. queue-IsBacked_after _ _ _ _ h eta (k.not_more h) (i.queue_backed h);
    all_backed = i.all_backed;
    once = λ h. omega (arith, i.once h, fewer_entries _ _ (k.not_more h));
  }

-- The calls that do not queue or execute.
module _ {T : Type 0} (env : Env) (s : State T) where
  pub init-Keeps :
      (a low high : ℕ) (ms : List ℕ)
      → is_some s.admin ≡ true
      → Keeps s (commit s (init a low high ms s))
  unfolding init
  init-Keeps a low high ms e =
      rw e
        (record { still_admin = ground arith; not_lower = ground arith; not_more = λ h. inl refl })

  pub cancel-Keeps : (a h : ℕ) → Keeps s (commit s (cancel env a h s))
  unfolding cancel
  cancel-Keeps a h = record {
    still_admin = ground arith;
    not_lower = ground arith;
    not_more = λ j. ground arith;
  }

  pub expire-Keeps : (a h : ℕ) → Keeps s (commit s (expire env a h s))
  unfolding expire
  expire-Keeps a h = record {
    still_admin = ground arith;
    not_lower = ground arith;
    not_more = λ j. ground arith;
  }

  pub raise-Keeps : (a low : ℕ) → Keeps s (commit s (set_min_delay env a low s))
  unfolding set_min_delay
  raise-Keeps a low = record {
    still_admin = ground arith;
    not_lower = ground arith;
    not_more = λ j. ground arith;
  }

  pub pause-Keeps : (ms : List ℕ) → Keeps s (commit s (emergency_pause env ms s))
  unfolding emergency_pause
  pause-Keeps ms = record {
    still_admin = ground arith;
    not_lower = ground arith;
    not_more = λ j. ground arith;
  }

  pub unpause-Keeps : (a : ℕ) → Keeps s (commit s (unpause env a s))
  unfolding unpause
  unpause-Keeps a = record {
    still_admin = ground arith;
    not_lower = ground arith;
    not_more = λ j. ground arith;
  }

  pub lapse-Keeps : (h : ℕ) → Keeps s (set_entry h none s)
  lapse-Keeps h = record {
    still_admin = ground arith;
    not_lower = ground arith;
    not_more = λ j. ground arith;
  }
