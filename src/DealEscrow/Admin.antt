-- ===== src/DealEscrow/Admin.antt =====
-- deal_escrow/src/lib.rs: the settings, the migration of the storage, the pause, the circuit breaker
-- and the life cycle of the deals.
use shelterflex_contracts.Prelude.{
  ℕ, ◌+◌, Bool, true, false, not, ◌||◌, none, some, List, [], ◌∷◌, ltb, ◌==◌, if◌then◌else◌, pos,
  unwrap_or, update,
}
use shelterflex_contracts.Host.{◌>>=◌, ◌>>◌, fail_if, ok_or, map_err, checked_u64, Outcome, Env, ok}
use shelterflex_contracts.Pausable.{as_pausable, PausableError}
use shelterflex_contracts.DealEscrow.Types.{
  require_non_empty_string, assert_deal_invariants, get_deal_balance, get_deal_lifecycle,
  get_storage_schema_version, get_circuit_breaker_state, get_recovery_delay_seconds,
  require_not_paused, require_admin, Error, DealLifecycleStatus, DealState, CircuitBreakerState,
  Deals, State, invalid_schema_version, no_pending_release, invalid_release_window,
  invalid_deal_transition, frozen, recovery_delay_not_met, invalid_governance_drain, draft, active,
  completed, defaulted, is_unfrozen, is_frozen,
}

-- One turn of the migration's loop.
unfoldable pub migrate_deal : ℕ → ℕ → Deals → Outcome Error Deals
unfolding get_deal_balance assert_deal_invariants
migrate_deal from_version deal_id d = do
  let from_v2 = from_version == 2
  let state : DealState = record {
    total_balance = get_deal_balance d deal_id;
    locked_amount = if from_v2 then unwrap_or (d.legacy_locked deal_id) (pos 0) else pos 0;
    pending_payout = if from_v2 then unwrap_or (d.legacy_pending deal_id) (pos 0) else pos 0;
  }
  assert_deal_invariants state
  ok (record d { state = update deal_id (some state) d.state })

unfoldable pub migrate_deals : ℕ → List ℕ → Deals → Outcome Error Deals
migrate_deals from_version [] d = ok d
migrate_deals from_version (id ∷ ids) d =
    (migrate_deal from_version id d >>= λ e. migrate_deals from_version ids e)

abbrev pub is_status : DealLifecycleStatus → DealLifecycleStatus → Bool
is_status draft draft = true
is_status active active = true
is_status completed completed = true
is_status defaulted defaulted = true
is_status _ _ = false

abbrev pub is_frozen_state : CircuitBreakerState → Bool
is_frozen_state is_frozen = true
is_frozen_state _ = false

module _ {T : Type 0} where
  unfoldable pub configure_dispute_windows : Env → ℕ → ℕ → ℕ → State T → Outcome Error (State T)
  unfolding require_admin
  configure_dispute_windows env admin challenge_window_seconds dispute_timeout_seconds s = do
    require_admin env admin s
    fail_if (challenge_window_seconds == 0 || dispute_timeout_seconds == 0) invalid_release_window
    ok (record s {
      challenge_window = some challenge_window_seconds;
      dispute_timeout = some dispute_timeout_seconds;
    })

  unfoldable pub set_resolver : Env → ℕ → ℕ → State T → Outcome Error (State T)
  unfolding require_admin
  set_resolver env admin resolver s = do
    require_admin env admin s
    ok (record s { resolver = some resolver })

  unfoldable pub migrate_storage_schema : Env → ℕ → ℕ → List ℕ → State T → Outcome Error (State T)
  unfolding require_admin get_storage_schema_version
  migrate_storage_schema env admin from_version deal_ids s = do
    require_admin env admin s
    let current = get_storage_schema_version s
    if current == 3 then ok s else (do
      fail_if (not (current == from_version) || not (from_version == 1 || from_version == 2))
          invalid_schema_version
      deals ← migrate_deals from_version deal_ids s.deals
      let u = s.upgrade
      ok (record s { upgrade = record u { schema_version = some 3 }; deals = deals }))

  -- The trait `Pausable` has errors of its own: any refusal is its `NotAuthorized`.
  unfoldable pub pause : Env → ℕ → State T → Outcome PausableError (State T)
  unfolding require_admin
  pause env admin s = do
    map_err as_pausable (require_admin env admin s)
    ok (record s { paused_flag = some true })

  unfoldable pub unpause : Env → ℕ → State T → Outcome PausableError (State T)
  unfolding require_admin
  unpause env admin s = do
    map_err as_pausable (require_admin env admin s)
    ok (record s { paused_flag = some false })

  unfoldable pub freeze : Env → ℕ → State T → Outcome Error (State T)
  unfolding require_admin get_circuit_breaker_state
  freeze env admin s = do
    require_admin env admin s
    fail_if (is_frozen_state (get_circuit_breaker_state s)) frozen
    ok (record s { circuit_breaker = some is_frozen })

  unfoldable pub propose_drain : Env → ℕ → ℕ → State T → Outcome Error (State T)
  unfolding require_admin get_circuit_breaker_state
  propose_drain env admin drain_hash s = do
    require_admin env admin s
    fail_if (not (is_frozen_state (get_circuit_breaker_state s))) invalid_governance_drain
    ok (record s { drain_hash = some drain_hash; drain_at = some env.timestamp })

  unfoldable pub execute_drain : Env → ℕ → ℕ → State T → Outcome Error (State T)
  unfolding require_admin get_circuit_breaker_state get_recovery_delay_seconds
  execute_drain env admin drain_hash s = do
    require_admin env admin s
    pending_hash ← ok_or s.drain_hash no_pending_release
    fail_if (not (pending_hash == drain_hash)) no_pending_release
    proposed_at ← ok_or s.drain_at no_pending_release
    ready_at ← checked_u64 (proposed_at + get_recovery_delay_seconds s)
    fail_if (ltb env.timestamp ready_at) recovery_delay_not_met
    fail_if (not (is_frozen_state (get_circuit_breaker_state s))) invalid_governance_drain
    ok (record s { drain_hash = none; drain_at = none; circuit_breaker = some is_unfrozen })

  unfoldable pub set_recovery_delay : Env → ℕ → ℕ → State T → Outcome Error (State T)
  unfolding require_admin
  set_recovery_delay env admin delay_seconds s = do
    require_admin env admin s
    ok (record s { recovery_delay = some delay_seconds })

  -- The common body of the three transitions: the status before and the status after.
  unfoldable pub move_deal :
      DealLifecycleStatus → DealLifecycleStatus → Env → ℕ → ℕ → State T → Outcome Error (State T)
  unfolding require_not_paused require_non_empty_string require_admin get_deal_lifecycle
  move_deal before after env admin deal_id s = do
    require_not_paused s
    require_non_empty_string deal_id
    require_admin env admin s
    fail_if (not (is_status (get_deal_lifecycle s.deals deal_id) before)) invalid_deal_transition
    let d = s.deals
    ok (record s { deals = record d { lifecycle = update deal_id (some after) d.lifecycle } })

  unfoldable pub activate_deal : Env → ℕ → ℕ → State T → Outcome Error (State T)
  unfolding move_deal
  activate_deal = move_deal draft active

  unfoldable pub complete_deal : Env → ℕ → ℕ → State T → Outcome Error (State T)
  unfolding move_deal
  complete_deal = move_deal active completed

  unfoldable pub default_deal : Env → ℕ → ℕ → State T → Outcome Error (State T)
  unfolding move_deal
  default_deal = move_deal active defaulted
