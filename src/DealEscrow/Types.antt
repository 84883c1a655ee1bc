-- ===== src/DealEscrow/Types.antt =====
-- deal_escrow/src/lib.rs and validation.rs: the state, the readers of the keys, and the checks that
-- the entry points share. A string is only compared and tested for being empty, so a number stands
-- for it, 0 for the empty one. The keys that a deal has of its own are a record of their own.
use shelterflex_contracts.Prelude.{
  ℕ, Bool, false, not, ◌||◌, Option, some, ◌==◌, if◌then◌else◌, ltb_ℤ, leb_ℤ, eqb_ℤ, ℤ, pos,
  unwrap_or, is_some, update, Map, lookup, insert,
}
use shelterflex_contracts.Host.{◌>>=◌, ◌>>◌, fail_if, unwrap, Outcome, Env, ok, err}
use shelterflex_contracts.AccessControl.{
  require_admin_permission, require_admin_or_operator_permission,
}
use shelterflex_contracts.Upgrade.{Store}

pub data Error : Type 0 where
  already_initialized not_authorized paused invalid_amount insufficient_balance : Error
  invalid_split empty_string reentrancy_detected upgrade_already_pending : Error
  no_upgrade_pending upgrade_delay_not_met invalid_schema_version : Error
  migration_invariant_violation pending_release_exists no_pending_release : Error
  dispute_not_allowed no_open_dispute invalid_release_window invalid_settlement : Error
  invalid_deal_transition frozen recovery_delay_not_met invalid_governance_drain : Error

pub data DealLifecycleStatus : Type 0 where
  draft active completed defaulted : DealLifecycleStatus

pub record DealState : Type 0 where
  pub total_balance : ℤ
  pub locked_amount : ℤ
  pub pending_payout : ℤ

pub record PendingRentRelease : Type 0 where
  pub to : ℕ
  pub amount : ℤ
  pub requested_by : ℕ
  pub requested_at : ℕ
  pub challenge_end_at : ℕ
  pub external_ref_source : ℕ
  pub external_ref : ℕ

pub record RentDispute : Type 0 where
  pub opened_by : ℕ
  pub opened_at : ℕ
  pub evidence_ref : ℕ
  pub challenge_evidence_ref : ℕ
  pub resolved : Bool

pub data SettlementOutcome : Type 0 where
  release_to_recipient refund_to_depositor : SettlementOutcome

pub data CircuitBreakerState : Type 0 where
  is_unfrozen is_frozen is_recovering : CircuitBreakerState

-- The persistent keys, by the deal.
pub record Deals : Type 0 where
  pub balance : Map ℤ
  pub depositor : ℕ → Option ℕ
  pub state : ℕ → Option DealState
  pub lifecycle : ℕ → Option DealLifecycleStatus
  pub release : ℕ → Option PendingRentRelease
  pub dispute : ℕ → Option RentDispute
  pub legacy_locked : ℕ → Option ℤ
  pub legacy_pending : ℕ → Option ℤ

pub record State (T : Type 0) : Type 0 where
  pub upgrade : Store
  pub operator : Option ℕ
  pub resolver : Option ℕ
  pub challenge_window : Option ℕ
  pub dispute_timeout : Option ℕ
  pub token : Option ℕ
  pub receipt_contract : Option ℕ
  pub paused_flag : Option Bool
  pub deals : Deals
  pub reentrancy : Option Bool
  pub circuit_breaker : Option CircuitBreakerState
  pub drain_hash : Option ℕ
  pub drain_at : Option ℕ
  pub recovery_delay : Option ℕ
  pub tokens : T

unfoldable pub require_valid_amount : ℤ → Outcome Error (Unit {0})
require_valid_amount amount = fail_if (leb_ℤ amount (pos 0)) invalid_amount

unfoldable pub require_non_empty_string : ℕ → Outcome Error (Unit {0})
require_non_empty_string s = fail_if (s == 0) empty_string

unfoldable pub assert_deal_invariants : DealState → Outcome Error (Unit {0})
assert_deal_invariants d = do
  fail_if
      (ltb_ℤ d.total_balance (pos 0)
        || (ltb_ℤ d.locked_amount (pos 0) || ltb_ℤ d.pending_payout (pos 0)))
      migration_invariant_violation
  fail_if (not (eqb_ℤ d.locked_amount d.pending_payout)) migration_invariant_violation
  fail_if (ltb_ℤ d.total_balance d.locked_amount) migration_invariant_violation

unfoldable pub get_deal_balance : Deals → ℕ → ℤ
get_deal_balance d id = unwrap_or (lookup id d.balance) (pos 0)

unfoldable pub get_deal_state : Deals → ℕ → DealState
unfolding get_deal_balance
get_deal_state d id = unwrap_or (d.state id) (record {
  total_balance = get_deal_balance d id;
  locked_amount = pos 0;
  pending_payout = pos 0;
})

unfoldable pub get_deal_lifecycle : Deals → ℕ → DealLifecycleStatus
get_deal_lifecycle d id = unwrap_or (d.lifecycle id) draft

unfoldable pub set_deal_depositor_if_missing : ℕ → ℕ → Deals → ℕ → Option ℕ
set_deal_depositor_if_missing id from d =
    if is_some (d.depositor id) then d.depositor else update id (some from) d.depositor

-- The writes of a balance and of a deal's state, which stand together.
abbrev pub put_amounts : ℕ → ℤ → DealState → Deals → Deals
put_amounts id amount state d = record d {
  balance = insert id amount d.balance;
  state = update id (some state) d.state;
}

module _ {T : Type 0} where
  unfoldable pub get_admin : State T → Outcome Error ℕ
  get_admin s = unwrap s.upgrade.admin

  unfoldable pub get_storage_schema_version : State T → ℕ
  get_storage_schema_version s = unwrap_or s.upgrade.schema_version 1

  unfoldable pub get_operator : State T → Outcome Error ℕ
  get_operator s = unwrap s.operator

  unfoldable pub get_challenge_window_seconds : State T → ℕ
  get_challenge_window_seconds s = unwrap_or s.challenge_window 86400

  unfoldable pub get_dispute_timeout_seconds : State T → ℕ
  get_dispute_timeout_seconds s = unwrap_or s.dispute_timeout 172800

  unfoldable pub get_token : State T → Outcome Error ℕ
  get_token s = unwrap s.token

  unfoldable pub get_paused : State T → Bool
  get_paused s = unwrap_or s.paused_flag false

  unfoldable pub get_circuit_breaker_state : State T → CircuitBreakerState
  get_circuit_breaker_state s = unwrap_or s.circuit_breaker is_unfrozen

  unfoldable pub get_recovery_delay_seconds : State T → ℕ
  get_recovery_delay_seconds s = unwrap_or s.recovery_delay 86400

  unfoldable pub require_not_frozen : Bool → State T → Outcome Error (Unit {0})
  unfolding get_circuit_breaker_state
  require_not_frozen is_governance_drain s = elim (get_circuit_breaker_state s) [
    | is_unfrozen ↦ ok tt
    | is_frozen ↦ if is_governance_drain then ok tt else err frozen
    | is_recovering ↦ err recovery_delay_not_met
  ]

  unfoldable pub require_not_paused : State T → Outcome Error (Unit {0})
  unfolding get_paused
  require_not_paused s = fail_if (get_paused s) paused

  -- The gate of the admin's calls: the stored admin, then the shared check.
  unfoldable pub require_admin : Env → ℕ → State T → Outcome Error (Unit {0})
  unfolding get_admin require_admin_permission
  require_admin env caller s = do
    current_admin ← get_admin s
    require_admin_permission env current_admin caller not_authorized

  unfoldable pub require_admin_or_operator : Env → ℕ → State T → Outcome Error (Unit {0})
  unfolding get_admin get_operator require_admin_or_operator_permission
  require_admin_or_operator env caller s = do
    admin ← get_admin s
    operator ← get_operator s
    require_admin_or_operator_permission env admin (some operator) caller not_authorized
