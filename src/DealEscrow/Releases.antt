-- ===== src/DealEscrow/Releases.antt =====
-- deal_escrow/src/lib.rs: the release of rent that is requested, can be challenged for a while, and
-- is settled by the resolver or after a timeout.
use shelterflex_contracts.Prelude.{
  ℕ, ◌+◌, false, not, ◌&&◌, ◌||◌, none, some, ltb, ◌==◌, ◌-ℤ◌, ltb_ℤ, eqb_ℤ, ℤ, pos, is_some,
  update,
}
use shelterflex_contracts.Host.{
  ◌>>=◌, ◌>>◌, fail_if, ok_or, unwrap, require_auth, checked_i128, checked_u64, Outcome, Env, ok,
}
use shelterflex_contracts.Token.{Transfer}
use shelterflex_contracts.Reentrancy.{enter, exit}
use shelterflex_contracts.DealEscrow.Types.{
  require_valid_amount, require_non_empty_string, assert_deal_invariants, get_deal_state,
  put_amounts, get_challenge_window_seconds, get_dispute_timeout_seconds, get_token,
  require_not_paused, require_admin_or_operator, Error, DealState, PendingRentRelease, RentDispute,
  SettlementOutcome, State, not_authorized, insufficient_balance, reentrancy_detected,
  migration_invariant_violation, pending_release_exists, no_pending_release, dispute_not_allowed,
  no_open_dispute, invalid_release_window, invalid_settlement, release_to_recipient,
  refund_to_depositor,
}

abbrev pub recipient_of : SettlementOutcome → PendingRentRelease → ℕ → ℕ
recipient_of release_to_recipient pending depositor = pending.to
recipient_of refund_to_depositor pending depositor = depositor

module _ {T : Type 0} where
  unfoldable pub request_rent_release :
      Env → ℕ → ℕ → ℕ → ℤ → ℕ → ℕ → State T → Outcome Error (State T)
  unfolding require_not_paused require_valid_amount require_non_empty_string
      require_admin_or_operator get_deal_state assert_deal_invariants get_challenge_window_seconds
  request_rent_release env caller deal_id to amount external_ref_source external_ref s = do
    require_not_paused s
    require_valid_amount amount
    require_non_empty_string deal_id
    require_non_empty_string external_ref
    require_admin_or_operator env caller s
    fail_if (is_some (s.deals.release deal_id)) pending_release_exists
    let old = get_deal_state s.deals deal_id
    fail_if (ltb_ℤ old.total_balance amount) insufficient_balance
    let state = record old { locked_amount = amount; pending_payout = amount }
    assert_deal_invariants state
    challenge_end_at ← checked_u64 (env.timestamp + get_challenge_window_seconds s)
    let pending : PendingRentRelease = record {
      to = to;
      amount = amount;
      requested_by = caller;
      requested_at = env.timestamp;
      challenge_end_at = challenge_end_at;
      external_ref_source = external_ref_source;
      external_ref = external_ref;
    }
    let d = s.deals
    ok (record s {
      deals = record d {
        state = update deal_id (some state) d.state;
        release = update deal_id (some pending) d.release;
      };
    })

  unfoldable pub challenge_rent_release : Env → ℕ → ℕ → ℕ → State T → Outcome Error (State T)
  unfolding require_not_paused require_non_empty_string
  challenge_rent_release env caller deal_id challenge_evidence_ref s = do
    require_not_paused s
    require_non_empty_string deal_id
    require_non_empty_string challenge_evidence_ref
    require_auth env caller
    pending ← ok_or (s.deals.release deal_id) no_pending_release
    fail_if (ltb pending.challenge_end_at env.timestamp) dispute_not_allowed
    depositor ← ok_or (s.deals.depositor deal_id) dispute_not_allowed
    fail_if (not (caller == depositor) && not (caller == pending.to)) not_authorized
    let dispute : RentDispute = record {
      opened_by = caller;
      opened_at = env.timestamp;
      evidence_ref = pending.external_ref;
      challenge_evidence_ref = challenge_evidence_ref;
      resolved = false;
    }
    let d = s.deals
    ok (record s { deals = record d { dispute = update deal_id (some dispute) d.dispute } })

  module _ (transfer : Transfer T) where
    -- A dispute that stands is marked as resolved and removed, so it is only removed here.
    unfoldable pub settle_release_inner :
        Env → ℕ → SettlementOutcome → State T → Outcome Error (State T)
    unfolding get_deal_state get_token enter exit assert_deal_invariants
    settle_release_inner env deal_id outcome s = do
      pending ← ok_or (s.deals.release deal_id) no_pending_release
      depositor ← ok_or (s.deals.depositor deal_id) invalid_settlement
      let old = get_deal_state s.deals deal_id
      fail_if
          (not (eqb_ℤ old.locked_amount pending.amount)
            || not (eqb_ℤ old.pending_payout pending.amount))
          migration_invariant_violation
      token_addr ← get_token s
      locked ← enter s.reentrancy reentrancy_detected
      let recipient = recipient_of outcome pending depositor
      tokens ← unwrap (transfer env token_addr env.current recipient pending.amount s.tokens)
      total ← checked_i128 (old.total_balance -ℤ pending.amount)
      let state : DealState = record {
        total_balance = total;
        locked_amount = pos 0;
        pending_payout = pos 0;
      }
      assert_deal_invariants state
      let d = s.deals
      ok (record s {
        deals = put_amounts deal_id total state (record d {
          release = update deal_id none d.release;
          dispute = update deal_id none d.dispute;
        });
        reentrancy = exit locked;
        tokens = tokens;
      })

    unfoldable pub resolve_rent_dispute :
        Env → ℕ → ℕ → SettlementOutcome → ℕ → State T → Outcome Error (State T)
    unfolding require_not_paused require_non_empty_string
    resolve_rent_dispute env caller deal_id outcome resolution_evidence_ref s = do
      require_not_paused s
      require_non_empty_string deal_id
      require_non_empty_string resolution_evidence_ref
      resolver ← ok_or s.resolver not_authorized
      fail_if (not (caller == resolver)) not_authorized
      require_auth env caller
      dispute ← ok_or (s.deals.dispute deal_id) no_open_dispute
      fail_if dispute.resolved invalid_settlement
      settle_release_inner env deal_id outcome s

    unfoldable pub settle_rent_release_timeout : Env → ℕ → State T → Outcome Error (State T)
    unfolding require_not_paused require_non_empty_string
    settle_rent_release_timeout env deal_id s = do
      require_not_paused s
      require_non_empty_string deal_id
      fail_if (is_some (s.deals.dispute deal_id)) dispute_not_allowed
      pending ← ok_or (s.deals.release deal_id) no_pending_release
      fail_if (ltb env.timestamp pending.challenge_end_at) invalid_release_window
      settle_release_inner env deal_id release_to_recipient s

    unfoldable pub settle_dispute_timeout : Env → ℕ → State T → Outcome Error (State T)
    unfolding require_not_paused require_non_empty_string get_dispute_timeout_seconds
    settle_dispute_timeout env deal_id s = do
      require_not_paused s
      require_non_empty_string deal_id
      dispute ← ok_or (s.deals.dispute deal_id) no_open_dispute
      fail_if dispute.resolved invalid_settlement
      closes_at ← checked_u64 (dispute.opened_at + get_dispute_timeout_seconds s)
      fail_if (ltb env.timestamp closes_at) invalid_release_window
      settle_release_inner env deal_id refund_to_depositor s
