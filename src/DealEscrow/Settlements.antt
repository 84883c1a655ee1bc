-- ===== src/DealEscrow/Settlements.antt =====
-- deal_escrow/src/lib.rs: what a settlement has checked, where it returned.
use shelterflex_contracts.Prelude.{
  ℕ, ◌+◌, ◌≤◌, ◌≡◌, ◌⊎◌, inl, inr, true, false, none, some, arith, Option-cases, ℤ,
}
use shelterflex_contracts.Host.{Env, ok}
use shelterflex_contracts.Token.{Transfer}
use shelterflex_contracts.DealEscrow.Types.{
  require_non_empty_string, get_dispute_timeout_seconds, get_paused, get_circuit_breaker_state,
  require_not_frozen, require_not_paused, require_admin_or_operator, PendingRentRelease,
  RentDispute, SettlementOutcome, State, release_to_recipient, refund_to_depositor, is_unfrozen,
}
use shelterflex_contracts.DealEscrow.Funds.{release}
use shelterflex_contracts.DealEscrow.Releases.{
  settle_release_inner, resolve_rent_dispute, settle_rent_release_timeout, settle_dispute_timeout,
}

module _ {T : Type 0} where
  -- The resolver has decided an open dispute.
  pub record IsDecided (env : Env) (caller id : ℕ) (s : State T) : Type 0 where
    pub by_resolver : s.resolver ≡ some caller
    pub signed : env.authorized caller ≡ true
    pub dispute : RentDispute
    pub disputed : s.deals.dispute id ≡ some dispute
    pub unresolved : dispute.resolved ≡ false

  -- Nobody has challenged the release while it could be.
  pub record IsUnchallenged (env : Env) (id : ℕ) (s : State T) : Type 0 where
    pub undisputed : s.deals.dispute id ≡ none
    pub pending : PendingRentRelease
    pub was_pending : s.deals.release id ≡ some pending
    pub window_over : pending.challenge_end_at ≤ env.timestamp

  -- The resolver has let the time for an open dispute pass.
  pub record IsTimedOut (env : Env) (id : ℕ) (s : State T) : Type 0 where
    pub dispute : RentDispute
    pub disputed : s.deals.dispute id ≡ some dispute
    pub unresolved : dispute.resolved ≡ false
    pub time_over : dispute.opened_at + get_dispute_timeout_seconds s ≤ env.timestamp

  -- The admin or the operator pays a deal out while the breaker is closed.
  pub record IsPermitted (env : Env) (caller : ℕ) (s : State T) : Type 0 where
    pub signed : env.authorized caller ≡ true
    pub role : (s.upgrade.admin ≡ some caller) ⊎ (s.operator ≡ some caller)
    pub not_frozen : get_circuit_breaker_state s ≡ is_unfrozen
    pub not_paused : get_paused s ≡ false

  module _ (transfer : Transfer T) (env : Env) (id : ℕ) (s t : State T) where
    with-IsDecided :
        (caller : ℕ) (outcome : SettlementOutcome) (ref : ℕ) (dispute : RentDispute)
        → s.deals.dispute id ≡ some dispute
        → resolve_rent_dispute transfer env caller id outcome ref s ≡ ok t
        → IsDecided env caller id s × (settle_release_inner transfer env id outcome s ≡ ok t)
    unfolding resolve_rent_dispute require_not_paused require_non_empty_string
    with-IsDecided caller outcome ref dispute e h = (
      record {
        by_resolver = ground arith;
        signed = ground arith;
        dispute = dispute;
        disputed = e;
        unresolved = ground arith;
      },
      ground arith,
    )

    not_decided :
        (caller : ℕ) (outcome : SettlementOutcome) (ref : ℕ)
        → s.deals.dispute id ≡ none
        → resolve_rent_dispute transfer env caller id outcome ref s ≡ ok t
        → ⊥
    unfolding resolve_rent_dispute require_not_paused require_non_empty_string
    not_decided caller outcome ref e h = ground arith

    pub resolve_ok :
        (caller : ℕ) (outcome : SettlementOutcome) (ref : ℕ)
        → resolve_rent_dispute transfer env caller id outcome ref s ≡ ok t
        → IsDecided env caller id s × (settle_release_inner transfer env id outcome s ≡ ok t)
    resolve_ok caller outcome ref h = elim (Option-cases (s.deals.dispute id)) [
      | inl e ↦ absurd (not_decided caller outcome ref e h)
      | inr (dispute, e) ↦ with-IsDecided caller outcome ref dispute e h
    ]

    with-IsUnchallenged :
        (pending : PendingRentRelease)
        → s.deals.release id ≡ some pending
        → settle_rent_release_timeout transfer env id s ≡ ok t
        → IsUnchallenged env id s
          × (settle_release_inner transfer env id release_to_recipient s ≡ ok t)
    unfolding settle_rent_release_timeout require_not_paused require_non_empty_string
    with-IsUnchallenged pending e h = (
      record {
        undisputed = ground arith;
        pending = pending;
        was_pending = e;
        window_over = ground arith;
      },
      ground arith,
    )

    none_unchallenged :
        s.deals.release id ≡ none → settle_rent_release_timeout transfer env id s ≡ ok t → ⊥
    unfolding settle_rent_release_timeout require_not_paused require_non_empty_string
    none_unchallenged e h = ground arith

    pub settles_ok :
        settle_rent_release_timeout transfer env id s ≡ ok t
        → IsUnchallenged env id s
          × (settle_release_inner transfer env id release_to_recipient s ≡ ok t)
    settles_ok h = elim (Option-cases (s.deals.release id)) [
      | inl e ↦ absurd (none_unchallenged e h)
      | inr (pending, e) ↦ with-IsUnchallenged pending e h
    ]

    with-IsTimedOut :
        (dispute : RentDispute)
        → s.deals.dispute id ≡ some dispute
        → settle_dispute_timeout transfer env id s ≡ ok t
        → IsTimedOut env id s × (settle_release_inner transfer env id refund_to_depositor s ≡ ok t)
    unfolding settle_dispute_timeout require_not_paused require_non_empty_string
    with-IsTimedOut dispute e h = (
      record {
        dispute = dispute;
        disputed = e;
        unresolved = ground arith;
        time_over = ground arith;
      },
      ground arith,
    )

    not_timed_out : s.deals.dispute id ≡ none → settle_dispute_timeout transfer env id s ≡ ok t → ⊥
    unfolding settle_dispute_timeout require_not_paused require_non_empty_string
    not_timed_out e h = ground arith

    pub times_out_ok :
        settle_dispute_timeout transfer env id s ≡ ok t
        → IsTimedOut env id s × (settle_release_inner transfer env id refund_to_depositor s ≡ ok t)
    times_out_ok h = elim (Option-cases (s.deals.dispute id)) [
      | inl e ↦ absurd (not_timed_out e h)
      | inr (dispute, e) ↦ with-IsTimedOut dispute e h
    ]

    pub release-IsPermitted :
        (caller to : ℕ) (n : ℤ) (platform : ℕ) (p : ℤ) (reporter : ℕ) (r : ℤ) (ref : ℕ) (cur : ℤ)
        → release transfer env caller id to n platform p reporter r ref s ≡ ok (t, cur)
        → IsPermitted env caller s
    unfolding release require_admin_or_operator require_not_frozen require_not_paused
        require_non_empty_string
    release-IsPermitted caller to n platform p reporter r ref cur h = record {
      signed = ground arith;
      role = ground arith;
      not_frozen = ground arith;
      not_paused = ground arith;
    }
