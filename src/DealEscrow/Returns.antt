-- ===== src/DealEscrow/Returns.antt =====
-- deal_escrow/src/lib.rs: a pending release that is due is settled, and how.
use shelterflex_contracts.Prelude.{
  ℕ, ◌+◌, ◌≤◌, ◌<◌, ◌≡◌, refl, ◌≢◌, true, false, none, some, arith, ltb, lt→ltb, ==_refl, ==_ne,
  pos_part, neg_part, ◌-ℤ◌, ◌≤ℤ◌, eqb_ℤ, -ℤ_parts, fits_i128, ℤ, pos, update,
}
use shelterflex_contracts.Host.{checked_i128, Env, ok}
use shelterflex_contracts.Token.{Transfer}
use shelterflex_contracts.Reentrancy.{enter, exit}
use shelterflex_contracts.DealEscrow.Types.{
  require_non_empty_string, assert_deal_invariants, get_deal_balance, get_deal_state, put_amounts,
  get_dispute_timeout_seconds, get_token, get_paused, require_not_paused, Error, PendingRentRelease,
  RentDispute, SettlementOutcome, State, release_to_recipient, refund_to_depositor,
}
use shelterflex_contracts.DealEscrow.Releases.{
  recipient_of, settle_release_inner, resolve_rent_dispute, settle_rent_release_timeout,
  settle_dispute_timeout,
}
use shelterflex_contracts.DealEscrow.Steps.{IsEscrow}

not_ltb : (a b : ℕ) → b ≤ a → ltb a b ≡ false
not_ltb a b h = ground arith

eqb_ℤ_refl : (a : ℤ) → eqb_ℤ a a ≡ true
eqb_ℤ_refl a = ==_refl (pos_part a + neg_part a)

left_fits :
    (a b : ℤ)
    → pos 0 ≤ℤ b
    → b ≤ℤ a
    → fits_i128 a ≡ true
    → checked_i128 {E = Error} (a -ℤ b) ≡ ok (a -ℤ b)
left_fits a b p q f = ground (arith, -ℤ_parts a b)

left_nonneg :
    (a b : ℤ)
    → b ≤ℤ a
    → assert_deal_invariants
        (record { total_balance = a -ℤ b; locked_amount = pos 0; pending_payout = pos 0 })
      ≡ ok tt
unfolding assert_deal_invariants
left_nonneg a b p = ground (arith, -ℤ_parts a b)

module _ {T : Type 0} where
  -- A release of what is locked, in an escrow that can pay it to `to`.
  pub record IsPayable (transfer : Transfer T) (env : Env) (id : ℕ) (outcome : SettlementOutcome)
      (pending : PendingRentRelease) (depositor token : ℕ) (tokens : T) (s : State T) : Type 0 where
    pub named : id ≢ 0
    pub not_paused : get_paused s ≡ false
    pub is_pending : s.deals.release id ≡ some pending
    pub is_locked : (get_deal_state s.deals id).locked_amount ≡ pending.amount
    pub has_depositor : s.deals.depositor id ≡ some depositor
    pub in_range : fits_i128 (get_deal_balance s.deals id) ≡ true
    pub has_token : s.token ≡ some token
    pub can_pay :
        transfer env token env.current
          (recipient_of outcome pending depositor)
          pending.amount
          s.tokens
        ≡ some tokens

  -- The state after the settlement.
  unfoldable pub settled_state : ℕ → PendingRentRelease → T → State T → State T
  settled_state id pending tokens s =
      let left = get_deal_balance s.deals id -ℤ pending.amount in
      let d = s.deals in
      record s {
        deals =
            put_amounts id left
              (record { total_balance = left; locked_amount = pos 0; pending_payout = pos 0 })
              (record d { release = update id none d.release; dispute = update id none d.dispute });
        reentrancy = some false;
        tokens = tokens;
      }

  settle_inner_eq :
      (transfer : Transfer T) (env : Env) (id : ℕ) (outcome : SettlementOutcome)
      (pending : PendingRentRelease) (depositor token : ℕ) (tokens : T) (s : State T)
      → IsEscrow s
      → IsPayable transfer env id outcome pending depositor token tokens s
      → settle_release_inner transfer env id outcome s ≡ ok (settled_state id pending tokens s)
  unfolding settle_release_inner settled_state get_token enter exit
  settle_inner_eq transfer env id outcome pending depositor token tokens s i c =
      let a = i.accounts id in
      rw
        (
          c.is_pending,
          c.has_depositor,
          a.payout,
          c.is_locked,
          eqb_ℤ_refl pending.amount,
          c.has_token,
          i.open_lock,
          c.can_pay,
          a.total,
          left_fits (get_deal_balance s.deals id) pending.amount (rw c.is_locked at a.nonneg)
              (rw c.is_locked at a.covered) c.in_range,
          left_nonneg (get_deal_balance s.deals id) pending.amount (rw c.is_locked at a.covered),
        )
        refl

  passes :
      (id : ℕ) (s : State T)
      → id ≢ 0
      → get_paused s ≡ false
      → (require_not_paused s ≡ ok tt) × (require_non_empty_string id ≡ ok tt)
  unfolding require_not_paused require_non_empty_string
  passes id s n p = (rw p refl, rw (==_ne id 0 n) refl)

  module _ (transfer : Transfer T) (env : Env) (id : ℕ) (pending : PendingRentRelease)
      (depositor token : ℕ) (tokens : T) (s : State T) (i : IsEscrow s) where
    -- In an escrow whose accounts agree and that is not paused, if a deal with a name has a pending
    -- release of the locked amount, a depositor and no dispute, the balance fits an i128, the token
    -- is set and makes the transfer to the recipient, then from the end of the challenge window on
    -- `settle_rent_release_timeout` returns: the amount is taken off the balance and the total,
    -- nothing is locked, and the release is cleared.
    pub settle_rent_release_timeout_returns :
        IsPayable transfer env id release_to_recipient pending depositor token tokens s
        → s.deals.dispute id ≡ none
        → pending.challenge_end_at ≤ env.timestamp
        → settle_rent_release_timeout transfer env id s ≡ ok (settled_state id pending tokens s)
    unfolding settle_rent_release_timeout
    settle_rent_release_timeout_returns c d late =
        rw
          (
            (passes id s c.named c.not_paused).0,
            (passes id s c.named c.not_paused).1,
            d,
            c.is_pending,
            not_ltb env.timestamp pending.challenge_end_at late,
          )
          (settle_inner_eq transfer env id release_to_recipient pending depositor token tokens s i
            c)

    -- The same for the decision of the resolver on an open dispute.
    pub resolve_rent_dispute_returns :
        (outcome : SettlementOutcome) (resolver ref : ℕ) (dispute : RentDispute)
        → IsPayable transfer env id outcome pending depositor token tokens s
        → s.deals.dispute id ≡ some dispute
        → dispute.resolved ≡ false
        → s.resolver ≡ some resolver
        → env.authorized resolver ≡ true
        → ref ≢ 0
        → resolve_rent_dispute transfer env resolver id outcome ref s
          ≡ ok (settled_state id pending tokens s)
    unfolding resolve_rent_dispute require_not_paused require_non_empty_string
    resolve_rent_dispute_returns outcome resolver ref dispute c d o r a n =
        let paid = settle_inner_eq transfer env id outcome pending depositor token tokens s i c in
        let open_gate = c.not_paused in let named = c.named in ground arith

    -- The same for the refund after the timeout of an open dispute.
    pub settle_dispute_timeout_returns :
        (dispute : RentDispute)
        → IsPayable transfer env id refund_to_depositor pending depositor token tokens s
        → s.deals.dispute id ≡ some dispute
        → dispute.resolved ≡ false
        → dispute.opened_at + get_dispute_timeout_seconds s ≤ env.timestamp
        → env.timestamp < 18446744073709551616
        → settle_dispute_timeout transfer env id s ≡ ok (settled_state id pending tokens s)
    unfolding settle_dispute_timeout
    settle_dispute_timeout_returns dispute c d o late small =
        rw
          (
            (passes id s c.named c.not_paused).0,
            (passes id s c.named c.not_paused).1,
            d,
            o,
            lt→ltb (dispute.opened_at + get_dispute_timeout_seconds s) 18446744073709551616
                (omega (arith, late, small)),
            not_ltb env.timestamp (dispute.opened_at + get_dispute_timeout_seconds s) late,
          )
          (settle_inner_eq transfer env id refund_to_depositor pending depositor token tokens s i c)
