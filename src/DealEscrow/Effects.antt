-- ===== src/DealEscrow/Effects.antt =====
-- deal_escrow/src/lib.rs: what a call that moves funds has checked and written, where it returned.
use shelterflex_contracts.Prelude.{
  ℕ, ◌+◌, ◌≡◌, refl, sym, ◌⊎◌, inl, inr, true, false, none, some, arith, if◌then◌else◌, ==_eq,
  Bool-cases, Option-cases, ◌+ℤ◌, ◌-ℤ◌, ◌≤ℤ◌, ◌<ℤ◌, ltb_ℤ, eqb_ℤ, eq_of_parts, ℤ, pos, unwrap_or,
  update,
}
use shelterflex_contracts.Host.{Env, ok}
use shelterflex_contracts.Token.{Transfer}
use shelterflex_contracts.Reentrancy.{enter, exit}
use shelterflex_contracts.DealEscrow.Types.{
  require_valid_amount, require_non_empty_string, get_deal_balance, get_deal_state,
  set_deal_depositor_if_missing, put_amounts, get_challenge_window_seconds, get_token,
  get_circuit_breaker_state, require_not_frozen, require_not_paused, require_admin_or_operator,
  PendingRentRelease, SettlementOutcome, State, is_unfrozen,
}
use shelterflex_contracts.DealEscrow.Funds.{
  no_amounts, require_split, deposit, pay_part, pay_parts, release,
}
use shelterflex_contracts.DealEscrow.Releases.{
  recipient_of, request_rent_release, settle_release_inner,
}

eqb_ℤ_eq : (a b : ℤ) → eqb_ℤ a b ≡ true → a ≡ b
eqb_ℤ_eq a b h = eq_of_parts a b (==_eq _ _ h)

require_split_ok :
    (n p r cur : ℤ) {u : Unit {0}} → require_split n p r cur ≡ ok u → cur ≡ n +ℤ p +ℤ r
unfolding require_split
require_split_ok n p r cur h = sym (eqb_ℤ_eq (n +ℤ p +ℤ r) cur (ground arith))

module _ {T : Type 0} where
  -- The keys that no call but those of the admin writes.
  pub record SameSettings (s t : State T) : Type 0 where
    pub same_upgrade : t.upgrade ≡ s.upgrade
    pub same_token : t.token ≡ s.token
    pub same_breaker : t.circuit_breaker ≡ s.circuit_breaker
    pub unlocked : unwrap_or t.reentrancy false ≡ false

  pub record IsDeposited (transfer : Transfer T) (env : Env) (from id : ℕ) (amount : ℤ)
      (s t : State T) : Type 0 where
    pub positive : pos 0 <ℤ amount
    pub signed : env.authorized from ≡ true
    pub moved : transfer env (unwrap_or s.token 0) from env.current amount s.tokens ≡ some t.tokens
    pub deals :
        t.deals
        ≡ put_amounts id
            (get_deal_balance s.deals id +ℤ amount)
            (record (get_deal_state s.deals id) {
              total_balance = get_deal_balance s.deals id +ℤ amount;
            })
            (record (s.deals) { depositor = set_deal_depositor_if_missing id from s.deals })
    pub settings : SameSettings s t

  pub deposit_ok :
      (transfer : Transfer T) (env : Env) (from id : ℕ) (amount : ℤ) (s t : State T)
      → deposit transfer env from id amount s ≡ ok t
      → IsDeposited transfer env from id amount s t
  unfolding deposit get_token require_valid_amount require_not_paused require_non_empty_string enter
      exit
  deposit_ok transfer env from id amount s t h = record {
    positive = ground arith;
    signed = ground arith;
    moved = ground arith;
    deals = ground arith;
    settings = record {
      same_upgrade = ground arith;
      same_token = ground arith;
      same_breaker = ground arith;
      unlocked = ground arith;
    };
  }

  -- The transfer of a part, which is left out where the part is not positive.
  unfoldable pub IsPaidPart : Transfer T → Env → ℕ → ℕ → ℤ → T → T → Type 0
  IsPaidPart transfer env token to amount before after =
      if ltb_ℤ (pos 0) amount
      then transfer env token env.current to amount before ≡ some after
      else after ≡ before

  pub pay_part_ok :
      (transfer : Transfer T) (env : Env) (token to : ℕ) (amount : ℤ) (before after : T)
      → pay_part transfer env token to amount before ≡ ok after
      → IsPaidPart transfer env token to amount before after
  unfolding pay_part IsPaidPart
  pay_part_ok transfer env token to amount before after h =
      elim (Bool-cases (ltb_ℤ (pos 0) amount)) [
        | inl p ↦ rw p (ground arith)
        | inr p ↦ rw p (ground arith)
      ]

  pub record IsReleased (transfer : Transfer T) (env : Env) (id to : ℕ) (n : ℤ) (platform : ℕ)
      (p : ℤ) (reporter : ℕ) (r : ℤ) (s t : State T) (cur : ℤ) : Type 0 where
    pub answer : cur ≡ get_deal_balance s.deals id
    pub positive : pos 0 <ℤ cur
    pub principal : pos 0 ≤ℤ n
    pub platform_part : pos 0 ≤ℤ p
    pub reporter_part : pos 0 ≤ℤ r
    pub split : get_deal_balance s.deals id ≡ n +ℤ p +ℤ r
    pub not_frozen : get_circuit_breaker_state s ≡ is_unfrozen
    pub paid :
        pay_parts transfer env (unwrap_or s.token 0) to n platform p reporter r s.tokens
        ≡ ok t.tokens
    pub deals : t.deals ≡ put_amounts id (pos 0) no_amounts s.deals
    pub settings : SameSettings s t

  pub release_ok :
      (transfer : Transfer T) (env : Env) (caller id to : ℕ) (n : ℤ) (platform : ℕ) (p : ℤ)
      (reporter : ℕ) (r : ℤ) (ref : ℕ) (s t : State T) (cur : ℤ)
      → release transfer env caller id to n platform p reporter r ref s ≡ ok (t, cur)
      → IsReleased transfer env id to n platform p reporter r s t cur
  unfolding release get_token require_admin_or_operator require_not_frozen require_not_paused
      require_non_empty_string enter exit
  release_ok transfer env caller id to n platform p reporter r ref s t cur h = record {
    answer = ground arith;
    positive = ground arith;
    principal = ground arith;
    platform_part = ground arith;
    reporter_part = ground arith;
    split = require_split_ok n p r (get_deal_balance s.deals id) (ground arith);
    not_frozen = ground arith;
    paid = ground arith;
    deals = ground arith;
    settings = record {
      same_upgrade = ground arith;
      same_token = ground arith;
      same_breaker = ground arith;
      unlocked = ground arith;
    };
  }

  pub record IsRequested (env : Env) (caller id to : ℕ) (amount : ℤ) (s t : State T) : Type 0 where
    pub positive : pos 0 <ℤ amount
    pub none_pending : s.deals.release id ≡ none
    pub covered : amount ≤ℤ (get_deal_state s.deals id).total_balance
    pub pending : PendingRentRelease
    pub recipient : pending.to ≡ to
    pub asked : pending.amount ≡ amount
    pub window : pending.challenge_end_at ≡ env.timestamp + get_challenge_window_seconds s
    pub deals : t.deals ≡ record (s.deals) {
      state =
          update id
            (some (record (get_deal_state s.deals id) {
              locked_amount = amount;
              pending_payout = amount;
            }))
            s.deals.state;
      release = update id (some pending) s.deals.release;
    }
    pub same_tokens : t.tokens ≡ s.tokens
    pub same_upgrade : t.upgrade ≡ s.upgrade
    pub same_token : t.token ≡ s.token
    pub same_breaker : t.circuit_breaker ≡ s.circuit_breaker
    pub same_lock : t.reentrancy ≡ s.reentrancy

  pub request_ok :
      (env : Env) (caller id to : ℕ) (amount : ℤ) (source ref : ℕ) (s t : State T)
      → request_rent_release env caller id to amount source ref s ≡ ok t
      → IsRequested env caller id to amount s t
  unfolding request_rent_release require_valid_amount require_not_paused require_non_empty_string
  request_ok env caller id to amount source ref s t h = record {
    positive = ground arith;
    none_pending = ground arith;
    covered = ground arith;
    pending = record {
      to = to;
      amount = amount;
      requested_by = caller;
      requested_at = env.timestamp;
      challenge_end_at = env.timestamp + get_challenge_window_seconds s;
      external_ref_source = source;
      external_ref = ref;
    };
    recipient = refl;
    asked = refl;
    window = refl;
    deals = ground arith;
    same_tokens = ground arith;
    same_upgrade = ground arith;
    same_token = ground arith;
    same_breaker = ground arith;
    same_lock = ground arith;
  }

  pub record IsSettled (transfer : Transfer T) (env : Env) (id : ℕ) (outcome : SettlementOutcome)
      (s t : State T) : Type 0 where
    pub pending : PendingRentRelease
    pub depositor : ℕ
    pub was_pending : s.deals.release id ≡ some pending
    pub has_depositor : s.deals.depositor id ≡ some depositor
    pub was_locked : (get_deal_state s.deals id).locked_amount ≡ pending.amount
    pub moved :
        transfer env
          (unwrap_or s.token 0)
          env.current
          (recipient_of outcome pending depositor)
          pending.amount
          s.tokens
        ≡ some t.tokens
    pub deals :
        t.deals
        ≡ put_amounts id
            ((get_deal_state s.deals id).total_balance -ℤ pending.amount)
            (record {
              total_balance = (get_deal_state s.deals id).total_balance -ℤ pending.amount;
              locked_amount = pos 0;
              pending_payout = pos 0;
            })
            (record (s.deals) {
              release = update id none s.deals.release;
              dispute = update id none s.deals.dispute;
            })
    pub settings : SameSettings s t

  with-IsSettled :
      (transfer : Transfer T) (env : Env) (id : ℕ) (outcome : SettlementOutcome) (s t : State T)
      (pending : PendingRentRelease) (depositor : ℕ)
      → s.deals.release id ≡ some pending
      → s.deals.depositor id ≡ some depositor
      → settle_release_inner transfer env id outcome s ≡ ok t
      → IsSettled transfer env id outcome s t
  unfolding settle_release_inner get_token enter exit
  with-IsSettled transfer env id outcome s t pending depositor p q h = record {
    pending = pending;
    depositor = depositor;
    was_pending = p;
    has_depositor = q;
    was_locked = ground arith;
    moved = ground arith;
    deals = ground arith;
    settings = record {
      same_upgrade = ground arith;
      same_token = ground arith;
      same_breaker = ground arith;
      unlocked = ground arith;
    };
  }

  no_settlement :
      (transfer : Transfer T) (env : Env) (id : ℕ) (outcome : SettlementOutcome) (s t : State T)
      → (s.deals.release id ≡ none) ⊎ (s.deals.depositor id ≡ none)
      → settle_release_inner transfer env id outcome s ≡ ok t
      → ⊥
  unfolding settle_release_inner
  no_settlement transfer env id outcome s t p h = ground arith

  pub settle_ok :
      (transfer : Transfer T) (env : Env) (id : ℕ) (outcome : SettlementOutcome) (s t : State T)
      → settle_release_inner transfer env id outcome s ≡ ok t
      → IsSettled transfer env id outcome s t
  settle_ok transfer env id outcome s t h = elim (Option-cases (s.deals.release id)) [
    | inl e ↦ absurd (no_settlement transfer env id outcome s t (inl e) h)
    | inr (pending, p) ↦ elim (Option-cases (s.deals.depositor id)) [
      | inl e ↦ absurd (no_settlement transfer env id outcome s t (inr e) h)
      | inr (depositor, q) ↦ with-IsSettled transfer env id outcome s t pending depositor p q h
    ]
  ]
