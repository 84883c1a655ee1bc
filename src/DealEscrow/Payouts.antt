-- ===== src/DealEscrow/Payouts.antt =====
-- deal_escrow/src/lib.rs: which calls can lower the balance of a deal.
use shelterflex_contracts.Prelude.{
  ℕ, ◌≡◌, refl, sym, ap, subst, arith, ℕ_discrete, ==_ne, ◌<ℤ◌, parts_of_eq, ℤ, int_laws,
  lookup-insert,
}
use shelterflex_contracts.Host.{commit, state_of, state_of_ok, Outcome, Env, ok, err, trap}
use shelterflex_contracts.Token.{Transfer}
use shelterflex_contracts.DealEscrow.Types.{
  get_deal_balance, put_amounts, Error, DealLifecycleStatus, DealState, SettlementOutcome, Deals,
  State, draft, active, completed, defaulted, release_to_recipient, refund_to_depositor,
}
use shelterflex_contracts.DealEscrow.Funds.{deposit, release}
use shelterflex_contracts.DealEscrow.Releases.{
  request_rent_release, challenge_rent_release, settle_release_inner, resolve_rent_dispute,
  settle_rent_release_timeout, settle_dispute_timeout,
}
use shelterflex_contracts.DealEscrow.Effects.{deposit_ok, release_ok, request_ok, settle_ok}
use shelterflex_contracts.DealEscrow.Settlements.{
  resolve_ok, settles_ok, times_out_ok, release-IsPermitted, IsDecided, IsUnchallenged, IsTimedOut,
  IsPermitted,
}
use shelterflex_contracts.DealEscrow.Cases.{by_cases}
use shelterflex_contracts.DealEscrow.Steps.{IsEscrow}
use shelterflex_contracts.DealEscrow.Machine.{step, Call, releases, resolves, settles, times_out}
use shelterflex_contracts.DealEscrow.Admin.{move_deal, activate_deal, complete_deal, default_deal}
use shelterflex_contracts.DealEscrow.Account.{put_amounts-balance}
use shelterflex_contracts.DealEscrow.Settings.{SameFunds}

same_balance :
    (id : ℕ) (d e : Deals) → e.balance ≡ d.balance → get_deal_balance e id ≡ get_deal_balance d id
unfolding get_deal_balance
same_balance id d e b = rw b refl

put_balance :
    (id deal : ℕ) (amount : ℤ) (state : DealState) (e k : Deals)
    → deal ≡ id
    → e ≡ put_amounts deal amount state k
    → get_deal_balance e id ≡ amount
put_balance id deal amount state e k p q = rw (q, sym p) (put_amounts-balance deal amount state k)

module _ {T : Type 0} where
  -- What must hold where a call takes money out of the deal `id`.
  unfoldable pub IsJustified : Env → ℕ → State T → Call → Type 0
  IsJustified env id s (releases caller deal to n platform p reporter r ref) =
      (deal ≡ id) × IsPermitted env caller s
  IsJustified env id s (resolves caller deal outcome ref) = (deal ≡ id) × IsDecided env caller id s
  IsJustified env id s (settles deal) = (deal ≡ id) × IsUnchallenged env id s
  IsJustified env id s (times_out deal) = (deal ≡ id) × IsTimedOut env id s
  IsJustified env id s _ = ⊥

  -- The call `t` leaves less of the deal than `s` had.
  abbrev pub IsLower : ℕ → State T → State T → Type 0
  IsLower id s t = get_deal_balance t.deals id <ℤ get_deal_balance s.deals id

  not_lower : (id : ℕ) (s t : State T) → SameFunds s t → IsLower id s t → ⊥
  not_lower id s t c l = absurd (omega (arith, rw c.same_deals at l))

  lower_balance : (id : ℕ) (s t : State T) → t.deals.balance ≡ s.deals.balance → IsLower id s t → ⊥
  lower_balance id s t e l = absurd (omega (arith, rw (same_balance id s.deals t.deals e) at l))

  IsLower-returned :
      (id : ℕ) (s : State T) (r : Outcome Error (State T))
      → IsLower id s (commit s r)
      → (t : State T) × (r ≡ ok t) × IsLower id s t
  IsLower-returned id s (ok t) l = (t, refl, l)
  IsLower-returned id s (err e) l = absurd (omega (arith, l))
  IsLower-returned id s trap l = absurd (omega (arith, l))

  -- A write of the amounts of a deal lowers no other.
  put_lower :
      (id deal : ℕ) (amount : ℤ) (state : DealState) (s t : State T) (k : Deals)
      → t.deals ≡ put_amounts deal amount state k
      → k.balance ≡ s.deals.balance
      → IsLower id s t
      → deal ≡ id
  unfolding get_deal_balance
  put_lower id deal amount state s t k e b l = elim (ℕ_discrete id deal) [
    | yes p ↦ sym p
    | no ne ↦
        absurd
          (omega (arith, rw (e, lookup-insert id deal amount k.balance, ==_ne id deal ne, b) at l))
  ]

  module _ (transfer : Transfer T) (env : Env) (id : ℕ) (s : State T) (i : IsEscrow s) where
    deposit_lower :
        (from deal : ℕ) (amount : ℤ)
        → IsLower id s (commit s (deposit transfer env from deal amount s))
        → ⊥
    deposit_lower from deal amount l =
        let (t, h, m) = IsLower-returned id s _ l in
        let c = deposit_ok transfer env from deal amount s t h in
        let e = put_lower id deal _ _ s t _ c.deals refl m in
        absurd (
          omega (
            int_laws,
            c.positive,
            m,
            parts_of_eq (put_balance id deal _ _ t.deals _ e c.deals),
            parts_of_eq (ap (get_deal_balance s.deals) e),
          ))

    request_lower :
        (caller deal to : ℕ) (amount : ℤ) (source ref : ℕ)
        → IsLower id s (commit s (request_rent_release env caller deal to amount source ref s))
        → ⊥
    request_lower caller deal to amount source ref l =
        let (t, h, m) = IsLower-returned id s _ l in
        let c = request_ok env caller deal to amount source ref s t h in
        lower_balance id s t (ap (λ d. d.balance) c.deals) m

    challenge_lower :
        (caller deal ref : ℕ)
        → IsLower id s (commit s (challenge_rent_release env caller deal ref s))
        → ⊥
    unfolding challenge_rent_release
    challenge_lower caller deal ref l =
        lower_balance id s (commit s (challenge_rent_release env caller deal ref s)) (ground arith)
          l

    move_lower :
        (before after : DealLifecycleStatus) (admin deal : ℕ)
        → IsLower id s (commit s (move_deal before after env admin deal s))
        → ⊥
    unfolding move_deal
    move_lower before after admin deal l =
        lower_balance id s (commit s (move_deal before after env admin deal s)) (ground arith) l

    settled_lower :
        (deal : ℕ) (outcome : SettlementOutcome) (t : State T)
        → settle_release_inner transfer env deal outcome s ≡ ok t
        → IsLower id s t
        → deal ≡ id
    settled_lower deal outcome t h m =
        put_lower id deal _ _ s t _ (settle_ok transfer env deal outcome s t h).deals refl m

    release_lower :
        (caller deal to : ℕ) (n : ℤ) (platform : ℕ) (p : ℤ) (reporter : ℕ) (r : ℤ) (ref : ℕ)
        → IsLower id s (
            commit s (state_of (release transfer env caller deal to n platform p reporter r ref s)))
        → (deal ≡ id) × IsPermitted env caller s
    release_lower caller deal to n platform p reporter r ref l =
        let (t, h, m) = IsLower-returned id s _ l in
        let (cur, e) =
          state_of_ok (release transfer env caller deal to n platform p reporter r ref s) h in
        (
          put_lower id deal _ _ s t _
              (release_ok transfer env caller deal to n platform p reporter r ref s t cur e).deals
              refl m,
          release-IsPermitted transfer env deal s t caller to n platform p reporter r ref cur e,
        )

    resolve_lower :
        (caller deal : ℕ) (outcome : SettlementOutcome) (ref : ℕ)
        → IsLower id s (commit s (resolve_rent_dispute transfer env caller deal outcome ref s))
        → (deal ≡ id) × IsDecided env caller id s
    resolve_lower caller deal outcome ref l =
        let (t, h, m) = IsLower-returned id s _ l in
        let (d, k) = resolve_ok transfer env deal s t caller outcome ref h in
        let e = settled_lower deal outcome t k m in (e, subst (λ n. IsDecided env caller n s) e d)

    settles_lower :
        (deal : ℕ)
        → IsLower id s (commit s (settle_rent_release_timeout transfer env deal s))
        → (deal ≡ id) × IsUnchallenged env id s
    settles_lower deal l =
        let (t, h, m) = IsLower-returned id s _ l in
        let (d, k) = settles_ok transfer env deal s t h in
        let e = settled_lower deal release_to_recipient t k m in
        (e, subst (λ n. IsUnchallenged env n s) e d)

    times_out_lower :
        (deal : ℕ)
        → IsLower id s (commit s (settle_dispute_timeout transfer env deal s))
        → (deal ≡ id) × IsTimedOut env id s
    times_out_lower deal l =
        let (t, h, m) = IsLower-returned id s _ l in
        let (d, k) = times_out_ok transfer env deal s t h in
        let e = settled_lower deal refund_to_depositor t k m in
        (e, subst (λ n. IsTimedOut env n s) e d)

    -- In an escrow whose accounts agree, a call that lowers the balance of a deal is made for that
    -- deal, and is one of four: a release that the admin or the operator has signed while the
    -- contract is neither paused nor frozen; a decision that the stored resolver has signed on an
    -- unresolved dispute; a settlement without a dispute, after the challenge window of the pending
    -- release; or one of an unresolved dispute after its timeout.
    pub step-IsJustified :
        (c : Call) → IsLower id s (step transfer env c s) → IsJustified env id s c
    unfolding step IsJustified activate_deal complete_deal default_deal
    step-IsJustified c =
        by_cases transfer env s i.upgrade
          {P = λ k. IsLower id s (step transfer env k s) → IsJustified env id s k}
          (record {
            on_settings = λ k same l. absurd (not_lower id s _ same l);
            on_deposit = λ from deal amount l. absurd (deposit_lower from deal amount l);
            on_release = release_lower;
            on_request = λ caller deal to amount source ref l.
                absurd (request_lower caller deal to amount source ref l);
            on_challenge = λ caller deal ref l. absurd (challenge_lower caller deal ref l);
            on_resolve = resolve_lower;
            on_settle = settles_lower;
            on_time_out = times_out_lower;
            on_activate = λ a deal l. absurd (move_lower draft active a deal l);
            on_complete = λ a deal l. absurd (move_lower active completed a deal l);
            on_default = λ a deal l. absurd (move_lower active defaulted a deal l);
          })
          c
