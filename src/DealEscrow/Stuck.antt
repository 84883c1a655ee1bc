-- ===== src/DealEscrow/Stuck.antt =====
-- deal_escrow/src/lib.rs: `release` on a deal with a pending release. It sets the locked amount to
-- 0 and leaves the pending release where it is.
use shelterflex_contracts.Prelude.{
  ℕ, ◌≡◌, refl, sym, ap, subst, ◌≢◌, some, List, [], ◌∷◌, arith, ℕ_discrete, ==_ne, ◌<ℤ◌,
  parts_of_eq, ℤ, pos,
}
use shelterflex_contracts.Host.{commit, state_of, state_of_ok, Outcome, Env, ok, err, trap}
use shelterflex_contracts.Token.{Transfer}
use shelterflex_contracts.DealEscrow.Types.{
  get_deal_state, put_amounts, Error, DealLifecycleStatus, DealState, PendingRentRelease,
  SettlementOutcome, Deals, State, draft, active, completed, defaulted, release_to_recipient,
  refund_to_depositor,
}
use shelterflex_contracts.DealEscrow.Funds.{no_amounts, deposit, release}
use shelterflex_contracts.DealEscrow.Releases.{
  request_rent_release, challenge_rent_release, settle_release_inner,
}
use shelterflex_contracts.DealEscrow.Admin.{move_deal, activate_deal, complete_deal, default_deal}
use shelterflex_contracts.DealEscrow.Effects.{deposit_ok, release_ok, request_ok, settle_ok}
use shelterflex_contracts.DealEscrow.Account.{
  Held, SameDeal-state, put_amounts-SameDeal, put_amounts-state, IsAccounted, SameDeal,
}
use shelterflex_contracts.DealEscrow.Settlements.{resolve_ok, settles_ok, times_out_ok}
use shelterflex_contracts.DealEscrow.Cases.{by_cases}
use shelterflex_contracts.DealEscrow.Steps.{IsStep-IsEscrow, release-IsStep, IsEscrow, IsStep}
use shelterflex_contracts.DealEscrow.Runs.{step-IsStep}
use shelterflex_contracts.DealEscrow.Machine.{step, run, Call}

-- A release of a positive amount is pending, and nothing is locked for it.
pub record IsStuck (pending : PendingRentRelease) (id : ℕ) (d : Deals) : Type 0 where
  pub still_pending : d.release id ≡ some pending
  pub positive : pos 0 <ℤ pending.amount
  pub not_locked : (get_deal_state d id).locked_amount ≡ pos 0

module _ (pending : PendingRentRelease) (id : ℕ) where
  same-IsStuck : (d e : Deals) → SameDeal id d e → IsStuck pending id d → IsStuck pending id e
  same-IsStuck d e c k = record {
    still_pending = rw c.same_release k.still_pending;
    positive = k.positive;
    not_locked = rw (SameDeal-state id d e c) k.not_locked;
  }

  put-IsStuck :
      (deal : ℕ) (amount : ℤ) (state : DealState) (d k : Deals)
      → (id ≢ deal → SameDeal id d k)
      → (id ≡ deal → (k.release id ≡ some pending) × (state.locked_amount ≡ pos 0))
      → IsStuck pending id d
      → IsStuck pending id (put_amounts deal amount state k)
  put-IsStuck deal amount state d k other own a = elim (ℕ_discrete id deal) [
    | no ne ↦
        same-IsStuck d (put_amounts deal amount state k)
          (put_amounts-SameDeal id deal amount state d k ne (other ne)) a
    | yes e ↦ record {
      still_pending = (own e).0;
      positive = a.positive;
      not_locked = rw (e, put_amounts-state deal amount state k) (own e).1;
    }
  ]

  not_settled :
      (deal : ℕ) (other : PendingRentRelease) (d : Deals)
      → IsStuck pending id d
      → id ≡ deal
      → d.release deal ≡ some other
      → (get_deal_state d deal).locked_amount ≡ other.amount
      → ⊥
  not_settled deal other d k e p q =
      let same : other ≡ pending = cc (p, k.still_pending, ap d.release e) in
      omega (
        arith,
        k.positive,
        parts_of_eq (ap (λ r. r.amount) same),
        parts_of_eq q,
        parts_of_eq (ap (λ i. (get_deal_state d i).locked_amount) e),
        parts_of_eq k.not_locked,
      )

  module _ {T : Type 0} (transfer : Transfer T) (env : Env) (s : State T)
      (k : IsStuck pending id s.deals) where
    committed :
        (r : Outcome Error (State T))
        → ((t : State T) → r ≡ ok t → IsStuck pending id t.deals)
        → IsStuck pending id (commit s r).deals
    committed (ok t) f = f t refl
    committed (err e) f = k
    committed trap f = k

    deposited :
        (from deal : ℕ) (amount : ℤ) (t : State T)
        → deposit transfer env from deal amount s ≡ ok t
        → IsStuck pending id t.deals
    deposited from deal amount t h = rw (deposit_ok transfer env from deal amount s t h).deals (
        put-IsStuck deal _ _ s.deals _
          (λ ne. record { same_balance = refl; same_state = refl; same_release = refl })
          (λ e. (k.still_pending, rw (sym e) k.not_locked)) k)

    released :
        (caller deal to : ℕ) (n : ℤ) (platform : ℕ) (p : ℤ) (reporter : ℕ) (r : ℤ) (ref : ℕ)
        (t : State T)
        → state_of (release transfer env caller deal to n platform p reporter r ref s) ≡ ok t
        → IsStuck pending id t.deals
    unfolding no_amounts
    released caller deal to n platform p reporter r ref t h =
        let (cur, q) =
          state_of_ok (release transfer env caller deal to n platform p reporter r ref s) h in
        rw (release_ok transfer env caller deal to n platform p reporter r ref s t cur q).deals (
          put-IsStuck deal _ _ s.deals _
            (λ ne. record { same_balance = refl; same_state = refl; same_release = refl })
            (λ e. (k.still_pending, refl)) k)

    -- No release is requested while one is pending.
    requested :
        (caller deal to : ℕ) (amount : ℤ) (source ref : ℕ) (t : State T)
        → request_rent_release env caller deal to amount source ref s ≡ ok t
        → IsStuck pending id t.deals
    requested caller deal to amount source ref t h =
        let c = request_ok env caller deal to amount source ref s t h in
        elim (ℕ_discrete id deal) [
          | yes e ↦ absurd (cc (k.still_pending, ap s.deals.release e, c.none_pending))
          | no ne ↦
              same-IsStuck s.deals t.deals
                (rw c.deals (record {
                  same_balance = refl;
                  same_state = rw (==_ne id deal ne) refl;
                  same_release = rw (==_ne id deal ne) refl;
                }))
                k
        ]

    -- A settlement wants the pending amount to be locked.
    settled :
        (deal : ℕ) (outcome : SettlementOutcome) (t : State T)
        → settle_release_inner transfer env deal outcome s ≡ ok t
        → IsStuck pending id t.deals
    settled deal outcome t h =
        let c = settle_ok transfer env deal outcome s t h in
        rw c.deals (
          put-IsStuck deal _ _ s.deals _
            (λ ne. record {
              same_balance = refl;
              same_state = refl;
              same_release = rw (==_ne id deal ne) refl;
            })
            (λ e. absurd (not_settled deal c.pending s.deals k e c.was_pending c.was_locked)) k)

    challenged :
        (caller deal ref : ℕ)
        → IsStuck pending id (commit s (challenge_rent_release env caller deal ref s)).deals
    unfolding challenge_rent_release
    challenged caller deal ref =
        same-IsStuck s.deals (commit s (challenge_rent_release env caller deal ref s)).deals
          (record {
            same_balance = ground arith;
            same_state = ground arith;
            same_release = ground arith;
          })
          k

    moved :
        (before after : DealLifecycleStatus) (admin deal : ℕ)
        → IsStuck pending id (commit s (move_deal before after env admin deal s)).deals
    unfolding move_deal
    moved before after admin deal =
        same-IsStuck s.deals (commit s (move_deal before after env admin deal s)).deals
          (record {
            same_balance = ground arith;
            same_state = ground arith;
            same_release = ground arith;
          })
          k

  module _ {T : Type 0} (transfer : Transfer T) where
    step-IsStuck :
        (env : Env) (s : State T)
        → IsEscrow s
        → IsStuck pending id s.deals
        → (c : Call) → IsStuck pending id (step transfer env c s).deals
    unfolding step activate_deal complete_deal default_deal
    step-IsStuck env s i k =
        by_cases transfer env s i.upgrade
          {P = λ c. IsStuck pending id (step transfer env c s).deals}
          (record {
            on_settings = λ c same. rw same.same_deals k;
            on_deposit = λ from deal amount.
                committed transfer env s k _ (deposited transfer env s k from deal amount);
            on_release = λ caller deal to n platform p reporter r ref.
                committed transfer env s k _
                  (released transfer env s k caller deal to n platform p reporter r ref);
            on_request = λ caller deal to amount source ref.
                committed transfer env s k _
                  (requested transfer env s k caller deal to amount source ref);
            on_challenge = challenged transfer env s k;
            on_resolve = λ caller deal outcome ref. committed transfer env s k _ λ t h.
                settled transfer env s k deal outcome t
                  (resolve_ok transfer env deal s t caller outcome ref h).1;
            on_settle = λ deal. committed transfer env s k _ λ t h.
                settled transfer env s k deal release_to_recipient t
                  (settles_ok transfer env deal s t h).1;
            on_time_out = λ deal. committed transfer env s k _ λ t h.
                settled transfer env s k deal refund_to_depositor t
                  (times_out_ok transfer env deal s t h).1;
            on_activate = moved transfer env s k draft active;
            on_complete = moved transfer env s k active completed;
            on_default = moved transfer env s k active defaulted;
          })

    run-IsStuck :
        (cs : List (Env × Call)) (s : State T)
        → IsEscrow s
        → IsStuck pending id s.deals
        → IsStuck pending id (run transfer cs s).deals
    unfolding run
    run-IsStuck [] s i k = k
    run-IsStuck ((env, c) ∷ cs) s i k =
        run-IsStuck cs (step transfer env c s)
          (IsStep-IsEscrow s _ (step-IsStep transfer env c s i) i) (step-IsStuck env s i k c)

    Held-positive :
        (d : Deals) → d.release id ≡ some pending → IsAccounted d id → pos 0 <ℤ pending.amount
    unfolding Held
    Held-positive d e a = (rw e at a.held).0

    -- If the accounts agree and `release` returns on a deal with a pending release, then over any
    -- sequence of later calls the release stays pending with nothing locked for it, so that it is
    -- neither settled nor replaced by another.
    pub release-IsStuck :
        (env : Env) (caller to : ℕ) (n : ℤ) (platform : ℕ) (p : ℤ) (reporter : ℕ) (r : ℤ) (ref : ℕ)
        (s t : State T) (cur : ℤ)
        → IsEscrow s
        → s.deals.release id ≡ some pending
        → release transfer env caller id to n platform p reporter r ref s ≡ ok (t, cur)
        → (cs : List (Env × Call)) → IsStuck pending id (run transfer cs t).deals
    unfolding no_amounts
    release-IsStuck env caller to n platform p reporter r ref s t cur i e h cs =
        let c = release_ok transfer env caller id to n platform p reporter r ref s t cur h in
        run-IsStuck cs t
          (IsStep-IsEscrow s t
            (subst (λ r. IsStep s (commit s (state_of r))) h
              (release-IsStep transfer env s i caller id to n platform p reporter r ref))
            i)
          (rw c.deals (record {
            still_pending = e;
            positive = Held-positive s.deals e (i.accounts id);
            not_locked = rw (put_amounts-state id (pos 0) no_amounts s.deals) refl;
          }))
