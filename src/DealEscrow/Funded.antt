-- ===== src/DealEscrow/Funded.antt =====
-- deal_escrow/src/lib.rs: no call lowers what the escrow holds beyond the balances of the deals.
use shelterflex_contracts.Prelude.{ℕ, ◌≡◌, ap, subst, false, List, [], ◌∷◌, arith, ◌≤ℤ◌, ℤ}
use shelterflex_contracts.Host.{commit, state_of, state_of_ok, Env, ok}
use shelterflex_contracts.Token.{Transfer, IsToken}
use shelterflex_contracts.DealEscrow.Types.{
  DealLifecycleStatus, SettlementOutcome, State, draft, active, completed, defaulted,
  release_to_recipient, refund_to_depositor,
}
use shelterflex_contracts.DealEscrow.Funds.{release}
use shelterflex_contracts.DealEscrow.Releases.{
  request_rent_release, challenge_rent_release, settle_release_inner,
}
use shelterflex_contracts.DealEscrow.Admin.{move_deal, activate_deal, complete_deal, default_deal}
use shelterflex_contracts.DealEscrow.Effects.{request_ok}
use shelterflex_contracts.DealEscrow.Settlements.{resolve_ok, settles_ok, times_out_ok}
use shelterflex_contracts.DealEscrow.Cases.{by_cases}
use shelterflex_contracts.DealEscrow.Steps.{IsStep-IsEscrow, IsEscrow}
use shelterflex_contracts.DealEscrow.Runs.{step-IsStep}
use shelterflex_contracts.DealEscrow.Solvency.{
  surplus, deposit_surplus, settle_surplus, release_surplus, same_surplus, commit_surplus,
  kept_surplus,
}
use shelterflex_contracts.DealEscrow.Machine.{step, run, Call}

-- The escrow at `self` is the contract that is called, and does not sign for itself.
unfoldable pub AreOutside : ℕ → List (Env × Call) → Type 0
AreOutside self [] = Unit {0}
AreOutside self ((env, c) ∷ cs) =
    (env.current ≡ self) × ((env.authorized env.current ≡ false) × AreOutside self cs)

module _ {T : Type 0} (transfer : Transfer T) (held : T → ℕ → ℕ → ℤ)
    (law : IsToken transfer held) where
  module _ (env : Env) (s : State T) (i : IsEscrow s) where
    challenge_surplus :
        (caller id ref : ℕ)
        → surplus transfer held env.current s
          ≤ℤ surplus transfer held env.current
              (commit s (challenge_rent_release env caller id ref s))
    unfolding challenge_rent_release
    challenge_surplus caller id ref =
        kept_surplus transfer held law env s (commit s (challenge_rent_release env caller id ref s))
          (ground arith)

    move_surplus :
        (before after : DealLifecycleStatus) (admin id : ℕ)
        → surplus transfer held env.current s
          ≤ℤ surplus transfer held env.current (commit s (move_deal before after env admin id s))
    unfolding move_deal
    move_surplus before after admin id =
        kept_surplus transfer held law env s (commit s (move_deal before after env admin id s))
          (ground arith)

    settled :
        (id : ℕ) (outcome : SettlementOutcome) (t : State T)
        → settle_release_inner transfer env id outcome s ≡ ok t
        → surplus transfer held env.current s ≤ℤ surplus transfer held env.current t
    settled id outcome t h = settle_surplus transfer held law env s id outcome t (i.accounts id) h

    released :
        (caller id to : ℕ) (n : ℤ) (platform : ℕ) (p : ℤ) (reporter : ℕ) (r : ℤ) (ref : ℕ)
        (t : State T)
        → state_of (release transfer env caller id to n platform p reporter r ref s) ≡ ok t
        → surplus transfer held env.current s ≤ℤ surplus transfer held env.current t
    released caller id to n platform p reporter r ref t h =
        let (cur, e) =
          state_of_ok (release transfer env caller id to n platform p reporter r ref s) h in
        release_surplus transfer held law env s caller id to n platform p reporter r ref t cur e

    requested :
        (caller id to : ℕ) (amount : ℤ) (source ref : ℕ) (t : State T)
        → request_rent_release env caller id to amount source ref s ≡ ok t
        → surplus transfer held env.current s ≤ℤ surplus transfer held env.current t
    requested caller id to amount source ref t h =
        let c = request_ok env caller id to amount source ref s t h in
        kept_surplus transfer held law env s t
          (ap (λ d. d.balance) c.deals, (c.same_tokens, c.same_token))

    step_surplus :
        (c : Call)
        → env.authorized env.current ≡ false
        → surplus transfer held env.current s
          ≤ℤ surplus transfer held env.current (step transfer env c s)
    unfolding step activate_deal complete_deal default_deal
    step_surplus c o =
        by_cases transfer env s i.upgrade
          {P = λ k.
            surplus transfer held env.current s
            ≤ℤ surplus transfer held env.current (step transfer env k s)}
          (record {
            on_settings =
                λ k same. same_surplus transfer held law env s (step transfer env k s) same;
            on_deposit = λ from id amount.
                commit_surplus transfer held law env s _
                  λ t h. deposit_surplus transfer held law env s from id amount t o h;
            on_release = λ caller id to n platform p reporter r ref.
                commit_surplus transfer held law env s _
                  (released caller id to n platform p reporter r ref);
            on_request = λ caller id to amount source ref.
                commit_surplus transfer held law env s _ (requested caller id to amount source ref);
            on_challenge = challenge_surplus;
            on_resolve = λ caller id outcome ref.
                commit_surplus transfer held law env s _ λ t h.
                  settled id outcome t (resolve_ok transfer env id s t caller outcome ref h).1;
            on_settle = λ id.
                commit_surplus transfer held law env s _
                  λ t h. settled id release_to_recipient t (settles_ok transfer env id s t h).1;
            on_time_out = λ id.
                commit_surplus transfer held law env s _
                  λ t h. settled id refund_to_depositor t (times_out_ok transfer env id s t h).1;
            on_activate = move_surplus draft active;
            on_complete = move_surplus active completed;
            on_default = move_surplus active defaulted;
          })
          c

  -- With a token whose transfers between two addresses move balances and whose transfers to oneself
  -- leave them, from an escrow whose accounts agree, no sequence of calls of the escrow, which does
  -- not sign for itself, lowers what the escrow holds of its token beyond the sum of the balances
  -- of the deals.
  pub run-surplus :
      (self : ℕ) (cs : List (Env × Call)) (s : State T)
      → IsEscrow s
      → AreOutside self cs
      → surplus transfer held self s ≤ℤ surplus transfer held self (run transfer cs s)
  unfolding run AreOutside
  run-surplus self [] s i o = omega arith
  run-surplus self ((env, c) ∷ cs) s i o = omega (
    arith,
    subst (λ a. surplus transfer held a s ≤ℤ surplus transfer held a (step transfer env c s)) o.0
        (step_surplus env s i c (o.1).0),
    run-surplus self cs (step transfer env c s)
        (IsStep-IsEscrow s _ (step-IsStep transfer env c s i) i) (o.1).1,
  )
