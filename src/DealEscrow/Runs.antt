-- ===== src/DealEscrow/Runs.antt =====
-- deal_escrow/src/lib.rs: the accounts of the deals over any sequence of calls.
use shelterflex_contracts.Prelude.{ℕ, ◌≡◌, refl, none, List, [], ◌∷◌, arith}
use shelterflex_contracts.Upgrade
use shelterflex_contracts.Host.{commit, Env}
use shelterflex_contracts.Token.{Transfer}
use shelterflex_contracts.DealEscrow.Types.{
  get_deal_balance, get_deal_state, State, draft, active, completed, defaulted,
}
use shelterflex_contracts.DealEscrow.Funds.{init}
use shelterflex_contracts.DealEscrow.Admin.{activate_deal, complete_deal, default_deal}
use shelterflex_contracts.DealEscrow.Account.{Held}
use shelterflex_contracts.DealEscrow.Machine.{step, run, Call}
use shelterflex_contracts.DealEscrow.Cases.{by_cases}
use shelterflex_contracts.DealEscrow.Steps.{
  IsStep-IsEscrow, SameFunds-IsStep, deposit-IsStep, release-IsStep, request-IsStep,
  challenge-IsStep, resolve-IsStep, settles-IsStep, times_out-IsStep, move_deal-IsStep, IsEscrow,
  IsStep,
}
use shelterflex_contracts.DealEscrow.Settings.{SameUpgrade}

module _ {T : Type 0} where
  -- Initial storage.
  pub record IsFresh (s : State T) : Type 0 where
    pub no_admin : s.upgrade.admin ≡ none
    pub no_upgrade : s.upgrade.pending_hash ≡ none
    pub no_balance : s.deals.balance ≡ []
    pub no_state : (id : ℕ) → s.deals.state id ≡ none
    pub no_release : (id : ℕ) → s.deals.release id ≡ none
    pub no_lock : s.reentrancy ≡ none

  pub init-IsEscrow :
      (admin op token receipt : ℕ) (s : State T)
      → IsFresh s
      → IsEscrow (commit s (init admin op token receipt s))
  unfolding init get_deal_state get_deal_balance Held
  init-IsEscrow admin op token receipt s f = rw f.no_admin (record {
    upgrade = record {
      has_admin = refl;
      schema = refl;
      version = refl;
      none_pending = f.no_upgrade;
    };
    accounts = λ id. record {
      total = rw (f.no_state id, f.no_balance) refl;
      payout = rw (f.no_state id) refl;
      nonneg = rw (f.no_state id) (omega arith);
      covered = rw (f.no_state id, f.no_balance) (omega arith);
      held = rw (f.no_state id, f.no_release id) refl;
    };
    keys = rw f.no_balance tt;
    open_lock = rw f.no_lock refl;
  })

module _ {T : Type 0} (transfer : Transfer T) where
  -- One call, whatever it is and whoever makes it.
  pub step-IsStep :
      (env : Env) (c : Call) (s : State T) → IsEscrow s → IsStep s (step transfer env c s)
  unfolding step activate_deal complete_deal default_deal
  step-IsStep env c s i =
      by_cases transfer env s i.upgrade {P = λ k. IsStep s (step transfer env k s)}
        (record {
          on_settings = λ k same. SameFunds-IsStep s (step transfer env k s) same i;
          on_deposit = deposit-IsStep transfer env s i;
          on_release = release-IsStep transfer env s i;
          on_request = request-IsStep transfer env s i;
          on_challenge = challenge-IsStep transfer env s i;
          on_resolve = resolve-IsStep transfer env s i;
          on_settle = settles-IsStep transfer env s i;
          on_time_out = times_out-IsStep transfer env s i;
          on_activate = move_deal-IsStep transfer env s i draft active;
          on_complete = move_deal-IsStep transfer env s i active completed;
          on_default = move_deal-IsStep transfer env s i active defaulted;
        })
        c

  -- From an escrow whose accounts agree, any sequence of calls by anybody at any times leads to one
  -- whose accounts agree: the stored total of a deal is its balance, its pending payout is its
  -- locked amount, which is not negative and at most the balance, and is 0 or the amount of the
  -- pending release, which is positive; no deal has two balances; the admin, the schema 3 and the
  -- version 1 stand; no upgrade is pending; and the reentrancy lock is open.
  pub run-IsEscrow :
      (cs : List (Env × Call)) (s : State T) → IsEscrow s → IsEscrow (run transfer cs s)
  unfolding run
  run-IsEscrow [] s i = i
  run-IsEscrow ((env, c) ∷ cs) s i =
      run-IsEscrow cs (step transfer env c s) (IsStep-IsEscrow s _ (step-IsStep env c s i) i)

  SameUpgrade-trans : (u v w : Upgrade.Store) → SameUpgrade u v → SameUpgrade v w → SameUpgrade u w
  SameUpgrade-trans u v w p q = ground arith

  -- From an escrow whose accounts agree, any sequence of calls leaves the admin, the schema, the
  -- version, the code and the absence of a pending upgrade as they were.
  pub run-SameUpgrade :
      (cs : List (Env × Call)) (s : State T)
      → IsEscrow s
      → SameUpgrade s.upgrade (run transfer cs s).upgrade
  unfolding run
  run-SameUpgrade [] s i = record {
    same_admin = refl;
    same_schema = refl;
    same_version = refl;
    same_pending = refl;
    same_wasm = refl;
  }
  run-SameUpgrade ((env, c) ∷ cs) s i =
      let one = step-IsStep env c s i in
      SameUpgrade-trans _ _ _ one.same_upgrade
        (run-SameUpgrade cs (step transfer env c s) (IsStep-IsEscrow s _ one i))
