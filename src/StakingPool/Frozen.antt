-- ===== src/StakingPool/Frozen.antt =====
-- staking_pool/src/lib.rs: the pool after `set_operator` has stored a `None`.
use shelterflex_contracts.Prelude.{ℕ, ◌≡◌, Option, none, some, List, [], ◌∷◌, arith, ℤ}
use shelterflex_contracts.Host.{commit, Env, ok, trap}
use shelterflex_contracts.StakingPool.Types.{get_operator, State, External}
use shelterflex_contracts.StakingPool.Staking.{set_operator, stake, unstake}
use shelterflex_contracts.StakingPool.Calls.{init, set_admin, set_lock_period, pause, unpause}
use shelterflex_contracts.StakingPool.Upgrades.{
  set_guardian, set_upgrade_delay, propose_upgrade, execute_upgrade, emergency_upgrade,
  cancel_upgrade,
}
use shelterflex_contracts.StakingPool.Machine.{
  step, run, Call, inits, stakes, unstakes, sets_operator, sets_admin, sets_lock_period, pauses,
  unpauses, cancels, sets_guardian, sets_delay, executes, proposes, emergency,
}

module _ {T : Type 0} where
  -- What stays for good: the stored operator and everything that a staker owns.
  pub record IsFrozen (s t : State T) : Type 0 where
    pub still_void : t.operator ≡ some none
    pub same_balance : t.staked_balance ≡ s.staked_balance
    pub same_deposits : t.deposits ≡ s.deposits
    pub same_tokens : t.tokens ≡ s.tokens

  module _ (x : External T) (traps : x.read_void ≡ trap) where
    reads_void : (s : State T) → s.operator ≡ some none → get_operator x s ≡ trap
    unfolding get_operator
    reads_void s e = rw (e, traps)

    stake_fails :
        (env : Env) (u : ℕ) (a : ℤ) (s : State T)
        → s.operator ≡ some none
        → commit s (stake x env u a s) ≡ s
    unfolding stake
    stake_fails env u a s e = ground (arith, reads_void s e)

    unstake_fails :
        (env : Env) (u : ℕ) (a : ℤ) (s : State T)
        → s.operator ≡ some none
        → commit s (unstake x env u a s) ≡ s
    unfolding unstake
    unstake_fails env u a s e = ground (arith, reads_void s e)

    set_operator_fails :
        (env : Env) (admin : ℕ) (op : Option ℕ) (s : State T)
        → s.operator ≡ some none
        → commit s (set_operator x env admin op s) ≡ s
    unfolding set_operator
    set_operator_fails env admin op s e = ground (arith, reads_void s e)

    step-IsFrozen :
        (env : Env) (c : Call) (s : State T) → s.operator ≡ some none → IsFrozen s (step x env c s)
    unfolding step init set_admin set_lock_period pause unpause cancel_upgrade set_guardian
        set_upgrade_delay execute_upgrade propose_upgrade emergency_upgrade
    step-IsFrozen env (inits admin token) s e = ground arith
    step-IsFrozen env (stakes from amount) s e = ground (arith, stake_fails env from amount s e)
    step-IsFrozen env (unstakes to amount) s e = ground (arith, unstake_fails env to amount s e)
    step-IsFrozen env (sets_operator admin op) s e =
        ground (arith, set_operator_fails env admin op s e)
    step-IsFrozen env (sets_admin admin a) s e = ground arith
    step-IsFrozen env (sets_lock_period admin n) s e = ground arith
    step-IsFrozen env (pauses admin) s e = ground arith
    step-IsFrozen env (unpauses admin) s e = ground arith
    step-IsFrozen env (cancels admin) s e = ground arith
    step-IsFrozen env (sets_guardian admin g) s e = ground arith
    step-IsFrozen env (sets_delay admin n) s e = ground arith
    step-IsFrozen env (executes admin hash) s e = ground arith
    step-IsFrozen env (proposes admin hash n) s e = ground arith
    step-IsFrozen env (emergency admin hash n) s e = ground arith

    IsFrozen-trans : (s t u : State T) → IsFrozen s t → IsFrozen t u → IsFrozen s u
    IsFrozen-trans s t u p q = ground arith

    IsFrozen-refl : (s : State T) → s.operator ≡ some none → IsFrozen s s
    IsFrozen-refl s e = ground arith

    run-IsFrozen :
        (cs : List (Env × Call)) (s : State T) → s.operator ≡ some none → IsFrozen s (run x cs s)
    unfolding run
    run-IsFrozen [] s e = IsFrozen-refl s e
    run-IsFrozen ((env, c) ∷ cs) s e =
        let one = step-IsFrozen env c s e in
        IsFrozen-trans s (step x env c s) (run x cs (step x env c s)) one
          (run-IsFrozen cs (step x env c s) one.still_void)

    cleared :
        (env : Env) (admin : ℕ) (s t : State T)
        → set_operator x env admin none s ≡ ok t
        → IsFrozen s t
    unfolding set_operator
    cleared env admin s t h = ground arith

    -- If the SDK traps where it reads an address and finds a stored `None`, then once the admin has
    -- cleared the operator no sequence of calls changes the stored operator, a balance, a deposit
    -- or the token contracts' state any more.
    pub set_operator-IsFrozen :
        (env : Env) (admin : ℕ) (s t : State T)
        → set_operator x env admin none s ≡ ok t
        → (cs : List (Env × Call)) → IsFrozen s (run x cs t)
    set_operator-IsFrozen env admin s t h cs =
        IsFrozen-trans s t (run x cs t) (cleared env admin s t h)
          (run-IsFrozen cs t (cleared env admin s t h).still_void)
