-- ===== src/MvpStakingPool/Runs.antt =====
-- mvp_staking_pool/src/lib.rs: the pool stays solvent over any sequence of calls.
use shelterflex_contracts.Prelude.{
  ℕ, ◌≡◌, refl, sym, ap, subst, true, false, List, [], ◌∷◌, arith, ℤ, is_some,
}
use shelterflex_contracts.Host.{
  commit, state_of, >>=-elim, ok-injective, state_of_ok, Outcome, Env, ok, err, trap,
}
use shelterflex_contracts.Upgrade
use shelterflex_contracts.MvpStakingPool.Types.{
  get_total_staked, get_global_reward_index, get_staked_balance, get_used_stake,
  get_user_reward_index, get_claimable_reward, accrue_user_rewards, Error, State,
}
use shelterflex_contracts.MvpStakingPool.Calls.{init, claimable, pause, unpause}
use shelterflex_contracts.MvpStakingPool.Upgrades.{
  set_guardian, set_upgrade_delay, propose_upgrade, execute_upgrade, emergency_upgrade,
  cancel_upgrade,
}
use shelterflex_contracts.MvpStakingPool.Rewards.{weight}
use shelterflex_contracts.MvpStakingPool.Solvency.{
  accrued-IsSolvent, stake-IsSolvent, unstake-IsSolvent, IsSolvent,
}
use shelterflex_contracts.Token.{Transfer, IsToken}
use shelterflex_contracts.MvpStakingPool.Machine.{
  step, run, Call, inits, sets_guardian, sets_delay, proposes, executes, emergency, stakes,
  unstakes, funds, utilizes, reads, claims, pauses, unpauses, cancels,
}
use shelterflex_contracts.MvpStakingPool.Funding.{
  utilize-IsSolvent, fund-IsSolvent, claim-IsSolvent,
}

module _ {T : Type 0} where
  -- A call that writes the pause flag or the upgrade keys only.
  pub record IsSetting (s t : State T) : Type 0 where
    pub written : t ≡ record s { upgrade = t.upgrade; paused_flag = t.paused_flag }
    pub same_admin : t.upgrade.admin ≡ s.upgrade.admin

  module _ (held : T → ℕ → ℕ → ℤ) (pool : ℕ) where
    setting-IsSolvent :
        (s t : State T) → IsSetting s t → IsSolvent held pool s → IsSolvent held pool t
    unfolding get_staked_balance get_total_staked get_used_stake get_claimable_reward
        get_user_reward_index get_global_reward_index weight
    setting-IsSolvent s t k i =
        let v = i.sound in
        subst (IsSolvent held pool) (sym k.written) (record {
          sound = record {
            has_admin = rw k.same_admin v.has_admin;
            keys = v.keys;
            total = v.total;
            used = v.used;
            within = v.within;
            rewards = v.rewards;
            indices = v.indices;
            behind = v.behind;
            absent = v.absent;
          };
          reserve = i.reserve;
          covers = i.covers;
          backed = i.backed;
        })

    read-IsSolvent :
        (user : ℕ) (s t : State T)
        → state_of (claimable user s) ≡ ok t
        → IsSolvent held pool s
        → IsSolvent held pool t
    unfolding claimable
    read-IsSolvent user s t h i =
        let (amount, e) = state_of_ok (claimable user s) h in
        >>=-elim (accrue_user_rewards user s) (λ a. ok (a, get_claimable_reward a user)) e
          λ a p q.
            subst (IsSolvent held pool) (ap (λ x. x.0) (ok-injective q))
              (accrued-IsSolvent held pool user s a p i)

    committed :
        (s : State T) (r : Outcome Error (State T))
        → IsSolvent held pool s
        → ((t : State T) → r ≡ ok t → IsSolvent held pool s → IsSolvent held pool t)
        → IsSolvent held pool (commit s r)
    committed s (ok t) i k = k t refl i
    committed s (err e) i k = i
    committed s trap i k = i

  module _ (env : Env) (a : ℕ) (s : State T) where
    pub init-IsSetting :
        (token : ℕ) → is_some s.upgrade.admin ≡ true → IsSetting s (commit s (init a token s))
    unfolding init
    init-IsSetting token h = ground arith

    pub pause-IsSetting : IsSetting s (commit s (pause env a s))
    unfolding pause
    pause-IsSetting = ground arith

    pub unpause-IsSetting : IsSetting s (commit s (unpause env a s))
    unfolding unpause
    unpause-IsSetting = ground arith

    pub cancel-IsSetting : IsSetting s (commit s (cancel_upgrade env a s))
    unfolding cancel_upgrade
    cancel-IsSetting = ground arith

    pub guardian-IsSetting : (g : ℕ) → IsSetting s (commit s (set_guardian env a g s))
    unfolding set_guardian Upgrade.set_guardian
    guardian-IsSetting g = ground arith

    pub delay-IsSetting : (n : ℕ) → IsSetting s (commit s (set_upgrade_delay env a n s))
    unfolding set_upgrade_delay Upgrade.set_upgrade_delay
    delay-IsSetting n = ground arith

    pub propose-IsSetting : (h : ℕ) → IsSetting s (commit s (propose_upgrade env a h s))
    unfolding propose_upgrade Upgrade.propose_upgrade
    propose-IsSetting h = ground arith

    pub execute-IsSetting : (h : ℕ) → IsSetting s (commit s (execute_upgrade env a h s))
    unfolding execute_upgrade Upgrade.execute_upgrade
    execute-IsSetting h = ground arith

    pub emergency-IsSetting : (h : ℕ) → IsSetting s (commit s (emergency_upgrade env a h s))
    unfolding emergency_upgrade Upgrade.emergency_upgrade
    emergency-IsSetting h = ground arith

-- The calls are made to the pool at `pool`, which authorises none itself.
abbrev pub AreOutside : ℕ → List (Env × Call) → Type 0
AreOutside pool [] = Unit
AreOutside pool ((env, c) ∷ cs) =
    (env.current ≡ pool) × ((env.authorized pool ≡ false) × AreOutside pool cs)

module _ {T : Type 0} (transfer : Transfer T) (held : T → ℕ → ℕ → ℤ) (law : IsToken transfer held)
    (pool : ℕ) where
  set : (s t : State T) → IsSolvent held pool s → IsSetting s t → IsSolvent held pool t
  set s t i k = setting-IsSolvent held pool s t k i

  pub step-IsSolvent :
      (env : Env) (c : Call) (s : State T)
      → env.current ≡ pool
      → env.authorized pool ≡ false
      → IsSolvent held pool s
      → IsSolvent held pool (step transfer env c s)
  unfolding step
  step-IsSolvent env (stakes user amount) s here out i =
      committed held pool s _ i (stake-IsSolvent held pool transfer law env here out user amount s)
  step-IsSolvent env (unstakes user amount) s here out i =
      committed held pool s _ i
        (unstake-IsSolvent held pool transfer law env here out user amount s)
  step-IsSolvent env (utilizes a user amount) s here out i =
      committed held pool s _ i (utilize-IsSolvent held pool env a user amount s)
  step-IsSolvent env (funds from amount) s here out i =
      committed held pool s _ i (fund-IsSolvent held pool transfer law env here out from amount s)
  step-IsSolvent env (reads user) s here out i =
      committed held pool s _ i (read-IsSolvent held pool user s)
  step-IsSolvent env (claims to) s here out i =
      committed held pool s _ i (claim-IsSolvent held pool transfer law env here out to s)
  step-IsSolvent env (inits a token) s here out i =
      set s _ i (init-IsSetting env a s token i.sound.has_admin)
  step-IsSolvent env (pauses a) s here out i = set s _ i (pause-IsSetting env a s)
  step-IsSolvent env (unpauses a) s here out i = set s _ i (unpause-IsSetting env a s)
  step-IsSolvent env (sets_guardian a g) s here out i = set s _ i (guardian-IsSetting env a s g)
  step-IsSolvent env (sets_delay a n) s here out i = set s _ i (delay-IsSetting env a s n)
  step-IsSolvent env (proposes a h) s here out i = set s _ i (propose-IsSetting env a s h)
  step-IsSolvent env (executes a h) s here out i = set s _ i (execute-IsSetting env a s h)
  step-IsSolvent env (emergency a h) s here out i = set s _ i (emergency-IsSetting env a s h)
  step-IsSolvent env (cancels a) s here out i = set s _ i (cancel-IsSetting env a s)

  -- With a token whose transfers between two addresses move balances, if the accounts of an MVP
  -- pool that signs for nobody agree (the total is the sum of the stakes, what is in use of a stake
  -- is within it, no reward index is past the global one) and the pool holds the total staked and
  -- enough for the rewards that its stakers can claim and have earned, then this stays so over any
  -- sequence of calls.
  pub run-IsSolvent :
      (cs : List (Env × Call)) (s : State T)
      → AreOutside pool cs
      → IsSolvent held pool s
      → IsSolvent held pool (run transfer cs s)
  unfolding run
  run-IsSolvent [] s o i = i
  run-IsSolvent ((env, c) ∷ cs) s o i =
      run-IsSolvent cs (step transfer env c s) o.1.1 (step-IsSolvent env c s o.0 o.1.0 i)
