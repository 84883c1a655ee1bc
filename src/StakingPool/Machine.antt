-- ===== src/StakingPool/Machine.antt =====
-- staking_pool/src/lib.rs: the contract as a state machine. A call comes with its environment; one
-- that ends with an error or a trap leaves the state as it was.
use shelterflex_contracts.Prelude.{
  ℕ, ◌≤◌, ◌≡◌, refl, true, Option, some, List, [], ◌∷◌, arith, ℤ, unwrap_or, is_some,
}
use shelterflex_contracts.Host.{map_err, commit, Outcome, Env, ok, err, trap}
use shelterflex_contracts.Upgrade
use shelterflex_contracts.Upgrade.Laws.{
  set_guardian-KeepsAdmin, set_upgrade_delay-KeepsAdmin, execute_upgrade-KeepsAdmin,
  propose_upgrade-KeepsAdmin, emergency_upgrade-KeepsAdmin, KeepsAdmin,
}
use shelterflex_contracts.StakingPool.Types.{
  get_staked_balance, get_total_staked, get_lock_period, get_deposit_count, Error, State, External,
}
use shelterflex_contracts.StakingPool.Calls.{init, set_admin, set_lock_period, pause, unpause}
use shelterflex_contracts.StakingPool.Upgrades.{
  state_schema_version, with_upgrade, set_guardian, set_upgrade_delay, propose_upgrade,
  execute_upgrade, emergency_upgrade, cancel_upgrade,
}
use shelterflex_contracts.StakingPool.Staking.{set_operator, stake, unstake}
use shelterflex_contracts.StakingPool.Invariant.{Staked-IsValid, IsValid}
use shelterflex_contracts.StakingPool.Effects.{stake_ok, unstake_ok}
use shelterflex_contracts.StakingPool.Invariant.Withdrawal.{Unstaked-IsValid}

pub data Call : Type 0 where
  inits : ℕ → ℕ → Call
  stakes unstakes : ℕ → ℤ → Call
  sets_operator : ℕ → Option ℕ → Call
  sets_admin sets_lock_period : ℕ → ℕ → Call
  pauses unpauses cancels : ℕ → Call
  sets_guardian sets_delay executes : ℕ → ℕ → Call
  proposes emergency : ℕ → ℕ → ℕ → Call

module _ {T : Type 0} (x : External T) where
  unfoldable pub step : Env → Call → State T → State T
  step env (inits admin token) s = commit s (init admin token s)
  step env (stakes from amount) s = commit s (stake x env from amount s)
  step env (unstakes to amount) s = commit s (unstake x env to amount s)
  step env (sets_operator admin op) s = commit s (set_operator x env admin op s)
  step env (sets_admin admin a) s = commit s (set_admin env admin a s)
  step env (sets_lock_period admin n) s = commit s (set_lock_period env admin n s)
  step env (pauses admin) s = commit s (pause env admin s)
  step env (unpauses admin) s = commit s (unpause env admin s)
  step env (cancels admin) s = commit s (cancel_upgrade env admin s)
  step env (sets_guardian admin g) s = commit s (set_guardian env admin g s)
  step env (sets_delay admin n) s = commit s (set_upgrade_delay env admin n s)
  step env (executes admin hash) s = commit s (execute_upgrade env admin hash s)
  step env (proposes admin hash n) s = commit s (propose_upgrade env admin hash n s)
  step env (emergency admin hash n) s = commit s (emergency_upgrade env admin hash n s)

  unfoldable pub run : List (Env × Call) → State T → State T
  run [] s = s
  run ((env, c) ∷ cs) s = run cs (step env c s)

-- The accounts of a state, which the calls of the admin leave alone.
record SameAccounts {T : Type 0} (s t : State T) : Type 0 where
  admin_stays : is_some s.upgrade.admin ≡ true → is_some t.upgrade.admin ≡ true
  same_balance : t.staked_balance ≡ s.staked_balance
  same_total : t.total_staked ≡ s.total_staked
  same_count : t.deposit_count ≡ s.deposit_count
  same_deposits : t.deposits ≡ s.deposits
  same_flag : t.reentrancy ≡ s.reentrancy
  lock_ok : unwrap_or s.lock_period 0 ≤ 31536000 → unwrap_or t.lock_period 0 ≤ 31536000

module _ {T : Type 0} where
  SameAccounts-IsValid : (s t : State T) → SameAccounts s t → IsValid s → IsValid t
  unfolding get_total_staked get_staked_balance get_deposit_count get_lock_period
  SameAccounts-IsValid s t a v = record {
    has_admin = a.admin_stays v.has_admin;
    keys = rw a.same_balance v.keys;
    total = rw (a.same_balance, a.same_total) v.total;
    backed = λ u. rw (a.same_balance, a.same_count, a.same_deposits) (v.backed u);
    nonneg = rw a.same_deposits v.nonneg;
    lock_bounded = a.lock_ok v.lock_bounded;
    open_lock = rw a.same_flag v.open_lock;
  }

  -- The calls that govern upgrades write only the upgrade keys.
  with_upgrade-SameAccounts :
      (s : State T) (f : Upgrade.Error → Error) (r : Outcome Upgrade.Error Upgrade.Store)
      → KeepsAdmin s.upgrade r
      → SameAccounts s (commit s (with_upgrade s (map_err f r)))
  with_upgrade-SameAccounts s f (ok u) k = ground arith
  with_upgrade-SameAccounts s f (err e) k = ground arith
  with_upgrade-SameAccounts s f trap k = ground arith

  propose-SameAccounts :
      (env : Env) (admin hash n : ℕ) (s : State T)
      → SameAccounts s (commit s (propose_upgrade env admin hash n s))
  unfolding propose_upgrade
  propose-SameAccounts env admin hash n s =
      ground (
        arith,
        propose_upgrade-KeepsAdmin env admin hash s.upgrade n (some (state_schema_version s)),
      )

  emergency-SameAccounts :
      (env : Env) (admin hash n : ℕ) (s : State T)
      → SameAccounts s (commit s (emergency_upgrade env admin hash n s))
  unfolding emergency_upgrade
  emergency-SameAccounts env admin hash n s = ground (
    arith,
    emergency_upgrade-KeepsAdmin env admin hash s.upgrade n (some (state_schema_version s)) true,
  )

  returned :
      (s : State T) (r : Outcome Error (State T))
      → IsValid s
      → ((t : State T) → r ≡ ok t → IsValid t)
      → IsValid (commit s r)
  returned s (ok t) v k = k t refl
  returned s (err e) v k = v
  returned s trap v k = v

  -- One call, whatever it is and whoever makes it, keeps the accounts in agreement.
  pub step-IsValid :
      (x : External T) (env : Env) (c : Call) (s : State T) → IsValid s → IsValid (step x env c s)
  unfolding step init set_operator set_admin set_lock_period pause unpause cancel_upgrade
      set_guardian set_upgrade_delay execute_upgrade propose_upgrade emergency_upgrade
  step-IsValid x env (inits admin token) s v =
      SameAccounts-IsValid s _ (ground (arith, v.has_admin)) v
  step-IsValid x env (stakes from amount) s v =
      returned s (stake x env from amount s) v
        λ t h. Staked-IsValid x env from amount s t (stake_ok x env from amount s t h).1 v
  step-IsValid x env (unstakes to amount) s v =
      returned s (unstake x env to amount s) v
        λ t h. Unstaked-IsValid x env to amount s t (unstake_ok x env to amount s t h).1 v
  step-IsValid x env (sets_operator admin op) s v = SameAccounts-IsValid s _ (ground arith) v
  step-IsValid x env (sets_admin admin a) s v = SameAccounts-IsValid s _ (ground arith) v
  step-IsValid x env (sets_lock_period admin n) s v = SameAccounts-IsValid s _ (ground arith) v
  step-IsValid x env (pauses admin) s v = SameAccounts-IsValid s _ (ground arith) v
  step-IsValid x env (unpauses admin) s v = SameAccounts-IsValid s _ (ground arith) v
  step-IsValid x env (cancels admin) s v = SameAccounts-IsValid s _ (ground arith) v
  step-IsValid x env (sets_guardian admin g) s v =
      SameAccounts-IsValid s _
        (with_upgrade-SameAccounts s _ _ (set_guardian-KeepsAdmin env admin g s.upgrade (some g))) v
  step-IsValid x env (sets_delay admin n) s v =
      SameAccounts-IsValid s _
        (with_upgrade-SameAccounts s _ _ (set_upgrade_delay-KeepsAdmin env admin n s.upgrade)) v
  step-IsValid x env (executes admin hash) s v =
      SameAccounts-IsValid s _
        (with_upgrade-SameAccounts s _ _ (execute_upgrade-KeepsAdmin env admin hash s.upgrade)) v
  step-IsValid x env (proposes admin hash n) s v =
      SameAccounts-IsValid s _ (propose-SameAccounts env admin hash n s) v
  step-IsValid x env (emergency admin hash n) s v =
      SameAccounts-IsValid s _ (emergency-SameAccounts env admin hash n s) v

  -- From a state whose accounts agree, any sequence of calls of the pool by anybody at any times
  -- leads to a state whose accounts agree: the total staked is the sum of the balances, no user has
  -- two balances, each balance is the sum of the user's deposits, no deposit is negative, the lock
  -- period is at most a year, an admin is set and the reentrancy lock is open.
  pub run-IsValid :
      (x : External T) (cs : List (Env × Call)) (s : State T) → IsValid s → IsValid (run x cs s)
  unfolding run
  run-IsValid x [] s v = v
  run-IsValid x ((env, c) ∷ cs) s v = run-IsValid x cs (step x env c s) (step-IsValid x env c s v)
