-- ===== src/MvpStakingPool/Machine.antt =====
-- mvp_staking_pool/src/lib.rs: the contract as a state machine. The readers that write nothing but
-- the time to live of the entries are no calls here; `claimable` is one, since it accrues.
use shelterflex_contracts.Prelude.{ℕ, List, [], ◌∷◌, ℤ}
use shelterflex_contracts.Host.{commit, state_of, Env}
use shelterflex_contracts.Token.{Transfer}
use shelterflex_contracts.MvpStakingPool.Types.{State}
use shelterflex_contracts.MvpStakingPool.Calls.{
  init, utilize_stake, claimable, pause, unpause, stake, unstake, fund_rewards, claim,
}
use shelterflex_contracts.MvpStakingPool.Upgrades.{
  set_guardian, set_upgrade_delay, propose_upgrade, execute_upgrade, emergency_upgrade,
  cancel_upgrade,
}

pub data Call : Type 0 where
  inits sets_guardian sets_delay proposes executes emergency : ℕ → ℕ → Call
  stakes unstakes funds : ℕ → ℤ → Call
  utilizes : ℕ → ℕ → ℤ → Call
  reads claims pauses unpauses cancels : ℕ → Call

module _ {T : Type 0} (transfer : Transfer T) where
  unfoldable pub step : Env → Call → State T → State T
  step env (inits a token) s = commit s (init a token s)
  step env (stakes user amount) s = commit s (stake transfer env user amount s)
  step env (unstakes user amount) s = commit s (unstake transfer env user amount s)
  step env (utilizes a user amount) s = commit s (utilize_stake env a user amount s)
  step env (funds from amount) s = commit s (fund_rewards transfer env from amount s)
  step env (reads user) s = commit s (state_of (claimable user s))
  step env (claims to) s = commit s (state_of (claim transfer env to s))
  step env (pauses a) s = commit s (pause env a s)
  step env (unpauses a) s = commit s (unpause env a s)
  step env (sets_guardian a g) s = commit s (set_guardian env a g s)
  step env (sets_delay a n) s = commit s (set_upgrade_delay env a n s)
  step env (proposes a h) s = commit s (propose_upgrade env a h s)
  step env (executes a h) s = commit s (execute_upgrade env a h s)
  step env (emergency a h) s = commit s (emergency_upgrade env a h s)
  step env (cancels a) s = commit s (cancel_upgrade env a s)

  unfoldable pub run : List (Env × Call) → State T → State T
  run [] s = s
  run ((env, c) ∷ cs) s = run cs (step env c s)
