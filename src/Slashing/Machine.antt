-- ===== src/Slashing/Machine.antt =====
-- slashing_module/src/lib.rs: the contract as a state machine, one transition for each call.
use shelterflex_contracts.Prelude.{ℕ, Bool, List, [], ◌∷◌, ℤ}
use shelterflex_contracts.Host.{commit, state_of, Env}
use shelterflex_contracts.Slashing.Types.{Offence, State}
use shelterflex_contracts.Slashing.Calls.{
  init, configure_tiers, set_submitter, set_staked_balance, set_challenge_window, approve_unjail,
  unjail, set_bond_contract, slash, pause, unpause,
}
use shelterflex_contracts.Slashing.Evidence.{submit_evidence, reveal_evidence, propose_slash}
use shelterflex_contracts.Slashing.Finality.{finalize_slash, cancel_slash}

-- The arguments of each call in the order of the source.
pub data Call : Type 0 where
  inits pauses unpauses unjails : ℕ → Call
  configures : ℕ → ℕ → ℕ → ℕ → ℕ → Call
  sets_submitter : ℕ → ℕ → Bool → Call
  sets_balance : ℕ → ℕ → ℤ → Call
  sets_window approves_unjail sets_bond cancels finalizes : ℕ → ℕ → Call
  slashes : ℕ → ℕ → ℤ → ℕ → ℕ → Call
  submits : ℕ → ℕ → ℕ → Offence → Call
  reveals : ℕ → ℕ → List ℕ → List ℕ → Call
  proposes : ℕ → ℕ → ℕ → Call

module _ (hash : List ℕ → ℕ) where
  unfoldable pub step : Env → Call → State → State
  step env (inits a) s = commit s (init a s)
  step env (pauses a) s = commit s (pause env a s)
  step env (unpauses a) s = commit s (unpause env a s)
  step env (unjails a) s = commit s (unjail env a s)
  step env (configures a double down invalid most) s =
      commit s (configure_tiers env a double down invalid most s)
  step env (sets_submitter a who enabled) s = commit s (set_submitter env a who enabled s)
  step env (sets_balance a actor balance) s = commit s (set_staked_balance env a actor balance s)
  step env (sets_window a n) s = commit s (set_challenge_window env a n s)
  step env (approves_unjail a actor) s = commit s (approve_unjail env a actor s)
  step env (sets_bond a bond) s = commit s (set_bond_contract env a bond s)
  step env (cancels a id) s = commit s (cancel_slash env a id s)
  step env (finalizes a id) s = commit s (finalize_slash env a id s)
  step env (slashes a who amount inspection reason) s =
      commit s (state_of (slash env a who amount inspection reason s))
  step env (submits a commitment actor offence) s =
      commit s (state_of (submit_evidence env a commitment actor offence s))
  step env (reveals a id evidence salt) s = commit s (reveal_evidence hash env a id evidence salt s)
  step env (proposes a actor bps) s = commit s (state_of (propose_slash env a actor bps s))

  unfoldable pub run : List (Env × Call) → State → State
  run [] s = s
  run ((env, c) ∷ cs) s = run cs (step env c s)
