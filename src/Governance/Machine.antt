-- ===== src/Governance/Machine.antt =====
-- governance/src/lib.rs: the contract as a state machine. A call comes with its environment and
-- with what the staking pool answers; one that fails leaves the state as it was.
use shelterflex_contracts.Prelude.{ℕ, ◌+◌, ◌≡◌, ◌≢◌, Bool, List, [], ◌∷◌, arith, ℤ, unwrap_or}
use shelterflex_contracts.Host.{commit, state_of, Env}
use shelterflex_contracts.Governance.Types.{
  Pool, register_known_voter, snapshot_known_voter_stakes_for_proposal, State,
}
use shelterflex_contracts.Governance.Calls.{
  init, set_total_staked, set_staking_pool, set_voter_stake, create_proposal, vote,
  finalize_proposal, execute_proposal, cancel_proposal,
}

pub data Call : Type 0 where
  inits sets_total : ℕ → ℤ → Call
  sets_pool : ℕ → ℕ → Call
  sets_stake : ℕ → ℕ → ℤ → Call
  creates : ℕ → ℕ → ℤ → ℤ → Call
  votes : ℕ → ℕ → Bool → Call
  finalizes executes : ℕ → Call
  cancels : ℕ → ℕ → Call

unfoldable pub step : Pool → Env → Call → State → State
step pool env (inits admin total) s = commit s (init admin total s)
step pool env (sets_total admin total) s = commit s (set_total_staked env admin total s)
step pool env (sets_pool admin address) s = commit s (set_staking_pool env admin address s)
step pool env (sets_stake admin voter stake) s = commit s (set_voter_stake env admin voter stake s)
step pool env (creates proposer key now then) s =
    commit s (state_of (create_proposal pool env proposer key now then s))
step pool env (votes voter id support) s = commit s (vote env voter id support s)
step pool env (finalizes id) s = commit s (state_of (finalize_proposal env id s))
step pool env (executes id) s = commit s (execute_proposal env id s)
step pool env (cancels proposer id) s = commit s (cancel_proposal env proposer id s)

-- A call as it is made: what the pool answers, the environment, and the call.
abbrev pub Event : Type 0
Event = Pool × Env × Call

unfoldable pub run : List Event → State → State
run [] s = s
run ((pool, env, c) ∷ cs) s = run cs (step pool env c s)

-- The parts of the state that one proposal rests on.
pub record SameBallot (id : ℕ) (s t : State) : Type 0 where
  pub same_proposal : t.proposals id ≡ s.proposals id
  pub same_voted : t.voted id ≡ s.voted id
  pub same_snapshot : t.voter_snapshot id ≡ s.voter_snapshot id

-- A new proposal takes the next number and touches no other; the snapshot loop writes only under
-- that number.
pub create-SameBallot :
    (pool : Pool) (env : Env) (proposer key : ℕ) (now then : ℤ) (s : State) (id : ℕ)
    → id ≢ unwrap_or s.proposal_count 0 + 1
    → SameBallot id s (commit s (state_of (create_proposal pool env proposer key now then s)))
unfolding create_proposal snapshot_known_voter_stakes_for_proposal register_known_voter
create-SameBallot pool env proposer key now then s id ne = ground arith
