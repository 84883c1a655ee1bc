-- ===== src/Governance/Tests.antt =====
-- governance/src/lib.rs: the properties at concrete calls.
use shelterflex_contracts.Prelude.{
  ℕ, ◌+◌, ◌≤◌, ◌≡◌, refl, ◌≢◌, true, false, none, some, List, [], ◌∷◌, arith, ◌+ℤ◌, ◌*ℤ◌, ◌/ℤ◌, ℤ,
  pos, update,
}
use shelterflex_contracts.Host.{Env, ok, err}
use shelterflex_contracts.AccessControl.{require_admin_permission}
use shelterflex_contracts.Governance.Types.{
  voting_period_secs, timelock_secs, Pool, get_total_staked, get_stake_for, require_admin,
  register_known_voter, snapshot_known_voter_stakes_for_proposal, get_snapshot_stake_for,
  ProposalStatus, Proposal, State, timelock_not_elapsed, proposal_already_executed, active, passed,
  executed,
}
use shelterflex_contracts.Governance.Calls.{
  init, set_voter_stake, create_proposal, vote, decide, finalize_proposal, execute_proposal,
}
use shelterflex_contracts.Governance.Machine.{
  step, Event, run, sets_stake, creates, votes, finalizes,
}
use shelterflex_contracts.Governance.Tally.{Ballots, IsTallied}
use shelterflex_contracts.Governance.Runs.{run-IsTallied, run-HasTerms, run-votes_final, IsFresh}
use shelterflex_contracts.Governance.Lifecycle.{StatusPath, HasTerms}
use shelterflex_contracts.Governance.Decision.{finalize_proposal-verdict, execute_proposal_once}
use shelterflex_contracts.Governance.Ballots.{vote_once}

abbrev at : ℕ → Env
at time = record {
  authorized = λ a. true;
  reauthorized = λ a. false;
  timestamp = time;
  sequence = 1;
  current = 50;
  uploaded = λ hash. true;
}

abbrev no_pool : Pool
no_pool = λ address voter. none

abbrev blank : State
blank = record {
  admin = none;
  staking_pool = none;
  total_staked = none;
  proposal_count = none;
  proposals = λ id. none;
  voted = λ id v. none;
  stake_balance = λ v. none;
  known_voters = none;
  voter_snapshot = λ id v. none;
}

abbrev started : State
started = record blank {
  admin = some 1;
  total_staked = some (pos 10000000000);
  proposal_count = some 0;
}

init_test : init 1 (pos 10000000000) blank ≡ ok started
unfolding init
init_test = refl

blank-IsFresh : IsFresh blank
blank-IsFresh = record { no_proposal = λ id. refl; no_vote = λ id v. refl }

-- Two voters, a proposal of the first, and both votes for it.
abbrev opening : List Event
opening =
    (no_pool, at 10, sets_stake 1 2 (pos 2000000000))
    ∷ (no_pool, at 11, sets_stake 1 3 (pos 500000000))
    ∷ (no_pool, at 20, creates 2 77 (pos 5) (pos 6))
    ∷ (no_pool, at 30, votes 2 1 true)
    ∷ (no_pool, at 31, votes 3 1 false)
    ∷ []

abbrev proposal : ℤ → ℤ → ProposalStatus → Proposal
proposal for_it against status = record {
  id = 1;
  proposer = 2;
  param_key = 77;
  current_value = pos 5;
  proposed_value = pos 6;
  votes_for = for_it;
  votes_against = against;
  status = status;
  created_at = 20;
  voting_ends_at = 20 + voting_period_secs;
  snapshotted_total_staked = pos 10000000000;
}

abbrev voted_on : Proposal
voted_on = proposal (pos 2000000000) (pos 500000000) active

opening_test : (run opening started).proposals 1 ≡ some voted_on
unfolding run step set_voter_stake create_proposal vote register_known_voter require_admin
    snapshot_known_voter_stakes_for_proposal get_stake_for get_snapshot_stake_for get_total_staked
    require_admin_permission ◌+ℤ◌
opening_test = refl

run-IsTallied_example : (bs : Ballots) × IsTallied 1 (run opening started) voted_on bs
run-IsTallied_example =
    run-IsTallied 1 (pos 10000000000) blank started blank-IsFresh init_test opening 1 voted_on
      opening_test

abbrev closing : List Event
closing = (no_pool, at 604821, finalizes 1) ∷ (no_pool, at 604822, votes 3 1 true) ∷ []

run-HasTerms_test :
    (q : Proposal) × ((run closing (run opening started)).proposals 1 ≡ some q)
    × HasTerms voted_on q
    × StatusPath active q.status
run-HasTerms_test =
    run-HasTerms 1 (pos 10000000000) blank started blank-IsFresh init_test opening closing 1
      voted_on opening_test

abbrev settled : Proposal
settled = proposal (pos 2000000000) (pos 500000000) passed

abbrev all_calls : List Event
all_calls =
    (no_pool, at 10, sets_stake 1 2 (pos 2000000000))
    ∷ (no_pool, at 11, sets_stake 1 3 (pos 500000000))
    ∷ (no_pool, at 20, creates 2 77 (pos 5) (pos 6))
    ∷ (no_pool, at 30, votes 2 1 true)
    ∷ (no_pool, at 31, votes 3 1 false)
    ∷ (no_pool, at 604821, finalizes 1)
    ∷ []

all_calls_test : (run all_calls started).proposals 1 ≡ some settled
unfolding run step set_voter_stake create_proposal vote finalize_proposal decide
    register_known_voter require_admin snapshot_known_voter_stakes_for_proposal get_stake_for
    get_snapshot_stake_for get_total_staked require_admin_permission ◌+ℤ◌ ◌*ℤ◌ ◌/ℤ◌
all_calls_test = refl

passed-not-active : passed ≢ active
passed-not-active e = cc

run-votes_final_test :
    (q : Proposal) × ((run closing (run all_calls started)).proposals 1 ≡ some q)
    × (q.votes_for ≡ pos 2000000000)
    × (q.votes_against ≡ pos 500000000)
run-votes_final_test =
    run-votes_final 1 (pos 10000000000) blank started blank-IsFresh init_test all_calls closing 1
      settled all_calls_test passed-not-active

-- A state with one proposal, and the same after a vote and after an execution.
abbrev with_proposal : Proposal → State
with_proposal p = record started { proposals = update 1 (some p) (λ id. none) }

abbrev weighted : State
weighted = record (with_proposal (proposal (pos 0) (pos 0) active)) {
  voter_snapshot = update 1 (update 2 (some (pos 30)) (λ v. none)) (λ id v. none);
}

abbrev after_vote : State
after_vote = record weighted {
  proposals = update 1 (some (proposal (pos 30) (pos 0) active)) weighted.proposals;
  voted = update 1 (update 2 (some true) (λ v. none)) (λ id v. none);
}

vote_test : vote (at 30) 2 1 true weighted ≡ ok after_vote
unfolding vote get_snapshot_stake_for ◌+ℤ◌
vote_test = refl

vote_once_example : vote (at 40) 2 1 false (run closing after_vote) ≢ ok after_vote
vote_once_example =
    vote_once (at 30) (at 40) 2 1 true false weighted after_vote after_vote closing vote_test

finalize_proposal-verdict_example :
    finalize_proposal (at 700000) 1 (with_proposal voted_on)
    ≡ ok (
      record (with_proposal voted_on) {
        proposals = update 1 (some settled) (with_proposal voted_on).proposals;
      },
      passed,
    )
finalize_proposal-verdict_example =
    finalize_proposal-verdict (at 700000) 1 10000000000 2000000000 500000000 voted_on
      (with_proposal voted_on) refl refl (omega arith) refl refl refl (omega arith) (omega arith)

abbrev carried_out : State
carried_out = record (with_proposal settled) {
  proposals =
      update 1 (some (proposal (pos 2000000000) (pos 500000000) executed))
        (with_proposal settled).proposals;
}

execute_test : execute_proposal (at 777620) 1 (with_proposal settled) ≡ ok carried_out
unfolding execute_proposal
execute_test = refl

execute_early_test :
    execute_proposal (at 777619) 1 (with_proposal settled) ≡ err timelock_not_elapsed
unfolding execute_proposal
execute_early_test = refl

execute_proposal_once_example :
    (p : Proposal) × ((with_proposal settled).proposals 1 ≡ some p)
    × (p.status ≡ passed)
    × (p.voting_ends_at + timelock_secs ≤ 777620)
    × (carried_out ≡ record (with_proposal settled) {
      proposals =
          update 1 (some (record p { status = executed })) (with_proposal settled).proposals;
    })
    × (execute_proposal (at 800000) 1 carried_out ≡ err proposal_already_executed)
execute_proposal_once_example =
    execute_proposal_once (at 777620) (at 800000) 1 (with_proposal settled) carried_out execute_test
