-- ===== src/Governance/Calls.antt =====
-- governance/src/lib.rs: the entry points. A call returns the new state, and its result where it has
-- one; events and the time to live of the entries are left out.
use shelterflex_contracts.Prelude.{
  ℕ, ◌+◌, Bool, true, false, not, some, ltb, leb, ◌==◌, if◌then◌else◌, ◌+ℤ◌, ◌*ℤ◌, ◌/ℤ◌, ltb_ℤ, ℤ,
  pos, unwrap_or, is_some, update,
}
use shelterflex_contracts.Host.{
  ◌>>=◌, ◌>>◌, fail_if, ok_or, require_auth, checked_i128, checked_u64, Outcome, Env, ok,
}
use shelterflex_contracts.Governance.Types.{
  voting_period_secs, timelock_secs, quorum_bps, min_stake_to_propose, Pool, get_total_staked,
  get_stake_for, require_admin, register_known_voter, snapshot_known_voter_stakes_for_proposal,
  get_snapshot_stake_for, Error, ProposalStatus, Proposal, State, already_initialized,
  not_authorized, proposal_not_found, proposal_not_active, voting_not_ended, timelock_not_elapsed,
  already_voted, insufficient_stake, proposal_not_passed, proposal_already_executed, active, passed,
  rejected, executed, cancelled,
}

unfoldable pub init : ℕ → ℤ → State → Outcome Error State
init admin total_staked s = do
  fail_if (is_some s.admin) already_initialized
  ok (record s { admin = some admin; total_staked = some total_staked; proposal_count = some 0 })

unfoldable pub set_total_staked : Env → ℕ → ℤ → State → Outcome Error State
unfolding require_admin
set_total_staked env admin total s = do
  require_admin env admin s
  ok (record s { total_staked = some total })

unfoldable pub set_staking_pool : Env → ℕ → ℕ → State → Outcome Error State
unfolding require_admin
set_staking_pool env admin staking_pool s = do
  require_admin env admin s
  ok (record s { staking_pool = some staking_pool })

unfoldable pub set_voter_stake : Env → ℕ → ℕ → ℤ → State → Outcome Error State
unfolding require_admin register_known_voter
set_voter_stake env admin voter stake s = do
  require_admin env admin s
  let t = record s { stake_balance = update voter (some stake) s.stake_balance }
  ok (register_known_voter voter t)

unfoldable pub create_proposal : Pool → Env → ℕ → ℕ → ℤ → ℤ → State → Outcome Error (State × ℕ)
unfolding get_total_staked
create_proposal pool env proposer param_key current_value proposed_value s = do
  require_auth env proposer
  stake ← get_stake_for pool s proposer
  fail_if (ltb_ℤ stake min_stake_to_propose) insufficient_stake
  id ← checked_u64 (unwrap_or s.proposal_count 0 + 1)
  t ← snapshot_known_voter_stakes_for_proposal pool id (register_known_voter proposer s)
  voting_ends_at ← checked_u64 (env.timestamp + voting_period_secs)
  let proposal = some (record {
    id = id;
    proposer = proposer;
    param_key = param_key;
    current_value = current_value;
    proposed_value = proposed_value;
    votes_for = pos 0;
    votes_against = pos 0;
    status = active;
    created_at = env.timestamp;
    voting_ends_at = voting_ends_at;
    snapshotted_total_staked = get_total_staked s;
  })
  ok (record t { proposals = update id proposal t.proposals; proposal_count = some id }, id)

abbrev pub is_active : ProposalStatus → Bool
is_active active = true
is_active _ = false

abbrev pub is_passed : ProposalStatus → Bool
is_passed passed = true
is_passed _ = false

abbrev pub is_executed : ProposalStatus → Bool
is_executed executed = true
is_executed _ = false

abbrev add_vote : Bool → ℤ → Proposal → Outcome Error Proposal
add_vote true weight p =
    checked_i128 (p.votes_for +ℤ weight) >>= λ v. ok (record p { votes_for = v })
add_vote false weight p =
    checked_i128 (p.votes_against +ℤ weight) >>= λ v. ok (record p { votes_against = v })

-- Past the end of the voting period the error is `VotingNotEnded` too.
unfoldable pub vote : Env → ℕ → ℕ → Bool → State → Outcome Error State
unfolding get_snapshot_stake_for
vote env voter proposal_id support s = do
  require_auth env voter
  proposal ← ok_or (s.proposals proposal_id) proposal_not_found
  fail_if (not (is_active proposal.status)) proposal_not_active
  fail_if (ltb proposal.voting_ends_at env.timestamp) voting_not_ended
  fail_if (is_some (s.voted proposal_id voter)) already_voted
  counted ← add_vote support (get_snapshot_stake_for s proposal_id voter) proposal
  ok (record s {
    proposals = update proposal_id (some counted) s.proposals;
    voted = update proposal_id (update voter (some true) (s.voted proposal_id)) s.voted;
  })

-- The status that the counts decide.
unfoldable pub decide : ℤ → ℤ → ℤ → ℤ → ProposalStatus
decide total_votes quorum_required votes_for votes_against =
    if ltb_ℤ total_votes quorum_required
    then rejected
    else if ltb_ℤ votes_against votes_for
    then passed
    else rejected

unfoldable pub finalize_proposal : Env → ℕ → State → Outcome Error (State × ProposalStatus)
finalize_proposal env proposal_id s = do
  proposal ← ok_or (s.proposals proposal_id) proposal_not_found
  fail_if (not (is_active proposal.status)) proposal_not_active
  fail_if (leb env.timestamp proposal.voting_ends_at) voting_not_ended
  total_votes ← checked_i128 (proposal.votes_for +ℤ proposal.votes_against)
  scaled ← checked_i128 (proposal.snapshotted_total_staked *ℤ quorum_bps)
  let status = decide total_votes (scaled /ℤ 10000) proposal.votes_for proposal.votes_against
  let finalized = some (record proposal { status = status })
  ok (record s { proposals = update proposal_id finalized s.proposals }, status)

unfoldable pub execute_proposal : Env → ℕ → State → Outcome Error State
execute_proposal env proposal_id s = do
  proposal ← ok_or (s.proposals proposal_id) proposal_not_found
  fail_if (is_executed proposal.status) proposal_already_executed
  fail_if (not (is_passed proposal.status)) proposal_not_passed
  execute_after ← checked_u64 (proposal.voting_ends_at + timelock_secs)
  fail_if (ltb env.timestamp execute_after) timelock_not_elapsed
  let done = some (record proposal { status = executed })
  ok (record s { proposals = update proposal_id done s.proposals })

unfoldable pub cancel_proposal : Env → ℕ → ℕ → State → Outcome Error State
cancel_proposal env proposer proposal_id s = do
  require_auth env proposer
  proposal ← ok_or (s.proposals proposal_id) proposal_not_found
  fail_if (not (is_active proposal.status)) proposal_not_active
  fail_if (not (proposal.proposer == proposer)) not_authorized
  let withdrawn = some (record proposal { status = cancelled })
  ok (record s { proposals = update proposal_id withdrawn s.proposals })
