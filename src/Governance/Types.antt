-- ===== src/Governance/Types.antt =====
-- governance/src/lib.rs: the constants, the state with a field for each storage key, the readers of
-- the keys, and the registration and snapshot of voters.
use shelterflex_contracts.Prelude.{
  ℕ, Bool, Option, none, some, List, [], ◌∷◌, ◌++◌, if◌then◌else◌, ℤ, pos, unwrap_or, contains,
  update,
}
use shelterflex_contracts.Host.{◌>>=◌, unwrap, Outcome, Env, ok}
use shelterflex_contracts.AccessControl.{require_admin_permission}

-- 7 days and 48 hours, in seconds.
abbrev pub voting_period_secs : ℕ
voting_period_secs = 604800

abbrev pub timelock_secs : ℕ
timelock_secs = 172800

abbrev pub quorum_bps : ℤ
quorum_bps = pos 1000

abbrev pub min_stake_to_propose : ℤ
min_stake_to_propose = pos 1

pub data Error : Type 0 where
  already_initialized not_authorized proposal_not_found proposal_not_active : Error
  voting_not_ended timelock_not_elapsed already_voted insufficient_stake : Error
  proposal_not_passed proposal_already_executed quorum_not_reached : Error

pub data ProposalStatus : Type 0 where
  active passed rejected executed cancelled : ProposalStatus

pub record Proposal : Type 0 where
  pub id : ℕ
  pub proposer : ℕ
  pub param_key : ℕ
  pub current_value : ℤ
  pub proposed_value : ℤ
  pub votes_for : ℤ
  pub votes_against : ℤ
  pub status : ProposalStatus
  pub created_at : ℕ
  pub voting_ends_at : ℕ
  pub snapshotted_total_staked : ℤ

pub record State : Type 0 where
  pub admin : Option ℕ
  pub staking_pool : Option ℕ
  pub total_staked : Option ℤ
  pub proposal_count : Option ℕ
  pub proposals : ℕ → Option Proposal
  pub voted : ℕ → ℕ → Option Bool
  pub stake_balance : ℕ → Option ℤ
  pub known_voters : Option (List ℕ)
  pub voter_snapshot : ℕ → ℕ → Option ℤ

-- The call `staked_balance(voter)` of the contract at an address; `none` is a trap.
abbrev pub Pool : Type 0
Pool = ℕ → ℕ → Option ℤ

unfoldable pub get_total_staked : State → ℤ
get_total_staked s = unwrap_or s.total_staked (pos 0)

unfoldable pub get_stake_for : Pool → State → ℕ → Outcome Error ℤ
get_stake_for pool s voter = elim s.staking_pool [
  | none ↦ ok (unwrap_or (s.stake_balance voter) (pos 0))
  | some address ↦ unwrap (pool address voter)
]

unfoldable pub require_admin : Env → ℕ → State → Outcome Error (Unit {0})
unfolding require_admin_permission
require_admin env caller s = do
  admin ← unwrap s.admin
  require_admin_permission env admin caller not_authorized

unfoldable pub register_known_voter : ℕ → State → State
register_known_voter voter s =
    let known = unwrap_or s.known_voters [] in
    if contains known voter then s else record s { known_voters = some (known ++ voter ∷ []) }

-- The loop writes the stake of each known voter under the proposal's id.
unfoldable pub snapshot_voters :
    Pool → State → List ℕ → (ℕ → Option ℤ) → Outcome Error (ℕ → Option ℤ)
snapshot_voters pool s [] taken = ok taken
snapshot_voters pool s (voter ∷ voters) taken = get_stake_for pool s voter >>= λ stake.
    snapshot_voters pool s voters (update voter (some stake) taken)

unfoldable pub snapshot_known_voter_stakes_for_proposal : Pool → ℕ → State → Outcome Error State
unfolding snapshot_voters
snapshot_known_voter_stakes_for_proposal pool proposal_id s = do
  taken ← snapshot_voters pool s (unwrap_or s.known_voters []) (s.voter_snapshot proposal_id)
  ok (record s { voter_snapshot = update proposal_id taken s.voter_snapshot })

unfoldable pub get_snapshot_stake_for : State → ℕ → ℕ → ℤ
get_snapshot_stake_for s proposal_id voter = unwrap_or (s.voter_snapshot proposal_id voter) (pos 0)
