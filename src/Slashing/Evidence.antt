-- ===== src/Slashing/Evidence.antt =====
-- slashing_module/src/lib.rs: the commitment to evidence, its disclosure, and the proposal of a slash
-- without evidence. `hash` is SHA-256 of the host.
use shelterflex_contracts.Prelude.{
  ℕ, ◌+◌, true, false, not, none, some, List, ◌++◌, ◌==◌, if◌then◌else◌, leb_ℤ, eqb_ℤ, pos,
  unwrap_or, is_some, update,
}
use shelterflex_contracts.Host.{◌>>=◌, ◌>>◌, fail_if, ok_or, checked_u64, Outcome, Env, ok}
use shelterflex_contracts.Slashing.Types.{
  get_tier_bps, get_max_slash_bps, require_submitter, require_slasher, get_staked_balance,
  is_jailed, get_challenge_window, min_ℕ, is_open, slash_amount, Offence, PendingSlash,
  SlashEvidence, Error, State, is_pending, no_offence, duplicate_evidence, zero_balance,
  already_jailed, unknown_offence, slash_not_found, slash_already_resolved, invalid_amount,
  invalid_reveal,
}

unfoldable pub next_slash_id : State → Outcome Error ℕ
next_slash_id s = checked_u64 (unwrap_or s.next_slash_id 0 + 1)

unfoldable pub submit_evidence : Env → ℕ → ℕ → ℕ → Offence → State → Outcome Error (State × ℕ)
unfolding require_submitter is_jailed get_tier_bps get_max_slash_bps get_staked_balance slash_amount
    next_slash_id get_challenge_window
submit_evidence env submitter commitment actor offence s = do
  require_submitter env submitter s
  fail_if (is_some (s.slash_record commitment)) duplicate_evidence
  fail_if (is_jailed s actor) already_jailed
  let raw_bps = get_tier_bps s offence
  fail_if (raw_bps == 0) unknown_offence
  let penalty_bps = min_ℕ raw_bps (get_max_slash_bps s)
  let balance = get_staked_balance s actor
  fail_if (eqb_ℤ balance (pos 0)) zero_balance
  amount ← slash_amount balance penalty_bps
  slash_id ← next_slash_id s
  deadline ← checked_u64 (env.timestamp + get_challenge_window s)
  let pending : PendingSlash = record {
    id = slash_id;
    actor = actor;
    amount = amount;
    deadline = deadline;
    status = is_pending;
    is_validator = true;
    evidence_hash = some commitment;
    offence = offence;
    submitter = some submitter;
    penalty_bps = penalty_bps;
    inspection_id = none;
    reason = none;
  }
  let evidence : SlashEvidence = record {
    actor = actor;
    offence = offence;
    submitter = submitter;
    submitted_at = env.timestamp;
    penalty_bps = penalty_bps;
    slashed_amount = pos 0;
  }
  ok (
    record s {
      next_slash_id = some slash_id;
      pending_slash = update slash_id (some pending) s.pending_slash;
      slash_record = update commitment (some evidence) s.slash_record;
      commitment_revealed = update slash_id (some false) s.commitment_revealed;
    },
    slash_id,
  )

unfoldable pub hash_commitment : (List ℕ → ℕ) → List ℕ → List ℕ → ℕ
hash_commitment hash evidence salt = hash (evidence ++ salt)

-- A commitment that is revealed already stays so, and nothing is checked.
unfoldable pub reveal_evidence :
    (List ℕ → ℕ) → Env → ℕ → ℕ → List ℕ → List ℕ → State → Outcome Error State
unfolding require_submitter hash_commitment
reveal_evidence hash env submitter slash_id evidence salt s = do
  require_submitter env submitter s
  pending ← ok_or (s.pending_slash slash_id) slash_not_found
  fail_if (not (is_open pending.status)) slash_already_resolved
  if unwrap_or (s.commitment_revealed slash_id) false then ok s else (do
    let computed = hash_commitment hash evidence salt
    fail_if (not (computed == unwrap_or pending.evidence_hash 0)) invalid_reveal
    ok (record s { commitment_revealed = update slash_id (some true) s.commitment_revealed }))

unfoldable pub propose_slash : Env → ℕ → ℕ → ℕ → State → Outcome Error (State × ℕ)
unfolding require_slasher get_max_slash_bps get_staked_balance slash_amount next_slash_id
    get_challenge_window
propose_slash env submitter actor penalty_bps s = do
  require_slasher env submitter s
  let effective_bps = min_ℕ penalty_bps (get_max_slash_bps s)
  let balance = get_staked_balance s actor
  fail_if (eqb_ℤ balance (pos 0)) zero_balance
  amount ← slash_amount balance effective_bps
  fail_if (leb_ℤ amount (pos 0)) invalid_amount
  slash_id ← next_slash_id s
  deadline ← checked_u64 (env.timestamp + get_challenge_window s)
  let pending : PendingSlash = record {
    id = slash_id;
    actor = actor;
    amount = amount;
    deadline = deadline;
    status = is_pending;
    is_validator = false;
    evidence_hash = none;
    offence = no_offence;
    submitter = some submitter;
    penalty_bps = effective_bps;
    inspection_id = none;
    reason = none;
  }
  ok (
    record s {
      next_slash_id = some slash_id;
      pending_slash = update slash_id (some pending) s.pending_slash;
    },
    slash_id,
  )
