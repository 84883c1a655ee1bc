-- ===== src/Slashing/Finality.antt =====
-- slashing_module/src/lib.rs: a pending slash is finalised or cancelled.
use shelterflex_contracts.Prelude.{
  ℕ, ◌+◌, true, false, not, ◌&&◌, Option, none, some, ltb, if◌then◌else◌, ◌+ℤ◌, ◌-ℤ◌, ltb_ℤ, min_ℤ,
  ℤ, pos, unwrap_or, update,
}
use shelterflex_contracts.Host.{
  ◌>>=◌, ◌>>◌, fail_if, ok_or, checked_i128, checked_u32, Outcome, Env, ok,
}
use shelterflex_contracts.Slashing.Types.{
  require_admin, require_slasher, get_staked_balance, get_total_slashed, is_open, PendingSlash,
  SlashEvidence, Error, State, is_finalized, is_cancelled, slash_not_found,
  challenge_window_not_elapsed, slash_already_resolved, commitment_not_revealed,
}

-- The stake goes down by the amount or to 0, and the total of the actor goes up by as much.
unfoldable pub reduce_stake : ℕ → ℤ → State → Outcome Error (State × ℤ)
unfolding get_staked_balance get_total_slashed
reduce_stake actor amount s = do
  let balance = get_staked_balance s actor
  let actual = min_ℤ amount balance
  new_balance ← checked_i128 (balance -ℤ actual)
  new_total ← checked_i128 (get_total_slashed s actor +ℤ actual)
  ok (
    record s {
      staked_balance = update actor (some new_balance) s.staked_balance;
      slashed_amount = update actor (some new_total) s.slashed_amount;
    },
    actual,
  )

-- `if let Some(hash) = pending.evidence_hash`
abbrev pub put_record :
    Option ℕ → Option SlashEvidence → (ℕ → Option SlashEvidence) → ℕ → Option SlashEvidence
put_record none evidence f = f
put_record (some h) evidence f = update h evidence f

unfoldable pub slash_validator : Env → ℕ → PendingSlash → State → Outcome Error State
slash_validator env caller pending s = do
  reduced ← reduce_stake pending.actor pending.amount s
  count ← checked_u32 (unwrap_or (s.slash_count pending.actor) 0 + 1)
  let evidence : SlashEvidence = record {
    actor = pending.actor;
    offence = pending.offence;
    submitter = unwrap_or pending.submitter caller;
    submitted_at = env.timestamp;
    penalty_bps = pending.penalty_bps;
    slashed_amount = reduced.1;
  }
  let t = reduced.0
  ok (record t {
    slash_count = update pending.actor (some count) s.slash_count;
    slash_record = put_record pending.evidence_hash (some evidence) s.slash_record;
    jailed = update pending.actor (some true) s.jailed;
  })

unfoldable pub slash_proposed : PendingSlash → State → Outcome Error State
slash_proposed pending s =
    if ltb_ℤ (pos 0) pending.amount
    then (reduce_stake pending.actor pending.amount s >>= λ reduced. ok reduced.0)
    else ok s

unfoldable pub finalize_slash : Env → ℕ → ℕ → State → Outcome Error State
unfolding require_slasher slash_validator slash_proposed
finalize_slash env caller slash_id s = do
  require_slasher env caller s
  pending ← ok_or (s.pending_slash slash_id) slash_not_found
  fail_if (not (is_open pending.status)) slash_already_resolved
  fail_if (ltb env.timestamp pending.deadline) challenge_window_not_elapsed
  fail_if (pending.is_validator && not (unwrap_or (s.commitment_revealed slash_id) false))
      commitment_not_revealed
  let finalized : PendingSlash = record pending { status = is_finalized }
  let t = record s { pending_slash = update slash_id (some finalized) s.pending_slash }
  if pending.is_validator then slash_validator env caller pending t else slash_proposed pending t

unfoldable pub cancel_slash : Env → ℕ → ℕ → State → Outcome Error State
unfolding require_admin
cancel_slash env admin slash_id s = do
  require_admin env admin s
  pending ← ok_or (s.pending_slash slash_id) slash_not_found
  fail_if (not (is_open pending.status)) slash_already_resolved
  let cancelled : PendingSlash = record pending { status = is_cancelled }
  ok (record s {
    pending_slash = update slash_id (some cancelled) s.pending_slash;
    slash_record =
        if pending.is_validator
        then put_record pending.evidence_hash none s.slash_record
        else s.slash_record;
    commitment_revealed = update slash_id none s.commitment_revealed;
  })
