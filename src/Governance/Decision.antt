-- ===== src/Governance/Decision.antt =====
-- governance/src/lib.rs: the decision on a proposal, and its execution.
use shelterflex_contracts.Prelude.{
  ℕ, ◌+◌, ◌*◌, ◌/◌, ◌≤◌, ◌<◌, ◌≡◌, ap, false, ◌&&◌, some, arith, ltb, leb, if◌then◌else◌, lt→ltb,
  ◌/ℤ◌, pos-+ℤ, pos-*ℤ, pos, update,
}
use shelterflex_contracts.Host.{ok_or, >>=-elim, ok_or_ok, Env, ok, err}
use shelterflex_contracts.Governance.Types.{
  timelock_secs, ProposalStatus, Proposal, State, proposal_not_found, proposal_already_executed,
  active, passed, rejected, executed,
}
use shelterflex_contracts.Governance.Calls.{decide, finalize_proposal, execute_proposal}

-- The rule without the arithmetic of basis points: the votes are at least a tenth of the stake,
-- rounded down, and more are for it than against it.
abbrev pub verdict : ℕ → ℕ → ℕ → ProposalStatus
verdict total votes_for votes_against =
    if ltb total (10 * (votes_for + votes_against) + 10) && ltb votes_against votes_for
    then passed
    else rejected

quorum_lem : (total : ℕ) → pos (total * 1000) /ℤ 10000 ≡ pos (total / 10)
unfolding ◌/ℤ◌
quorum_lem total = ap pos (omega arith)

decide-verdict :
    (total f a : ℕ)
    → decide (pos (f + a)) (pos (total * 1000) /ℤ 10000) (pos f) (pos a) ≡ verdict total f a
unfolding decide
decide-verdict total f a = rw quorum_lem (ground arith)

-- After the end of the voting period of an active proposal whose counts and total are not negative
-- and overflow nothing, `finalize_proposal` returns and stores `passed` if the votes are at least a
-- tenth of the total, rounded down, and more are for it than against it, else `rejected`, and
-- changes nothing else.
pub finalize_proposal-verdict :
    (env : Env) (id total f a : ℕ) (p : Proposal) (s : State)
    → s.proposals id ≡ some p
    → p.status ≡ active
    → p.voting_ends_at < env.timestamp
    → p.votes_for ≡ pos f
    → p.votes_against ≡ pos a
    → p.snapshotted_total_staked ≡ pos total
    → f + a < 170141183460469231731687303715884105728
    → total * 1000 < 170141183460469231731687303715884105728
    → finalize_proposal env id s
      ≡ ok (
        record s {
          proposals = update id (some (record p { status = verdict total f a })) s.proposals;
        },
        verdict total f a,
      )
unfolding finalize_proposal
finalize_proposal-verdict env id total f a p s e act late ef ea et fits fits' = rw (
  e,
  act,
  not_yet_over,
  ef,
  ea,
  et,
  pos-+ℤ f a,
  lt→ltb (f + a) _ fits,
  pos-*ℤ total 1000,
  lt→ltb (total * 1000) _ fits',
  decide-verdict total f a,
)
  where
    not_yet_over : leb env.timestamp p.voting_ends_at ≡ false
    not_yet_over = ground arith

-- Where `execute_proposal` returns, the proposal had passed and two days have gone by since the end
-- of its voting period; it is then executed, with all else unchanged, and a further execution of it
-- is refused as already executed.
pub execute_proposal_once :
    (env later : Env) (id : ℕ) (s t : State)
    → execute_proposal env id s ≡ ok t
    → (p : Proposal) × (s.proposals id ≡ some p)
      × (p.status ≡ passed)
      × (p.voting_ends_at + timelock_secs ≤ env.timestamp)
      × (t ≡ record s { proposals = update id (some (record p { status = executed })) s.proposals })
      × (execute_proposal later id t ≡ err proposal_already_executed)
unfolding execute_proposal
execute_proposal_once env later id s t h =
    >>=-elim (ok_or (s.proposals id) proposal_not_found) _ h λ p q h.
      let e = ok_or_ok (s.proposals id) proposal_not_found q in
      (p, e, ground arith, ground arith, ground arith, ground arith)
