-- ===== src/Multisig/Calls.antt =====
-- multisig_admin/src/lib.rs: the entry points. A panic rolls back what the call has written and
-- published before it, so the writes of `Expired`, which stand in front of a panic, leave no trace.
use shelterflex_contracts.Prelude.{
  ℕ, ◌+◌, Bool, true, false, not, ◌&&◌, ◌||◌, some, List, [], ◌∷◌, ◌++◌, ltb, leb, ◌==◌,
  if◌then◌else◌, unwrap_or, is_some, length, contains, update,
}
use shelterflex_contracts.Host.{
  ◌>>=◌, ◌>>◌, fail_if, ok_or, require_auth, checked_u64, Outcome, Env, ok,
}
use shelterflex_contracts.Multisig.Types.{
  Panic, Config, ProposalStatus, OperationType, Proposal, State, already_initialized,
  invalid_threshold, not_initialized, not_a_signer, proposal_expired, unknown_proposal, not_pending,
  already_approved, not_approved, not_enough_approvals, pending, executed, cancelled,
}

abbrev pub is_pending : ProposalStatus → Bool
is_pending pending = true
is_pending _ = false

-- `expiry != 0 && now > expiry`
abbrev pub is_late : Env → Proposal → Bool
is_late env p = not (p.expiry == 0) && ltb p.expiry env.timestamp

-- How five entry points begin: the caller is one of the signers.
unfoldable pub require_signer : Env → ℕ → State → Outcome Panic Config
require_signer env caller s = do
  require_auth env caller
  cfg ← ok_or s.config not_initialized
  fail_if (not (contains cfg.signers caller)) not_a_signer
  ok cfg

-- The proposal, which four entry points require to be pending.
unfoldable pub pending_proposal : ℕ → State → Outcome Panic Proposal
pending_proposal proposal_id s = do
  prop ← ok_or (s.proposals proposal_id) unknown_proposal
  fail_if (not (is_pending prop.status)) not_pending
  ok prop

-- The loop that rebuilds the list without one signer.
unfoldable pub without : ℕ → List ℕ → List ℕ
without signer [] = []
without signer (addr ∷ rest) =
    if addr == signer then without signer rest else addr ∷ without signer rest

unfoldable pub init : List ℕ → ℕ → State → Outcome Panic State
init signers threshold s = do
  fail_if (is_some s.config) already_initialized
  fail_if (threshold == 0 || ltb (length signers) threshold) invalid_threshold
  ok (record s {
    config = some (record { signers = signers; threshold = threshold });
    next_proposal_id = some 1;
  })

unfoldable pub propose : Env → ℕ → OperationType → List ℕ → ℕ → State → Outcome Panic (State × ℕ)
unfolding require_signer
propose env proposer operation params expiry s = do
  require_signer env proposer s
  fail_if (not (expiry == 0) && leb expiry env.timestamp) proposal_expired
  let id = unwrap_or s.next_proposal_id 1
  next ← checked_u64 (id + 1)
  let prop = some (record {
    proposer = proposer;
    operation = operation;
    params = params;
    expiry = expiry;
    status = pending;
    approval_count = 0;
  })
  ok (
    record s {
      proposals = update id prop s.proposals;
      approvals = update id (some []) s.approvals;
      next_proposal_id = some next;
    },
    id,
  )

-- The writes of `approve` and `revoke_approval`: the list, and its length in the proposal.
abbrev pub put_approvals : ℕ → Proposal → List ℕ → State → State
put_approvals proposal_id prop approvals s = record s {
  approvals = update proposal_id (some approvals) s.approvals;
  proposals =
      update proposal_id (some (record prop { approval_count = length approvals })) s.proposals;
}

unfoldable pub approve : Env → ℕ → ℕ → State → Outcome Panic State
unfolding require_signer pending_proposal
approve env signer proposal_id s = do
  require_signer env signer s
  prop ← pending_proposal proposal_id s
  fail_if (is_late env prop) proposal_expired
  let approvals = unwrap_or (s.approvals proposal_id) []
  fail_if (contains approvals signer) already_approved
  ok (put_approvals proposal_id prop (approvals ++ signer ∷ []) s)

unfoldable pub revoke_approval : Env → ℕ → ℕ → State → Outcome Panic State
unfolding require_signer pending_proposal without
revoke_approval env signer proposal_id s = do
  require_signer env signer s
  prop ← pending_proposal proposal_id s
  fail_if (is_late env prop) proposal_expired
  let approvals = unwrap_or (s.approvals proposal_id) []
  fail_if (not (contains approvals signer)) not_approved
  ok (put_approvals proposal_id prop (without signer approvals) s)

abbrev pub put_status : ℕ → Proposal → ProposalStatus → State → State
put_status proposal_id prop status s = record s {
  proposals = update proposal_id (some (record prop { status = status })) s.proposals;
}

unfoldable pub execute : Env → ℕ → ℕ → State → Outcome Panic State
unfolding require_signer pending_proposal
execute env executor proposal_id s = do
  cfg ← require_signer env executor s
  prop ← pending_proposal proposal_id s
  fail_if (is_late env prop) proposal_expired
  fail_if (ltb (length (unwrap_or (s.approvals proposal_id) [])) cfg.threshold) not_enough_approvals
  ok (put_status proposal_id prop executed s)

unfoldable pub cancel : Env → ℕ → ℕ → State → Outcome Panic State
unfolding require_signer pending_proposal
cancel env caller proposal_id s = do
  require_signer env caller s
  prop ← pending_proposal proposal_id s
  ok (put_status proposal_id prop cancelled s)
