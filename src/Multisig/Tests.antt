-- ===== src/Multisig/Tests.antt =====
-- multisig_admin/src/lib.rs: the properties at concrete calls.
use shelterflex_contracts.Prelude.{
  ℕ, ◌≤◌, ◌≡◌, refl, ◌≢◌, true, false, none, some, List, [], ◌∷◌, unwrap_or, length, update,
}
use shelterflex_contracts.Host.{Env, ok}
use shelterflex_contracts.Multisig.Types.{
  Config, Proposal, State, pending, executed, expired, execute_slash, freeze_account,
}
use shelterflex_contracts.Multisig.Calls.{
  require_signer, pending_proposal, init, propose, put_approvals, approve, revoke_approval, execute,
}
use shelterflex_contracts.Multisig.Signers.{Distinct, AllIn}
use shelterflex_contracts.Multisig.Invariant.{
  step, run, Call, proposes, approves, revokes, executes, cancels,
}
use shelterflex_contracts.Multisig.Final.{run-final}
use shelterflex_contracts.Multisig.Approval.{
  run-approvals_enough, run-never_expired, approve-revoke,
}

abbrev at : ℕ → Env
at time = record {
  authorized = λ a. true;
  reauthorized = λ a. false;
  timestamp = time;
  sequence = 1;
  current = 50;
  uploaded = λ hash. true;
}

abbrev blank : State
blank = record {
  config = none;
  next_proposal_id = none;
  proposals = λ id. none;
  approvals = λ id. none;
}

abbrev three : Config
three = record { signers = 1 ∷ 2 ∷ 3 ∷ []; threshold = 2 }

abbrev started : State
started = record blank { config = some three; next_proposal_id = some 1 }

init_test : init (1 ∷ 2 ∷ 3 ∷ []) 2 blank ≡ ok started
unfolding init
init_test = refl

abbrev calls : List (Env × Call)
calls =
    (at 10, proposes 1 freeze_account [] 100)
    ∷ (at 11, approves 1 1)
    ∷ (at 12, approves 2 1)
    ∷ (at 13, approves 2 1)
    ∷ (at 14, executes 3 1)
    ∷ []

abbrev frozen : Proposal
frozen = record {
  proposer = 1;
  operation = freeze_account;
  params = [];
  expiry = 100;
  status = executed;
  approval_count = 2;
}

run_test : (run calls started).proposals 1 ≡ some frozen
unfolding run step propose approve execute require_signer pending_proposal
run_test = refl

run_list_test : unwrap_or ((run calls started).approvals 1) [] ≡ 1 ∷ 2 ∷ []
unfolding run step propose approve execute require_signer pending_proposal
run_list_test = refl

run-approvals_enough_example :
    Distinct (unwrap_or ((run calls started).approvals 1) [])
    × AllIn (1 ∷ 2 ∷ 3 ∷ []) (unwrap_or ((run calls started).approvals 1) [])
    × (2 ≡ length (unwrap_or ((run calls started).approvals 1) []))
    × (2 ≤ 2)
run-approvals_enough_example =
    run-approvals_enough (1 ∷ 2 ∷ 3 ∷ []) 2 blank started (λ id. refl) init_test calls 1 frozen
      run_test refl

-- The same proposal a hundred seconds too late: the execution fails, and leaves it pending.
abbrev late_calls : List (Env × Call)
late_calls =
    (at 10, proposes 1 freeze_account [] 100)
    ∷ (at 11, approves 1 1)
    ∷ (at 12, approves 2 1)
    ∷ (at 200, executes 3 1)
    ∷ []

abbrev left_pending : Proposal
left_pending = record frozen { status = pending }

late_test : (run late_calls started).proposals 1 ≡ some left_pending
unfolding run step propose approve execute require_signer pending_proposal
late_test = refl

run-never_expired_example : left_pending.status ≢ expired
run-never_expired_example =
    run-never_expired (1 ∷ 2 ∷ 3 ∷ []) 2 blank started (λ id. refl) init_test late_calls 1
      left_pending late_test

abbrev one_approval : State
one_approval = record started {
  next_proposal_id = some 2;
  proposals = update 1 (some (record left_pending { approval_count = 1 })) (λ id. none);
  approvals = update 1 (some (1 ∷ [])) (λ id. none);
}

approve_test :
    approve (at 12) 2 1 one_approval
    ≡ ok (put_approvals 1 (record left_pending { approval_count = 1 }) (1 ∷ 2 ∷ []) one_approval)
unfolding approve
approve_test = refl

approve-revoke_example :
    (u : State) × (revoke_approval
        (at 20)
        2
        1
        (put_approvals 1 (record left_pending { approval_count = 1 }) (1 ∷ 2 ∷ []) one_approval)
      ≡ ok u)
    × (unwrap_or (u.approvals 1) [] ≡ 1 ∷ [])
    × (u.proposals 1 ≡ some (record left_pending { approval_count = 1 }))
approve-revoke_example =
    approve-revoke (at 12) (at 20) three 2 1 (record left_pending { approval_count = 1 })
      one_approval
      (put_approvals 1 (record left_pending { approval_count = 1 }) (1 ∷ 2 ∷ []) one_approval) refl
      refl approve_test refl refl

executed-not-pending : executed ≢ pending
executed-not-pending e = cc

abbrev later_calls : List (Env × Call)
later_calls =
    (at 20, revokes 1 1) ∷ (at 21, cancels 1 1) ∷ (at 22, proposes 2 execute_slash [] 0) ∷ []

run-final_test : (run later_calls (run calls started)).proposals 1 ≡ some frozen
run-final_test =
    run-final (1 ∷ 2 ∷ 3 ∷ []) 2 blank started calls later_calls 1 frozen (λ id. refl) init_test
      run_test executed-not-pending
