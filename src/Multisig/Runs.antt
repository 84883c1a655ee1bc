-- ===== src/Multisig/Runs.antt =====
-- multisig_admin/src/lib.rs: single calls and runs against the invariant.
use shelterflex_contracts.Prelude.{
  ℕ, ◌≤◌, ◌≡◌, refl, false, Option, none, some, List, [], ◌∷◌, ◌++◌, arith, unwrap_or, length,
}
use shelterflex_contracts.Host.{commit, state_of, Outcome, Env, ok, err, trap}
use shelterflex_contracts.Multisig.Types.{
  Panic, Config, ProposalStatus, OperationType, Proposal, State, pending, executed, cancelled,
}
use shelterflex_contracts.Multisig.Calls.{
  without, init, propose, put_approvals, approve, revoke_approval, put_status, execute, cancel,
}
use shelterflex_contracts.Multisig.Signers.{
  Distinct, AllIn, Distinct-push, AllIn-push, Distinct-without, AllIn-without,
}
use shelterflex_contracts.Multisig.Invariant.{
  step, run, required, is_expired, Entry, Writes-IsValid, stored-IsApproved, approve_lem,
  revoke_lem, execute_lem, cancel_lem, Call, IsApproved, IsValid, Writes, OnPending, inits,
  proposes, approves, revokes, executes, cancels,
}

-- The list of a pending proposal may be any that is valid.
pending-IsApproved :
    (cfg : Config) (p : Proposal) (list : List ℕ) (n : ℕ) (st : ProposalStatus)
    → Distinct list
    → AllIn cfg.signers list
    → n ≡ length list
    → required cfg st ≤ length list
    → is_expired st ≡ false
    → IsApproved cfg (record p { approval_count = n; status = st }) list
pending-IsApproved cfg p list n st d a e r x = record {
  distinct = d;
  signers = a;
  counted = e;
  enough = r;
  not_expired = x;
}

module _ (cfg : Config) (env : Env) (a id : ℕ) (s t : State) (v : IsValid cfg s) where
  approve-IsValid : approve env a id s ≡ ok t → IsValid cfg t
  approve-IsValid h =
      let (o, new, e) = approve_lem cfg env a id s t v.configured h in
      let i = stored-IsApproved cfg s id o.proposal v o.stored in
      let list : List ℕ = unwrap_or (s.approvals id) [] ++ a ∷ [] in
      rw e (
        Writes-IsValid cfg id s (put_approvals id o.proposal list s)
          (record {
            proposal = record o.proposal { approval_count = length list };
            approvals = list;
            valid =
                pending-IsApproved cfg o.proposal list (length list) o.proposal.status
                  (Distinct-push _ a new i.distinct)
                  (AllIn-push cfg.signers _ a o.is_signer i.signers) refl
                  (rw o.was_pending (omega arith)) i.not_expired;
            same_config = refl;
            wrote = refl;
            listed = λ j. ground arith;
          })
          v)

  revoke-IsValid : revoke_approval env a id s ≡ ok t → IsValid cfg t
  revoke-IsValid h =
      let (o, e) = revoke_lem cfg env a id s t v.configured h in
      let i = stored-IsApproved cfg s id o.proposal v o.stored in
      let list : List ℕ = without a (unwrap_or (s.approvals id) []) in
      rw e (
        Writes-IsValid cfg id s (put_approvals id o.proposal list s)
          (record {
            proposal = record o.proposal { approval_count = length list };
            approvals = list;
            valid =
                pending-IsApproved cfg o.proposal list (length list) o.proposal.status
                  (Distinct-without _ a i.distinct) (AllIn-without cfg.signers _ a i.signers) refl
                  (rw o.was_pending (omega arith)) i.not_expired;
            same_config = refl;
            wrote = refl;
            listed = λ j. ground arith;
          })
          v)

  -- A new status, with the list as it was.
  status-IsValid :
      (o : OnPending cfg a id s) (st : ProposalStatus)
      → required cfg st ≤ length (unwrap_or (s.approvals id) [])
      → is_expired st ≡ false
      → IsValid cfg (put_status id o.proposal st s)
  status-IsValid o st r x =
      let i = stored-IsApproved cfg s id o.proposal v o.stored in
      Writes-IsValid cfg id s (put_status id o.proposal st s)
        (record {
          proposal = record o.proposal { status = st };
          approvals = unwrap_or (s.approvals id) [];
          valid =
              pending-IsApproved cfg o.proposal _ o.proposal.approval_count st i.distinct i.signers
                i.counted r x;
          same_config = refl;
          wrote = refl;
          listed = λ j. ground arith;
        })
        v

  execute-IsValid : execute env a id s ≡ ok t → IsValid cfg t
  execute-IsValid h =
      let (o, enough, e) = execute_lem cfg env a id s t v.configured h in
      rw e (status-IsValid o executed enough refl)

  cancel-IsValid : cancel env a id s ≡ ok t → IsValid cfg t
  cancel-IsValid h =
      let (o, e) = cancel_lem cfg env a id s t v.configured h in
      rw e (status-IsValid o cancelled (omega arith) refl)

init_again :
    (cfg : Config) (signers : List ℕ) (n : ℕ) (s : State)
    → s.config ≡ some cfg
    → commit s (init signers n s) ≡ s
unfolding init
init_again cfg signers n s e = ground arith

new-Writes :
    (cfg : Config) (env : Env) (a : ℕ) (op : OperationType) (params : List ℕ) (expiry : ℕ)
    (s t : State) (id : ℕ)
    → propose env a op params expiry s ≡ ok (t, id)
    → Writes cfg id s t
unfolding propose Distinct AllIn
new-Writes cfg env a op params expiry s t id h = record {
  proposal = record {
    proposer = a;
    operation = op;
    params = params;
    expiry = expiry;
    status = pending;
    approval_count = 0;
  };
  approvals = [];
  valid = record {
    distinct = tt;
    signers = tt;
    counted = refl;
    enough = omega arith;
    not_expired = refl;
  };
  same_config = ground arith;
  wrote = ground arith;
  listed = λ j. ground arith;
}

returned :
    (cfg : Config) (s : State) (r : Outcome Panic State)
    → IsValid cfg s
    → ((t : State) → r ≡ ok t → IsValid cfg t)
    → IsValid cfg (commit s r)
returned cfg s (ok t) v k = k t refl
returned cfg s (err e) v k = v
returned cfg s trap v k = v

proposed-IsValid :
    (cfg : Config) (env : Env) (a : ℕ) (op : OperationType) (params : List ℕ) (expiry : ℕ)
    (s : State) (r : Outcome Panic (State × ℕ))
    → propose env a op params expiry s ≡ r
    → IsValid cfg s
    → IsValid cfg (commit s (state_of r))
proposed-IsValid cfg env a op params expiry s (ok (t, id)) e v =
    Writes-IsValid cfg id s t (new-Writes cfg env a op params expiry s t id e) v
proposed-IsValid cfg env a op params expiry s (err m) e v = v
proposed-IsValid cfg env a op params expiry s trap e v = v

pub step-IsValid :
    (cfg : Config) (env : Env) (c : Call) (s : State) → IsValid cfg s → IsValid cfg (step env c s)
unfolding step
step-IsValid cfg env (inits signers n) s v = rw (init_again cfg signers n s v.configured) v
step-IsValid cfg env (proposes a op params expiry) s v =
    proposed-IsValid cfg env a op params expiry s _ refl v
step-IsValid cfg env (approves a id) s v =
    returned cfg s _ v (λ t h. approve-IsValid cfg env a id s t v h)
step-IsValid cfg env (revokes a id) s v =
    returned cfg s _ v (λ t h. revoke-IsValid cfg env a id s t v h)
step-IsValid cfg env (executes a id) s v =
    returned cfg s _ v (λ t h. execute-IsValid cfg env a id s t v h)
step-IsValid cfg env (cancels a id) s v =
    returned cfg s _ v (λ t h. cancel-IsValid cfg env a id s t v h)

pub run-IsValid :
    (cfg : Config) (cs : List (Env × Call)) (s : State) → IsValid cfg s → IsValid cfg (run cs s)
unfolding run
run-IsValid cfg [] s v = v
run-IsValid cfg ((env, c) ∷ cs) s v = run-IsValid cfg cs (step env c s) (step-IsValid cfg env c s v)

none-Entry : (cfg : Config) (o : Option Proposal) (list : List ℕ) → o ≡ none → Entry cfg o list
unfolding Entry
none-Entry cfg none list e = tt
none-Entry cfg (some p) list e = absurd (cc)

pub init-IsValid :
    (signers : List ℕ) (n : ℕ) (s t : State)
    → ((id : ℕ) → s.proposals id ≡ none)
    → init signers n s ≡ ok t
    → IsValid (record { signers = signers; threshold = n }) t
unfolding init Entry
init-IsValid signers n s t f h = record {
  configured = ground arith;
  entries = λ id. none-Entry _ _ _ (ground (arith, f id));
}
