-- ===== src/Multisig/Final.antt =====
-- multisig_admin/src/lib.rs: proposals that are no longer pending, over runs.
use shelterflex_contracts.Prelude.{
  ℕ, ◌<◌, ◌≡◌, ◌≢◌, true, false, none, some, List, [], ◌∷◌, arith, unwrap_or, is_some,
}
use shelterflex_contracts.Host.{Env, ok}
use shelterflex_contracts.Multisig.Types.{ProposalStatus, Proposal, State, pending}
use shelterflex_contracts.Multisig.Calls.{
  is_pending, init, propose, approve, revoke_approval, execute, cancel,
}
use shelterflex_contracts.Multisig.Invariant.{
  step, run, Call, inits, proposes, approves, revokes, executes, cancels,
}

-- The numbers of the stored proposals have been given out, and the contract is configured.
pub record IsNumbered (s : State) : Type 0 where
  pub has_config : is_some s.config ≡ true
  pub given_out : (id : ℕ) → is_some (s.proposals id) ≡ true → id < unwrap_or s.next_proposal_id 1

step-IsNumbered : (env : Env) (c : Call) (s : State) → IsNumbered s → IsNumbered (step env c s)
unfolding step init propose approve revoke_approval execute cancel
step-IsNumbered env (inits signers n) s h = record {
  has_config = ground (arith, h.has_config);
  given_out = λ id q. ground (arith, h.given_out id, h.has_config);
}
step-IsNumbered env (proposes a op params expiry) s h = record {
  has_config = ground (arith, h.has_config);
  given_out = λ id q. ground (arith, h.given_out id);
}
step-IsNumbered env (approves a j) s h = record {
  has_config = ground (arith, h.has_config);
  given_out = λ id q. ground (arith, h.given_out id);
}
step-IsNumbered env (revokes a j) s h = record {
  has_config = ground (arith, h.has_config);
  given_out = λ id q. ground (arith, h.given_out id);
}
step-IsNumbered env (executes a j) s h = record {
  has_config = ground (arith, h.has_config);
  given_out = λ id q. ground (arith, h.given_out id);
}
step-IsNumbered env (cancels a j) s h = record {
  has_config = ground (arith, h.has_config);
  given_out = λ id q. ground (arith, h.given_out id);
}

run-IsNumbered : (cs : List (Env × Call)) (s : State) → IsNumbered s → IsNumbered (run cs s)
unfolding run
run-IsNumbered [] s h = h
run-IsNumbered ((env, c) ∷ cs) s h = run-IsNumbered cs (step env c s) (step-IsNumbered env c s h)

-- One call does not touch a proposal that is not pending.
step_final :
    (env : Env) (c : Call) (s : State) (id : ℕ) (p : Proposal)
    → IsNumbered s
    → s.proposals id ≡ some p
    → is_pending p.status ≡ false
    → (step env c s).proposals id ≡ some p
unfolding step init propose approve revoke_approval execute cancel
step_final env (inits signers n) s id p h e q = ground arith
step_final env (proposes a op params expiry) s id p h e q = ground (arith, h.given_out id)
step_final env (approves a j) s id p h e q = ground arith
step_final env (revokes a j) s id p h e q = ground arith
step_final env (executes a j) s id p h e q = ground arith
step_final env (cancels a j) s id p h e q = ground arith

runs_final :
    (cs : List (Env × Call)) (s : State) (id : ℕ) (p : Proposal)
    → IsNumbered s
    → s.proposals id ≡ some p
    → is_pending p.status ≡ false
    → (run cs s).proposals id ≡ some p
unfolding run
runs_final [] s id p h e q = e
runs_final ((env, c) ∷ cs) s id p h e q =
    runs_final cs (step env c s) id p (step-IsNumbered env c s h) (step_final env c s id p h e q) q

init-IsNumbered :
    (signers : List ℕ) (n : ℕ) (s t : State)
    → ((id : ℕ) → s.proposals id ≡ none)
    → init signers n s ≡ ok t
    → IsNumbered t
unfolding init
init-IsNumbered signers n s t f h = record {
  has_config = ground arith;
  given_out = λ id q. ground (arith, f id);
}

is_pending-false : (st : ProposalStatus) → st ≢ pending → is_pending st ≡ false
is_pending-false st ne = ground arith

-- After the initialisation of a contract without proposals, and any sequence of calls, a stored
-- proposal that is not pending is stored exactly as it was after any further calls.
pub run-final :
    (signers : List ℕ) (threshold : ℕ) (s t : State) (before after : List (Env × Call)) (id : ℕ)
    (p : Proposal)
    → ((id : ℕ) → s.proposals id ≡ none)
    → init signers threshold s ≡ ok t
    → (run before t).proposals id ≡ some p
    → p.status ≢ pending
    → (run after (run before t)).proposals id ≡ some p
run-final signers threshold s t before after id p f h e ne =
    runs_final after (run before t) id p
      (run-IsNumbered before t (init-IsNumbered signers threshold s t f h)) e
      (is_pending-false p.status ne)
