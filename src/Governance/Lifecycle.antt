-- ===== src/Governance/Lifecycle.antt =====
-- governance/src/lib.rs: proposals over whole sequences of calls.
use shelterflex_contracts.Prelude.{
  ℕ, ◌≤◌, ◌≡◌, refl, sym, ◌∙◌, ◌≢◌, inl, inr, true, some, List, [], ◌∷◌, arith, pos, unwrap_or,
  is_some,
}
use shelterflex_contracts.Host.{Env}
use shelterflex_contracts.Governance.Types.{
  Pool, register_known_voter, snapshot_known_voter_stakes_for_proposal, ProposalStatus, Proposal,
  State, active,
}
use shelterflex_contracts.Governance.Calls.{
  init, set_total_staked, set_staking_pool, set_voter_stake, create_proposal, vote,
  finalize_proposal, execute_proposal, cancel_proposal,
}
use shelterflex_contracts.Governance.Machine.{
  step, Event, run, Call, inits, sets_total, sets_pool, sets_stake, creates, votes, finalizes,
  executes, cancels,
}
use shelterflex_contracts.Governance.Status.{
  vote-Survives, cancel-Survives, execute-Survives, finalize-Survives, create-Survives,
  settings-Survives, init-Survives, IsNumbered, Edge, Evolves, Survives, pass, reject, cancel,
  execute,
}

-- A way through the status diagram.
pub data StatusPath : ProposalStatus → ProposalStatus → Type 0 where
  here : {a : ProposalStatus} → StatusPath a a
  along : {a b c : ProposalStatus} → Edge a b → StatusPath b c → StatusPath a c

-- The terms that a proposal was made with stay.
pub record HasTerms (p q : Proposal) : Type 0 where
  pub same_proposer : q.proposer ≡ p.proposer
  pub same_key : q.param_key ≡ p.param_key
  pub same_value : q.proposed_value ≡ p.proposed_value
  pub same_end : q.voting_ends_at ≡ p.voting_ends_at
  pub same_total : q.snapshotted_total_staked ≡ p.snapshotted_total_staked

-- A proposal `p` and the same proposal later on.
pub record IsLater (p q : Proposal) : Type 0 where
  pub terms : HasTerms p q
  pub path : StatusPath p.status q.status
  pub votes_final :
      p.status ≢ active → (q.votes_for ≡ p.votes_for) × (q.votes_against ≡ p.votes_against)

never_active : {a b : ProposalStatus} → Edge a b → b ≢ active
never_active pass e = cc
never_active reject e = cc
never_active cancel e = cc
never_active execute e = cc

IsLater-refl : (p : Proposal) → IsLater p p
IsLater-refl p = record {
  terms = record {
    same_proposer = refl;
    same_key = refl;
    same_value = refl;
    same_end = refl;
    same_total = refl;
  };
  path = here;
  votes_final = λ h. (refl, refl);
}

extend_path :
    (p q : Proposal) (c : ProposalStatus)
    → Evolves p q
    → StatusPath q.status c
    → StatusPath p.status c
extend_path p q c e w = elim e.moves [
  | inl (x, y) ↦ rw y (rw x at w)
  | inr (x, y, z) ↦ elim z [ inl same ↦ rw same at w | inr edge ↦ along edge w ]
]

extend_votes :
    (p q r : Proposal)
    → Evolves p q
    → (q.status ≢ active → (r.votes_for ≡ q.votes_for) × (r.votes_against ≡ q.votes_against))
    → p.status ≢ active
    → (r.votes_for ≡ p.votes_for) × (r.votes_against ≡ p.votes_against)
extend_votes p q r e f h = elim e.moves [
  | inl (x, y) ↦ absurd (h y)
  | inr (x, y, z) ↦ elim z [
    | inl same ↦ let k = f (λ a. h (sym same ∙ a)) in (k.0 ∙ x, k.1 ∙ y)
    | inr edge ↦ let k = f (never_active edge) in (k.0 ∙ x, k.1 ∙ y)
  ]
]

Evolves-IsLater : (p q r : Proposal) → Evolves p q → IsLater q r → IsLater p r
Evolves-IsLater p q r e l = record {
  terms = record {
    same_proposer = l.terms.same_proposer ∙ e.same_proposer;
    same_key = l.terms.same_key ∙ e.same_key;
    same_value = l.terms.same_value ∙ e.same_value;
    same_end = l.terms.same_end ∙ e.same_end;
    same_total = l.terms.same_total ∙ e.same_snapshot;
  };
  path = extend_path p q r.status e l.path;
  votes_final = extend_votes p q r e l.votes_final;
}

step-Survives :
    (pool : Pool) (env : Env) (c : Call) (s : State) (id : ℕ) (p : Proposal)
    → IsNumbered s
    → s.proposals id ≡ some p
    → Survives id p (step pool env c s)
unfolding step
step-Survives pool env (inits a z) s id p h e = init-Survives env s id p e a z h
step-Survives pool env (sets_total a z) s id p h e = (settings-Survives env s id p e a a z).0
step-Survives pool env (sets_pool a b) s id p h e = (settings-Survives env s id p e a b (pos 0)).1
step-Survives pool env (sets_stake a v z) s id p h e = (settings-Survives env s id p e a v z).2
step-Survives pool env (creates a k n t) s id p h e = create-Survives env s id p e pool a k n t h
step-Survives pool env (votes v j b) s id p h e = vote-Survives env s id p e v j b
step-Survives pool env (finalizes j) s id p h e = finalize-Survives env s id p e j
step-Survives pool env (executes j) s id p h e = execute-Survives env s id p e j
step-Survives pool env (cancels a j) s id p h e = cancel-Survives env s id p e a j

step_has_admin :
    (pool : Pool) (env : Env) (c : Call) (s : State)
    → is_some s.admin ≡ true
    → is_some (step pool env c s).admin ≡ true
unfolding step init set_total_staked set_staking_pool set_voter_stake create_proposal vote
    finalize_proposal execute_proposal cancel_proposal register_known_voter
    snapshot_known_voter_stakes_for_proposal
step_has_admin pool env (inits a z) s h = ground arith
step_has_admin pool env _ s h = ground arith

step_given_out :
    (pool : Pool) (env : Env) (c : Call) (s : State) (id : ℕ)
    → IsNumbered s
    → is_some ((step pool env c s).proposals id) ≡ true
    → id ≤ unwrap_or (step pool env c s).proposal_count 0
unfolding step init set_total_staked set_staking_pool set_voter_stake create_proposal vote
    finalize_proposal execute_proposal cancel_proposal register_known_voter
    snapshot_known_voter_stakes_for_proposal
step_given_out pool env (inits a z) s id h q = ground (arith, h.given_out id, h.has_admin)
step_given_out pool env _ s id h q = ground (arith, h.given_out id)

step_voted_given_out :
    (pool : Pool) (env : Env) (c : Call) (s : State) (id v : ℕ)
    → IsNumbered s
    → is_some ((step pool env c s).voted id v) ≡ true
    → id ≤ unwrap_or (step pool env c s).proposal_count 0
unfolding step init set_total_staked set_staking_pool set_voter_stake create_proposal vote
    finalize_proposal execute_proposal cancel_proposal register_known_voter
    snapshot_known_voter_stakes_for_proposal
step_voted_given_out pool env (inits a z) s id v h q =
    ground (arith, h.voted_given_out id v, h.has_admin)
step_voted_given_out pool env _ s id v h q = ground (arith, h.voted_given_out id v, h.given_out id)

pub step-IsNumbered :
    (pool : Pool) (env : Env) (c : Call) (s : State) → IsNumbered s → IsNumbered (step pool env c s)
step-IsNumbered pool env c s h = record {
  has_admin = step_has_admin pool env c s h.has_admin;
  given_out = λ id q. step_given_out pool env c s id h q;
  voted_given_out = λ id v q. step_voted_given_out pool env c s id v h q;
}

-- A stored proposal is never lost: after any sequence of calls it is stored under its number, with
-- the terms that it was created with, its status has followed the edges of the diagram, and the
-- votes of a proposal that was no longer active have not changed.
pub run-IsLater :
    (cs : List Event) (s : State) (id : ℕ) (p : Proposal)
    → IsNumbered s
    → s.proposals id ≡ some p
    → (q : Proposal) × ((run cs s).proposals id ≡ some q) × IsLater p q
unfolding run
run-IsLater [] s id p h e = (p, e, IsLater-refl p)
run-IsLater ((pool, env, c) ∷ cs) s id p h e =
    let one = step-Survives pool env c s id p h e in
    let mid = unwrap_or ((step pool env c s).proposals id) p in
    let (q, f, l) =
      run-IsLater cs (step pool env c s) id mid (step-IsNumbered pool env c s h) one.there in
    (q, f, Evolves-IsLater p mid q one.evolves l)
