-- ===== src/Governance/Status.antt =====
-- governance/src/lib.rs: the life of a proposal under any sequence of calls.
use shelterflex_contracts.Prelude.{
  ℕ, ◌≤◌, ◌≡◌, refl, ◌⊎◌, Bool, true, some, arith, ℤ, unwrap_or, is_some,
}
use shelterflex_contracts.Host.{commit, state_of, Env}
use shelterflex_contracts.Governance.Types.{
  Pool, ProposalStatus, Proposal, State, active, passed, rejected, executed, cancelled,
}
use shelterflex_contracts.Governance.Calls.{
  init, set_total_staked, set_staking_pool, set_voter_stake, create_proposal, vote, decide,
  finalize_proposal, execute_proposal, cancel_proposal,
}
use shelterflex_contracts.Governance.Machine.{create-SameBallot}

-- Every stored proposal and every vote has a number that has been given out; once there is a count there is an
-- admin.
pub record IsNumbered (s : State) : Type 0 where
  pub has_admin : is_some s.admin ≡ true
  pub given_out : (id : ℕ) → is_some (s.proposals id) ≡ true → id ≤ unwrap_or s.proposal_count 0
  pub voted_given_out :
      (id v : ℕ) → is_some (s.voted id v) ≡ true → id ≤ unwrap_or s.proposal_count 0

-- The edges of the status diagram.
pub data Edge : ProposalStatus → ProposalStatus → Type 0 where
  pass : Edge active passed
  reject : Edge active rejected
  cancel : Edge active cancelled
  execute : Edge passed executed

-- What one call may do to a proposal: its terms stay, its votes change only while it is active and
-- stays so, and its status stays or follows an edge.
pub record Evolves (p q : Proposal) : Type 0 where
  pub same_proposer : q.proposer ≡ p.proposer
  pub same_key : q.param_key ≡ p.param_key
  pub same_value : q.proposed_value ≡ p.proposed_value
  pub same_end : q.voting_ends_at ≡ p.voting_ends_at
  pub same_snapshot : q.snapshotted_total_staked ≡ p.snapshotted_total_staked
  pub moves :
      ((q.status ≡ active) × (p.status ≡ active))
      ⊎ ((q.votes_for ≡ p.votes_for)
          × (q.votes_against ≡ p.votes_against)
          × ((q.status ≡ p.status) ⊎ Edge p.status q.status))

pub record Survives (id : ℕ) (p : Proposal) (t : State) : Type 0 where
  pub there : t.proposals id ≡ some (unwrap_or (t.proposals id) p)
  pub evolves : Evolves p (unwrap_or (t.proposals id) p)

module _ (env : Env) (s : State) (id : ℕ) (p : Proposal) (e : s.proposals id ≡ some p) where
  stays : Survives id p s
  stays = ground arith

  pub vote-Survives :
      (voter j : ℕ) (support : Bool) → Survives id p (commit s (vote env voter j support s))
  unfolding vote
  vote-Survives voter j support = ground arith

  pub cancel-Survives : (a j : ℕ) → Survives id p (commit s (cancel_proposal env a j s))
  unfolding cancel_proposal
  cancel-Survives a j = grind (arith, cancel)

  pub execute-Survives : (j : ℕ) → Survives id p (commit s (execute_proposal env j s))
  unfolding execute_proposal
  execute-Survives j = grind (arith, execute)

  decide_edge : (v q f a : ℤ) → Edge active (decide v q f a)
  unfolding decide
  decide_edge v q f a = grind (arith, pass, reject)

  pub finalize-Survives : (j : ℕ) → Survives id p (commit s (state_of (finalize_proposal env j s)))
  unfolding finalize_proposal
  finalize-Survives j = grind (arith, decide_edge)

  pub create-Survives :
      (pool : Pool) (a k : ℕ) (n t : ℤ)
      → IsNumbered s
      → Survives id p (commit s (state_of (create_proposal pool env a k n t s)))
  create-Survives pool a k n t h =
      let b =
        create-SameBallot pool env a k n t s id
          (λ q. absurd (omega (arith, h.given_out id (rw e refl)))) in
      record { there = rw (b.same_proposal, e); evolves = rw (b.same_proposal) stays.evolves }

  pub settings-Survives :
      (a b : ℕ) (z : ℤ)
      → Survives id p (commit s (set_total_staked env a z s))
        × Survives id p (commit s (set_staking_pool env a b s))
        × Survives id p (commit s (set_voter_stake env a b z s))
  unfolding set_total_staked set_staking_pool set_voter_stake
  settings-Survives a b z = (ground arith, ground arith, ground arith)

  pub init-Survives : (a : ℕ) (z : ℤ) → IsNumbered s → Survives id p (commit s (init a z s))
  unfolding init
  init-Survives a z h = ground (arith, h.has_admin)
