-- ===== src/Governance/Tally.antt =====
-- governance/src/lib.rs: ballots, their weights, and the calls that touch neither.
use shelterflex_contracts.Prelude.{
  ℕ, ◌≡◌, refl, ◌≢◌, Bool, true, false, not, Option, some, List, [], ◌∷◌, arith, ◌==◌,
  if◌then◌else◌, ◌+ℤ◌, ℤ, pos, unwrap_or, is_some,
}
use shelterflex_contracts.Host.{commit, state_of, Env}
use shelterflex_contracts.Governance.Types.{Pool, Proposal, State}
use shelterflex_contracts.Governance.Calls.{
  init, set_total_staked, set_staking_pool, set_voter_stake, create_proposal, vote,
  finalize_proposal, execute_proposal, cancel_proposal,
}
use shelterflex_contracts.Governance.Status.{IsNumbered}
use shelterflex_contracts.Governance.Machine.{create-SameBallot}

-- A ballot: who voted, and whether for the proposal.
abbrev pub Ballots : Type 0
Ballots = List (ℕ × Bool)

abbrev pub has_ballot : ℕ → Ballots → Bool
has_ballot v [] = false
has_ballot v ((u, b) ∷ bs) = if v == u then true else has_ballot v bs

abbrev pub Distinct : Ballots → Type 0
Distinct [] = Unit
Distinct ((u, b) ∷ bs) = (has_ballot u bs ≡ false) × Distinct bs

abbrev pub counts : Bool → Bool → Bool
counts true b = b
counts false b = not b

-- The weights of the ballots on one side.
unfoldable pub weight_of : (ℕ → Option ℤ) → Bool → Ballots → ℤ
weight_of w side [] = pos 0
weight_of w side ((u, b) ∷ bs) =
    (if counts side b then unwrap_or (w u) (pos 0) else pos 0) +ℤ weight_of w side bs

pub record IsTallied (id : ℕ) (s : State) (p : Proposal) (bs : Ballots) : Type 0 where
  pub for_sum : p.votes_for ≡ weight_of (s.voter_snapshot id) true bs
  pub against_sum : p.votes_against ≡ weight_of (s.voter_snapshot id) false bs
  pub recorded : (v : ℕ) → is_some (s.voted id v) ≡ has_ballot v bs
  pub distinct : Distinct bs

-- Calls that leave a proposal's counts, voters and snapshot alone.
pub record Untouched (id : ℕ) (p : Proposal) (s t : State) : Type 0 where
  pub there : t.proposals id ≡ some (unwrap_or (t.proposals id) p)
  pub same_for : (unwrap_or (t.proposals id) p).votes_for ≡ p.votes_for
  pub same_against : (unwrap_or (t.proposals id) p).votes_against ≡ p.votes_against
  pub same_voted : t.voted id ≡ s.voted id
  pub same_snapshot : t.voter_snapshot id ≡ s.voter_snapshot id

-- Every stored proposal is tallied by some ballots.
abbrev pub AllTallied : State → Type 0
AllTallied s =
    (id : ℕ) (p : Proposal) → s.proposals id ≡ some p → (bs : Ballots) × IsTallied id s p bs

module _ (id : ℕ) (p : Proposal) (s t : State) where
  pub Untouched-IsTallied :
      (q : Proposal) (bs : Ballots)
      → Untouched id p s t
      → t.proposals id ≡ some q
      → IsTallied id s p bs
      → IsTallied id t q bs
  Untouched-IsTallied q bs u e h =
      let same : q ≡ unwrap_or (t.proposals id) p = rw e refl in
      record {
        for_sum = rw (same, u.same_for, u.same_snapshot) h.for_sum;
        against_sum = rw (same, u.same_against, u.same_snapshot) h.against_sum;
        recorded = λ v. rw u.same_voted (h.recorded v);
        distinct = h.distinct;
      }

module _ (env : Env) (s : State) (id : ℕ) (p : Proposal) (e : s.proposals id ≡ some p) where
  pub vote-Untouched :
      (voter j : ℕ) (support : Bool)
      → id ≢ j
      → Untouched id p s (commit s (vote env voter j support s))
  unfolding vote
  vote-Untouched voter j support ne = ground arith

  pub admin-Untouched :
      (a b : ℕ) (z : ℤ)
      → Untouched id p s (commit s (set_total_staked env a z s))
        × Untouched id p s (commit s (set_staking_pool env a b s))
        × Untouched id p s (commit s (set_voter_stake env a b z s))
  unfolding set_total_staked set_staking_pool set_voter_stake
  admin-Untouched a b z = (ground arith, ground arith, ground arith)

  pub init-Untouched : (a : ℕ) (z : ℤ) → IsNumbered s → Untouched id p s (commit s (init a z s))
  unfolding init
  init-Untouched a z h = ground (arith, h.has_admin)

  pub status-Untouched :
      (a j : ℕ)
      → Untouched id p s (commit s (state_of (finalize_proposal env j s)))
        × Untouched id p s (commit s (execute_proposal env j s))
        × Untouched id p s (commit s (cancel_proposal env a j s))
  unfolding finalize_proposal execute_proposal cancel_proposal
  status-Untouched a j = (ground arith, ground arith, ground arith)

  pub create-Untouched :
      (pool : Pool) (a k : ℕ) (n t : ℤ)
      → IsNumbered s
      → Untouched id p s (commit s (state_of (create_proposal pool env a k n t s)))
  create-Untouched pool a k n t h =
      let b =
        create-SameBallot pool env a k n t s id
          (λ q. absurd (omega (arith, h.given_out id (rw e refl)))) in
      record {
        there = rw (b.same_proposal, e);
        same_for = rw (b.same_proposal, e);
        same_against = rw (b.same_proposal, e);
        same_voted = b.same_voted;
        same_snapshot = b.same_snapshot;
      }
