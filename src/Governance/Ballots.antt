-- ===== src/Governance/Ballots.antt =====
-- governance/src/lib.rs: the ballots of a proposal, over one call and over runs.
use shelterflex_contracts.Prelude.{
  ℕ, ◌≡◌, refl, sym, ap, ◌∙◌, subst, ◌≢◌, inl, inr, Bool, true, false, none, some, List, [], ◌∷◌,
  arith, ℕ_discrete, if◌then◌else◌, Option-cases, ◌+ℤ◌, ℤ, int_laws, pos, is_some, update,
}
use shelterflex_contracts.Host.{commit, Outcome, Env, ok, err, trap}
use shelterflex_contracts.Governance.Types.{
  Pool, register_known_voter, snapshot_known_voter_stakes_for_proposal, get_snapshot_stake_for,
  Error, Proposal, State,
}
use shelterflex_contracts.Governance.Calls.{
  init, set_total_staked, set_staking_pool, set_voter_stake, create_proposal, vote,
  finalize_proposal, execute_proposal, cancel_proposal,
}
use shelterflex_contracts.Governance.Tally.{
  Ballots, weight_of, AllTallied, Untouched-IsTallied, vote-Untouched, admin-Untouched,
  init-Untouched, status-Untouched, create-Untouched, IsTallied,
}
use shelterflex_contracts.Governance.Machine.{
  step, Event, run, Call, inits, sets_total, sets_pool, sets_stake, creates, votes, finalizes,
  executes, cancels,
}
use shelterflex_contracts.Governance.Status.{IsNumbered}
use shelterflex_contracts.Governance.Lifecycle.{step-IsNumbered}

-- What a vote that returned did to its proposal.
pub record IsCounted (voter id : ℕ) (support : Bool) (s t : State) (p q : Proposal) : Type 0 where
  pub for_count :
      q.votes_for
      ≡ (if support then p.votes_for +ℤ get_snapshot_stake_for s id voter else p.votes_for)
  pub against_count :
      q.votes_against
      ≡ (if support then p.votes_against else p.votes_against +ℤ get_snapshot_stake_for s id voter)
  pub voted_now : t.voted id ≡ update voter (some true) (s.voted id)
  pub same_weights : t.voter_snapshot id ≡ s.voter_snapshot id
  pub was_new : is_some (s.voted id voter) ≡ false

pub vote-IsCounted :
    (env : Env) (voter id : ℕ) (support : Bool) (s t : State) (p q : Proposal)
    → s.proposals id ≡ some p
    → t.proposals id ≡ some q
    → vote env voter id support s ≡ ok t
    → IsCounted voter id support s t p q
unfolding vote get_snapshot_stake_for
vote-IsCounted env voter id true s t p q e f h = ground arith
vote-IsCounted env voter id false s t p q e f h = ground arith

swap_sum : (a b c : ℤ) → a ≡ c → a +ℤ b ≡ b +ℤ c
swap_sum a b c e = rw e (omega int_laws)

keep_sum : (a c : ℤ) → a ≡ c → a ≡ pos 0 +ℤ c
keep_sum a c e = rw e (omega int_laws)

IsCounted-IsTallied :
    (voter id : ℕ) (support : Bool) (s t : State) (p q : Proposal) (bs : Ballots)
    → IsCounted voter id support s t p q
    → IsTallied id s p bs
    → IsTallied id t q ((voter, support) ∷ bs)
unfolding weight_of get_snapshot_stake_for
IsCounted-IsTallied voter id true s t p q bs c h = record {
  for_sum =
      c.for_count
      ∙ (swap_sum _ _ _ h.for_sum)
      ∙ ap (λ w. weight_of w true ((voter, true) ∷ bs)) (sym c.same_weights);
  against_sum =
      c.against_count
      ∙ (keep_sum _ _ h.against_sum)
      ∙ ap (λ w. weight_of w false ((voter, true) ∷ bs)) (sym c.same_weights);
  recorded = λ v. rw c.voted_now (ground (arith, h.recorded v));
  distinct = (sym (h.recorded voter) ∙ c.was_new, h.distinct);
}
IsCounted-IsTallied voter id false s t p q bs c h = record {
  for_sum =
      c.for_count
      ∙ (keep_sum _ _ h.for_sum)
      ∙ ap (λ w. weight_of w true ((voter, false) ∷ bs)) (sym c.same_weights);
  against_sum =
      c.against_count
      ∙ (swap_sum _ _ _ h.against_sum)
      ∙ ap (λ w. weight_of w false ((voter, false) ∷ bs)) (sym c.same_weights);
  recorded = λ v. rw c.voted_now (ground (arith, h.recorded v));
  distinct = (sym (h.recorded voter) ∙ c.was_new, h.distinct);
}

some-injective : {A : Type 0} {a b : A} → some a ≡ some b → a ≡ b
some-injective e = cc

vote-IsTallied :
    (env : Env) (v id : ℕ) (b : Bool) (s : State) (p q : Proposal) (bs : Ballots)
    (r : Outcome Error State)
    → s.proposals id ≡ some p
    → IsTallied id s p bs
    → vote env v id b s ≡ r
    → (commit s r).proposals id ≡ some q
    → (cs : Ballots) × IsTallied id (commit s r) q cs
vote-IsTallied env v id b s p q bs (ok t) e h er f = (
  (v, b) ∷ bs,
  IsCounted-IsTallied v id b s t p q bs (vote-IsCounted env v id b s t p q e f er) h,
)
vote-IsTallied env v id b s p q bs (err _) e h er f =
    (bs, subst (λ x. IsTallied id s x bs) (some-injective (sym e ∙ f)) h)
vote-IsTallied env v id b s p q bs trap e h er f =
    (bs, subst (λ x. IsTallied id s x bs) (some-injective (sym e ∙ f)) h)

-- A proposal that was there before the call.
old-IsTallied :
    (pool : Pool) (env : Env) (c : Call) (s : State) (id : ℕ) (p q : Proposal) (bs : Ballots)
    → IsNumbered s
    → s.proposals id ≡ some p
    → (step pool env c s).proposals id ≡ some q
    → IsTallied id s p bs
    → (cs : Ballots) × IsTallied id (step pool env c s) q cs
unfolding step
old-IsTallied pool env (inits a z) s id p q bs n e f h =
    (bs, Untouched-IsTallied id p s _ q bs (init-Untouched env s id p e a z n) f h)
old-IsTallied pool env (sets_total a z) s id p q bs n e f h =
    (bs, Untouched-IsTallied id p s _ q bs (admin-Untouched env s id p e a a z).0 f h)
old-IsTallied pool env (sets_pool a b) s id p q bs n e f h =
    (bs, Untouched-IsTallied id p s _ q bs (admin-Untouched env s id p e a b (pos 0)).1 f h)
old-IsTallied pool env (sets_stake a v z) s id p q bs n e f h =
    (bs, Untouched-IsTallied id p s _ q bs (admin-Untouched env s id p e a v z).2 f h)
old-IsTallied pool env (creates a k x t) s id p q bs n e f h =
    (bs, Untouched-IsTallied id p s _ q bs (create-Untouched env s id p e pool a k x t n) f h)
old-IsTallied pool env (finalizes j) s id p q bs n e f h =
    (bs, Untouched-IsTallied id p s _ q bs (status-Untouched env s id p e j j).0 f h)
old-IsTallied pool env (executes j) s id p q bs n e f h =
    (bs, Untouched-IsTallied id p s _ q bs (status-Untouched env s id p e j j).1 f h)
old-IsTallied pool env (cancels a j) s id p q bs n e f h =
    (bs, Untouched-IsTallied id p s _ q bs (status-Untouched env s id p e a j).2 f h)
old-IsTallied pool env (votes v j b) s id p q bs n e f h = elim (ℕ_discrete id j) [
  | no ne ↦ (bs, Untouched-IsTallied id p s _ q bs (vote-Untouched env s id p e v j b ne) f h)
  | yes same ↦
      rw (← same)
        (vote-IsTallied env v id b s p q bs (vote env v id b s) e h refl (rw (← same) at f))
]

-- A proposal that the call has made: nobody has voted on its number.
new-IsTallied :
    (pool : Pool) (env : Env) (c : Call) (s : State) (id : ℕ) (q : Proposal)
    → IsNumbered s
    → s.proposals id ≡ none
    → (step pool env c s).proposals id ≡ some q
    → IsTallied id (step pool env c s) q []
unfolding step init set_total_staked set_staking_pool set_voter_stake create_proposal vote
    finalize_proposal execute_proposal cancel_proposal register_known_voter
    snapshot_known_voter_stakes_for_proposal weight_of
new-IsTallied pool env (creates a k x t) s id q n e f = record {
  for_sum = ground arith;
  against_sum = ground arith;
  recorded = λ v. ground (arith, n.voted_given_out id v);
  distinct = tt;
}
new-IsTallied pool env _ s id q n e f = absurd (ground arith)

step-AllTallied :
    (pool : Pool) (env : Env) (c : Call) (s : State)
    → IsNumbered s
    → AllTallied s
    → AllTallied (step pool env c s)
step-AllTallied pool env c s n all id q f = elim (Option-cases (s.proposals id)) [
  | inl e ↦ ([], new-IsTallied pool env c s id q n e f)
  | inr (p, e) ↦ let (bs, h) = all id p e in old-IsTallied pool env c s id p q bs n e f h
]

-- If every stored proposal is tallied, as it is where none is stored, then after any sequence of
-- calls every stored proposal is: its votes for and against are the sums of the weights that the
-- snapshot of its creation gives to a list of ballots in which no voter stands twice, and which are
-- the voters recorded as having voted.
pub run-AllTallied :
    (cs : List Event) (s : State) → IsNumbered s → AllTallied s → AllTallied (run cs s)
unfolding run
run-AllTallied [] s n all = all
run-AllTallied ((pool, env, c) ∷ cs) s n all =
    run-AllTallied cs (step pool env c s) (step-IsNumbered pool env c s n)
      (step-AllTallied pool env c s n all)

step_voted_stays :
    (pool : Pool) (env : Env) (c : Call) (s : State) (id v : ℕ)
    → is_some (s.voted id v) ≡ true
    → is_some ((step pool env c s).voted id v) ≡ true
unfolding step init set_total_staked set_staking_pool set_voter_stake create_proposal vote
    finalize_proposal execute_proposal cancel_proposal register_known_voter
    snapshot_known_voter_stakes_for_proposal
step_voted_stays pool env (inits a z) s id v h = ground arith
step_voted_stays pool env _ s id v h = ground arith

run_voted_stays :
    (cs : List Event) (s : State) (id v : ℕ)
    → is_some (s.voted id v) ≡ true
    → is_some ((run cs s).voted id v) ≡ true
unfolding run
run_voted_stays [] s id v h = h
run_voted_stays ((pool, env, c) ∷ cs) s id v h =
    run_voted_stays cs (step pool env c s) id v (step_voted_stays pool env c s id v h)

voted_refused :
    (env : Env) (v id : ℕ) (b : Bool) (s t : State)
    → is_some (s.voted id v) ≡ true
    → vote env v id b s ≢ ok t
unfolding vote
voted_refused env v id b s t h e = ground arith

vote_recorded :
    (env : Env) (v id : ℕ) (b : Bool) (s t : State)
    → vote env v id b s ≡ ok t
    → is_some (t.voted id v) ≡ true
unfolding vote
vote_recorded env v id b s t h = ground arith

-- A voter whose vote on a proposal was counted never has another one counted on it, whatever calls
-- are made in between and whichever way the second vote goes.
pub vote_once :
    (env later : Env) (v id : ℕ) (b d : Bool) (s t u : State) (cs : List Event)
    → vote env v id b s ≡ ok t
    → vote later v id d (run cs t) ≢ ok u
vote_once env later v id b d s t u cs h =
    voted_refused later v id d (run cs t) u
      (run_voted_stays cs t id v (vote_recorded env v id b s t h))
