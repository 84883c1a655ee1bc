-- ===== src/Governance/Runs.antt =====
-- governance/src/lib.rs: runs of a contract that has just been initialised.
use shelterflex_contracts.Prelude.{ℕ, ◌≡◌, ◌≢◌, none, some, List, [], ◌∷◌, arith, ℤ}
use shelterflex_contracts.Host.{ok}
use shelterflex_contracts.Governance.Types.{Proposal, State, active}
use shelterflex_contracts.Governance.Calls.{init}
use shelterflex_contracts.Governance.Machine.{step, Event, run}
use shelterflex_contracts.Governance.Status.{IsNumbered}
use shelterflex_contracts.Governance.Lifecycle.{
  step-IsNumbered, run-IsLater, StatusPath, HasTerms, IsLater,
}
use shelterflex_contracts.Governance.Tally.{Ballots, AllTallied, IsTallied}
use shelterflex_contracts.Governance.Ballots.{run-AllTallied}

-- Storage without proposals and votes.
pub record IsFresh (s : State) : Type 0 where
  pub no_proposal : (id : ℕ) → s.proposals id ≡ none
  pub no_vote : (id v : ℕ) → s.voted id v ≡ none

fresh-IsNumbered : (a : ℕ) (z : ℤ) (s t : State) → IsFresh s → init a z s ≡ ok t → IsNumbered t
unfolding init
fresh-IsNumbered a z s t f h = record {
  has_admin = ground arith;
  given_out = λ id e. ground (arith, f.no_proposal id);
  voted_given_out = λ id v e. ground (arith, f.no_vote id v);
}

fresh-AllTallied : (a : ℕ) (z : ℤ) (s t : State) → IsFresh s → init a z s ≡ ok t → AllTallied t
unfolding init
fresh-AllTallied a z s t f h id p e = absurd (ground (arith, f.no_proposal id))

run-IsNumbered : (cs : List Event) (s : State) → IsNumbered s → IsNumbered (run cs s)
unfolding run
run-IsNumbered [] s n = n
run-IsNumbered ((pool, env, c) ∷ cs) s n =
    run-IsNumbered cs (step pool env c s) (step-IsNumbered pool env c s n)

module _ (a : ℕ) (z : ℤ) (s t : State) (f : IsFresh s) (h : init a z s ≡ ok t) where
  -- After the initialisation of a contract without proposals and votes, and any sequence of calls,
  -- the votes for and against a stored proposal are the sums of the weights that the snapshot of
  -- its creation gives to a list of ballots in which no voter stands twice, and whose voters are
  -- those recorded as having voted.
  pub run-IsTallied :
      (cs : List Event) (id : ℕ) (p : Proposal)
      → (run cs t).proposals id ≡ some p
      → (bs : Ballots) × IsTallied id (run cs t) p bs
  run-IsTallied cs id p e =
      run-AllTallied cs t (fresh-IsNumbered a z s t f h) (fresh-AllTallied a z s t f h) id p e

  module _ (before after : List Event) (id : ℕ) (p : Proposal)
      (e : (run before t).proposals id ≡ some p) where
    later : (q : Proposal) × ((run after (run before t)).proposals id ≡ some q) × IsLater p q
    later =
        run-IsLater after (run before t) id p
          (run-IsNumbered before t (fresh-IsNumbered a z s t f h)) e

    -- After the initialisation of a contract without proposals and votes, a proposal that is stored
    -- at some point is stored under its number after any further calls, with the proposer, the
    -- parameter, the value, the end of voting and the total that it was created with, and its
    -- status has only followed the edges from active to passed, rejected or cancelled and from
    -- passed to executed.
    pub run-HasTerms :
        (q : Proposal) × ((run after (run before t)).proposals id ≡ some q)
        × HasTerms p q
        × StatusPath p.status q.status
    run-HasTerms = let (q, g, l) = later in (q, g, l.terms, l.path)

    -- After the initialisation of a contract without proposals and votes, the votes of a stored
    -- proposal that is not active stay the same after any further calls.
    pub run-votes_final :
        p.status ≢ active
        → (q : Proposal) × ((run after (run before t)).proposals id ≡ some q)
          × (q.votes_for ≡ p.votes_for)
          × (q.votes_against ≡ p.votes_against)
    run-votes_final ne = let (q, g, l) = later in (q, g, (l.votes_final ne).0, (l.votes_final ne).1)
