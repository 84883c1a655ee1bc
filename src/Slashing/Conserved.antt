-- ===== src/Slashing/Conserved.antt =====
-- slashing_module/src/lib.rs: the stake of an actor and what was slashed of it.
use shelterflex_contracts.Prelude.{
  ℕ, ◌≡◌, refl, sym, ◌∙◌, subst, ◌≢◌, inl, inr, true, List, [], ◌∷◌, ℕ_discrete, ==_refl, ==_ne,
  ◌+ℤ◌, ◌-ℤ◌, eq_of_parts, ℤ, int_laws,
}
use shelterflex_contracts.Host.{commit, state_of, state_of_ok, Outcome, Env, ok, err, trap}
use shelterflex_contracts.Slashing.Types.{
  get_staked_balance, get_total_slashed, Offence, Error, State,
}
use shelterflex_contracts.Slashing.Evidence.{submit_evidence, reveal_evidence, propose_slash}
use shelterflex_contracts.Slashing.Finality.{cancel_slash}
use shelterflex_contracts.Slashing.Effects.{submit_ok, propose_ok, reveal_ok, IsCreated}
use shelterflex_contracts.Slashing.Reduction.{taken, IsReduced}
use shelterflex_contracts.Slashing.Resolution.{finalize_slash-IsFinalized, IsFinalized}
use shelterflex_contracts.Slashing.Cancellation.{cancel_ok}
use shelterflex_contracts.Slashing.Machine.{step, run, Call}
use shelterflex_contracts.Slashing.Cases.{keeps_stakes, by_cases, IsQuiet}

-- What the actor has staked and what was slashed, together.
unfoldable pub stake_and_slashed : ℕ → State → ℤ
stake_and_slashed actor s = get_staked_balance s actor +ℤ get_total_slashed s actor

-- No call of the sequence writes a staked balance by hand.
unfoldable pub KeepStakes : List (Env × Call) → Type 0
KeepStakes [] = Unit {0}
KeepStakes ((env, c) ∷ cs) = (keeps_stakes c ≡ true) × KeepStakes cs

module _ (actor : ℕ) where
  same_stakes :
      (s t : State)
      → t.staked_balance ≡ s.staked_balance
      → t.slashed_amount ≡ s.slashed_amount
      → stake_and_slashed actor t ≡ stake_and_slashed actor s
  unfolding stake_and_slashed get_staked_balance get_total_slashed
  same_stakes s t p q = rw (p, q) refl

  moved : (a b c : ℤ) → (a -ℤ c) +ℤ (b +ℤ c) ≡ a +ℤ b
  moved a b c = eq_of_parts _ _ (omega int_laws)

  reduced_own :
      (amount : ℤ) (s t : State)
      → IsReduced actor amount s t
      → stake_and_slashed actor t ≡ stake_and_slashed actor s
  unfolding stake_and_slashed get_staked_balance get_total_slashed
  reduced_own amount s t c =
      rw (c.staked, c.slashed, ==_refl actor)
        (moved (get_staked_balance s actor) (get_total_slashed s actor) (taken actor amount s))

  reduced_other :
      (who : ℕ) (amount : ℤ) (s t : State)
      → actor ≢ who
      → IsReduced who amount s t
      → stake_and_slashed actor t ≡ stake_and_slashed actor s
  unfolding stake_and_slashed get_staked_balance get_total_slashed
  reduced_other who amount s t ne c = rw (c.staked, c.slashed, ==_ne actor who ne) refl

  reduced_stakes :
      (who : ℕ) (amount : ℤ) (s t : State)
      → IsReduced who amount s t
      → stake_and_slashed actor t ≡ stake_and_slashed actor s
  reduced_stakes who amount s t c = elim (ℕ_discrete actor who) [
    | no ne ↦ reduced_other who amount s t ne c
    | yes e ↦ reduced_own amount s t (subst (λ a. IsReduced a amount s t) (sym e) c)
  ]

  finalized_stakes :
      (env : Env) (a id : ℕ) (s t : State)
      → IsFinalized env a id s t
      → stake_and_slashed actor t ≡ stake_and_slashed actor s
  finalized_stakes env a id s t c = elim c.reduced [
    | inl r ↦ reduced_stakes c.pending.actor c.pending.amount s t r
    | inr r ↦ same_stakes s t r.0 r.1
  ]

  by_outcome :
      (s : State) (r : Outcome Error State)
      → ((t : State) → r ≡ ok t → stake_and_slashed actor t ≡ stake_and_slashed actor s)
      → stake_and_slashed actor (commit s r) ≡ stake_and_slashed actor s
  by_outcome s (ok t) k = k t refl
  by_outcome s (err e) k = refl
  by_outcome s trap k = refl

  module _ (hash : List ℕ → ℕ) where
    created_stakes :
        (env : Env) (who : ℕ) (s t : State)
        → IsCreated env who s t
        → stake_and_slashed actor t ≡ stake_and_slashed actor s
    created_stakes env who s t c = same_stakes s t c.same_staked c.same_slashed

    quiet_stakes :
        (env : Env) (s : State) (c : Call)
        → IsQuiet hash env s c
        → keeps_stakes c ≡ true
        → stake_and_slashed actor (step hash env c s) ≡ stake_and_slashed actor s
    quiet_stakes env s c q keep = elim q.stakes [
      | inl e ↦ absurd (cc (keep, e))
      | inr k ↦ same_stakes s (step hash env c s) k.same_staked k.same_slashed
    ]

    submitted_stakes :
        (env : Env) (a commitment who : ℕ) (kind : Offence) (s t : State)
        → state_of (submit_evidence env a commitment who kind s) ≡ ok t
        → stake_and_slashed actor t ≡ stake_and_slashed actor s
    submitted_stakes env a commitment who kind s t h =
        let (id, e) = state_of_ok (submit_evidence env a commitment who kind s) h in
        created_stakes env who s t (submit_ok env a commitment who kind s t id e).created

    proposed_stakes :
        (env : Env) (a who bps : ℕ) (s t : State)
        → state_of (propose_slash env a who bps s) ≡ ok t
        → stake_and_slashed actor t ≡ stake_and_slashed actor s
    proposed_stakes env a who bps s t h =
        let (id, e) = state_of_ok (propose_slash env a who bps s) h in
        created_stakes env who s t (propose_ok env a who bps s t id e).created

    revealed_stakes :
        (env : Env) (a id : ℕ) (evidence salt : List ℕ) (s t : State)
        → reveal_evidence hash env a id evidence salt s ≡ ok t
        → stake_and_slashed actor t ≡ stake_and_slashed actor s
    revealed_stakes env a id evidence salt s t h =
        let c = reveal_ok hash env a id evidence salt s t h in
        same_stakes s t c.same_staked c.same_slashed

    cancelled_stakes :
        (env : Env) (a id : ℕ) (s t : State)
        → cancel_slash env a id s ≡ ok t
        → stake_and_slashed actor t ≡ stake_and_slashed actor s
    cancelled_stakes env a id s t h =
        let c = cancel_ok env a id s t h in same_stakes s t c.same_staked c.same_slashed

    step_stakes :
        (env : Env) (s : State) (c : Call)
        → keeps_stakes c ≡ true
        → stake_and_slashed actor (step hash env c s) ≡ stake_and_slashed actor s
    unfolding step
    step_stakes env s c =
        by_cases hash env s
          {P = λ k.
            keeps_stakes k ≡ true
            → stake_and_slashed actor (step hash env k s) ≡ stake_and_slashed actor s}
          (record {
            on_quiet = quiet_stakes env s;
            on_submit = λ a commitment who kind keep.
                by_outcome s _ (submitted_stakes env a commitment who kind s);
            on_reveal = λ a id evidence salt keep.
                by_outcome s _ (revealed_stakes env a id evidence salt s);
            on_propose = λ a who bps keep. by_outcome s _ (proposed_stakes env a who bps s);
            on_finalize = λ a id keep.
                by_outcome s _
                  λ t h. finalized_stakes env a id s t (finalize_slash-IsFinalized env a id s t h);
            on_cancel = λ a id keep. by_outcome s _ (cancelled_stakes env a id s);
          })
          c

    -- Over any sequence of calls that writes no staked balance by hand, the sum of an actor's stake
    -- and of what was slashed of it stays the same.
    pub run_stakes :
        (cs : List (Env × Call)) (s : State)
        → KeepStakes cs
        → stake_and_slashed actor (run hash cs s) ≡ stake_and_slashed actor s
    unfolding run KeepStakes
    run_stakes [] s keep = refl
    run_stakes ((env, c) ∷ cs) s keep =
        run_stakes cs (step hash env c s) keep.1 ∙ step_stakes env s c keep.0
