-- ===== src/MvpStakingPool/InUse.antt =====
-- mvp_staking_pool/src/lib.rs: the part of a stake that is in use stays in the pool.
use shelterflex_contracts.Prelude.{
  ℕ, ◌≡◌, refl, sym, ap, ◌∙◌, inl, inr, true, none, some, List, [], ◌∷◌, arith, ℕ_discrete,
  if◌then◌else◌, ==_refl, ==_ne, ◌+ℤ◌, ◌≤ℤ◌, ◌<ℤ◌, leb_ℤ, +ℤ_parts, ℤ, pos, unwrap_or, is_some,
}
use shelterflex_contracts.Host.{
  commit, state_of, >>=-elim, ok-injective, state_of_ok, Outcome, Env, ok, err, trap,
}
use shelterflex_contracts.Token.{Transfer, IsToken}
use shelterflex_contracts.MvpStakingPool.Types.{
  get_staked_balance, get_used_stake, put_used_stake, get_claimable_reward, accrue_user_rewards,
  Error, State,
}
use shelterflex_contracts.MvpStakingPool.Accrual.{accrue_ok}
use shelterflex_contracts.MvpStakingPool.Calls.{utilize_stake, claimable, claim}
use shelterflex_contracts.MvpStakingPool.Effects.{locked, utilize_ok, stake_ok, unstake_ok}
use shelterflex_contracts.MvpStakingPool.Payments.{claim_ok, fund_ok}
use shelterflex_contracts.MvpStakingPool.Machine.{
  step, run, Call, inits, sets_guardian, sets_delay, proposes, executes, emergency, stakes,
  unstakes, funds, utilizes, reads, claims, pauses, unpauses, cancels,
}
use shelterflex_contracts.MvpStakingPool.Solvency.{IsSolvent}
use shelterflex_contracts.MvpStakingPool.Runs.{
  init-IsSetting, pause-IsSetting, unpause-IsSetting, cancel-IsSetting, guardian-IsSetting,
  delay-IsSetting, propose-IsSetting, execute-IsSetting, emergency-IsSetting, AreOutside,
  step-IsSolvent, run-IsSolvent, IsSetting,
}

more_after :
    (used amount : ℤ)
    → pos 0 ≤ℤ used
    → pos 0 <ℤ amount
    → used
      ≤ℤ unwrap_or (if leb_ℤ (used +ℤ amount) (pos 0) then none else some (used +ℤ amount)) (pos 0)
more_after used amount p q = ground (arith, +ℤ_parts used amount)

module _ {T : Type 0} where
  -- No less of the stake of `u` is in use.
  abbrev UsesMore : ℕ → State T → State T → Type 0
  UsesMore u s t = get_used_stake s u ≤ℤ get_used_stake t u

  same-UsesMore : (u : ℕ) (s t : State T) → t.used_stake ≡ s.used_stake → UsesMore u s t
  unfolding get_used_stake
  same-UsesMore u s t e = rw e (omega arith)

  accrued_used :
      (user : ℕ) (s t : State T) → accrue_user_rewards user s ≡ ok t → t.used_stake ≡ s.used_stake
  accrued_used user s t h = ap (λ x. x.used_stake) (accrue_ok user s t h).kept

  utilized-UsesMore :
      (env : Env) (admin user : ℕ) (amount : ℤ) (s t : State T) (u : ℕ)
      → (pos 0 ≤ℤ get_used_stake s user)
      → utilize_stake env admin user amount s ≡ ok t
      → UsesMore u s t
  unfolding get_used_stake put_used_stake
  utilized-UsesMore env admin user amount s t u p h =
      let k = utilize_ok env admin user amount s t h in
      let same = accrued_used user s k.accrued k.is_accrued in
      rw (ap (λ x. x.used_stake) k.written, same)
        (elim (ℕ_discrete u user) [
          | yes e ↦ rw (e, ==_refl user) (more_after (get_used_stake s user) amount p k.positive)
          | no ne ↦ rw (==_ne u user ne) (omega arith)
        ])

  commit-UsesMore :
      (u : ℕ) (s : State T) (r : Outcome Error (State T))
      → ((t : State T) → r ≡ ok t → UsesMore u s t)
      → UsesMore u s (commit s r)
  commit-UsesMore u s (ok t) k = k t refl
  commit-UsesMore u s (err e) k = omega arith
  commit-UsesMore u s trap k = omega arith

  setting-UsesMore : (u : ℕ) (s t : State T) → IsSetting s t → UsesMore u s t
  setting-UsesMore u s t k = same-UsesMore u s t (ap (λ x. x.used_stake) k.written)

  module _ (transfer : Transfer T) (env : Env) (u : ℕ) (s : State T) where
    moved-UsesMore :
        (user : ℕ) (a t : State T)
        → accrue_user_rewards user (locked s) ≡ ok a
        → t.used_stake ≡ a.used_stake
        → UsesMore u s t
    moved-UsesMore user a t h e = same-UsesMore u s t (e ∙ accrued_used user (locked s) a h)

    claim-UsesMore :
        (to : ℕ) (t : State T) → state_of (claim transfer env to s) ≡ ok t → UsesMore u s t
    claim-UsesMore to t h =
        let (n, e) = state_of_ok (claim transfer env to s) h in
        let k = claim_ok transfer env to s t n e in
        moved-UsesMore to k.accrued t k.is_accrued (elim k.paid [
          | inl (z, (p, w)) ↦ ap (λ x. x.used_stake) w
          | inr (p, (q, (m, w))) ↦ ap (λ x. x.used_stake) w
        ])

    read-UsesMore : (user : ℕ) (t : State T) → state_of (claimable user s) ≡ ok t → UsesMore u s t
    unfolding claimable
    read-UsesMore user t h =
        let (n, e) = state_of_ok (claimable user s) h in
        >>=-elim (accrue_user_rewards user s) (λ a. ok (a, get_claimable_reward a user)) e
          λ a p q.
            same-UsesMore u s t
              (sym (ap (λ x. x.0.used_stake) (ok-injective q)) ∙ accrued_used user s a p)

    step-UsesMore :
        (c : Call)
        → is_some s.upgrade.admin ≡ true
        → ((user : ℕ) → pos 0 ≤ℤ get_used_stake s user)
        → UsesMore u s (step transfer env c s)
    unfolding step
    step-UsesMore (stakes user amount) v p = commit-UsesMore u s _ λ t h.
        let k = stake_ok transfer env user amount s t h in
        moved-UsesMore user k.accrued t k.is_accrued (ap (λ x. x.used_stake) k.written)
    step-UsesMore (unstakes user amount) v p = commit-UsesMore u s _ λ t h.
        let k = unstake_ok transfer env user amount s t h in
        moved-UsesMore user k.accrued t k.is_accrued (ap (λ x. x.used_stake) k.written)
    step-UsesMore (utilizes a user amount) v p =
        commit-UsesMore u s _ λ t h. utilized-UsesMore env a user amount s t u (p user) h
    step-UsesMore (funds from amount) v p = commit-UsesMore u s _ λ t h.
        same-UsesMore u s t
          (ap (λ x. x.used_stake) (fund_ok transfer env from amount s t h).written)
    step-UsesMore (reads user) v p = commit-UsesMore u s _ λ t h. read-UsesMore user t h
    step-UsesMore (claims to) v p = commit-UsesMore u s _ λ t h. claim-UsesMore to t h
    step-UsesMore (inits a token) v p = setting-UsesMore u s _ (init-IsSetting env a s token v)
    step-UsesMore (pauses a) v p = setting-UsesMore u s _ (pause-IsSetting env a s)
    step-UsesMore (unpauses a) v p = setting-UsesMore u s _ (unpause-IsSetting env a s)
    step-UsesMore (sets_guardian a g) v p = setting-UsesMore u s _ (guardian-IsSetting env a s g)
    step-UsesMore (sets_delay a n) v p = setting-UsesMore u s _ (delay-IsSetting env a s n)
    step-UsesMore (proposes a h) v p = setting-UsesMore u s _ (propose-IsSetting env a s h)
    step-UsesMore (executes a h) v p = setting-UsesMore u s _ (execute-IsSetting env a s h)
    step-UsesMore (emergency a h) v p = setting-UsesMore u s _ (emergency-IsSetting env a s h)
    step-UsesMore (cancels a) v p = setting-UsesMore u s _ (cancel-IsSetting env a s)

module _ {T : Type 0} (transfer : Transfer T) (held : T → ℕ → ℕ → ℤ) (law : IsToken transfer held)
    (pool u : ℕ) where
  run-UsesMore :
      (cs : List (Env × Call)) (s : State T)
      → AreOutside pool cs
      → IsSolvent held pool s
      → UsesMore u s (run transfer cs s)
  unfolding run
  run-UsesMore [] s o i = omega arith
  run-UsesMore ((env, c) ∷ cs) s o i =
      let j = step-IsSolvent transfer held law pool env c s o.0 o.1.0 i in
      omega (
        arith,
        step-UsesMore transfer env u s c i.sound.has_admin i.sound.used,
        run-UsesMore cs (step transfer env c s) o.1.1 j,
      )

  -- With a token whose transfers between two addresses move balances, in an MVP pool whose accounts
  -- agree, that holds what it owes and that signs for nobody, what of a stake is in use stays
  -- staked over any sequence of calls.
  pub run_in_use :
      (cs : List (Env × Call)) (s : State T)
      → AreOutside pool cs
      → IsSolvent held pool s
      → get_used_stake s u ≤ℤ get_staked_balance (run transfer cs s) u
  run_in_use cs s o i =
      omega (
        arith,
        run-UsesMore cs s o i,
        (run-IsSolvent transfer held law pool cs s o i).sound.within u,
      )
