-- ===== src/StakingPool/Versions.antt =====
-- staking_pool/src/lib.rs: the pending upgrade, the version and the code of the pool over any sequence
-- of its calls.
use shelterflex_contracts.Prelude.{
  ℕ, not, ◌==◌, ◌+◌, ◌≤◌, ◌<◌, ◌≡◌, refl, ◌⊎◌, inl, inr, Bool, true, false, some, List, [], ◌∷◌,
  arith, unwrap_or, is_some,
}
use shelterflex_contracts.Host.{◌>>◌, fail_if, map_err, commit, Outcome, Env, ok, err, trap}
use shelterflex_contracts.Upgrade
use shelterflex_contracts.Upgrade.Machine.{call-Moves, IsCoherent}
use shelterflex_contracts.Upgrade.Machine
use shelterflex_contracts.StakingPool.Types.{Error, State, External, incompatible_state_schema}
use shelterflex_contracts.StakingPool.Upgrades.{
  as_not_authorized, propose_error, execute_error, contract_version, state_schema_version,
  with_upgrade, set_guardian, set_upgrade_delay, propose_upgrade, execute_upgrade,
  emergency_upgrade, cancel_upgrade,
}
use shelterflex_contracts.StakingPool.Calls.{init, set_admin, set_lock_period, pause, unpause}
use shelterflex_contracts.StakingPool.Staking.{set_operator, stake, unstake}
use shelterflex_contracts.StakingPool.Effects.{stake_ok, unstake_ok}
use shelterflex_contracts.StakingPool.Machine.{
  step, run, Call, inits, stakes, unstakes, sets_operator, sets_admin, sets_lock_period, pauses,
  unpauses, cancels, sets_guardian, sets_delay, executes, proposes, emergency,
}

-- What one call does: the pool stays initialised, what is pending stays coherent, the version stays
-- or goes up by one, and the code stays unless the version goes up.
record IsOneStep (u v : Upgrade.Store) : Type 0 where
  has_admin : is_some v.admin ≡ true
  coherent : IsCoherent v
  schema_kept : v.schema_version ≡ u.schema_version
  version_step :
      ((v.contract_version ≡ u.contract_version) × (v.wasm ≡ u.wasm))
      ⊎ (v.contract_version ≡ some (unwrap_or u.contract_version 0 + 1))

-- The same over a run.
pub record IsUpgraded (u v : Upgrade.Store) : Type 0 where
  pub has_admin : is_some v.admin ≡ true
  pub coherent : IsCoherent v
  pub schema_kept : v.schema_version ≡ u.schema_version
  pub version_grows : unwrap_or u.contract_version 0 ≤ unwrap_or v.contract_version 0
  pub version_or_code :
      (unwrap_or u.contract_version 0 < unwrap_or v.contract_version 0) ⊎ (v.wasm ≡ u.wasm)

module _ {T : Type 0} (s : State T) (a : is_some s.upgrade.admin ≡ true)
    (c : IsCoherent s.upgrade) where
  same-IsOneStep : (t : State T) → t.upgrade ≡ s.upgrade → IsOneStep s.upgrade t.upgrade
  same-IsOneStep t e =
      rw e (record {
        has_admin = a;
        coherent = c;
        schema_kept = refl;
        version_step = inl (refl, refl);
      })

  returned :
      (r : Outcome Error (State T))
      → ((t : State T) → r ≡ ok t → t.upgrade ≡ s.upgrade)
      → IsOneStep s.upgrade (commit s r).upgrade
  returned (ok t) k = same-IsOneStep t (k t refl)
  returned (err e) k = same-IsOneStep s refl
  returned trap k = same-IsOneStep s refl

  governed :
      (f : Upgrade.Error → Error) (r : Outcome Upgrade.Error Upgrade.Store)
      → Machine.Moves s.upgrade (commit s.upgrade r)
      → IsOneStep s.upgrade (commit s (with_upgrade s (map_err f r))).upgrade
  governed f (ok u) m = record {
    has_admin = rw m.admin_kept a;
    coherent = m.coherent;
    schema_kept = m.schema_kept;
    version_step = m.version_step;
  }
  governed f (err e) m = same-IsOneStep s refl
  governed f trap m = same-IsOneStep s refl

  -- A test that stands before a call of the linked crate.
  guarded :
      (b : Bool) (e : Error) (r : Outcome Error (State T))
      → IsOneStep s.upgrade (commit s r).upgrade
      → IsOneStep s.upgrade (commit s (fail_if b e >> r)).upgrade
  guarded true e r k = same-IsOneStep s refl
  guarded false e r k = k

  set_admin-IsOneStep :
      (env : Env) (admin new : ℕ)
      → IsOneStep s.upgrade (commit s (set_admin env admin new s)).upgrade
  unfolding set_admin
  set_admin-IsOneStep env admin new =
      ground (arith, a, c.at_together, c.version_together, c.pending_is_next)

  cancel-IsOneStep :
      (env : Env) (admin : ℕ) → IsOneStep s.upgrade (commit s (cancel_upgrade env admin s)).upgrade
  unfolding cancel_upgrade
  cancel-IsOneStep env admin =
      ground (arith, a, c.at_together, c.version_together, c.pending_is_next)

  module _ (x : External T) (env : Env) where
    step-IsOneStep : (k : Call) → IsOneStep s.upgrade (step x env k s).upgrade
    unfolding step init set_operator set_lock_period pause unpause set_guardian set_upgrade_delay
        execute_upgrade propose_upgrade emergency_upgrade Machine.call
    step-IsOneStep (inits admin token) =
        same-IsOneStep (commit s (init admin token s)) (ground (arith, a))
    step-IsOneStep (stakes from amount) =
        returned (stake x env from amount s)
          λ t h. (stake_ok x env from amount s t h).1.settings.same_upgrade
    step-IsOneStep (unstakes to amount) =
        returned (unstake x env to amount s)
          λ t h. (unstake_ok x env to amount s t h).1.settings.same_upgrade
    step-IsOneStep (sets_operator admin op) =
        same-IsOneStep (commit s (set_operator x env admin op s)) (ground arith)
    step-IsOneStep (sets_admin admin new) = set_admin-IsOneStep env admin new
    step-IsOneStep (sets_lock_period admin n) =
        same-IsOneStep (commit s (set_lock_period env admin n s)) (ground arith)
    step-IsOneStep (pauses admin) = same-IsOneStep (commit s (pause env admin s)) (ground arith)
    step-IsOneStep (unpauses admin) = same-IsOneStep (commit s (unpause env admin s)) (ground arith)
    step-IsOneStep (cancels admin) = cancel-IsOneStep env admin
    step-IsOneStep (sets_guardian admin g) =
        governed as_not_authorized (Upgrade.set_guardian env admin (some g) s.upgrade)
          (call-Moves env (Machine.sets_guardian admin (some g)) s.upgrade c)
    step-IsOneStep (sets_delay admin n) =
        governed as_not_authorized (Upgrade.set_upgrade_delay env admin n s.upgrade)
          (call-Moves env (Machine.sets_delay admin n) s.upgrade c)
    step-IsOneStep (executes admin hash) =
        governed execute_error (Upgrade.execute_upgrade env admin hash s.upgrade)
          (call-Moves env (Machine.executes admin hash) s.upgrade c)
    step-IsOneStep (proposes admin hash n) =
        let schema = state_schema_version s in
        let call = Upgrade.propose_upgrade env admin hash n (some schema) s.upgrade in
        guarded (not (schema == contract_version s)) incompatible_state_schema
          (with_upgrade s (map_err propose_error call))
          (governed propose_error call
            (call-Moves env (Machine.proposes admin hash n (some schema)) s.upgrade c))
    step-IsOneStep (emergency admin hash n) =
        let schema = state_schema_version s in
        let call = Upgrade.emergency_upgrade env admin hash n (some schema) true s.upgrade in
        guarded (not (schema == contract_version s)) incompatible_state_schema
          (with_upgrade s (map_err as_not_authorized call))
          (governed as_not_authorized call
            (call-Moves env (Machine.emergency admin hash n (some schema) true) s.upgrade c))

IsOneStep-IsUpgraded : (u v w : Upgrade.Store) → IsOneStep u v → IsUpgraded v w → IsUpgraded u w
IsOneStep-IsUpgraded u v w k m = ground (arith, m.version_or_code, m.version_grows)

module _ {T : Type 0} (x : External T) where
  -- From a staking pool with an admin in which the fields of the pending upgrade agree, any
  -- sequence of calls of the pool by anybody, its initialisation, the change of its admin and the
  -- cancelling of an upgrade among them, keeps these fields in agreement, with the pending version
  -- the next one, keeps an admin set and the schema as it was, never lowers the contract version,
  -- and leaves the code as it was unless the version has gone up.
  pub run-IsUpgraded :
      (cs : List (Env × Call)) (s : State T)
      → is_some s.upgrade.admin ≡ true
      → IsCoherent s.upgrade
      → IsUpgraded s.upgrade (run x cs s).upgrade
  unfolding run
  run-IsUpgraded [] s a c = record {
    has_admin = a;
    coherent = c;
    schema_kept = refl;
    version_grows = omega arith;
    version_or_code = inr refl;
  }
  run-IsUpgraded ((env, k) ∷ cs) s a c =
      let one = step-IsOneStep s a c x env k in
      IsOneStep-IsUpgraded _ _ _ one (run-IsUpgraded cs (step x env k s) one.has_admin one.coherent)
