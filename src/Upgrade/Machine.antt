-- ===== src/Upgrade/Machine.antt =====
-- soroban_upgrade_governance_core/src/lib.rs: any sequence of calls, each in an environment of its
-- own. A call that fails leaves the state as it was.
use shelterflex_contracts.Prelude.{
  ℕ, ◌+◌, ◌≤◌, ◌<◌, ◌≡◌, ◌⊎◌, Bool, Option, none, some, List, [], ◌∷◌, arith, unwrap_or, is_some,
}
use shelterflex_contracts.Host.{commit, Outcome, Env}
use shelterflex_contracts.Upgrade.{
  propose_upgrade, execute_upgrade, emergency_upgrade, set_upgrade_delay, set_guardian, Store,
  Error,
}

pub data Call : Type 0 where
  proposes : ℕ → ℕ → ℕ → Option ℕ → Call
  executes : ℕ → ℕ → Call
  emergency : ℕ → ℕ → ℕ → Option ℕ → Bool → Call
  sets_delay : ℕ → ℕ → Call
  sets_guardian : ℕ → Option ℕ → Call

unfoldable pub call : Env → Call → Store → Outcome Error Store
call env (proposes a hash version schema) s = propose_upgrade env a hash version schema s
call env (executes a hash) s = execute_upgrade env a hash s
call env (emergency a hash version schema required) s =
    emergency_upgrade env a hash version schema required s
call env (sets_delay a delay) s = set_upgrade_delay env a delay s
call env (sets_guardian a guardian) s = set_guardian env a guardian s

pub run : List (Env × Call) → Store → Store
run [] s = s
run ((env, c) ∷ cs) s = run cs (commit s (call env c s))

-- The pending fields stand together, and the pending version is the next one.
pub record IsCoherent (s : Store) : Type 0 where
  pub at_together : is_some s.pending_at ≡ is_some s.pending_hash
  pub version_together : is_some s.pending_version ≡ is_some s.pending_hash
  pub pending_is_next :
      (s.pending_hash ≡ none) ⊎ (s.pending_version ≡ some (unwrap_or s.contract_version 0 + 1))

-- One call of the crate: what is pending stays coherent, the version stays or goes up by one, and
-- the code stays unless the version goes up.
pub record Moves (s t : Store) : Type 0 where
  pub coherent : IsCoherent t
  pub admin_kept : t.admin ≡ s.admin
  pub schema_kept : t.schema_version ≡ s.schema_version
  pub version_step :
      ((t.contract_version ≡ s.contract_version) × (t.wasm ≡ s.wasm))
      ⊎ (t.contract_version ≡ some (unwrap_or s.contract_version 0 + 1))

pub call-Moves :
    (env : Env) (c : Call) (s : Store) → IsCoherent s → Moves s (commit s (call env c s))
unfolding call propose_upgrade execute_upgrade emergency_upgrade set_upgrade_delay set_guardian
call-Moves env (proposes a hash version schema) s h = ground arith
call-Moves env (executes a hash) s h = ground arith
call-Moves env (emergency a hash version schema required) s h = ground arith
call-Moves env (sets_delay a delay) s h = ground arith
call-Moves env (sets_guardian a guardian) s h = ground arith

-- What a run does: the pending upgrade stays coherent, and the version goes up or the code stays.
pub record Evolves (s t : Store) : Type 0 where
  pub coherent : IsCoherent t
  pub version_grows : unwrap_or s.contract_version 0 ≤ unwrap_or t.contract_version 0
  pub version_or_code :
      (unwrap_or s.contract_version 0 < unwrap_or t.contract_version 0) ⊎ (t.wasm ≡ s.wasm)
  pub admin_fixed : t.admin ≡ s.admin

Moves-Evolves : (s t u : Store) → Moves s t → Evolves t u → Evolves s u
Moves-Evolves s t u m e = ground (arith, e.version_or_code, e.version_grows)

-- From a state in which the fields of the pending upgrade agree, any sequence of these calls by anybody
-- keeps them in agreement, with the pending version the next one, keeps the admin, never lowers the
-- contract version, and leaves the code as it was unless the version has gone up.
pub run-Evolves : (cs : List (Env × Call)) (s : Store) → IsCoherent s → Evolves s (run cs s)
unfolding run
run-Evolves [] s h = ground arith
run-Evolves ((env, c) ∷ cs) s h =
    Moves-Evolves s (commit s (call env c s)) (run cs (commit s (call env c s)))
      (call-Moves env c s h)
      (run-Evolves cs (commit s (call env c s)) (call-Moves env c s h).coherent)
