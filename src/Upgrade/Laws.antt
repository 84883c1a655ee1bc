-- ===== src/Upgrade/Laws.antt =====
-- soroban_upgrade_governance_core/src/lib.rs: what each call demands and does, on every branch.
use shelterflex_contracts.Prelude.{
  ℕ, ◌+◌, ◌≤◌, ◌<◌, ◌≡◌, ◌⊎◌, Bool, true, false, Option, none, some, arith, ltb, if◌then◌else◌,
  unwrap_or, is_some,
}
use shelterflex_contracts.Host.{commit, Outcome, Env, ok, err, trap}
use shelterflex_contracts.Upgrade.{
  is_older_schema, propose_upgrade, install, execute_upgrade, emergency_upgrade, set_upgrade_delay,
  set_guardian, Store, Error, upgrade_delay_not_elapsed,
}

-- What every gated call of the crate demands of its caller.
abbrev pub IsAdmin : Env → ℕ → Store → Type 0
IsAdmin env caller s = (s.admin ≡ some caller) × (env.authorized caller ≡ true)

-- The pending upgrade to `version` by the code `hash` may be executed.
pub record IsReady (env : Env) (hash version : ℕ) (s : Store) : Type 0 where
  pub hash_matches : s.pending_hash ≡ some hash
  pub version_pending : s.pending_version ≡ some version
  pub was_proposed : is_some s.pending_at ≡ true
  pub elapsed : unwrap_or s.pending_at 0 + unwrap_or s.upgrade_delay 0 ≤ env.timestamp

-- The new version is the next one, and the schema, if one is given, is no older.
pub record IsNext (version : ℕ) (schema : Option ℕ) (s : Store) : Type 0 where
  pub sequential : version ≡ unwrap_or s.contract_version 0 + 1
  pub compatible : is_older_schema schema (unwrap_or s.schema_version 1) ≡ false

-- Where `execute_upgrade` returns, the caller is the stored admin and has authorised the call, the
-- given hash is the pending one and the delay since the proposal has passed; the pending upgrade is
-- cleared, its version and code are installed, and nothing else differs from before.
pub execute_upgrade_ok :
    (env : Env) (caller hash : ℕ) (s t : Store)
    → execute_upgrade env caller hash s ≡ ok t
    → (version : ℕ) × IsAdmin env caller s
      × IsReady env hash version s
      × (t ≡ record s {
        pending_hash = none;
        pending_at = none;
        pending_version = none;
        contract_version = some version;
        wasm = hash;
      })
unfolding execute_upgrade
execute_upgrade_ok env caller hash s t h =
    (unwrap_or s.pending_version 0, ground arith, ground arith, ground arith)

-- The converse, for a time that is a u64 and a code that is uploaded.
pub execute_upgrade_total :
    (env : Env) (caller hash version : ℕ) (s : Store)
    → env.timestamp < 18446744073709551616
    → IsAdmin env caller s
    → IsReady env hash version s
    → env.uploaded hash ≡ true
    → execute_upgrade env caller hash s ≡ ok (install hash version s)
unfolding execute_upgrade
execute_upgrade_total env caller hash version s fits a r u = ground arith

-- Where `propose_upgrade` returns, the caller is the admin, nothing was pending and the version is
-- the next one; only the pending upgrade changes.
pub propose_upgrade_ok :
    (env : Env) (caller hash version : ℕ) (schema : Option ℕ) (s t : Store)
    → propose_upgrade env caller hash version schema s ≡ ok t
    → IsAdmin env caller s
      × (s.pending_hash ≡ none)
      × IsNext version schema s
      × (t ≡ record s {
        pending_hash = some hash;
        pending_at = some env.timestamp;
        pending_version = some version;
      })
unfolding propose_upgrade
propose_upgrade_ok env caller hash version schema s t h =
    (ground arith, ground arith, ground arith, ground arith)

pub propose_upgrade_total :
    (env : Env) (caller hash version : ℕ) (schema : Option ℕ) (s : Store)
    → version < 4294967296
    → IsAdmin env caller s
    → s.pending_hash ≡ none
    → IsNext version schema s
    → propose_upgrade env caller hash version schema s
      ≡ ok (record s {
        pending_hash = some hash;
        pending_at = some env.timestamp;
        pending_version = some version;
      })
unfolding propose_upgrade
propose_upgrade_total env caller hash version schema s fits a empty n = ground arith

-- After a proposal that returned, and if neither time overflows a u64, the execution of the
-- proposed code by the caller with authorisation is refused up to the end of the upgrade delay, and
-- from then on traps if the host does not have the proposed code uploaded, and else installs
-- exactly the proposed code and version.
pub propose-execute :
    (at later : Env) (caller hash version : ℕ) (schema : Option ℕ) (s t : Store)
    → later.timestamp < 18446744073709551616
    → at.timestamp + unwrap_or s.upgrade_delay 0 < 18446744073709551616
    → later.authorized caller ≡ true
    → propose_upgrade at caller hash version schema s ≡ ok t
    → execute_upgrade later caller hash t ≡ (
        if ltb later.timestamp (at.timestamp + unwrap_or s.upgrade_delay 0)
        then err upgrade_delay_not_elapsed
        else if later.uploaded hash
        then ok (install hash version s)
        else trap)
unfolding propose_upgrade execute_upgrade
propose-execute at later caller hash version schema s t fits fits' auth h = ground arith

-- Where `emergency_upgrade` returns, the caller is the stored admin and has authorised the call,
-- the version is the next one and the schema, if given, is no older, and the guardian, who must
-- exist if one is required, has authorised the call too; the code and version are installed and the
-- pending upgrade is cleared.
pub emergency_upgrade_ok :
    (env : Env) (caller hash version : ℕ) (schema : Option ℕ) (required : Bool) (s t : Store)
    → emergency_upgrade env caller hash version schema required s ≡ ok t
    → IsAdmin env caller s
      × IsNext version schema s
      × (((g : ℕ) × (s.guardian ≡ some g) × (env.authorized g ≡ true))
          ⊎ ((required ≡ false) × (s.guardian ≡ none)))
      × (t ≡ install hash version s)
unfolding emergency_upgrade
emergency_upgrade_ok env caller hash version schema required s t h =
    (ground arith, ground arith, ground arith, ground arith)

-- No call of the crate changes the admin.
pub record KeepsAdmin (s : Store) (r : Outcome Error Store) : Type 0 where
  pub admin_kept : (commit s r).admin ≡ s.admin

module _ (env : Env) (a n : ℕ) (s : Store) where
  pub set_guardian-KeepsAdmin : (g : Option ℕ) → KeepsAdmin s (set_guardian env a g s)
  unfolding set_guardian
  set_guardian-KeepsAdmin g = ground arith

  pub set_upgrade_delay-KeepsAdmin : KeepsAdmin s (set_upgrade_delay env a n s)
  unfolding set_upgrade_delay
  set_upgrade_delay-KeepsAdmin = ground arith

  pub execute_upgrade-KeepsAdmin : KeepsAdmin s (execute_upgrade env a n s)
  unfolding execute_upgrade
  execute_upgrade-KeepsAdmin = ground arith

  pub propose_upgrade-KeepsAdmin :
      (v : ℕ) (schema : Option ℕ) → KeepsAdmin s (propose_upgrade env a n v schema s)
  unfolding propose_upgrade
  propose_upgrade-KeepsAdmin v schema = ground arith

  pub emergency_upgrade-KeepsAdmin :
      (v : ℕ) (schema : Option ℕ) (required : Bool)
      → KeepsAdmin s (emergency_upgrade env a n v schema required s)
  unfolding emergency_upgrade
  emergency_upgrade-KeepsAdmin v schema required = ground arith
