-- ===== src/DealEscrow/Settings.antt =====
-- deal_escrow/src/lib.rs: the calls that write the settings only.
use shelterflex_contracts.Prelude.{ℕ, ◌≡◌, true, none, some, List, arith, is_some}
use shelterflex_contracts.Host.{commit, Env}
use shelterflex_contracts.Upgrade
use shelterflex_contracts.DealEscrow.Types.{get_storage_schema_version, State}
use shelterflex_contracts.DealEscrow.Funds.{init}
use shelterflex_contracts.DealEscrow.Admin.{
  configure_dispute_windows, set_resolver, migrate_storage_schema, pause, unpause, freeze,
  propose_drain, execute_drain, set_recovery_delay,
}
use shelterflex_contracts.DealEscrow.Upgrades.{
  set_guardian, set_upgrade_delay, propose_upgrade, execute_upgrade, emergency_upgrade,
  cancel_upgrade,
}

-- The upgrade keys after `init`, with no upgrade pending.
pub record IsFixed (u : Upgrade.Store) : Type 0 where
  pub has_admin : is_some u.admin ≡ true
  pub schema : u.schema_version ≡ some 3
  pub version : u.contract_version ≡ some 1
  pub none_pending : u.pending_hash ≡ none

pub record SameUpgrade (u v : Upgrade.Store) : Type 0 where
  pub same_admin : v.admin ≡ u.admin
  pub same_schema : v.schema_version ≡ u.schema_version
  pub same_version : v.contract_version ≡ u.contract_version
  pub same_pending : v.pending_hash ≡ u.pending_hash
  pub same_wasm : v.wasm ≡ u.wasm

pub SameUpgrade-IsFixed : (u v : Upgrade.Store) → SameUpgrade u v → IsFixed u → IsFixed v
SameUpgrade-IsFixed u v c i = record {
  has_admin = rw c.same_admin i.has_admin;
  schema = rw c.same_schema i.schema;
  version = rw c.same_version i.version;
  none_pending = rw c.same_pending i.none_pending;
}

module _ {T : Type 0} where
  -- The deals, the tokens and the lock stay.
  pub record SameFunds (s t : State T) : Type 0 where
    pub same_deals : t.deals ≡ s.deals
    pub same_tokens : t.tokens ≡ s.tokens
    pub same_token : t.token ≡ s.token
    pub same_lock : t.reentrancy ≡ s.reentrancy
    pub upgrade : SameUpgrade s.upgrade t.upgrade

  module _ (env : Env) (admin : ℕ) (s : State T) (i : IsFixed s.upgrade) where
    pub init-SameFunds :
        (op token receipt : ℕ) → SameFunds s (commit s (init admin op token receipt s))
    unfolding init
    init-SameFunds op token receipt = ground (arith, i.has_admin)

    pub pause-SameFunds : SameFunds s (commit s (pause env admin s))
    unfolding pause
    pause-SameFunds = ground arith

    pub unpause-SameFunds : SameFunds s (commit s (unpause env admin s))
    unfolding unpause
    unpause-SameFunds = ground arith

    pub freeze-SameFunds : SameFunds s (commit s (freeze env admin s))
    unfolding freeze
    freeze-SameFunds = ground arith

    pub configure-SameFunds :
        (w t : ℕ) → SameFunds s (commit s (configure_dispute_windows env admin w t s))
    unfolding configure_dispute_windows
    configure-SameFunds w t = ground arith

    pub set_resolver-SameFunds : (r : ℕ) → SameFunds s (commit s (set_resolver env admin r s))
    unfolding set_resolver
    set_resolver-SameFunds r = ground arith

    pub migrate-SameFunds :
        (n : ℕ) (ids : List ℕ) → SameFunds s (commit s (migrate_storage_schema env admin n ids s))
    unfolding migrate_storage_schema get_storage_schema_version
    migrate-SameFunds n ids = rw i.schema (ground arith)

    pub propose_drain-SameFunds : (h : ℕ) → SameFunds s (commit s (propose_drain env admin h s))
    unfolding propose_drain
    propose_drain-SameFunds h = ground arith

    pub execute_drain-SameFunds : (h : ℕ) → SameFunds s (commit s (execute_drain env admin h s))
    unfolding execute_drain
    execute_drain-SameFunds h = ground arith

    pub set_recovery_delay-SameFunds :
        (n : ℕ) → SameFunds s (commit s (set_recovery_delay env admin n s))
    unfolding set_recovery_delay
    set_recovery_delay-SameFunds n = ground arith

    pub set_guardian-SameFunds : (g : ℕ) → SameFunds s (commit s (set_guardian env admin g s))
    unfolding set_guardian Upgrade.set_guardian
    set_guardian-SameFunds g = ground arith

    pub set_upgrade_delay-SameFunds :
        (n : ℕ) → SameFunds s (commit s (set_upgrade_delay env admin n s))
    unfolding set_upgrade_delay Upgrade.set_upgrade_delay
    set_upgrade_delay-SameFunds n = ground arith

    pub propose_upgrade-SameFunds : (h : ℕ) → SameFunds s (commit s (propose_upgrade env admin h s))
    unfolding propose_upgrade Upgrade.propose_upgrade Upgrade.get_contract_version
        Upgrade.validate_upgrade_safety
    propose_upgrade-SameFunds h = rw (i.version, i.none_pending) (ground arith)

    pub execute_upgrade-SameFunds : (h : ℕ) → SameFunds s (commit s (execute_upgrade env admin h s))
    unfolding execute_upgrade Upgrade.execute_upgrade
    execute_upgrade-SameFunds h = rw i.none_pending (ground arith)

    pub emergency_upgrade-SameFunds :
        (h : ℕ) → SameFunds s (commit s (emergency_upgrade env admin h s))
    unfolding emergency_upgrade Upgrade.emergency_upgrade Upgrade.get_contract_version
        Upgrade.validate_upgrade_safety
    emergency_upgrade-SameFunds h = rw i.version (ground arith)

    pub cancel_upgrade-SameFunds : SameFunds s (commit s (cancel_upgrade env admin s))
    unfolding cancel_upgrade
    cancel_upgrade-SameFunds = rw i.none_pending (ground arith)
