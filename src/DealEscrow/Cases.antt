-- ===== src/DealEscrow/Cases.antt =====
-- deal_escrow/src/lib.rs: one case for all calls that write settings only, and one for each other.
use shelterflex_contracts.Prelude.{ℕ, ℤ}
use shelterflex_contracts.Host.{Env}
use shelterflex_contracts.Token.{Transfer}
use shelterflex_contracts.DealEscrow.Types.{SettlementOutcome, State}
use shelterflex_contracts.DealEscrow.Settings.{
  init-SameFunds, pause-SameFunds, unpause-SameFunds, freeze-SameFunds, configure-SameFunds,
  set_resolver-SameFunds, migrate-SameFunds, propose_drain-SameFunds, execute_drain-SameFunds,
  set_recovery_delay-SameFunds, set_guardian-SameFunds, set_upgrade_delay-SameFunds,
  propose_upgrade-SameFunds, execute_upgrade-SameFunds, emergency_upgrade-SameFunds,
  cancel_upgrade-SameFunds, IsFixed, SameFunds,
}
use shelterflex_contracts.DealEscrow.Machine.{
  step, Call, inits, deposits, releases, requests, challenges, resolves, settles, times_out, pauses,
  unpauses, freezes, cancels_upgrade, configures, migrates, sets_resolver, proposes_drain,
  executes_drain, sets_recovery_delay, activates, completes, defaults, sets_guardian,
  sets_upgrade_delay, proposes_upgrade, executes_upgrade, emergency,
}

module _ {T : Type 0} (transfer : Transfer T) (env : Env) (s : State T) where
  pub record Cases {ℓ} (P : Call → Type ℓ) : Type ℓ where
    pub on_settings : (c : Call) → SameFunds s (step transfer env c s) → P c
    pub on_deposit : (from id : ℕ) (amount : ℤ) → P (deposits from id amount)
    pub on_release :
        (caller id to : ℕ) (n : ℤ) (platform : ℕ) (p : ℤ) (reporter : ℕ) (r : ℤ) (ref : ℕ)
        → P (releases caller id to n platform p reporter r ref)
    pub on_request :
        (caller id to : ℕ) (amount : ℤ) (source ref : ℕ)
        → P (requests caller id to amount source ref)
    pub on_challenge : (caller id ref : ℕ) → P (challenges caller id ref)
    pub on_resolve :
        (caller id : ℕ) (outcome : SettlementOutcome) (ref : ℕ) → P (resolves caller id outcome ref)
    pub on_settle : (id : ℕ) → P (settles id)
    pub on_time_out : (id : ℕ) → P (times_out id)
    pub on_activate : (admin id : ℕ) → P (activates admin id)
    pub on_complete : (admin id : ℕ) → P (completes admin id)
    pub on_default : (admin id : ℕ) → P (defaults admin id)

  module _ (i : IsFixed s.upgrade) where
    pub by_cases {ℓ} : {P : Call → Type ℓ} → Cases P → (c : Call) → P c
    unfolding step
    by_cases k (inits admin op token receipt) =
        k.on_settings (inits admin op token receipt) (init-SameFunds env admin s i op token receipt)
    by_cases k (deposits from id amount) = k.on_deposit from id amount
    by_cases k (releases caller id to n platform p reporter r ref) =
        k.on_release caller id to n platform p reporter r ref
    by_cases k (requests caller id to amount source ref) =
        k.on_request caller id to amount source ref
    by_cases k (challenges caller id ref) = k.on_challenge caller id ref
    by_cases k (resolves caller id outcome ref) = k.on_resolve caller id outcome ref
    by_cases k (settles id) = k.on_settle id
    by_cases k (times_out id) = k.on_time_out id
    by_cases k (activates admin id) = k.on_activate admin id
    by_cases k (completes admin id) = k.on_complete admin id
    by_cases k (defaults admin id) = k.on_default admin id
    by_cases k (pauses a) = k.on_settings (pauses a) (pause-SameFunds env a s i)
    by_cases k (unpauses a) = k.on_settings (unpauses a) (unpause-SameFunds env a s i)
    by_cases k (freezes a) = k.on_settings (freezes a) (freeze-SameFunds env a s i)
    by_cases k (cancels_upgrade a) =
        k.on_settings (cancels_upgrade a) (cancel_upgrade-SameFunds env a s i)
    by_cases k (configures a w t) =
        k.on_settings (configures a w t) (configure-SameFunds env a s i w t)
    by_cases k (migrates a n ids) =
        k.on_settings (migrates a n ids) (migrate-SameFunds env a s i n ids)
    by_cases k (sets_resolver a r) =
        k.on_settings (sets_resolver a r) (set_resolver-SameFunds env a s i r)
    by_cases k (proposes_drain a h) =
        k.on_settings (proposes_drain a h) (propose_drain-SameFunds env a s i h)
    by_cases k (executes_drain a h) =
        k.on_settings (executes_drain a h) (execute_drain-SameFunds env a s i h)
    by_cases k (sets_recovery_delay a n) =
        k.on_settings (sets_recovery_delay a n) (set_recovery_delay-SameFunds env a s i n)
    by_cases k (sets_guardian a g) =
        k.on_settings (sets_guardian a g) (set_guardian-SameFunds env a s i g)
    by_cases k (sets_upgrade_delay a n) =
        k.on_settings (sets_upgrade_delay a n) (set_upgrade_delay-SameFunds env a s i n)
    by_cases k (proposes_upgrade a h) =
        k.on_settings (proposes_upgrade a h) (propose_upgrade-SameFunds env a s i h)
    by_cases k (executes_upgrade a h) =
        k.on_settings (executes_upgrade a h) (execute_upgrade-SameFunds env a s i h)
    by_cases k (emergency a h) =
        k.on_settings (emergency a h) (emergency_upgrade-SameFunds env a s i h)
