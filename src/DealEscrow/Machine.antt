-- ===== src/DealEscrow/Machine.antt =====
-- deal_escrow/src/lib.rs: the contract as a state machine, one transition for each call.
use shelterflex_contracts.Prelude.{ℕ, List, [], ◌∷◌, ℤ}
use shelterflex_contracts.Host.{commit, state_of, Env}
use shelterflex_contracts.Token.{Transfer}
use shelterflex_contracts.DealEscrow.Types.{SettlementOutcome, State}
use shelterflex_contracts.DealEscrow.Funds.{init, deposit, release}
use shelterflex_contracts.DealEscrow.Releases.{
  request_rent_release, challenge_rent_release, resolve_rent_dispute, settle_rent_release_timeout,
  settle_dispute_timeout,
}
use shelterflex_contracts.DealEscrow.Admin.{
  configure_dispute_windows, set_resolver, migrate_storage_schema, pause, unpause, freeze,
  propose_drain, execute_drain, set_recovery_delay, activate_deal, complete_deal, default_deal,
}
use shelterflex_contracts.DealEscrow.Upgrades.{
  set_guardian, set_upgrade_delay, propose_upgrade, execute_upgrade, emergency_upgrade,
  cancel_upgrade,
}

-- The arguments of each call in the order of the source.
pub data Call : Type 0 where
  inits : ℕ → ℕ → ℕ → ℕ → Call
  deposits : ℕ → ℕ → ℤ → Call
  releases : ℕ → ℕ → ℕ → ℤ → ℕ → ℤ → ℕ → ℤ → ℕ → Call
  requests : ℕ → ℕ → ℕ → ℤ → ℕ → ℕ → Call
  challenges : ℕ → ℕ → ℕ → Call
  resolves : ℕ → ℕ → SettlementOutcome → ℕ → Call
  settles times_out pauses unpauses freezes cancels_upgrade : ℕ → Call
  configures : ℕ → ℕ → ℕ → Call
  migrates : ℕ → ℕ → List ℕ → Call
  sets_resolver proposes_drain executes_drain sets_recovery_delay : ℕ → ℕ → Call
  activates completes defaults : ℕ → ℕ → Call
  sets_guardian sets_upgrade_delay proposes_upgrade executes_upgrade emergency : ℕ → ℕ → Call

module _ {T : Type 0} (transfer : Transfer T) where
  unfoldable pub step : Env → Call → State T → State T
  step env (inits admin op token receipt) s = commit s (init admin op token receipt s)
  step env (deposits from id amount) s = commit s (deposit transfer env from id amount s)
  step env (releases caller id to n platform p reporter r ref) s =
      commit s (state_of (release transfer env caller id to n platform p reporter r ref s))
  step env (requests caller id to amount source ref) s =
      commit s (request_rent_release env caller id to amount source ref s)
  step env (challenges caller id ref) s = commit s (challenge_rent_release env caller id ref s)
  step env (resolves caller id outcome ref) s =
      commit s (resolve_rent_dispute transfer env caller id outcome ref s)
  step env (settles id) s = commit s (settle_rent_release_timeout transfer env id s)
  step env (times_out id) s = commit s (settle_dispute_timeout transfer env id s)
  step env (pauses admin) s = commit s (pause env admin s)
  step env (unpauses admin) s = commit s (unpause env admin s)
  step env (freezes admin) s = commit s (freeze env admin s)
  step env (cancels_upgrade admin) s = commit s (cancel_upgrade env admin s)
  step env (configures admin w t) s = commit s (configure_dispute_windows env admin w t s)
  step env (migrates admin n ids) s = commit s (migrate_storage_schema env admin n ids s)
  step env (sets_resolver admin r) s = commit s (set_resolver env admin r s)
  step env (proposes_drain admin h) s = commit s (propose_drain env admin h s)
  step env (executes_drain admin h) s = commit s (execute_drain env admin h s)
  step env (sets_recovery_delay admin n) s = commit s (set_recovery_delay env admin n s)
  step env (activates admin id) s = commit s (activate_deal env admin id s)
  step env (completes admin id) s = commit s (complete_deal env admin id s)
  step env (defaults admin id) s = commit s (default_deal env admin id s)
  step env (sets_guardian admin g) s = commit s (set_guardian env admin g s)
  step env (sets_upgrade_delay admin n) s = commit s (set_upgrade_delay env admin n s)
  step env (proposes_upgrade admin h) s = commit s (propose_upgrade env admin h s)
  step env (executes_upgrade admin h) s = commit s (execute_upgrade env admin h s)
  step env (emergency admin h) s = commit s (emergency_upgrade env admin h s)

  unfoldable pub run : List (Env × Call) → State T → State T
  run [] s = s
  run ((env, c) ∷ cs) s = run cs (step env c s)
