-- ===== src/Slashing/Calls.antt =====
-- slashing_module/src/lib.rs: the settings, the jail, the history of the inspectors and the pause.
use shelterflex_contracts.Prelude.{
  ℕ, Bool, true, false, not, none, some, [], ◌∷◌, ◌++◌, ◌==◌, leb_ℤ, ℤ, pos, unwrap_or, is_some,
  update,
}
use shelterflex_contracts.Host.{◌>>=◌, ◌>>◌, fail_if, ok_or, require_auth, Outcome, Env, ok}
use shelterflex_contracts.Slashing.Types.{
  require_admin, require_not_paused, is_jailed, InspectorSlashRecord, Error, State,
  already_initialized, not_authorized, not_jailed, unjail_not_approved, arithmetic_error,
}

unfoldable pub init : ℕ → State → Outcome Error State
init admin s = do
  fail_if (is_some s.admin) already_initialized
  ok (record s { admin = some admin })

unfoldable pub configure_tiers : Env → ℕ → ℕ → ℕ → ℕ → ℕ → State → Outcome Error State
unfolding require_admin
configure_tiers env admin double_sign_bps downtime_bps invalid_block_bps max_slash_bps s = do
  require_admin env admin s
  ok (record s {
    tier_double_sign = some double_sign_bps;
    tier_downtime = some downtime_bps;
    tier_invalid_block = some invalid_block_bps;
    max_slash_bps = some max_slash_bps;
  })

unfoldable pub set_submitter : Env → ℕ → ℕ → Bool → State → Outcome Error State
unfolding require_admin require_not_paused
set_submitter env admin submitter enabled s = do
  require_not_paused s
  require_admin env admin s
  ok (record s { submitter = update submitter (some enabled) s.submitter })

unfoldable pub set_staked_balance : Env → ℕ → ℕ → ℤ → State → Outcome Error State
unfolding require_admin require_not_paused
set_staked_balance env admin actor balance s = do
  require_not_paused s
  require_admin env admin s
  ok (record s { staked_balance = update actor (some balance) s.staked_balance })

unfoldable pub set_challenge_window : Env → ℕ → ℕ → State → Outcome Error State
unfolding require_admin
set_challenge_window env admin window_seconds s = do
  require_admin env admin s
  ok (record s { challenge_window = some window_seconds })

unfoldable pub approve_unjail : Env → ℕ → ℕ → State → Outcome Error State
unfolding require_admin require_not_paused is_jailed
approve_unjail env admin actor s = do
  require_not_paused s
  require_admin env admin s
  fail_if (not (is_jailed s actor)) not_jailed
  ok (record s { unjail_approval = update actor (some true) s.unjail_approval })

unfoldable pub unjail : Env → ℕ → State → Outcome Error State
unfolding require_not_paused is_jailed
unjail env actor s = do
  require_not_paused s
  require_auth env actor
  fail_if (not (is_jailed s actor)) not_jailed
  fail_if (not (unwrap_or (s.unjail_approval actor) false)) unjail_not_approved
  ok (record s {
    unjail_approval = update actor none s.unjail_approval;
    jailed = update actor (some false) s.jailed;
  })

unfoldable pub set_bond_contract : Env → ℕ → ℕ → State → Outcome Error State
unfolding require_admin require_not_paused
set_bond_contract env admin bond_contract s = do
  require_not_paused s
  require_admin env admin s
  ok (record s { bond_contract = some bond_contract })

unfoldable pub slash : Env → ℕ → ℕ → ℤ → ℕ → ℕ → State → Outcome Error (State × ℤ)
unfolding require_not_paused
slash env caller inspector amount inspection_id reason s = do
  require_not_paused s
  registered ← ok_or s.bond_contract not_authorized
  fail_if (not (caller == registered)) not_authorized
  require_auth env caller
  fail_if (leb_ℤ amount (pos 0)) arithmetic_error
  let entry : InspectorSlashRecord = record {
    inspection_id = inspection_id;
    amount = amount;
    reason = reason;
    slashed_at = env.timestamp;
  }
  let history = unwrap_or (s.slash_history inspector) [] ++ entry ∷ []
  ok (record s { slash_history = update inspector (some history) s.slash_history }, amount)

unfoldable pub pause : Env → ℕ → State → Outcome Error State
unfolding require_admin
pause env admin s = do require_admin env admin s; ok (record s { paused_flag = some true })

unfoldable pub unpause : Env → ℕ → State → Outcome Error State
unfolding require_admin
unpause env admin s = do require_admin env admin s; ok (record s { paused_flag = some false })
