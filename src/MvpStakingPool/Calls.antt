-- ===== src/MvpStakingPool/Calls.antt =====
-- mvp_staking_pool/src/lib.rs: the entry points, but those that govern upgrades. Events and the time
-- to live of the entries are left out; an error or a trap leaves nothing of what a call wrote, so the
-- lock is not released before one.
use shelterflex_contracts.Prelude.{
  ℕ, true, false, not, some, ◌==◌, if◌then◌else◌, pos_part, ◌+ℤ◌, ◌-ℤ◌, ◌*ℤ◌, ◌/ℤ◌, ltb_ℤ, leb_ℤ, ℤ,
  pos, is_some, update, insert,
}
use shelterflex_contracts.Host.{
  ◌>>=◌, ◌>>◌, fail_if, unwrap, require_auth, checked_i128, Outcome, Env, ok, trap,
}
use shelterflex_contracts.AccessControl.{require_admin_permission}
use shelterflex_contracts.Pausable.{PausableError}
use shelterflex_contracts.Token.{Transfer}
use shelterflex_contracts.MvpStakingPool.Types.{
  reward_index_scale, or_panic, get_admin, get_token, get_total_staked, get_global_reward_index,
  require_admin, require_not_paused, get_staked_balance, get_used_stake, put_used_stake,
  get_unused_stake, get_claimable_reward, accrue_user_rewards, enter_nonreentrant,
  exit_nonreentrant, require_positive_amount, Error, State, not_authorized,
  insufficient_unused_stake, utilization_exceeds_unused,
}

module _ {T : Type 0} where
  unfoldable pub init : ℕ → ℕ → State T → Outcome Error (State T)
  init admin token_addr s = do
    if is_some s.upgrade.admin then trap else ok tt
    let u = s.upgrade
    ok (record s {
      upgrade = record u { admin = some admin; contract_version = some 2 };
      token = some token_addr;
      total_staked = some (pos 0);
      global_reward_index = some (pos 0);
    })

  -- What the call does once the rewards of the user are accrued, as below.
  unfoldable pub utilize_accrued : ℕ → ℤ → State T → Outcome Error (State T)
  unfolding get_unused_stake get_used_stake put_used_stake
  utilize_accrued user amount s = do
    fail_if (ltb_ℤ (get_unused_stake s user) amount) utilization_exceeds_unused
    new_used ← checked_i128 (get_used_stake s user +ℤ amount)
    ok (put_used_stake user new_used s)

  unfoldable pub utilize_stake : Env → ℕ → ℕ → ℤ → State T → Outcome Error (State T)
  unfolding get_admin require_admin_permission require_not_paused require_positive_amount
      accrue_user_rewards utilize_accrued
  utilize_stake env admin user amount s = do
    current_admin ← get_admin s
    require_admin_permission env current_admin admin not_authorized
    require_not_paused s
    require_positive_amount amount
    accrued ← accrue_user_rewards user s
    utilize_accrued user amount accrued

  unfoldable pub claimable : ℕ → State T → Outcome Error (State T × ℤ)
  unfolding accrue_user_rewards get_claimable_reward
  claimable user s = do
    accrued ← accrue_user_rewards user s
    ok (accrued, get_claimable_reward accrued user)

  unfoldable pub pause : Env → ℕ → State T → Outcome PausableError (State T)
  unfolding get_admin require_admin_permission
  pause env admin s = do
    current_admin ← unwrap s.upgrade.admin
    require_admin_permission env current_admin admin PausableError.not_authorized
    ok (record s { paused_flag = some true })

  unfoldable pub unpause : Env → ℕ → State T → Outcome PausableError (State T)
  unfolding get_admin require_admin_permission
  unpause env admin s = do
    current_admin ← unwrap s.upgrade.admin
    require_admin_permission env current_admin admin PausableError.not_authorized
    ok (record s { paused_flag = some false })

  module _ (transfer : Transfer T) where
    unfoldable pub stake_accrued : Env → ℕ → ℤ → State T → Outcome Error (State T)
    unfolding get_staked_balance get_total_staked get_token exit_nonreentrant
    stake_accrued env user amount s = do
      balance ← checked_i128 (get_staked_balance s user +ℤ amount)
      total ← checked_i128 (get_total_staked s +ℤ amount)
      token_address ← get_token s
      after ← unwrap (transfer env token_address user env.current amount s.tokens)
      ok (
          exit_nonreentrant (record s {
            staked_balance = insert user balance s.staked_balance;
            total_staked = some total;
            tokens = after;
          }))

    unfoldable pub stake : Env → ℕ → ℤ → State T → Outcome Error (State T)
    unfolding enter_nonreentrant require_not_paused require_positive_amount accrue_user_rewards
        stake_accrued
    stake env user amount s = do
      locked ← or_panic (enter_nonreentrant s)
      require_auth env user
      require_not_paused locked
      require_positive_amount amount
      accrued ← accrue_user_rewards user locked
      stake_accrued env user amount accrued

    unfoldable pub unstake_accrued : Env → ℕ → ℤ → State T → Outcome Error (State T)
    unfolding get_staked_balance get_unused_stake get_total_staked get_token exit_nonreentrant
    unstake_accrued env user amount s = do
      fail_if (ltb_ℤ (get_unused_stake s user) amount) insufficient_unused_stake
      token_address ← get_token s
      balance ← checked_i128 (get_staked_balance s user -ℤ amount)
      total ← checked_i128 (get_total_staked s -ℤ amount)
      after ← unwrap (transfer env token_address env.current user amount s.tokens)
      ok (
          exit_nonreentrant (record s {
            staked_balance = insert user balance s.staked_balance;
            total_staked = some total;
            tokens = after;
          }))

    unfoldable pub unstake : Env → ℕ → ℤ → State T → Outcome Error (State T)
    unfolding enter_nonreentrant require_not_paused require_positive_amount accrue_user_rewards
        unstake_accrued
    unstake env user amount s = do
      locked ← enter_nonreentrant s
      require_auth env user
      require_not_paused locked
      require_positive_amount amount
      accrued ← accrue_user_rewards user locked
      unstake_accrued env user amount accrued

    unfoldable pub fund_rewards : Env → ℕ → ℤ → State T → Outcome Error (State T)
    unfolding enter_nonreentrant require_admin get_admin require_not_paused require_positive_amount
        get_total_staked get_token get_global_reward_index exit_nonreentrant
    fund_rewards env from amount s = do
      locked ← or_panic (enter_nonreentrant s)
      require_admin env locked
      require_not_paused locked
      require_positive_amount amount
      admin ← get_admin locked
      if not (from == admin) then trap else ok tt
      let total = get_total_staked locked
      if leb_ℤ total (pos 0) then trap else ok tt
      token_address ← get_token locked
      after ← unwrap (transfer env token_address from env.current amount locked.tokens)
      scaled ← checked_i128 (amount *ℤ pos reward_index_scale)
      new_idx ← checked_i128 (get_global_reward_index locked +ℤ scaled /ℤ pos_part total)
      ok (exit_nonreentrant (record locked { global_reward_index = some new_idx; tokens = after }))

    unfoldable pub claim_accrued : Env → ℕ → State T → Outcome Error (State T × ℤ)
    unfolding get_claimable_reward get_token exit_nonreentrant
    claim_accrued env to s =
        let amount = get_claimable_reward s to in
        if leb_ℤ amount (pos 0) then ok (exit_nonreentrant s, pos 0) else (do
          token_address ← get_token s
          after ← unwrap (transfer env token_address env.current to amount s.tokens)
          ok (
            exit_nonreentrant (record s {
              claimable_reward = update to (some (pos 0)) s.claimable_reward;
              tokens = after;
            }),
            amount,
          ))

    unfoldable pub claim : Env → ℕ → State T → Outcome Error (State T × ℤ)
    unfolding enter_nonreentrant require_not_paused accrue_user_rewards claim_accrued
    claim env to s = do
      locked ← or_panic (enter_nonreentrant s)
      require_auth env to
      require_not_paused locked
      accrued ← accrue_user_rewards to locked
      claim_accrued env to accrued
