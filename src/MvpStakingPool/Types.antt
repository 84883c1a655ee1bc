-- ===== src/MvpStakingPool/Types.antt =====
-- mvp_staking_pool/src/lib.rs: the state, the readers of the keys, the checks, and the accrual of the
-- rewards of a staker.
use shelterflex_contracts.Prelude.{
  ℕ, Bool, false, Option, none, some, if◌then◌else◌, ◌+ℤ◌, ◌-ℤ◌, ◌*ℤ◌, ◌/ℤ◌, ltb_ℤ, leb_ℤ,
  saturating_sub, ℤ, pos, unwrap_or, update, Map,
}
use shelterflex_contracts.Host.{◌>>=◌, unwrap, checked_i128, Outcome, Env, ok, err, trap}
use shelterflex_contracts.AccessControl.{require_admin_auth}
use shelterflex_contracts.Balances.{balance_at}
use shelterflex_contracts.Upgrade.{Store}
use shelterflex_contracts.Reentrancy.{enter, exit}

abbrev pub reward_index_scale : ℕ
reward_index_scale = 1000000000000

pub data Error : Type 0 where
  upgrade_already_pending no_upgrade_pending upgrade_delay_not_met not_authorized : Error
  insufficient_unused_stake utilization_exceeds_unused reentrancy_detected : Error

pub record State (T : Type 0) : Type 0 where
  pub upgrade : Store
  pub token : Option ℕ
  pub total_staked : Option ℤ
  pub paused_flag : Option Bool
  pub global_reward_index : Option ℤ
  pub staked_balance : Map ℤ
  pub used_stake : ℕ → Option ℤ
  pub user_reward_index : ℕ → Option ℤ
  pub claimable_reward : ℕ → Option ℤ
  pub reentrancy : Option Bool
  pub tokens : T

-- `panic!` where a call of this crate or of a linked one has failed.
abbrev pub or_panic : {A : Type 0} → Outcome Error A → Outcome Error A
or_panic (ok a) = ok a
or_panic (err e) = trap
or_panic trap = trap

module _ {T : Type 0} where
  unfoldable pub get_admin : State T → Outcome Error ℕ
  get_admin s = unwrap s.upgrade.admin

  unfoldable pub get_token : State T → Outcome Error ℕ
  get_token s = unwrap s.token

  unfoldable pub get_total_staked : State T → ℤ
  get_total_staked s = unwrap_or s.total_staked (pos 0)

  unfoldable pub get_global_reward_index : State T → ℤ
  get_global_reward_index s = unwrap_or s.global_reward_index (pos 0)

  unfoldable pub is_paused : State T → Bool
  is_paused s = unwrap_or s.paused_flag false

  unfoldable pub require_admin : Env → State T → Outcome Error (Unit {0})
  unfolding get_admin require_admin_auth
  require_admin env s = do admin ← get_admin s; require_admin_auth env admin

  unfoldable pub require_not_paused : State T → Outcome Error (Unit {0})
  unfolding is_paused
  require_not_paused s = if is_paused s then trap else ok tt

  unfoldable pub get_staked_balance : State T → ℕ → ℤ
  get_staked_balance s user = balance_at user s.staked_balance

  unfoldable pub get_used_stake : State T → ℕ → ℤ
  get_used_stake s user = unwrap_or (s.used_stake user) (pos 0)

  unfoldable pub put_used_stake : ℕ → ℤ → State T → State T
  put_used_stake user used s = record s {
    used_stake = update user (if leb_ℤ used (pos 0) then none else some used) s.used_stake;
  }

  unfoldable pub get_unused_stake : State T → ℕ → ℤ
  unfolding get_staked_balance get_used_stake
  get_unused_stake s user = saturating_sub (get_staked_balance s user) (get_used_stake s user)

  unfoldable pub get_user_reward_index : State T → ℕ → ℤ
  get_user_reward_index s user = unwrap_or (s.user_reward_index user) (pos 0)

  unfoldable pub get_claimable_reward : State T → ℕ → ℤ
  get_claimable_reward s user = unwrap_or (s.claimable_reward user) (pos 0)

  unfoldable pub credit_reward : ℕ → ℤ → State T → Outcome Error (State T)
  unfolding get_claimable_reward
  credit_reward user accrued s =
      if ltb_ℤ (pos 0) accrued
      then (checked_i128 (get_claimable_reward s user +ℤ accrued) >>= λ reward.
          ok (record s { claimable_reward = update user (some reward) s.claimable_reward }))
      else ok s

  unfoldable pub add_accrued : ℕ → ℤ → ℤ → ℤ → State T → Outcome Error (State T)
  unfolding credit_reward
  add_accrued user global_idx user_idx staked s =
      if ltb_ℤ (pos 0) staked
      then (do
        delta ← checked_i128 (global_idx -ℤ user_idx)
        product ← checked_i128 (staked *ℤ delta)
        credit_reward user (product /ℤ reward_index_scale) s)
      else ok s

  unfoldable pub accrue_user_rewards : ℕ → State T → Outcome Error (State T)
  unfolding get_global_reward_index get_user_reward_index get_staked_balance add_accrued
  accrue_user_rewards user s =
      let global_idx = get_global_reward_index s in
      let user_idx = get_user_reward_index s user in
      if leb_ℤ global_idx user_idx then ok s else (do
        credited ← add_accrued user global_idx user_idx (get_staked_balance s user) s
        ok (record credited {
          user_reward_index = update user (some global_idx) credited.user_reward_index;
        }))

  unfoldable pub enter_nonreentrant : State T → Outcome Error (State T)
  unfolding enter
  enter_nonreentrant s = do
    flag ← enter s.reentrancy reentrancy_detected
    ok (record s { reentrancy = flag })

  unfoldable pub exit_nonreentrant : State T → State T
  unfolding exit
  exit_nonreentrant s = record s { reentrancy = exit s.reentrancy }

unfoldable pub require_positive_amount : ℤ → Outcome Error (Unit {0})
require_positive_amount amount = if leb_ℤ amount (pos 0) then trap else ok tt
