-- ===== src/MvpStakingPool/Tests.antt =====
-- mvp_staking_pool/src/lib.rs: the properties at concrete calls.
use shelterflex_contracts.Prelude.{
  ◌≡◌, refl, none, some, List, [], ◌∷◌, arith, ◌==◌, if◌then◌else◌, ◌+ℤ◌, ◌-ℤ◌, ◌*ℤ◌, ◌/ℤ◌, ◌≤ℤ◌,
  saturating_sub, pos,
}
use shelterflex_contracts.Host.{commit, state_of, Env, ok}
use shelterflex_contracts.Balances.{sum_balances}
use shelterflex_contracts.AccessControl.{require_admin_permission, require_admin_auth}
use shelterflex_contracts.Reentrancy.{enter, exit}
use shelterflex_contracts.Token.Wallets.{at, Wallets, transfer, held, transfer-IsToken}
use shelterflex_contracts.MvpStakingPool.Types.{
  get_admin, get_token, get_total_staked, get_global_reward_index, is_paused, require_admin,
  require_not_paused, get_staked_balance, get_used_stake, put_used_stake, get_unused_stake,
  get_user_reward_index, get_claimable_reward, credit_reward, add_accrued, accrue_user_rewards,
  enter_nonreentrant, exit_nonreentrant, require_positive_amount, State,
}
use shelterflex_contracts.MvpStakingPool.Calls.{
  utilize_accrued, utilize_stake, stake_accrued, stake, unstake_accrued, unstake, fund_rewards,
  claim_accrued, claim,
}
use shelterflex_contracts.MvpStakingPool.Machine.{
  step, run, Call, stakes, unstakes, funds, utilizes,
}
use shelterflex_contracts.MvpStakingPool.Rewards.{owed, weight}
use shelterflex_contracts.MvpStakingPool.Solvency.{IsSolvent}
use shelterflex_contracts.MvpStakingPool.Runs.{AreOutside, run-IsSolvent}
use shelterflex_contracts.MvpStakingPool.InUse.{run_in_use}
use shelterflex_contracts.MvpStakingPool.Claims.{due, claim_amount, IsPaidOut}

-- Users 3 and 4 have 500 of the token each, and the admin 1 has 100.
abbrev opened : State Wallets
opened = record {
  upgrade = record {
    admin = some 1;
    guardian = none;
    pending_hash = none;
    pending_at = none;
    pending_version = none;
    contract_version = some 2;
    upgrade_delay = none;
    schema_version = none;
    wasm = 1000;
  };
  token = some 9;
  total_staked = some (pos 0);
  paused_flag = none;
  global_reward_index = some (pos 0);
  staked_balance = [];
  used_stake = λ u. none;
  user_reward_index = λ u. none;
  claimable_reward = λ u. none;
  reentrancy = none;
  tokens = λ a.
      if a == 3 then pos 500 else if a == 4 then pos 500 else if a == 1 then pos 100 else pos 0;
}

-- Two stakes of 200 and 100, 100 in use, and rewards of 10, of which 3 and a third are for user 4.
abbrev calls : List (Env × Call)
calls =
    (at 10, stakes 3 (pos 200))
    ∷ (at 20, stakes 4 (pos 100))
    ∷ (at 30, utilizes 1 3 (pos 100))
    ∷ (at 40, funds 1 (pos 10))
    ∷ (at 50, unstakes 3 (pos 101))
    ∷ (at 60, unstakes 3 (pos 100))
    ∷ []

abbrev later : State Wallets
later = run transfer calls opened

later_test :
    (later.staked_balance ≡ (3, pos 100) ∷ (4, pos 100) ∷ [])
    × ((later.total_staked ≡ some (pos 200)) × (later.tokens 50 ≡ pos 210))
unfolding run step stake unstake utilize_stake fund_rewards stake_accrued unstake_accrued
    utilize_accrued accrue_user_rewards add_accrued credit_reward get_admin get_token
    get_total_staked get_global_reward_index is_paused require_admin require_admin_auth
    require_admin_permission require_not_paused require_positive_amount get_staked_balance
    get_used_stake put_used_stake get_unused_stake get_user_reward_index get_claimable_reward
    enter_nonreentrant exit_nonreentrant enter exit saturating_sub ◌+ℤ◌ ◌-ℤ◌ ◌*ℤ◌ ◌/ℤ◌
later_test = (refl, (refl, refl))

opened-IsSolvent : IsSolvent held 50 opened
unfolding get_staked_balance get_total_staked get_used_stake get_claimable_reward
    get_user_reward_index get_global_reward_index weight owed sum_balances ◌+ℤ◌
opened-IsSolvent = record {
  sound = record {
    has_admin = refl;
    keys = tt;
    total = refl;
    used = λ u. omega arith;
    within = λ u. omega arith;
    rewards = λ u. omega arith;
    indices = λ u. omega arith;
    behind = λ u. omega arith;
    absent = λ u n. refl;
  };
  reserve = 0;
  covers = omega arith;
  backed = omega arith;
}

calls-AreOutside : AreOutside 50 calls
calls-AreOutside = (
  refl,
  (refl, (refl, (refl, (refl, (refl, (refl, (refl, (refl, (refl, (refl, (refl, tt))))))))))),
)

run-IsSolvent_example : IsSolvent held 50 later
run-IsSolvent_example =
    run-IsSolvent transfer held transfer-IsToken 50 calls opened calls-AreOutside opened-IsSolvent

-- What the last claim of user 4 leaves.
abbrev claimed : State Wallets
claimed = commit later (state_of (claim transfer (at 70) 4 later))

claim-later : claim transfer (at 70) 4 later ≡ ok (claimed, pos 3)
unfolding run step stake unstake utilize_stake fund_rewards stake_accrued unstake_accrued
    utilize_accrued accrue_user_rewards add_accrued credit_reward get_admin get_token
    get_total_staked get_global_reward_index is_paused require_admin require_admin_auth
    require_admin_permission require_not_paused require_positive_amount get_staked_balance
    get_used_stake put_used_stake get_unused_stake get_user_reward_index get_claimable_reward
    enter_nonreentrant exit_nonreentrant enter exit saturating_sub claim claim_accrued ◌+ℤ◌ ◌-ℤ◌
    ◌*ℤ◌ ◌/ℤ◌
claim-later = refl

claim_amount_example : (pos 3 ≡ due later 4) × IsPaidOut transfer (at 70) 4 (pos 3) later claimed
claim_amount_example =
    claim_amount transfer (at 70) 4 later claimed (pos 3) run-IsSolvent_example.sound claim-later

-- User 3 cannot take out more: all that is left of the stake is in use.
abbrev last_calls : List (Env × Call)
last_calls = (at 80, unstakes 3 (pos 1)) ∷ []

run_in_use_example : get_used_stake later 3 ≤ℤ get_staked_balance (run transfer last_calls later) 3
run_in_use_example =
    run_in_use transfer held transfer-IsToken 50 3 last_calls later (refl, (refl, tt))
      run-IsSolvent_example
