-- ===== src/StakingPool/Tests.antt =====
-- staking_pool/src/lib.rs: the properties at concrete calls.
use shelterflex_contracts.StakingPool.Versions.{IsUpgraded, run-IsUpgraded}
use shelterflex_contracts.Upgrade
use shelterflex_contracts.Upgrade.Machine.{IsCoherent}
use shelterflex_contracts.StakingPool.Upgrades.{
  propose_upgrade, execute_upgrade, cancel_upgrade, contract_version, state_schema_version,
}
use shelterflex_contracts.Prelude.{
  ℕ, ◌≡◌, refl, false, none, some, [], ◌∷◌, arith, ◌+ℤ◌, ◌-ℤ◌, ◌≤ℤ◌, int_laws, pos, update, inl,
  List,
}
use shelterflex_contracts.Host.{ok, err, Env}
use shelterflex_contracts.StakingPool.Types.{
  get_staked_balance, get_total_staked, get_lock_period, get_deposit_count, is_paused, get_admin,
  get_token, get_operator, State, tokens_locked,
}
use shelterflex_contracts.StakingPool.Deposits.Amounts.{amount_of, free_amount, sum_from}
use shelterflex_contracts.StakingPool.Calls.{
  require_valid_amount, require_not_paused, require_admin, init,
}
use shelterflex_contracts.StakingPool.Invariant.{init-IsValid, IsValid}
use shelterflex_contracts.StakingPool.Machine.{
  run, run-IsValid, step, Call, proposes, cancels, executes,
}
use shelterflex_contracts.StakingPool.Solvency.{surplus, stake-surplus, unstake-surplus}
use shelterflex_contracts.AccessControl.{require_admin_permission}
use shelterflex_contracts.Reentrancy.{enter, exit}
use shelterflex_contracts.StakingPool.Deposits.{
  is_unlocked, add_unlocked, unlocked_from, take_unlocked, take_deposit, take_at, take_from,
}
use shelterflex_contracts.StakingPool.Deposits.Unlocked.{InTime, unlocked_from_total}
use shelterflex_contracts.StakingPool.Staking.{
  set_operator, require_user_or_operator, stake, unstake,
}
use shelterflex_contracts.StakingPool.Effects.{stake_ok, IsAllowed, Staked}
use shelterflex_contracts.StakingPool.Payouts.{
  unlocked_amount, unstake-IsPaidOut, unstake-locked_stay, unstake-other_deposits, IsSane,
  unstake-TokensLocked, unstake_returns, IsPaidOut, Passes,
}
use shelterflex_contracts.StakingPool.Frozen.{set_operator-IsFrozen, IsFrozen}
use shelterflex_contracts.StakingPool.Fixture.{
  at, Wallets, move, ledger, held, ledger-MovesTokens, blank, blank-IsFresh, two_deposits, staked,
  staked-IsValid, calls,
}

init-IsValid_test : (t : State Wallets) × (init 1 9 blank ≡ ok t) × IsValid t
init-IsValid_test = init-IsValid 1 9 blank blank-IsFresh

run-IsValid_example : IsValid (run ledger calls staked)
run-IsValid_example = run-IsValid ledger calls staked staked-IsValid

-- The state after user 2 has taken out 70 at time 100, all of it from the first deposit.
abbrev after_unstake : State Wallets
after_unstake = record staked {
  staked_balance = (2, pos 80) ∷ [];
  total_staked = some (pos 80);
  deposits =
      update 2 (update 0 (some (record { amount = pos 30; timestamp = 10 })) two_deposits)
        staked.deposits;
  reentrancy = some false;
  tokens = move 50 2 (pos 70) staked.tokens;
}

unstake_test : unstake ledger (at 100) 2 (pos 70) staked ≡ ok after_unstake
unfolding unstake require_not_paused require_user_or_operator require_valid_amount unlocked_from
    take_from take_at take_unlocked add_unlocked is_unlocked take_deposit get_operator is_paused
    get_token enter exit get_staked_balance get_total_staked get_deposit_count get_lock_period ◌+ℤ◌
    ◌-ℤ◌
unstake_test = refl

unstake-IsPaidOut_example : IsPaidOut (at 100) 2 (pos 70) staked after_unstake
unstake-IsPaidOut_example =
    unstake-IsPaidOut ledger (at 100) 2 (pos 70) staked after_unstake staked-IsValid unstake_test

unstake-locked_stay_example :
    after_unstake.deposits 2 1 ≡ some (record { amount = pos 50; timestamp = 80 })
unfolding get_lock_period
unstake-locked_stay_example =
    unstake-locked_stay ledger (at 100) 2 (pos 70) staked after_unstake 2 1
      (record { amount = pos 50; timestamp = 80 }) staked-IsValid unstake_test refl refl

unstake-other_deposits_test : after_unstake.deposits 3 ≡ staked.deposits 3
unstake-other_deposits_test =
    unstake-other_deposits ledger (at 100) 2 (pos 70) staked after_unstake 3 (omega arith)
      unstake_test

staked-IsSane : IsSane 2 staked
unfolding get_lock_period
staked-IsSane j = ground arith

staked-Passes : (time : ℕ) → Passes ledger (at time) 2 staked
unfolding require_not_paused require_user_or_operator get_operator is_paused
staked-Passes time = record { running = refl; spender = 2; authorised = refl }

balance_test : get_staked_balance staked 2 ≡ pos 150
unfolding get_staked_balance
balance_test = refl

unlocked_test : unlocked_amount 100 2 staked ≡ pos 100
unfolding unlocked_amount get_deposit_count get_lock_period sum_from ◌+ℤ◌
unlocked_test = refl

unstake-TokensLocked_example : unstake ledger (at 100) 2 (pos 101) staked ≡ err tokens_locked
unstake-TokensLocked_example =
    unstake-TokensLocked ledger (at 100) 2 (pos 101) staked staked-IsValid staked-IsSane
      (rw balance_test (omega arith)) (staked-Passes 100) (omega arith)
      (rw balance_test (omega arith)) (rw unlocked_test (omega arith))

total_test : get_total_staked staked ≡ pos 150
unfolding get_total_staked
total_test = refl

unstake_returns_example : (t : State Wallets) × (unstake ledger (at 100) 2 (pos 100) staked ≡ ok t)
unstake_returns_example =
    unstake_returns ledger (at 100) 2 (pos 100) staked staked-IsValid staked-IsSane
      (rw balance_test (omega arith)) (staked-Passes 100) (omega arith)
      (rw balance_test (omega arith)) (rw unlocked_test (omega arith)) (rw total_test (omega arith))
      9 (move 50 2 (pos 100) staked.tokens) refl refl

abbrev after_stake : State Wallets
after_stake = record staked {
  staked_balance = (2, pos 170) ∷ [];
  total_staked = some (pos 170);
  deposit_count = update 2 (some 3) staked.deposit_count;
  deposits =
      update 2 (update 2 (some (record { amount = pos 20; timestamp = 90 })) two_deposits)
        staked.deposits;
  reentrancy = some false;
  tokens = move 2 50 (pos 20) staked.tokens;
}

stake_test : stake ledger (at 90) 2 (pos 20) staked ≡ ok after_stake
unfolding stake require_not_paused require_user_or_operator require_valid_amount get_operator
    is_paused get_token enter exit get_staked_balance get_total_staked get_deposit_count ◌+ℤ◌ ◌-ℤ◌
stake_test = refl

stake_ok_test :
    IsAllowed ledger (at 90) 2 staked × Staked ledger (at 90) 2 (pos 20) staked after_stake
stake_ok_test = stake_ok ledger (at 90) 2 (pos 20) staked after_stake stake_test

stake-surplus_test : surplus ledger held 50 after_stake ≡ surplus ledger held 50 staked
stake-surplus_test =
    stake-surplus ledger held ledger-MovesTokens (at 90) 2 (pos 20) staked after_stake (omega arith)
      stake_test

unstake-surplus_test : surplus ledger held 50 after_unstake ≡ surplus ledger held 50 staked
unstake-surplus_test =
    unstake-surplus ledger held ledger-MovesTokens (at 100) 2 (pos 70) staked after_unstake
      (omega arith) unstake_test

-- The admin clears the operator, and the pool is frozen.
abbrev cleared_state : State Wallets
cleared_state = record staked { operator = some none }

clear_test : set_operator ledger (at 100) 1 none staked ≡ ok cleared_state
unfolding set_operator require_admin require_admin_permission get_admin get_operator
clear_test = refl

set_operator-IsFrozen_example : IsFrozen staked (run ledger calls cleared_state)
set_operator-IsFrozen_example =
    set_operator-IsFrozen ledger refl (at 100) 1 staked cleared_state clear_test calls

no_overflow : (j : ℕ) → InTime 60 (two_deposits j)
no_overflow j = ground arith

two_nonneg : (j : ℕ) → pos 0 ≤ℤ amount_of (two_deposits j)
two_nonneg j = ground arith

two_sum : sum_from (free_amount 60 100) two_deposits 2 0 ≡ pos 100
unfolding sum_from ◌+ℤ◌
two_sum = refl

unlocked_from_total_example :
    unlocked_from 60 100 two_deposits 2 0 (pos 0)
    ≡ ok (pos 0 +ℤ sum_from (free_amount 60 100) two_deposits 2 0)
unlocked_from_total_example =
    unlocked_from_total 60 100 two_deposits 2 0 (pos 0) no_overflow two_nonneg (omega arith)
      (rw two_sum (omega int_laws))

pool_admin-IsCoherent : IsCoherent staked.upgrade
pool_admin-IsCoherent = record {
  at_together = refl;
  version_together = refl;
  pending_is_next = inl refl;
}

-- A proposal that is cancelled, and one that is executed.
abbrev upgrades : List (Env × Call)
upgrades =
    (at 10, proposes 1 2000 2)
    ∷ (at 20, cancels 1)
    ∷ (at 30, proposes 1 3000 2)
    ∷ (at 40, executes 1 3000)
    ∷ []

run-IsUpgraded_example : IsUpgraded staked.upgrade (run ledger upgrades staked).upgrade
run-IsUpgraded_example = run-IsUpgraded ledger upgrades staked refl pool_admin-IsCoherent

upgrades_test : (run ledger upgrades staked).upgrade.wasm ≡ 3000
unfolding run step propose_upgrade execute_upgrade cancel_upgrade require_admin contract_version
    state_schema_version Upgrade.propose_upgrade Upgrade.execute_upgrade
    Upgrade.validate_upgrade_safety
upgrades_test = refl
