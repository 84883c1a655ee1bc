-- ===== src/StakingPool/Fixture.antt =====
-- staking_pool/src/lib.rs: a pool with two deposits and a token ledger, for the tests. The token
-- contracts' state is the balance of each holder of the one token.
use shelterflex_contracts.Prelude.{
  ℕ, ◌≡◌, refl, true, false, Option, none, some, List, [], ◌∷◌, arith, ◌==◌, if◌then◌else◌, ◌+ℤ◌,
  ◌-ℤ◌, ltb_ℤ, ℤ, pos, update,
}
use shelterflex_contracts.Host.{Env, trap}
use shelterflex_contracts.Upgrade
use shelterflex_contracts.StakingPool.Types.{
  get_staked_balance, get_total_staked, get_lock_period, get_deposit_count, Deposit, State,
  External,
}
use shelterflex_contracts.StakingPool.Deposits.Amounts.{amount_of, sum_from}
use shelterflex_contracts.Balances.{sum_balances}
use shelterflex_contracts.StakingPool.Invariant.{IsValid, IsFresh}
use shelterflex_contracts.StakingPool.Machine.{Call, stakes, unstakes, pauses}
use shelterflex_contracts.StakingPool.Solvency.{MovesTokens}

abbrev pub at : ℕ → Env
at time = record {
  authorized = λ a. true;
  reauthorized = λ a. false;
  timestamp = time;
  sequence = 1;
  current = 50;
  uploaded = λ hash. true;
}

abbrev pub Wallets : Type 0
Wallets = ℕ → ℤ

abbrev pub move : ℕ → ℕ → ℤ → Wallets → Wallets
move from to amount w =
    let paid = update from (w from -ℤ amount) w in update to (paid to +ℤ amount) paid

abbrev pub ledger : External Wallets
ledger = record {
  transfer = λ env token from to amount w.
      if ltb_ℤ (w from) amount then none else some (move from to amount w);
  read_void = trap;
}

abbrev pub held : Wallets → ℕ → ℕ → ℤ
held w token a = w a

pub ledger-MovesTokens : MovesTokens ledger held
ledger-MovesTokens = record {
  receives = λ env token from to amount before after e ne. ground arith;
  pays = λ env token from to amount before after e ne. ground arith;
}

abbrev pub no_upgrade : Upgrade.Store
no_upgrade = record {
  admin = none;
  guardian = none;
  pending_hash = none;
  pending_at = none;
  pending_version = none;
  contract_version = none;
  upgrade_delay = none;
  schema_version = none;
  wasm = 1000;
}

abbrev pub blank : State Wallets
blank = record {
  upgrade = no_upgrade;
  operator = none;
  token = none;
  staked_balance = [];
  total_staked = none;
  paused_flag = none;
  lock_period = none;
  deposit_count = λ u. none;
  deposits = λ u j. none;
  reentrancy = none;
  tokens = λ a. if a == 2 then pos 500 else pos 0;
}

pub blank-IsFresh : IsFresh blank
blank-IsFresh = record {
  no_admin = refl;
  no_balance = refl;
  no_count = λ u. refl;
  no_deposit = λ u j. refl;
  no_lock = refl;
}

-- User 2 has staked 100 at time 10 and 50 at time 80, with a lock of 60 seconds.
abbrev pub pool_admin : Upgrade.Store
pool_admin = record no_upgrade {
  admin = some 1;
  contract_version = some 1;
  schema_version = some 1;
}

abbrev pub two_deposits : ℕ → Option Deposit
two_deposits =
    update 1 (some (record { amount = pos 50; timestamp = 80 }))
      (update 0 (some (record { amount = pos 100; timestamp = 10 })) (λ j. none))

abbrev pub staked : State Wallets
staked = record blank {
  upgrade = pool_admin;
  token = some 9;
  staked_balance = (2, pos 150) ∷ [];
  total_staked = some (pos 150);
  paused_flag = some false;
  lock_period = some 60;
  deposit_count = update 2 (some 2) (λ u. none);
  deposits = update 2 two_deposits (λ u j. none);
  reentrancy = some false;
  tokens = λ a. if a == 2 then pos 350 else if a == 50 then pos 150 else pos 0;
}

backed_by :
    (u : ℕ)
    → get_staked_balance staked u
      ≡ sum_from amount_of (staked.deposits u) (get_deposit_count staked u) 0
unfolding get_staked_balance get_deposit_count sum_from ◌+ℤ◌
backed_by u = ground arith

pub staked-IsValid : IsValid staked
unfolding get_total_staked get_staked_balance get_deposit_count get_lock_period sum_balances ◌+ℤ◌
    sum_from
staked-IsValid = record {
  has_admin = refl;
  keys = (refl, tt);
  total = refl;
  backed = backed_by;
  nonneg = λ u j. ground arith;
  lock_bounded = omega arith;
  open_lock = refl;
}

abbrev pub calls : List (Env × Call)
calls = (at 100, unstakes 2 (pos 70)) ∷ (at 101, stakes 2 (pos 5)) ∷ (at 102, pauses 1) ∷ []
