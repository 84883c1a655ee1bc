-- ===== src/StakingPool/Staking.antt =====
-- staking_pool/src/lib.rs: `set_operator`, `stake` and `unstake`. A trap or an error rolls back all
-- writes of the call, so the writes are gathered in one record at the end.
use shelterflex_contracts.Prelude.{
  ℕ, ◌+◌, Bool, false, not, Option, none, some, ◌==◌, ◌+ℤ◌, ◌-ℤ◌, ltb_ℤ, ℤ, pos, update, insert,
}
use shelterflex_contracts.Host.{
  ◌>>=◌, ◌>>◌, fail_if, unwrap, require_auth, checked_i128, checked_u32, Outcome, Env, ok,
}
use shelterflex_contracts.Reentrancy.{enter, exit}
use shelterflex_contracts.StakingPool.Types.{
  get_staked_balance, get_total_staked, get_lock_period, get_deposit_count, get_token, get_operator,
  Error, State, External, not_authorized, insufficient_balance, tokens_locked, reentrancy_detected,
}
use shelterflex_contracts.StakingPool.Deposits.{unlocked_from, take_from}
use shelterflex_contracts.StakingPool.Calls.{
  require_valid_amount, require_not_paused, require_admin,
}

module _ {T : Type 0} (x : External T) where
  -- The old operator is read for the event.
  unfoldable pub set_operator : Env → ℕ → Option ℕ → State T → Outcome Error (State T)
  unfolding require_admin get_operator
  set_operator env admin new_operator s = do
    require_admin env admin s
    get_operator x s
    ok (record s { operator = some new_operator })

  abbrev is_address : Option ℕ → ℕ → Bool
  is_address none addr = false
  is_address (some op) addr = op == addr

  unfoldable pub is_operator : State T → ℕ → Outcome Error Bool
  unfolding get_operator
  is_operator s addr = do op ← get_operator x s; ok (is_address op addr)

  abbrev user_or_operator : Env → ℕ → ℕ → Option ℕ → Outcome Error ℕ
  user_or_operator env user caller (some op) = require_auth env op >> ok op
  user_or_operator env user caller none = do
    require_auth env user
    fail_if (not (caller == user)) not_authorized
    ok user

  unfoldable pub require_user_or_operator : Env → ℕ → ℕ → State T → Outcome Error ℕ
  unfolding get_operator
  require_user_or_operator env user caller s = do
    op ← get_operator x s
    user_or_operator env user caller op

  unfoldable pub stake : Env → ℕ → ℤ → State T → Outcome Error (State T)
  unfolding require_not_paused require_user_or_operator require_valid_amount enter exit get_token
      get_staked_balance get_total_staked get_deposit_count
  stake env from amount s = do
    require_not_paused s
    require_user_or_operator env from from s
    require_valid_amount amount
    locked ← enter s.reentrancy reentrancy_detected
    token_address ← get_token s
    tokens ← unwrap (x.transfer env token_address from env.current amount s.tokens)
    balance ← checked_i128 (get_staked_balance s from +ℤ amount)
    total ← checked_i128 (get_total_staked s +ℤ amount)
    let count = get_deposit_count s from
    next ← checked_u32 (count + 1)
    let deposit = some (record { amount = amount; timestamp = env.timestamp })
    ok (record s {
      staked_balance = insert from balance s.staked_balance;
      total_staked = some total;
      deposit_count = update from (some next) s.deposit_count;
      deposits = update from (update count deposit (s.deposits from)) s.deposits;
      reentrancy = exit locked;
      tokens = tokens;
    })

  unfoldable pub unstake : Env → ℕ → ℤ → State T → Outcome Error (State T)
  unfolding require_not_paused require_user_or_operator require_valid_amount enter exit get_token
      get_staked_balance get_total_staked get_deposit_count get_lock_period
  unstake env to amount s = do
    require_not_paused s
    require_user_or_operator env to to s
    require_valid_amount amount
    let current_balance = get_staked_balance s to
    fail_if (ltb_ℤ current_balance amount) insufficient_balance
    let lock_period = get_lock_period s
    let count = get_deposit_count s to
    unlocked_balance ← unlocked_from lock_period env.timestamp (s.deposits to) count 0 (pos 0)
    fail_if (ltb_ℤ unlocked_balance amount) tokens_locked
    (left, kept) ← take_from lock_period env.timestamp count 0 amount (s.deposits to)
    new_balance ← checked_i128 (current_balance -ℤ amount)
    total ← checked_i128 (get_total_staked s -ℤ amount)
    token_address ← get_token s
    locked ← enter s.reentrancy reentrancy_detected
    tokens ← unwrap (x.transfer env token_address env.current to amount s.tokens)
    ok (record s {
      staked_balance = insert to new_balance s.staked_balance;
      total_staked = some total;
      deposits = update to kept s.deposits;
      reentrancy = exit locked;
      tokens = tokens;
    })
