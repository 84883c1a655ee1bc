-- ===== src/StakingPool/Payouts.antt =====
-- staking_pool/src/lib.rs: `unstake` as the staker sees it.
use shelterflex_contracts.Prelude.{
  ℕ, ◌≡◌, ap, ◌∙◌, ◌≢◌, true, false, some, arith, ℕ_discrete, ◌==◌, if◌then◌else◌, ==_refl, ◌+ℤ◌,
  ◌-ℤ◌, ◌≤ℤ◌, ◌<ℤ◌, ltb_ℤ, -ℤ_parts, parts_of_eq, add-zero_ℤ, zero-add_ℤ, ℤ, int_laws, pos, update,
  insert, lookup-insert,
}
use shelterflex_contracts.Host.{checked_i128, Env, ok, err}
use shelterflex_contracts.StakingPool.Types.{
  get_staked_balance, get_total_staked, get_lock_period, get_deposit_count, get_token, Deposit,
  Error, State, External, tokens_locked, reentrancy_detected,
}
use shelterflex_contracts.StakingPool.Deposits.{unlocked_from}
use shelterflex_contracts.StakingPool.Deposits.Amounts.{
  amount_of, is_free, free_amount, sum_from, sum_from_nonneg, free-le-all,
}
use shelterflex_contracts.StakingPool.Deposits.Unlocked.{i128_max, unlocked_from_total}
use shelterflex_contracts.StakingPool.Deposits.Total.{IsSound, take_from_total}
use shelterflex_contracts.StakingPool.Calls.{require_valid_amount, require_not_paused}
use shelterflex_contracts.StakingPool.Staking.{require_user_or_operator, unstake}
use shelterflex_contracts.StakingPool.Effects.{unstake_ok}
use shelterflex_contracts.StakingPool.Invariant.{IsValid}
use shelterflex_contracts.Reentrancy.{enter}
use shelterflex_contracts.Balances.{sum_balances_nonneg}

valid_amount : (amount : ℤ) → pos 0 <ℤ amount → require_valid_amount amount ≡ ok tt
unfolding require_valid_amount
valid_amount amount h = ground arith

not_above : (a b : ℤ) → b ≤ℤ a → ltb_ℤ a b ≡ false
not_above a b h = ground arith

below : (a b : ℤ) → a <ℤ b → ltb_ℤ a b ≡ true
below a b h = ground arith

checked_difference :
    (a b : ℤ)
    → pos 0 <ℤ b
    → pos 0 ≤ℤ a
    → a ≤ℤ i128_max
    → b ≤ℤ i128_max
    → checked_i128 {E = Error} (a -ℤ b) ≡ ok (a -ℤ b)
checked_difference a b p q r t = ground (arith, -ℤ_parts a b)

module _ {T : Type 0} where
  -- What the user could take out at `now`: the deposits whose lock is over.
  unfoldable pub unlocked_amount : ℕ → ℕ → State T → ℤ
  unlocked_amount now user s =
      sum_from (free_amount (get_lock_period s) now) (s.deposits user) (get_deposit_count s user) 0

  pub record IsPaidOut (env : Env) (to : ℕ) (amount : ℤ) (s t : State T) : Type 0 where
    pub was_unlocked : amount ≤ℤ unlocked_amount env.timestamp to s
    pub balance : get_staked_balance t to +ℤ amount ≡ get_staked_balance s to
    pub total : get_total_staked t +ℤ amount ≡ get_total_staked s
    pub unlocked_left :
        unlocked_amount env.timestamp to t +ℤ amount ≡ unlocked_amount env.timestamp to s
    pub others :
        (u : ℕ)
        → get_staked_balance t u
          ≡ (if u == to then get_staked_balance s to -ℤ amount else get_staked_balance s u)

  -- Where `unstake` returns on a pool whose accounts agree, the amount was unlocked; the user's
  -- balance, the total staked and the user's unlocked amount at that time each go down by exactly
  -- the amount; and no other user's balance changes.
  pub unstake-IsPaidOut :
      (x : External T) (env : Env) (to : ℕ) (amount : ℤ) (s t : State T)
      → IsValid s
      → unstake x env to amount s ≡ ok t
      → IsPaidOut env to amount s t
  unfolding get_staked_balance get_total_staked get_lock_period get_deposit_count unlocked_amount
  unstake-IsPaidOut x env to amount s t v h =
      let un = (unstake_ok x env to amount s t h).1 in
      let took = un.took v.nonneg in
      record {
        was_unlocked = un.unlocked;
        balance = rw (un.balance, lookup-insert to to, ==_refl to) (omega int_laws);
        total = rw un.total (omega int_laws);
        unlocked_left = rw (un.settings.same_lock, un.same_count) (took.frees ∙ add-zero_ℤ _);
        others = λ u. rw (un.balance, lookup-insert u to) (ground arith);
      }

  -- Where `unstake` returns on a pool whose accounts agree, a deposit of any user whose lock is not
  -- over stays at its index as it was.
  pub unstake-locked_stay :
      (x : External T) (env : Env) (to : ℕ) (amount : ℤ) (s t : State T) (u j : ℕ)
      (deposit : Deposit)
      → IsValid s
      → unstake x env to amount s ≡ ok t
      → s.deposits u j ≡ some deposit
      → is_free (get_lock_period s) env.timestamp deposit ≡ false
      → t.deposits u j ≡ some deposit
  unstake-locked_stay x env to amount s t u j deposit v h e locked =
      let un = (unstake_ok x env to amount s t h).1 in
      elim (ℕ_discrete u to) [
        | yes same ↦ rw same ((un.took v.nonneg).kept j deposit (rw (← same) e) locked)
        | no ne ↦ rw (un.same_others u ne) e
      ]

  pub unstake-other_deposits :
      (x : External T) (env : Env) (to : ℕ) (amount : ℤ) (s t : State T) (u : ℕ)
      → u ≢ to
      → unstake x env to amount s ≡ ok t
      → t.deposits u ≡ s.deposits u
  unstake-other_deposits x env to amount s t u ne h =
      (unstake_ok x env to amount s t h).1.same_others u ne

  -- The user's stored deposits overflow nothing at this lock period.
  abbrev pub IsSane : ℕ → State T → Type 0
  IsSane user s = (j : ℕ) → IsSound (get_lock_period s) (s.deposits user j)

  free_in_range :
      (now user : ℕ) (s : State T)
      → IsValid s
      → get_staked_balance s user ≤ℤ i128_max
      → unlocked_amount now user s ≤ℤ i128_max
  unfolding unlocked_amount
  free_in_range now user s v b = omega (
    arith,
    parts_of_eq (v.backed user),
    free-le-all (get_lock_period s) now (s.deposits user) (get_deposit_count s user) 0
        (v.nonneg user),
  )

  -- The first loop, on a pool whose accounts agree, counts exactly the unlocked amount.
  counts_unlocked :
      (now user : ℕ) (s : State T)
      → IsValid s
      → IsSane user s
      → get_staked_balance s user ≤ℤ i128_max
      → unlocked_from (get_lock_period s) now (s.deposits user) (get_deposit_count s user) 0 (pos 0)
        ≡ ok (unlocked_amount now user s)
  unfolding unlocked_amount
  counts_unlocked now user s v a b =
      unlocked_from_total (get_lock_period s) now (s.deposits user) (get_deposit_count s user) 0
        (pos 0) (λ j. (a j).0) (v.nonneg user) (omega arith)
        (rw zero-add_ℤ (free_in_range now user s v b))
      ∙ ap ok (zero-add_ℤ _)

  -- A call that both gates let through.
  pub record Passes (x : External T) (env : Env) (user : ℕ) (s : State T) : Type 0 where
    pub running : require_not_paused s ≡ ok tt
    pub spender : ℕ
    pub authorised : require_user_or_operator x env user user s ≡ ok spender

  total_nonneg : (s : State T) → IsValid s → pos 0 ≤ℤ get_total_staked s
  unfolding get_staked_balance
  total_nonneg s v = rw v.total (
      sum_balances_nonneg s.staked_balance v.keys (λ u.
        rw (v.backed u)
          (sum_from_nonneg amount_of (s.deposits u) (get_deposit_count s u) 0 (v.nonneg u))))

  token_read : (s : State T) (token : ℕ) → s.token ≡ some token → get_token s ≡ ok token
  unfolding get_token
  token_read s token e = rw e

  enters : (s : State T) → IsValid s → enter s.reentrancy reentrancy_detected ≡ ok (some true)
  unfolding enter
  enters s v = rw v.open_lock

  -- The state, the call and its environment, with a call that passes the gates and asks for a
  -- positive amount that is staked, of a user whose stored deposits overflow nothing.
  module _ (x : External T) (env : Env) (to : ℕ) (amount : ℤ) (s : State T) (v : IsValid s)
      (a : IsSane to s) (b : get_staked_balance s to ≤ℤ i128_max) (g : Passes x env to s)
      (c : pos 0 <ℤ amount) (l : amount ≤ℤ get_staked_balance s to) where
    -- On a pool whose accounts agree, for a user whose balance fits an i128 and none of whose
    -- deposits overflows an i128 or, with the lock period, a u64, a call of `unstake` that passes
    -- the pause and the authorisation gates and asks for a positive amount within the balance but
    -- above the unlocked amount is refused with `TokensLocked`.
    pub unstake-TokensLocked :
        unlocked_amount env.timestamp to s <ℤ amount → unstake x env to amount s ≡ err tokens_locked
    unfolding unstake
    unstake-TokensLocked k = rw (
      g.running,
      g.authorised,
      valid_amount amount c,
      not_above (get_staked_balance s to) amount l,
      counts_unlocked env.timestamp to s v a b,
      below (unlocked_amount env.timestamp to s) amount k,
    )

    -- On a pool whose accounts agree, for a user whose balance fits an i128 and none of whose
    -- deposits overflows an i128 or, with the lock period, a u64, a call of `unstake` that passes
    -- the pause and the authorisation gates and asks for a positive amount no larger than the
    -- balance and than the unlocked amount returns, if the total fits an i128, a token is set and
    -- the token contract makes the transfer.
    pub unstake_returns :
        amount ≤ℤ unlocked_amount env.timestamp to s
        → get_total_staked s ≤ℤ i128_max
        → (token : ℕ) (tokens : T) → s.token ≡ some token
        → x.transfer env token env.current to amount s.tokens ≡ some tokens
        → (t : State T) × (unstake x env to amount s ≡ ok t)
    unfolding unstake
    unstake_returns k ts token tokens et em =
        let (left, d', e) =
          take_from_total (get_lock_period s) env.timestamp (get_deposit_count s to) 0 amount
            (s.deposits to) a (omega arith, omega arith) in
        (
          record s {
            staked_balance = insert to (get_staked_balance s to -ℤ amount) s.staked_balance;
            total_staked = some (get_total_staked s -ℤ amount);
            deposits = update to d' s.deposits;
            reentrancy = some false;
            tokens = tokens;
          },
          rw (
            g.running,
            g.authorised,
            valid_amount amount c,
            not_above (get_staked_balance s to) amount l,
            counts_unlocked env.timestamp to s v a b,
            not_above (unlocked_amount env.timestamp to s) amount k,
            e,
            checked_difference (get_staked_balance s to) amount c (omega arith) b (omega arith),
            checked_difference (get_total_staked s) amount c (total_nonneg s v) ts (omega arith),
            token_read s token et,
            enters s v,
            em,
          ),
        )
