-- ===== src/StakingPool/Invariant/Withdrawal.antt =====
-- staking_pool/src/lib.rs: `unstake` against the accounts of the pool.
use shelterflex_contracts.Prelude.{
  ℕ, ◌≡◌, ◌≢◌, ℕ_discrete, ==_refl, ==_ne, ◌-ℤ◌, ◌≤ℤ◌, eq_of_parts, parts_of_eq, ℤ, int_laws, pos,
  lookup-insert,
}
use shelterflex_contracts.Host.{Env}
use shelterflex_contracts.StakingPool.Types.{
  get_staked_balance, get_total_staked, get_lock_period, get_deposit_count, State, External,
}
use shelterflex_contracts.StakingPool.Deposits.Amounts.{amount_of, sum_from}
use shelterflex_contracts.StakingPool.Deposits.Consumed.{Took}
use shelterflex_contracts.Balances.{sum_balances, insert-IsMap, sum_balances-insert}
use shelterflex_contracts.StakingPool.Effects.{Unstaked}
use shelterflex_contracts.StakingPool.Invariant.{IsValid}

module _ {T : Type 0} (x : External T) (env : Env) (to : ℕ) (amount : ℤ) (s t : State T)
    (un : Unstaked x env to amount s t) (v : IsValid s) where
  unstake_total : get_total_staked t ≡ sum_balances t.staked_balance
  unfolding get_total_staked get_staked_balance
  unstake_total =
      rw (un.total, un.balance)
        (eq_of_parts _ _ (
          omega (
            int_laws,
            parts_of_eq v.total,
            parts_of_eq
                (sum_balances-insert to (get_staked_balance s to -ℤ amount) s.staked_balance),
          )))

  taken :
      Took
        (get_lock_period s)
        env.timestamp
        (get_deposit_count s to)
        0
        amount
        (pos 0)
        (s.deposits to)
        (t.deposits to)
  taken = un.took v.nonneg

  unstake_backed_self :
      get_staked_balance t to ≡ sum_from amount_of (t.deposits to) (get_deposit_count t to) 0
  unfolding get_staked_balance get_deposit_count
  unstake_backed_self =
      rw (un.balance, un.same_count, lookup-insert to to, ==_refl to)
        (eq_of_parts _ _ (omega (int_laws, parts_of_eq (v.backed to), parts_of_eq taken.amounts)))

  unstake_backed_other :
      (u : ℕ)
      → u ≢ to
      → get_staked_balance t u ≡ sum_from amount_of (t.deposits u) (get_deposit_count t u) 0
  unfolding get_staked_balance get_deposit_count
  unstake_backed_other u ne =
      rw (un.balance, un.same_count, un.same_others u ne, lookup-insert u to, ==_ne u to ne)
        (v.backed u)

  unstake_nonneg : (u j : ℕ) → pos 0 ≤ℤ amount_of (t.deposits u j)
  unstake_nonneg u j = elim (ℕ_discrete u to) [
    | yes e ↦ rw e (taken.still_nonneg j)
    | no ne ↦ rw (un.same_others u ne) (v.nonneg u j)
  ]

  pub Unstaked-IsValid : IsValid t
  unfolding get_lock_period
  Unstaked-IsValid = record {
    has_admin = rw un.settings.same_upgrade v.has_admin;
    keys = rw un.balance (insert-IsMap to _ s.staked_balance v.keys);
    total = unstake_total;
    backed = λ u. elim (ℕ_discrete u to) [
      | yes e ↦ rw e unstake_backed_self
      | no ne ↦ unstake_backed_other u ne
    ];
    nonneg = unstake_nonneg;
    lock_bounded = rw un.settings.same_lock v.lock_bounded;
    open_lock = rw un.settings.released;
  }
