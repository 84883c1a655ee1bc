-- ===== src/StakingPool/Invariant.antt =====
-- staking_pool/src/lib.rs: the accounts of the pool: the total, the balances and the deposits.
pub mod Withdrawal
use shelterflex_contracts.StakingPool.Effects.{Staked}
use shelterflex_contracts.Host.{Env, ok}
use shelterflex_contracts.Prelude.{
  ℕ, ◌≤◌, ◌≡◌, refl, ap, ◌≢◌, true, false, Option, none, some, [], arith, ℕ_discrete, ==_refl,
  ==_ne, ◌+ℤ◌, ◌≤ℤ◌, eq_of_parts, parts_of_eq, ℤ, int_laws, pos, unwrap_or, is_some, lookup-insert,
}
use shelterflex_contracts.StakingPool.Types.{
  get_staked_balance, get_total_staked, get_lock_period, get_deposit_count, Deposit, State,
  External,
}
use shelterflex_contracts.StakingPool.Deposits.Amounts.{amount_of, sum_from, sum_from-push}
use shelterflex_contracts.Balances.{sum_balances, IsMap, insert-IsMap, sum_balances-insert}
use shelterflex_contracts.StakingPool.Calls.{init}

empty_sum : (d : ℕ → Option Deposit) → pos 0 ≡ sum_from amount_of d 0 0
unfolding sum_from
empty_sum d = refl

empty_balances : pos 0 ≡ sum_balances []
unfolding sum_balances
empty_balances = refl

module _ {T : Type 0} where
  pub record IsValid (s : State T) : Type 0 where
    pub has_admin : is_some s.upgrade.admin ≡ true
    pub keys : IsMap s.staked_balance
    pub total : get_total_staked s ≡ sum_balances s.staked_balance
    pub backed :
        (u : ℕ)
        → get_staked_balance s u ≡ sum_from amount_of (s.deposits u) (get_deposit_count s u) 0
    pub nonneg : (u j : ℕ) → pos 0 ≤ℤ amount_of (s.deposits u j)
    pub lock_bounded : get_lock_period s ≤ 31536000
    pub open_lock : unwrap_or s.reentrancy false ≡ false

  -- A contract whose storage is empty, but for the token contracts' state.
  pub record IsFresh (s : State T) : Type 0 where
    pub no_admin : s.upgrade.admin ≡ none
    pub no_balance : s.staked_balance ≡ []
    pub no_count : (u : ℕ) → s.deposit_count u ≡ none
    pub no_deposit : (u j : ℕ) → s.deposits u j ≡ none
    pub no_lock : s.reentrancy ≡ none

  -- The initialisation of a contract with empty storage returns, and leads to a state whose
  -- accounts agree.
  pub init-IsValid :
      (admin token : ℕ) (s : State T)
      → IsFresh s
      → (t : State T) × (init admin token s ≡ ok t) × IsValid t
  unfolding init get_total_staked get_staked_balance get_deposit_count get_lock_period
  init-IsValid admin token s f =
      let u = s.upgrade in
      (
        record s {
          upgrade = record u {
            admin = some admin;
            contract_version = some 1;
            schema_version = some 1;
          };
          token = some token;
          total_staked = some (pos 0);
          lock_period = some 0;
          paused_flag = some false;
        },
        rw (f.no_admin),
        record {
          has_admin = refl;
          keys = rw (f.no_balance) tt;
          total = rw (f.no_balance) empty_balances;
          backed = λ v. rw (f.no_balance, f.no_count v) (empty_sum (s.deposits v));
          nonneg = λ v j. rw (f.no_deposit v j) (omega arith);
          lock_bounded = omega arith;
          open_lock = rw (f.no_lock);
        },
      )

  module _ (x : External T) (env : Env) (from : ℕ) (amount : ℤ) (s t : State T)
      (st : Staked x env from amount s t) (v : IsValid s) where
    stake_total : get_total_staked t ≡ sum_balances t.staked_balance
    unfolding get_total_staked get_staked_balance
    stake_total =
        rw (st.total, st.balance)
          (eq_of_parts _ _ (
            omega (
              int_laws,
              parts_of_eq v.total,
              parts_of_eq
                  (sum_balances-insert from (get_staked_balance s from +ℤ amount) s.staked_balance),
            )))

    stake_backed_self :
        get_staked_balance t from
        ≡ sum_from amount_of (t.deposits from) (get_deposit_count t from) 0
    unfolding get_staked_balance get_deposit_count
    stake_backed_self =
        rw (st.balance, st.counted, st.deposited, lookup-insert from from, ==_refl from)
          (rw sum_from-push (ap (λ b. b +ℤ amount) (v.backed from)))

    stake_backed_other :
        (u : ℕ)
        → u ≢ from
        → get_staked_balance t u ≡ sum_from amount_of (t.deposits u) (get_deposit_count t u) 0
    unfolding get_staked_balance get_deposit_count
    stake_backed_other u ne =
        rw (st.balance, st.counted, st.deposited, lookup-insert u from, ==_ne u from ne)
          (v.backed u)

    stake_nonneg : (u j : ℕ) → pos 0 ≤ℤ amount_of (t.deposits u j)
    stake_nonneg u j = rw st.deposited (ground (arith, v.nonneg u j, st.positive))

    pub Staked-IsValid : IsValid t
    unfolding get_lock_period
    Staked-IsValid = record {
      has_admin = rw st.settings.same_upgrade v.has_admin;
      keys = rw st.balance (insert-IsMap from _ s.staked_balance v.keys);
      total = stake_total;
      backed = λ u. elim (ℕ_discrete u from) [
        | yes e ↦ rw e stake_backed_self
        | no ne ↦ stake_backed_other u ne
      ];
      nonneg = stake_nonneg;
      lock_bounded = rw st.settings.same_lock v.lock_bounded;
      open_lock = rw st.settings.released;
    }
