-- ===== src/MvpStakingPool/Writes.antt =====
-- mvp_staking_pool/src/lib.rs: the writes of the calls keep the accounts of the pool, and what is owed
-- stays within what was set aside for rewards.
use shelterflex_contracts.Prelude.{
  ℕ, ◌*◌, ◌≤◌, ◌≡◌, refl, ◌∙◌, false, none, some, arith, ℕ_discrete, ==_refl, ==_ne, pos_part, ◌+ℤ◌,
  ◌≤ℤ◌, eq_of_parts, parts_of_eq, ℤ, int_laws, pos, lookup, insert, lookup-insert,
}
use shelterflex_contracts.Balances.{insert-IsMap, sum_balances-insert, balance_at-insert}
use shelterflex_contracts.MvpStakingPool.Types.{
  reward_index_scale, get_total_staked, get_global_reward_index, get_staked_balance, get_used_stake,
  put_used_stake, get_user_reward_index, get_claimable_reward, State,
}
use shelterflex_contracts.MvpStakingPool.Rewards.{owed, owed-insert, weight, IsSound}

module _ {T : Type 0} (s : State T) (v : IsSound s) where
  abbrev pub Settled : ℕ → Type 0
  Settled user =
      (b : ℤ) → weight s user b ≡ pos_part (get_claimable_reward s user) * reward_index_scale

  module _ (user : ℕ) (balance total : ℤ) (tokens : T) where
    abbrev pub rebalanced : State T
    rebalanced = record s {
      staked_balance = insert user balance s.staked_balance;
      total_staked = some total;
      tokens = tokens;
      reentrancy = some false;
    }

    lookup-rebalanced :
        (u : ℕ)
        → lookup u (insert user balance s.staked_balance) ≡ none
        → lookup u s.staked_balance ≡ none
    lookup-rebalanced u n = ground (arith, lookup-insert u user balance s.staked_balance)

    pub rebalanced-IsSound :
        get_used_stake s user ≤ℤ balance
        → total +ℤ get_staked_balance s user ≡ get_total_staked s +ℤ balance
        → IsSound rebalanced
    unfolding get_staked_balance get_total_staked get_used_stake get_claimable_reward
        get_user_reward_index get_global_reward_index
    rebalanced-IsSound w e = record {
      has_admin = v.has_admin;
      keys = insert-IsMap user balance s.staked_balance v.keys;
      total = eq_of_parts _ _ (
          omega (
            int_laws,
            parts_of_eq e,
            parts_of_eq v.total,
            parts_of_eq (sum_balances-insert user balance s.staked_balance),
          ));
      used = v.used;
      within = λ u. elim (ℕ_discrete u user) [
        | yes p ↦ rw (p, balance_at-insert user user balance s.staked_balance, ==_refl user) w
        | no ne ↦
            rw (balance_at-insert u user balance s.staked_balance, ==_ne u user ne) (v.within u)
      ];
      rewards = v.rewards;
      indices = v.indices;
      behind = v.behind;
      absent = λ u n. v.absent u (lookup-rebalanced u n);
    }

    pub rebalanced-owed :
        Settled user
        → owed (weight rebalanced) rebalanced.staked_balance ≤ owed (weight s) s.staked_balance
    unfolding weight get_claimable_reward get_user_reward_index get_global_reward_index
    rebalanced-owed c =
        owed-insert (weight s) user balance s.staked_balance
          (λ n. c balance ∙ rw (v.absent user n) (omega arith))
          (λ b l. omega (arith, c balance, c b))

  module _ (user : ℕ) (used : ℤ) where
    pub used-IsSound :
        pos 0 ≤ℤ used → used ≤ℤ get_staked_balance s user → IsSound (put_used_stake user used s)
    unfolding put_used_stake get_used_stake get_staked_balance get_total_staked get_claimable_reward
        get_user_reward_index get_global_reward_index
    used-IsSound p w = record {
      has_admin = v.has_admin;
      keys = v.keys;
      total = v.total;
      used = λ u. elim (ℕ_discrete u user) [
        | yes e ↦ rw (e, ==_refl user) (ground arith)
        | no ne ↦ rw (==_ne u user ne) (v.used u)
      ];
      within = λ u. elim (ℕ_discrete u user) [
        | yes e ↦ rw (e, ==_refl user) (ground arith)
        | no ne ↦ rw (==_ne u user ne) (v.within u)
      ];
      rewards = v.rewards;
      indices = v.indices;
      behind = v.behind;
      absent = v.absent;
    }

    pub used_owed :
        owed (weight (put_used_stake user used s)) s.staked_balance
        ≡ owed (weight s) s.staked_balance
    unfolding weight put_used_stake get_claimable_reward get_user_reward_index
        get_global_reward_index
    used_owed = refl
