-- ===== src/MvpStakingPool/Solvency.antt =====
-- mvp_staking_pool/src/lib.rs: the pool holds the total staked and enough for all that is owed.
use shelterflex_contracts.Prelude.{
  ℕ, ◌*◌, ◌≤◌, ◌≡◌, sym, ap, subst, ◌≢◌, Bool, true, false, Option, some, arith, ◌+ℤ◌, ◌-ℤ◌, ◌≤ℤ◌,
  eq_of_parts, parts_of_eq, saturating_sub_le, ℤ, int_laws, pos, unwrap_or,
}
use shelterflex_contracts.Host.{Env, ok}
use shelterflex_contracts.Token.{Transfer, IsToken}
use shelterflex_contracts.MvpStakingPool.Types.{
  reward_index_scale, get_total_staked, get_global_reward_index, get_staked_balance, get_used_stake,
  get_unused_stake, get_user_reward_index, get_claimable_reward, accrue_user_rewards, State,
}
use shelterflex_contracts.MvpStakingPool.Accrual.{accrue_ok}
use shelterflex_contracts.MvpStakingPool.Calls.{stake, unstake}
use shelterflex_contracts.MvpStakingPool.Effects.{locked, stake_ok, unstake_ok}
use shelterflex_contracts.MvpStakingPool.Rewards.{owed, weight, IsSound}
use shelterflex_contracts.MvpStakingPool.Sound.{
  relocked-IsSound, weight_settled, owed_le, accrued-IsSound,
}
use shelterflex_contracts.MvpStakingPool.Writes.{rebalanced-IsSound, rebalanced-owed}

module _ {T : Type 0} (held : T → ℕ → ℕ → ℤ) (pool : ℕ) where
  -- The accounts agree, and what the pool holds beyond the total staked covers what is owed.
  pub record IsSolvent (s : State T) : Type 0 where
    pub sound : IsSound s
    pub reserve : ℕ
    pub covers : owed (weight s) s.staked_balance ≤ reserve * reward_index_scale
    pub backed : get_total_staked s +ℤ pos reserve ≤ℤ held s.tokens (unwrap_or s.token 0) pool

  pub relocked-IsSolvent :
      (flag : Option Bool) (s : State T) → IsSolvent s → IsSolvent (record s { reentrancy = flag })
  unfolding get_staked_balance get_total_staked get_used_stake get_claimable_reward
      get_user_reward_index get_global_reward_index weight
  relocked-IsSolvent flag s i = record {
    sound = relocked-IsSound flag s i.sound;
    reserve = i.reserve;
    covers = i.covers;
    backed = i.backed;
  }

  pub accrued-IsSolvent :
      (user : ℕ) (s t : State T) → accrue_user_rewards user s ≡ ok t → IsSolvent s → IsSolvent t
  unfolding get_total_staked
  accrued-IsSolvent user s t h i =
      let k = (accrue_ok user s t h).kept in
      record {
        sound = accrued-IsSound user s t i.sound h;
        reserve = i.reserve;
        covers = omega (arith, i.covers, owed_le user s t i.sound h);
        backed =
            rw (ap (λ x. x.total_staked) k, ap (λ x. x.tokens) k, ap (λ x. x.token) k) i.backed;
      }

  module _ (transfer : Transfer T) (law : IsToken transfer held) (env : Env)
      (here : env.current ≡ pool) (outside : env.authorized pool ≡ false) where
    pub signer_outside : (from : ℕ) → env.authorized from ≡ true → from ≢ env.current
    signer_outside from p e = absurd (cc (p, outside, here, ap (λ a. env.authorized a) e))

    pub received :
        (token from : ℕ) (amount : ℤ) (before after : T)
        → env.authorized from ≡ true
        → transfer env token from env.current amount before ≡ some after
        → held after token pool ≡ held before token pool +ℤ amount
    received token from amount before after p h =
        subst (λ a. held after token a ≡ held before token a +ℤ amount) here
          (law.receives env token from env.current amount before after h (signer_outside from p))

    pub spent :
        (token to : ℕ) (amount : ℤ) (before after : T)
        → env.authorized to ≡ true
        → transfer env token env.current to amount before ≡ some after
        → held after token pool ≡ held before token pool -ℤ amount
    spent token to amount before after p h =
        subst (λ a. held after token a ≡ held before token a -ℤ amount) here
          (law.pays env token env.current to amount before after h
            (λ e. signer_outside to p (sym e)))

    pub stake-IsSolvent :
        (user : ℕ) (amount : ℤ) (s t : State T)
        → stake transfer env user amount s ≡ ok t
        → IsSolvent s
        → IsSolvent t
    unfolding get_total_staked
    stake-IsSolvent user amount s t h i =
        let k = stake_ok transfer env user amount s t h in
        let a = k.accrued in
        let b =
          accrued-IsSolvent user (locked s) a k.is_accrued (relocked-IsSolvent (some true) s i) in
        let settled =
          weight_settled user (locked s) a (relocked-IsSolvent (some true) s i).sound
            k.is_accrued in
        let balance = get_staked_balance a user +ℤ amount in
        let total = get_total_staked a +ℤ amount in
        subst IsSolvent (sym k.written) (record {
          sound =
              rebalanced-IsSound a b.sound user balance total t.tokens
                (omega (int_laws, b.sound.within user, k.positive))
                (eq_of_parts _ _ (omega int_laws));
          reserve = b.reserve;
          covers =
              omega
                (arith, b.covers, rebalanced-owed a b.sound user balance total t.tokens settled);
          backed = omega (
            int_laws,
            b.backed,
            parts_of_eq
                (received (unwrap_or a.token 0) user amount a.tokens t.tokens k.signed k.moved),
          );
        })

    pub unstake-IsSolvent :
        (user : ℕ) (amount : ℤ) (s t : State T)
        → unstake transfer env user amount s ≡ ok t
        → IsSolvent s
        → IsSolvent t
    unfolding get_total_staked get_unused_stake
    unstake-IsSolvent user amount s t h i =
        let k = unstake_ok transfer env user amount s t h in
        let a = k.accrued in
        let b =
          accrued-IsSolvent user (locked s) a k.is_accrued (relocked-IsSolvent (some true) s i) in
        let settled =
          weight_settled user (locked s) a (relocked-IsSolvent (some true) s i).sound
            k.is_accrued in
        let balance = get_staked_balance a user -ℤ amount in
        let total = get_total_staked a -ℤ amount in
        subst IsSolvent (sym k.written) (record {
          sound =
              rebalanced-IsSound a b.sound user balance total t.tokens
                (omega (int_laws, saturating_sub_le _ _ amount k.positive k.covered))
                (eq_of_parts _ _ (omega int_laws));
          reserve = b.reserve;
          covers =
              omega
                (arith, b.covers, rebalanced-owed a b.sound user balance total t.tokens settled);
          backed = omega (
            int_laws,
            b.backed,
            parts_of_eq
                (spent (unwrap_or a.token 0) user amount a.tokens t.tokens k.signed k.moved),
          );
        })
