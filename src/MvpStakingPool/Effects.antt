-- ===== src/MvpStakingPool/Effects.antt =====
-- mvp_staking_pool/src/lib.rs: what the calls that move stakes have checked and written,
-- where they returned.
use shelterflex_contracts.Prelude.{
  ℕ, ◌≡◌, true, false, some, arith, ◌+ℤ◌, ◌-ℤ◌, ◌≤ℤ◌, ◌<ℤ◌, ℤ, pos, unwrap_or, insert,
}
use shelterflex_contracts.Host.{◌>>=◌, >>=-elim, Env, ok}
use shelterflex_contracts.Token.{Transfer}
use shelterflex_contracts.Reentrancy.{enter, exit}
use shelterflex_contracts.MvpStakingPool.Types.{
  get_token, get_total_staked, require_not_paused, get_staked_balance, get_used_stake,
  put_used_stake, get_unused_stake, accrue_user_rewards, enter_nonreentrant, exit_nonreentrant,
  require_positive_amount, State,
}
use shelterflex_contracts.MvpStakingPool.Calls.{
  utilize_accrued, utilize_stake, stake_accrued, stake, unstake_accrued, unstake,
}

module _ {T : Type 0} where
  abbrev pub locked : State T → State T
  locked s = record s { reentrancy = some true }

  pub record IsUtilized (user : ℕ) (amount : ℤ) (s t : State T) : Type 0 where
    pub positive : pos 0 <ℤ amount
    pub accrued : State T
    pub is_accrued : accrue_user_rewards user s ≡ ok accrued
    pub covered : amount ≤ℤ get_unused_stake accrued user
    pub written : t ≡ put_used_stake user (get_used_stake accrued user +ℤ amount) accrued

  pub utilize_ok :
      (env : Env) (admin user : ℕ) (amount : ℤ) (s t : State T)
      → utilize_stake env admin user amount s ≡ ok t
      → IsUtilized user amount s t
  unfolding utilize_stake require_not_paused require_positive_amount utilize_accrued put_used_stake
  utilize_ok env admin user amount s t h =
      >>=-elim (accrue_user_rewards user s) (utilize_accrued user amount) {b = t} (ground arith)
        λ a p q. record {
          positive = ground arith;
          accrued = a;
          is_accrued = p;
          covered = ground arith;
          written = ground arith;
        }

  module _ (transfer : Transfer T) (env : Env) where
    pub record IsStaked (user : ℕ) (amount : ℤ) (s t : State T) : Type 0 where
      pub signed : env.authorized user ≡ true
      pub positive : pos 0 <ℤ amount
      pub accrued : State T
      pub is_accrued : accrue_user_rewards user (locked s) ≡ ok accrued
      pub moved :
          transfer env (unwrap_or accrued.token 0) user env.current amount accrued.tokens
          ≡ some t.tokens
      pub written : t ≡ record accrued {
        staked_balance =
            insert user (get_staked_balance accrued user +ℤ amount) accrued.staked_balance;
        total_staked = some (get_total_staked accrued +ℤ amount);
        tokens = t.tokens;
        reentrancy = some false;
      }

    stake_written :
        (user : ℕ) (amount : ℤ) (s a t : State T)
        → env.authorized user ≡ true
        → pos 0 <ℤ amount
        → accrue_user_rewards user (locked s) ≡ ok a
        → stake_accrued transfer env user amount a ≡ ok t
        → IsStaked user amount s t
    unfolding stake_accrued get_token exit_nonreentrant exit
    stake_written user amount s a t g p e q = record {
      signed = g;
      positive = p;
      accrued = a;
      is_accrued = e;
      moved = ground arith;
      written = ground arith;
    }

    stake_gates :
        (user : ℕ) (amount : ℤ) (s t : State T)
        → stake transfer env user amount s ≡ ok t
        → (env.authorized user ≡ true)
          × ((pos 0 <ℤ amount)
              × ((accrue_user_rewards user (locked s) >>= stake_accrued transfer env user amount)
                  ≡ ok t))
    unfolding stake require_not_paused require_positive_amount enter_nonreentrant enter
    stake_gates user amount s t h = (ground arith, (ground arith, ground arith))

    pub stake_ok :
        (user : ℕ) (amount : ℤ) (s t : State T)
        → stake transfer env user amount s ≡ ok t
        → IsStaked user amount s t
    stake_ok user amount s t h =
        let (g, (p, k)) = stake_gates user amount s t h in
        >>=-elim (accrue_user_rewards user (locked s)) (stake_accrued transfer env user amount) k
          λ a e q. stake_written user amount s a t g p e q

    pub record IsUnstaked (user : ℕ) (amount : ℤ) (s t : State T) : Type 0 where
      pub signed : env.authorized user ≡ true
      pub positive : pos 0 <ℤ amount
      pub accrued : State T
      pub is_accrued : accrue_user_rewards user (locked s) ≡ ok accrued
      pub covered : amount ≤ℤ get_unused_stake accrued user
      pub moved :
          transfer env (unwrap_or accrued.token 0) env.current user amount accrued.tokens
          ≡ some t.tokens
      pub written : t ≡ record accrued {
        staked_balance =
            insert user (get_staked_balance accrued user -ℤ amount) accrued.staked_balance;
        total_staked = some (get_total_staked accrued -ℤ amount);
        tokens = t.tokens;
        reentrancy = some false;
      }

    unstake_written :
        (user : ℕ) (amount : ℤ) (s a t : State T)
        → env.authorized user ≡ true
        → pos 0 <ℤ amount
        → accrue_user_rewards user (locked s) ≡ ok a
        → unstake_accrued transfer env user amount a ≡ ok t
        → IsUnstaked user amount s t
    unfolding unstake_accrued get_token exit_nonreentrant exit
    unstake_written user amount s a t g p e q = record {
      signed = g;
      positive = p;
      accrued = a;
      is_accrued = e;
      covered = ground arith;
      moved = ground arith;
      written = ground arith;
    }

    unstake_gates :
        (user : ℕ) (amount : ℤ) (s t : State T)
        → unstake transfer env user amount s ≡ ok t
        → (env.authorized user ≡ true)
          × ((pos 0 <ℤ amount)
              × ((accrue_user_rewards user (locked s) >>= unstake_accrued transfer env user amount)
                  ≡ ok t))
    unfolding unstake require_not_paused require_positive_amount enter_nonreentrant enter
    unstake_gates user amount s t h = (ground arith, (ground arith, ground arith))

    pub unstake_ok :
        (user : ℕ) (amount : ℤ) (s t : State T)
        → unstake transfer env user amount s ≡ ok t
        → IsUnstaked user amount s t
    unstake_ok user amount s t h =
        let (g, (p, k)) = unstake_gates user amount s t h in
        >>=-elim (accrue_user_rewards user (locked s)) (unstake_accrued transfer env user amount) k
          λ a e q. unstake_written user amount s a t g p e q
