-- ===== src/StakingPool/Solvency.antt =====
-- staking_pool/src/lib.rs: the tokens that the pool holds against the total that it owes.
use shelterflex_contracts.Prelude.{
  ℕ, ◌≡◌, sym, ◌≢◌, some, ◌+ℤ◌, ◌-ℤ◌, eq_of_parts, parts_of_eq, ℤ, int_laws, unwrap_or,
}
use shelterflex_contracts.Host.{Env, ok}
use shelterflex_contracts.StakingPool.Types.{get_total_staked, State, External}
use shelterflex_contracts.StakingPool.Staking.{stake, unstake}
use shelterflex_contracts.StakingPool.Effects.{stake_ok, unstake_ok}

-- What a token contract does in a transfer between two addresses: `held` is a balance, by the state
-- of the token contracts, the token and the holder.
pub record MovesTokens {T : Type 0} (x : External T) (held : T → ℕ → ℕ → ℤ) : Type 0 where
  pub receives :
      (env : Env) (token from to : ℕ) (amount : ℤ) (before after : T)
      → x.transfer env token from to amount before ≡ some after
      → from ≢ to
      → held after token to ≡ held before token to +ℤ amount
  pub pays :
      (env : Env) (token from to : ℕ) (amount : ℤ) (before after : T)
      → x.transfer env token from to amount before ≡ some after
      → from ≢ to
      → held after token from ≡ held before token from -ℤ amount

module _ {T : Type 0} (x : External T) (held : T → ℕ → ℕ → ℤ) where
  -- What the pool at `pool` holds beyond the total staked.
  pub surplus : ℕ → State T → ℤ
  surplus pool s = held s.tokens (unwrap_or s.token 0) pool -ℤ get_total_staked s

  module _ (law : MovesTokens x held) (env : Env) (user : ℕ) (amount : ℤ) (s t : State T)
      (outside : user ≢ env.current) where
    -- With a token whose transfers between two addresses move balances, a stake by anybody but the
    -- pool itself that returns leaves what the pool holds beyond the total staked as it was.
    pub stake-surplus :
        stake x env user amount s ≡ ok t → surplus env.current t ≡ surplus env.current s
    unfolding surplus get_total_staked
    stake-surplus h =
        let st = (stake_ok x env user amount s t h).1 in
        rw (st.settings.same_token, st.total)
          (eq_of_parts _ _ (
            omega (
              int_laws,
              parts_of_eq (
                  law.receives env (unwrap_or s.token 0) user env.current amount s.tokens t.tokens
                    st.moved outside),
            )))

    -- With a token whose transfers between two addresses move balances, an unstake by anybody but
    -- the pool itself that returns leaves what the pool holds beyond the total staked as it was.
    pub unstake-surplus :
        unstake x env user amount s ≡ ok t → surplus env.current t ≡ surplus env.current s
    unfolding surplus get_total_staked
    unstake-surplus h =
        let un = (unstake_ok x env user amount s t h).1 in
        rw (un.settings.same_token, un.total)
          (eq_of_parts _ _ (
            omega (
              int_laws,
              parts_of_eq (
                  law.pays env (unwrap_or s.token 0) env.current user amount s.tokens t.tokens
                    un.moved (λ e. outside (sym e))),
            )))
