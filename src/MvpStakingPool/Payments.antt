-- ===== src/MvpStakingPool/Payments.antt =====
-- mvp_staking_pool/src/lib.rs: what a claim and a funding of rewards have checked and written, where
-- they returned.
use shelterflex_contracts.Prelude.{
  ℕ, ◌≡◌, ◌⊎◌, inl, inr, true, false, some, arith, leb→le, Bool-cases, pos_part, ◌+ℤ◌, ◌*ℤ◌, ◌/ℤ◌,
  ◌≤ℤ◌, ◌<ℤ◌, leb_ℤ, ℤ, pos, unwrap_or, update,
}
use shelterflex_contracts.Host.{>>=-elim, Env, ok}
use shelterflex_contracts.Token.{Transfer}
use shelterflex_contracts.AccessControl.{require_admin_auth}
use shelterflex_contracts.Reentrancy.{enter, exit}
use shelterflex_contracts.MvpStakingPool.Types.{
  reward_index_scale, get_admin, get_token, get_total_staked, get_global_reward_index,
  require_admin, require_not_paused, get_claimable_reward, accrue_user_rewards, enter_nonreentrant,
  exit_nonreentrant, require_positive_amount, State,
}
use shelterflex_contracts.MvpStakingPool.Calls.{fund_rewards, claim_accrued, claim}
use shelterflex_contracts.MvpStakingPool.Effects.{locked}

module _ {T : Type 0} where
  module _ (transfer : Transfer T) (env : Env) where
    pub record IsClaimed (to : ℕ) (s t : State T) (amount : ℤ) : Type 0 where
      pub signed : env.authorized to ≡ true
      pub accrued : State T
      pub is_accrued : accrue_user_rewards to (locked s) ≡ ok accrued
      pub paid :
          ((amount ≡ pos 0)
            × ((get_claimable_reward accrued to ≤ℤ pos 0)
                × (t ≡ record accrued { reentrancy = some false })))
          ⊎ ((pos 0 <ℤ get_claimable_reward accrued to)
              × ((amount ≡ get_claimable_reward accrued to)
                  × ((transfer env (unwrap_or accrued.token 0) env.current to amount accrued.tokens
                        ≡ some t.tokens)
                      × (t ≡ record accrued {
                        claimable_reward = update to (some (pos 0)) accrued.claimable_reward;
                        tokens = t.tokens;
                        reentrancy = some false;
                      }))))

    claim_paid :
        (to : ℕ) (a t : State T) (amount : ℤ)
        → claim_accrued transfer env to a ≡ ok (t, amount)
        → leb_ℤ (get_claimable_reward a to) (pos 0) ≡ false
        → (pos 0 <ℤ get_claimable_reward a to)
          × ((amount ≡ get_claimable_reward a to)
              × ((transfer env (unwrap_or a.token 0) env.current to amount a.tokens ≡ some t.tokens)
                  × (t ≡ record a {
                    claimable_reward = update to (some (pos 0)) a.claimable_reward;
                    tokens = t.tokens;
                    reentrancy = some false;
                  })))
    unfolding claim_accrued get_token exit_nonreentrant exit
    claim_paid to a t amount h e = (ground arith, (ground arith, (ground arith, ground arith)))

    claim_nothing :
        (to : ℕ) (a t : State T) (amount : ℤ)
        → claim_accrued transfer env to a ≡ ok (t, amount)
        → leb_ℤ (get_claimable_reward a to) (pos 0) ≡ true
        → (amount ≡ pos 0)
          × ((get_claimable_reward a to ≤ℤ pos 0) × (t ≡ record a { reentrancy = some false }))
    unfolding claim_accrued exit_nonreentrant exit
    claim_nothing to a t amount h e = (ground arith, (leb→le _ _ e, ground arith))

    pub claim_ok :
        (to : ℕ) (s t : State T) (amount : ℤ)
        → claim transfer env to s ≡ ok (t, amount)
        → IsClaimed to s t amount
    unfolding claim require_not_paused enter_nonreentrant enter
    claim_ok to s t amount h =
        >>=-elim (accrue_user_rewards to (locked s)) (claim_accrued transfer env to)
          {b = (t, amount)} (ground arith)
          λ a p q. record {
            signed = ground arith;
            accrued = a;
            is_accrued = p;
            paid = elim (Bool-cases (leb_ℤ (get_claimable_reward a to) (pos 0))) [
              | inl e ↦ inl (claim_nothing to a t amount q e)
              | inr e ↦ inr (claim_paid to a t amount q e)
            ];
          }

    pub record IsFunded (from : ℕ) (amount : ℤ) (s t : State T) : Type 0 where
      pub signed : env.authorized from ≡ true
      pub positive : pos 0 <ℤ amount
      pub staked : pos 0 <ℤ get_total_staked s
      pub moved :
          transfer env (unwrap_or s.token 0) from env.current amount s.tokens ≡ some t.tokens
      pub written : t ≡ record s {
        global_reward_index = some (
            get_global_reward_index s
            +ℤ amount *ℤ pos reward_index_scale /ℤ pos_part (get_total_staked s));
        tokens = t.tokens;
        reentrancy = some false;
      }

    pub fund_ok :
        (from : ℕ) (amount : ℤ) (s t : State T)
        → fund_rewards transfer env from amount s ≡ ok t
        → IsFunded from amount s t
    unfolding fund_rewards require_admin require_admin_auth get_admin require_not_paused
        require_positive_amount enter_nonreentrant enter get_token exit_nonreentrant exit
        get_total_staked get_global_reward_index
    fund_ok from amount s t h = record {
      signed = ground arith;
      positive = ground arith;
      staked = ground arith;
      moved = ground arith;
      written = ground arith;
    }
