-- ===== src/MvpStakingPool/Claims.antt =====
-- mvp_staking_pool/src/lib.rs: what a claim pays, and the pool after `init`.
use shelterflex_contracts.Prelude.{
  ℕ, ◌+◌, ◌≡◌, refl, sym, ap, ◌∙◌, subst, ◌⊎◌, inl, inr, true, some, arith, ==_refl, pos_part, ◌≤ℤ◌,
  ◌<ℤ◌, eq_of_parts, parts_of_eq, pos-pos_part, ℤ, pos, unwrap_or,
}
use shelterflex_contracts.Host.{Env, ok}
use shelterflex_contracts.MvpStakingPool.Types.{
  get_global_reward_index, get_staked_balance, get_user_reward_index, get_claimable_reward, State,
}
use shelterflex_contracts.MvpStakingPool.Accrual.{earned, accrue_ok}
use shelterflex_contracts.MvpStakingPool.Effects.{locked}
use shelterflex_contracts.MvpStakingPool.Payments.{claim_ok, IsClaimed}
use shelterflex_contracts.MvpStakingPool.Rewards.{IsSound}
use shelterflex_contracts.Token.{Transfer}
use shelterflex_contracts.MvpStakingPool.Calls.{claim}
use shelterflex_contracts.MvpStakingPool.Sound.{relocked-IsSound, at_user, global_kept, same_staked}

zero_due : (x : ℤ) (d : ℕ) → x ≡ pos d → x ≤ℤ pos 0 → x ≡ pos 0
zero_due x d e h = eq_of_parts _ _ (omega (arith, parts_of_eq e))

module _ {T : Type 0} where
  -- The reward of a user, with what the stake has earned since the index of the user, rounded down.
  unfoldable pub due : State T → ℕ → ℤ
  due s user = pos (
      pos_part (get_claimable_reward s user)
      + earned (pos_part (get_staked_balance s user)) (pos_part (get_global_reward_index s))
          (pos_part (get_user_reward_index s user)))

  -- The rewards and the tokens as a claim of `amount` has left them: an amount that is positive was
  -- transferred from the pool to the caller, and for an amount of 0 no token moved.
  pub record IsPaidOut (transfer : Transfer T) (env : Env) (to : ℕ) (amount : ℤ) (s t : State T)
      : Type 0 where
    pub nothing_left : get_claimable_reward t to ≡ pos 0
    pub index_now : get_user_reward_index t to ≡ get_global_reward_index t
    pub same_global : get_global_reward_index t ≡ get_global_reward_index s
    pub same_stake : t.staked_balance ≡ s.staked_balance
    pub paid :
        ((amount ≡ pos 0) × (t.tokens ≡ s.tokens))
        ⊎ ((pos 0 <ℤ amount)
            × (transfer env (unwrap_or s.token 0) env.current to amount s.tokens ≡ some t.tokens))

  module _ (transfer : Transfer T) (env : Env) (to : ℕ) (s t : State T) (amount : ℤ) where
    claimed_all :
        (k : IsClaimed transfer env to s t amount)
        → get_claimable_reward k.accrued to ≡ due s to
        → (amount ≡ due s to) × (get_claimable_reward t to ≡ pos 0)
    unfolding due get_claimable_reward
    claimed_all k e = elim k.paid [
      | inl (z, (p, w)) ↦ let none_due = zero_due _ _ e p in (z ∙ (sym none_due ∙ e), rw w none_due)
      | inr (p, (q, (m, w))) ↦ (q ∙ e, rw w (rw (==_refl to) refl))
    ]

    claimed_rest :
        (k : IsClaimed transfer env to s t amount)
        → (get_user_reward_index t to ≡ get_user_reward_index k.accrued to)
          × ((get_global_reward_index t ≡ get_global_reward_index k.accrued)
              × (t.staked_balance ≡ k.accrued.staked_balance))
    unfolding get_user_reward_index get_global_reward_index
    claimed_rest k = elim k.paid [
      | inl (z, (p, w)) ↦ (rw w refl, (rw w refl, rw w refl))
      | inr (p, (q, (m, w))) ↦ (rw w refl, (rw w refl, rw w refl))
    ]

    claimed_tokens :
        (k : IsClaimed transfer env to s t amount)
        → ((amount ≡ pos 0) × (t.tokens ≡ s.tokens))
          ⊎ ((pos 0 <ℤ amount)
              × (transfer env (unwrap_or s.token 0) env.current to amount s.tokens ≡ some t.tokens))
    claimed_tokens k =
        let kept = (accrue_ok to (locked s) k.accrued k.is_accrued).kept in
        let tokens = ap (λ x. x.tokens) kept in
        elim k.paid [
          | inl (z, (p, w)) ↦ inl (z, ap (λ x. x.tokens) w ∙ tokens)
          | inr (p, (q, (m, w))) ↦ inr (
            subst (λ x. pos 0 <ℤ x) (sym q) p,
            subst (λ d. transfer env (unwrap_or s.token 0) env.current to amount d ≡ some t.tokens)
                tokens
                (subst
                  (λ o.
                    transfer env (unwrap_or o 0) env.current to amount k.accrued.tokens
                    ≡ some t.tokens)
                  (ap (λ x. x.token) kept) m),
          )
        ]

    -- A claim on an MVP pool whose accounts agree that returns an amount returns the stored reward
    -- of the caller and what the stake has earned since the index of the caller, rounded down; the
    -- token contract has transferred that amount from the pool to the caller, or the amount is 0
    -- and the tokens are as before; the claim leaves no reward, moves that index to the global one,
    -- and changes neither the global index nor the stakes.
    pub claim_amount :
        IsSound s
        → claim transfer env to s ≡ ok (t, amount)
        → (amount ≡ due s to) × IsPaidOut transfer env to amount s t
    unfolding due get_claimable_reward get_staked_balance get_user_reward_index
        get_global_reward_index
    claim_amount v h =
        let k = claim_ok transfer env to s t amount h in
        let lv = relocked-IsSound (some true) s v in
        let u = at_user to (locked s) k.accrued lv k.is_accrued in
        let g = global_kept to (locked s) k.accrued lv k.is_accrued in
        let all = claimed_all k u.0 in
        let rest = claimed_rest k in
        let positive : pos 0 ≤ℤ get_global_reward_index s =
          omega (arith, v.indices to, v.behind to) in
        (
          all.0,
          record {
            nothing_left = all.1;
            index_now = rest.0 ∙ (u.1 ∙ (sym (pos-pos_part _ positive) ∙ sym (rest.1.0 ∙ g)));
            same_global = rest.1.0 ∙ g;
            paid = claimed_tokens k;
            same_stake = rest.1.1 ∙ same_staked to (locked s) k.accrued lv k.is_accrued;
          },
        )
