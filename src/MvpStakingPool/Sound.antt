-- ===== src/MvpStakingPool/Sound.antt =====
-- mvp_staking_pool/src/lib.rs: the accounts of the pool, and that an accrual keeps them and raises
-- nothing that is owed.
use shelterflex_contracts.Prelude.{
  ℕ, ◌+◌, ◌-◌, ◌*◌, ◌≤◌, ◌≡◌, refl, sym, ap, ◌∙◌, subst, Bool, Option, none, some, arith,
  ℕ_discrete, pos_part, ◌≤ℤ◌, neg_part_zero, pos-pos_part, ℤ, pos, unwrap_or, lookup,
}
use shelterflex_contracts.Host.{ok}
use shelterflex_contracts.MvpStakingPool.Types.{
  reward_index_scale, get_total_staked, get_global_reward_index, get_staked_balance, get_used_stake,
  get_user_reward_index, get_claimable_reward, accrue_user_rewards, State,
}
use shelterflex_contracts.MvpStakingPool.Accrual.{earned, zero_earned, accrue_ok, accrue_eq}
use shelterflex_contracts.MvpStakingPool.Rewards.{
  owed, owed_mono, earned_le, no_gain, weight, IsSound,
}

module _ {T : Type 0} where
  pub staked_nonneg : (s : State T) → IsSound s → (u : ℕ) → pos 0 ≤ℤ get_staked_balance s u
  staked_nonneg s v u = omega (arith, v.used u, v.within u)

  pub stored_nonneg :
      (s : State T) → IsSound s → (u : ℕ) (b : ℤ) → lookup u s.staked_balance ≡ some b → pos 0 ≤ℤ b
  unfolding get_staked_balance
  stored_nonneg s v u b h = subst (λ x. pos 0 ≤ℤ x) (rw h refl) (staked_nonneg s v u)

  pub relocked-IsSound :
      (flag : Option Bool) (s : State T) → IsSound s → IsSound (record s { reentrancy = flag })
  unfolding get_staked_balance get_total_staked get_used_stake get_claimable_reward
      get_user_reward_index get_global_reward_index
  relocked-IsSound flag s v = record {
    has_admin = v.has_admin;
    keys = v.keys;
    total = v.total;
    used = v.used;
    within = v.within;
    rewards = v.rewards;
    indices = v.indices;
    behind = v.behind;
    absent = v.absent;
  }

  module _ (user : ℕ) (s t : State T) (v : IsSound s) (h : accrue_user_rewards user s ≡ ok t) where
    global_nonneg : pos 0 ≤ℤ get_global_reward_index s
    global_nonneg = omega (arith, v.indices user, v.behind user)

    pub at_user :
        (get_claimable_reward t user
          ≡ pos (
              pos_part (get_claimable_reward s user)
              + earned
                  (pos_part (get_staked_balance s user))
                  (pos_part (get_global_reward_index s))
                  (pos_part (get_user_reward_index s user))))
        × (get_user_reward_index t user ≡ pos (pos_part (get_global_reward_index s)))
    at_user =
        accrue_eq user (pos_part (get_global_reward_index s))
          (pos_part (get_user_reward_index s user)) (pos_part (get_staked_balance s user))
          (pos_part (get_claimable_reward s user)) s t
          (omega
            (arith, v.behind user, neg_part_zero _ (v.indices user), neg_part_zero _ global_nonneg))
          (pos-pos_part _ global_nonneg) (pos-pos_part _ (v.indices user))
          (pos-pos_part _ (staked_nonneg s v user)) (pos-pos_part _ (v.rewards user)) h

    pub global_kept : get_global_reward_index t ≡ get_global_reward_index s
    unfolding get_global_reward_index
    global_kept = ap (λ x. unwrap_or x.global_reward_index (pos 0)) (accrue_ok user s t h).kept

    pub same_staked : t.staked_balance ≡ s.staked_balance
    same_staked = ap (λ x. x.staked_balance) (accrue_ok user s t h).kept

    -- The index of the user is the global one, so the weight is the reward alone.
    pub weight_settled :
        (b : ℤ) → weight t user b ≡ pos_part (get_claimable_reward t user) * reward_index_scale
    unfolding weight
    weight_settled b =
        rw (global_kept, at_user.1)
          (ap (λ y. pos_part (get_claimable_reward t user) * reward_index_scale + y)
              (no_gain (pos_part b) (pos_part (get_global_reward_index s)))
            ∙ omega arith)

    user_weight_le : (b : ℤ) → get_staked_balance s user ≡ b → weight t user b ≤ weight s user b
    unfolding weight
    user_weight_le b e =
        let reward = pos_part (get_claimable_reward s user) in
        let staked = pos_part (get_staked_balance s user) in
        let index = pos_part (get_global_reward_index s) in
        let from = pos_part (get_user_reward_index s user) in
        subst (λ x. x ≤ weight s user b)
          (sym (weight_settled b ∙ ap (λ c. pos_part c * reward_index_scale) at_user.0))
          (subst
            (λ z.
              (reward + earned staked index from) * reward_index_scale
              ≤ reward * reward_index_scale + pos_part z * (index - from))
            e (earned_le reward staked index from))

    absent_user : lookup user s.staked_balance ≡ none → get_claimable_reward t user ≡ pos 0
    unfolding get_staked_balance
    absent_user n =
        at_user.0
        ∙ ap pos (
            rw (v.absent user n, n)
              (ap (λ x. 0 + x)
                  (zero_earned (pos_part (get_global_reward_index s))
                    (pos_part (get_user_reward_index s user)))
                ∙ omega arith))

    pub weight_le :
        (u : ℕ) (b : ℤ) → lookup u s.staked_balance ≡ some b → weight t u b ≤ weight s u b
    unfolding weight get_staked_balance
    weight_le u b l = elim (ℕ_discrete u user) [
      | yes e ↦
          subst (λ x. weight t x b ≤ weight s x b) (sym e)
            (user_weight_le b (rw (ap (λ x. lookup x s.staked_balance) (sym e) ∙ l) refl))
      | no ne ↦
          let k = accrue_ok user s t h in
          rw (global_kept, k.same_rewards u ne, k.same_indices u ne) (omega arith)
    ]

    pub owed_le : owed (weight t) t.staked_balance ≤ owed (weight s) s.staked_balance
    owed_le =
        subst (λ m. owed (weight t) m ≤ owed (weight s) s.staked_balance) (sym same_staked)
          (owed_mono (weight s) (weight t) s.staked_balance v.keys weight_le)

    pub accrued-IsSound : IsSound t
    unfolding get_total_staked get_staked_balance get_used_stake
    accrued-IsSound =
        let k = accrue_ok user s t h in
        record {
          has_admin = rw (ap (λ x. x.upgrade) k.kept) v.has_admin;
          keys = rw same_staked v.keys;
          total = rw (same_staked, ap (λ x. x.total_staked) k.kept) v.total;
          used = λ u. rw (ap (λ x. x.used_stake) k.kept) (v.used u);
          within = λ u. rw (same_staked, ap (λ x. x.used_stake) k.kept) (v.within u);
          rewards = λ u. elim (ℕ_discrete u user) [
            | yes e ↦ rw (e, at_user.0) (omega arith)
            | no ne ↦ rw (k.same_rewards u ne) (v.rewards u)
          ];
          indices = λ u. elim (ℕ_discrete u user) [
            | yes e ↦ rw (e, at_user.1) (omega arith)
            | no ne ↦ rw (k.same_indices u ne) (v.indices u)
          ];
          behind = λ u. elim (ℕ_discrete u user) [
            | yes e ↦ rw (e, at_user.1, global_kept) (omega (arith, neg_part_zero _ global_nonneg))
            | no ne ↦ rw (k.same_indices u ne, global_kept) (v.behind u)
          ];
          absent = λ u n. elim (ℕ_discrete u user) [
            | yes e ↦ rw e (absent_user (rw (e, same_staked) at n))
            | no ne ↦ k.same_rewards u ne ∙ v.absent u (rw same_staked at n)
          ];
        }
