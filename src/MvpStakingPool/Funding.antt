-- ===== src/MvpStakingPool/Funding.antt =====
-- mvp_staking_pool/src/lib.rs: the use of a stake, a claim and a funding of rewards keep the pool
-- solvent.
use shelterflex_contracts.Prelude.{
  ℕ, ◌+◌, ◌-◌, ◌*◌, ◌/◌, ◌≤◌, ◌≡◌, sym, ap, ◌∙◌, subst, inl, inr, true, false, some, arith,
  pos_part, ◌+ℤ◌, ◌-ℤ◌, ◌*ℤ◌, ◌/ℤ◌, ◌<ℤ◌, parts_of_eq, pos-*ℤ, saturating_sub_le, neg_part_zero, ℤ,
  int_laws, pos, negsuc, unwrap_or,
}
use shelterflex_contracts.Host.{state_of, state_of_ok, Env, ok}
use shelterflex_contracts.Token.{Transfer, IsToken}
use shelterflex_contracts.MvpStakingPool.Types.{
  reward_index_scale, get_total_staked, get_global_reward_index, get_used_stake, put_used_stake,
  get_unused_stake, get_claimable_reward, State,
}
use shelterflex_contracts.MvpStakingPool.Calls.{utilize_stake, fund_rewards, claim}
use shelterflex_contracts.MvpStakingPool.Effects.{locked, utilize_ok}
use shelterflex_contracts.MvpStakingPool.Payments.{claim_ok, fund_ok, IsClaimed}
use shelterflex_contracts.MvpStakingPool.Rewards.{sum_parts, sum_parts_eq, increment_le, IsSound}
use shelterflex_contracts.MvpStakingPool.Sound.{stored_nonneg}
use shelterflex_contracts.MvpStakingPool.Writes.{used-IsSound, used_owed}
use shelterflex_contracts.MvpStakingPool.Payouts.{
  paid, paid-IsSound, paid_owed, funded-IsSound, funded-owed,
}
use shelterflex_contracts.MvpStakingPool.Solvency.{
  relocked-IsSolvent, accrued-IsSolvent, received, spent, IsSolvent,
}

increment_eq :
    (amount : ℤ) (total : ℕ)
    → pos 0 <ℤ amount
    → amount *ℤ pos reward_index_scale /ℤ total ≡ pos (pos_part amount * reward_index_scale / total)
unfolding ◌/ℤ◌
increment_eq (pos n) total h = ap (λ x. x /ℤ total) (pos-*ℤ n reward_index_scale)
increment_eq (negsuc n) total h = absurd (omega arith)

module _ {T : Type 0} (held : T → ℕ → ℕ → ℤ) (pool : ℕ) where
  total_parts :
      (s : State T) → IsSound s → pos_part (get_total_staked s) ≡ sum_parts s.staked_balance
  total_parts s v =
      ap pos_part (v.total ∙ sym (sum_parts_eq s.staked_balance v.keys (stored_nonneg s v)))

  pub utilize-IsSolvent :
      (env : Env) (admin user : ℕ) (amount : ℤ) (s t : State T)
      → utilize_stake env admin user amount s ≡ ok t
      → IsSolvent held pool s
      → IsSolvent held pool t
  unfolding get_total_staked get_unused_stake put_used_stake
  utilize-IsSolvent env admin user amount s t h i =
      let k = utilize_ok env admin user amount s t h in
      let a = k.accrued in
      let b = accrued-IsSolvent held pool user s a k.is_accrued i in
      let used = get_used_stake a user +ℤ amount in
      subst (IsSolvent held pool) (sym k.written) (record {
        sound =
            used-IsSound a b.sound user used (omega (int_laws, b.sound.used user, k.positive))
              (omega (int_laws, saturating_sub_le _ _ amount k.positive k.covered));
        reserve = b.reserve;
        covers =
            subst (λ x. x ≤ b.reserve * reward_index_scale) (sym (used_owed a b.sound user used))
              b.covers;
        backed = b.backed;
      })

  module _ (transfer : Transfer T) (law : IsToken transfer held) (env : Env)
      (here : env.current ≡ pool) (outside : env.authorized pool ≡ false) where
    paid-IsSolvent :
        (to : ℕ) (a : State T) (tokens : T) (b : IsSolvent held pool a)
        → pos 0 <ℤ get_claimable_reward a to
        → held tokens (unwrap_or a.token 0) pool
          ≡ held a.tokens (unwrap_or a.token 0) pool -ℤ get_claimable_reward a to
        → IsSolvent held pool (paid a b.sound to tokens)
    unfolding get_total_staked
    paid-IsSolvent to a tokens b p m =
        let less = paid_owed a b.sound to tokens p in
        record {
          sound = paid-IsSound a b.sound to tokens;
          reserve = b.reserve - pos_part (get_claimable_reward a to);
          covers = omega (arith, less, b.covers);
          backed = omega (
            int_laws,
            less,
            b.covers,
            b.backed,
            neg_part_zero _ (b.sound.rewards to),
            parts_of_eq m,
          );
        }

    pub fund-IsSolvent :
        (from : ℕ) (amount : ℤ) (s t : State T)
        → fund_rewards transfer env from amount s ≡ ok t
        → IsSolvent held pool s
        → IsSolvent held pool t
    unfolding get_total_staked
    fund-IsSolvent from amount s t h i =
        let k = fund_ok transfer env from amount s t h in
        let n = pos_part (get_total_staked s) in
        let inc = pos_part amount * reward_index_scale / n in
        let grown = funded-owed s i.sound inc t.tokens in
        let share = increment_le (pos_part amount) n in
        subst (IsSolvent held pool)
          (sym (
            k.written
            ∙ ap
                (λ g. record s {
                  global_reward_index = some (get_global_reward_index s +ℤ g);
                  tokens = t.tokens;
                  reentrancy = some false;
                })
                (increment_eq amount n k.positive)))
          (record {
            sound = funded-IsSound s i.sound inc t.tokens;
            reserve = i.reserve + pos_part amount;
            covers = omega (
              arith,
              grown,
              i.covers,
              subst (λ x. x * inc ≤ pos_part amount * reward_index_scale) (total_parts s i.sound)
                  share,
            );
            backed = omega (
              int_laws,
              i.backed,
              neg_part_zero amount (omega (arith, k.positive)),
              parts_of_eq (
                  received held pool transfer law env here outside (unwrap_or s.token 0) from amount
                    s.tokens t.tokens k.signed k.moved),
            );
          })

    claimed-IsSolvent :
        (to : ℕ) (amount : ℤ) (s t : State T)
        → IsClaimed transfer env to s t amount
        → IsSolvent held pool s
        → IsSolvent held pool t
    claimed-IsSolvent to amount s t k i =
        let a = k.accrued in
        let b =
          accrued-IsSolvent held pool to (locked s) a k.is_accrued
            (relocked-IsSolvent held pool (some true) s i) in
        elim k.paid [
          | inl (e, (p, w)) ↦
              subst (IsSolvent held pool) (sym w) (relocked-IsSolvent held pool (some false) a b)
          | inr (p, (e, (m, w))) ↦ subst (IsSolvent held pool) (sym w) (
              paid-IsSolvent to a t.tokens b p (
                subst
                  (λ x.
                    held t.tokens (unwrap_or a.token 0) pool
                    ≡ held a.tokens (unwrap_or a.token 0) pool -ℤ x)
                  e
                  (spent held pool transfer law env here outside (unwrap_or a.token 0) to amount
                    a.tokens t.tokens k.signed m)))
        ]

    pub claim-IsSolvent :
        (to : ℕ) (s t : State T)
        → state_of (claim transfer env to s) ≡ ok t
        → IsSolvent held pool s
        → IsSolvent held pool t
    claim-IsSolvent to s t h i =
        let (amount, e) = state_of_ok (claim transfer env to s) h in
        claimed-IsSolvent to amount s t (claim_ok transfer env to s t amount e) i
