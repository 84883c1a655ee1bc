-- ===== src/MvpStakingPool/Payouts.antt =====
-- mvp_staking_pool/src/lib.rs: what a paid claim and a funding of rewards do to the accounts and to
-- what is owed.
use shelterflex_contracts.Prelude.{
  ℕ, ◌+◌, ◌-◌, ◌*◌, ◌≤◌, ◌≡◌, refl, ap, ◌∙◌, inl, inr, false, some, arith, ℕ_discrete, ◌==◌,
  if◌then◌else◌, ==_refl, ==_ne, Option-cases, pos_part, ◌+ℤ◌, ◌≤ℤ◌, ◌<ℤ◌, parts_of_eq, pos-+ℤ,
  neg_part_zero, ℤ, int_laws, pos, negsuc, update, lookup,
}
use shelterflex_contracts.MvpStakingPool.Types.{
  reward_index_scale, get_total_staked, get_global_reward_index, get_staked_balance, get_used_stake,
  get_user_reward_index, get_claimable_reward, State,
}
use shelterflex_contracts.MvpStakingPool.Rewards.{
  owed, owed_drop, sum_parts, owed_shift, weight, IsSound,
}

shifted : (b p i k : ℕ) → i ≤ p → b * (p + k - i) ≡ b * (p - i) + b * k
shifted b p i k h = ap (λ x. b * x) (later p i k h) ∙ omega arith
  where
    later : (p i k : ℕ) → i ≤ p → p + k - i ≡ p - i + k
    later p i k h = omega arith

part_sum : (g : ℤ) (k : ℕ) → pos 0 ≤ℤ g → pos_part (g +ℤ pos k) ≡ pos_part g + k
part_sum (pos n) k h = ap pos_part (pos-+ℤ n k)
part_sum (negsuc n) k h = absurd (omega arith)

module _ {T : Type 0} (s : State T) (v : IsSound s) where
  module _ (to : ℕ) (tokens : T) where
    abbrev pub paid : State T
    paid = record s {
      claimable_reward = update to (some (pos 0)) s.claimable_reward;
      tokens = tokens;
      reentrancy = some false;
    }

    reward_paid :
        (u : ℕ)
        → get_claimable_reward paid u ≡ (if u == to then pos 0 else get_claimable_reward s u)
    unfolding get_claimable_reward
    reward_paid u = ground arith

    pub paid-IsSound : IsSound paid
    unfolding get_staked_balance get_total_staked get_used_stake get_user_reward_index
        get_global_reward_index
    paid-IsSound = record {
      has_admin = v.has_admin;
      keys = v.keys;
      total = v.total;
      used = v.used;
      within = v.within;
      rewards = λ u. ground (arith, reward_paid u, v.rewards u);
      indices = v.indices;
      behind = v.behind;
      absent = λ u n. ground (arith, reward_paid u, v.absent u n);
    }

    weight_paid_le : (u : ℕ) (b : ℤ) → weight paid u b ≤ weight s u b
    unfolding weight get_user_reward_index get_global_reward_index
    weight_paid_le u b = elim (ℕ_discrete u to) [
      | yes e ↦ rw (reward_paid u, e, ==_refl to) (omega arith)
      | no ne ↦ rw (reward_paid u, ==_ne u to ne) (omega arith)
    ]

    weight_paid :
        (b : ℤ)
        → weight paid to b + pos_part (get_claimable_reward s to) * reward_index_scale
          ≤ weight s to b
    unfolding weight get_user_reward_index get_global_reward_index
    weight_paid b = rw (reward_paid to, ==_refl to) (omega arith)

    pub paid_owed :
        pos 0 <ℤ get_claimable_reward s to
        → owed (weight paid) s.staked_balance
            + pos_part (get_claimable_reward s to) * reward_index_scale
          ≤ owed (weight s) s.staked_balance
    paid_owed p = elim (Option-cases (lookup to s.staked_balance)) [
      | inl n ↦ absurd (omega (arith, p, parts_of_eq (v.absent to n)))
      | inr (b, l) ↦
          owed_drop (weight s) (weight paid) to _ s.staked_balance b v.keys l weight_paid_le
            (weight_paid b)
    ]

  module _ (k : ℕ) (tokens : T) where
    abbrev pub funded : State T
    funded = record s {
      global_reward_index = some (get_global_reward_index s +ℤ pos k);
      tokens = tokens;
      reentrancy = some false;
    }

    global_funded : get_global_reward_index funded ≡ get_global_reward_index s +ℤ pos k
    unfolding get_global_reward_index
    global_funded = refl

    pub funded-IsSound : IsSound funded
    unfolding get_staked_balance get_total_staked get_used_stake get_user_reward_index
        get_claimable_reward
    funded-IsSound = record {
      has_admin = v.has_admin;
      keys = v.keys;
      total = v.total;
      used = v.used;
      within = v.within;
      rewards = v.rewards;
      indices = v.indices;
      behind = λ u. rw global_funded (omega (int_laws, v.behind u));
      absent = v.absent;
    }

    weight-funded : (u : ℕ) (b : ℤ) → weight funded u b ≡ weight s u b + pos_part b * k
    unfolding weight get_user_reward_index get_claimable_reward get_global_reward_index
    weight-funded u b =
        let index = pos_part (get_global_reward_index s) in
        let from = pos_part (get_user_reward_index s u) in
        let p : pos 0 ≤ℤ get_global_reward_index s = omega (arith, v.indices u, v.behind u) in
        let c = pos_part (get_claimable_reward s u) * reward_index_scale in
        let less : from ≤ index =
          omega (arith, v.behind u, neg_part_zero _ p, neg_part_zero _ (v.indices u)) in
        ap (λ x. c + pos_part b * (x - from)) (part_sum (get_global_reward_index s) k p)
        ∙ (ap (λ x. c + x) (shifted (pos_part b) index from k less) ∙ omega arith)

    pub funded-owed :
        owed (weight funded) s.staked_balance
        ≡ owed (weight s) s.staked_balance + sum_parts s.staked_balance * k
    funded-owed = owed_shift (weight s) (weight funded) k s.staked_balance weight-funded
