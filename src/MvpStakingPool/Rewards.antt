-- ===== src/MvpStakingPool/Rewards.antt =====
-- mvp_staking_pool/src/lib.rs: the sum of what is owed to all stakers, where a weight gives what is
-- owed to one with a balance.
use shelterflex_contracts.Prelude.{
  ℕ, ◌+◌, ◌-◌, ◌*◌, ◌/◌, ◌≤◌, ◌≡◌, refl, sym, ap, ◌∙◌, subst, ◌≢◌, true, none, some, [], ◌∷◌, arith,
  ℕ_discrete, ◌==◌, ==_refl, ==_ne, pos_part, ◌≤ℤ◌, eq_of_parts, parts_of_eq, neg_part_zero, ℤ,
  int_laws, pos, is_some, Map, lookup, insert,
}
use native.Mathlib.Nat.{mul-div-le}
use shelterflex_contracts.Balances.{balance_at, sum_balances, IsMap}
use shelterflex_contracts.MvpStakingPool.Types.{
  reward_index_scale, get_total_staked, get_global_reward_index, get_staked_balance, get_used_stake,
  get_user_reward_index, get_claimable_reward, State,
}
use shelterflex_contracts.MvpStakingPool.Accrual.{earned, sub_zero}

unfoldable pub owed : (ℕ → ℤ → ℕ) → Map ℤ → ℕ
owed w [] = 0
owed w ((u, b) ∷ m) = w u b + owed w m

-- The entry at the head and those after it, looked up in the whole map.
head_at : (k : ℕ) (b : ℤ) (m : Map ℤ) → balance_at k ((k, b) ∷ m) ≡ b
head_at k b m = rw (==_refl k) refl

tail_ne : (u k : ℕ) (b c : ℤ) (m : Map ℤ) → lookup k m ≡ none → lookup u m ≡ some c → u ≢ k
tail_ne u k b c m n h e = absurd (cc (n, h, ap (λ x. lookup x m) e))

tail_at :
    (u k : ℕ) (b c : ℤ) (m : Map ℤ)
    → lookup k m ≡ none
    → lookup u m ≡ some c
    → lookup u ((k, b) ∷ m) ≡ some c
tail_at u k b c m n h = rw (==_ne u k (tail_ne u k b c m n h)) h

-- Weights that are no larger at the stored balances have a sum that is no larger.
pub owed_mono :
    (w x : ℕ → ℤ → ℕ) (m : Map ℤ)
    → IsMap m
    → ((u : ℕ) (b : ℤ) → lookup u m ≡ some b → x u b ≤ w u b)
    → owed x m ≤ owed w m
unfolding owed
owed_mono w x [] i h = omega arith
owed_mono w x ((k, b) ∷ m) i h = omega (
  arith,
  h k b (rw (==_refl k) refl),
  owed_mono w x m i.1 (λ u c e. h u c (tail_at u k b c m i.0 e)),
)

-- The weight of one key falls by `d` or more.
pub owed_drop :
    (w x : ℕ → ℤ → ℕ) (j d : ℕ) (m : Map ℤ) (a : ℤ)
    → IsMap m
    → lookup j m ≡ some a
    → ((u : ℕ) (b : ℤ) → x u b ≤ w u b)
    → x j a + d ≤ w j a
    → owed x m + d ≤ owed w m
unfolding owed
owed_drop w x j d [] a i l h k = absurd (cc)
owed_drop w x j d ((k, b) ∷ m) a i l h p = elim (ℕ_discrete j k) [
  | yes e ↦
      let here : b ≡ a = ground (arith, l, e) in
      omega (
        arith,
        subst (λ y. x k y + d ≤ w k y) (sym here) (subst (λ y. x y a + d ≤ w y a) e p),
        owed_mono w x m i.1 (λ u c q. h u c),
      )
  | no ne ↦ omega (arith, h k b, owed_drop w x j d m a i.1 (rw (==_ne j k ne) at l) h p)
]

-- A write of a balance whose weight is no larger than the old one, or 0 for a new key.
pub owed-insert :
    (w : ℕ → ℤ → ℕ) (k : ℕ) (v : ℤ) (m : Map ℤ)
    → (lookup k m ≡ none → w k v ≡ 0)
    → ((b : ℤ) → lookup k m ≡ some b → w k v ≤ w k b)
    → owed w (insert k v m) ≤ owed w m
unfolding owed
owed-insert w k v [] n h = omega (arith, n refl)
owed-insert w k v ((j, b) ∷ m) n h = elim (ℕ_discrete k j) [
  | yes e ↦
      rw (ap (λ y. y == j) e ∙ ==_refl j) (
        omega
          (arith, subst (λ y. w k v ≤ w y b) e (h b (rw (ap (λ y. y == j) e ∙ ==_refl j) refl))))
  | no ne ↦ rw (==_ne k j ne) (
      omega (
        arith,
        owed-insert w k v m (λ q. n (rw (==_ne k j ne) q)) (λ c q. h c (rw (==_ne k j ne) q)),
      ))
]

unfoldable pub sum_parts : Map ℤ → ℕ
sum_parts [] = 0
sum_parts ((u, b) ∷ m) = pos_part b + sum_parts m

-- The weights grow by the same multiple of the balances.
pub owed_shift :
    (w x : ℕ → ℤ → ℕ) (inc : ℕ) (m : Map ℤ)
    → ((u : ℕ) (b : ℤ) → x u b ≡ w u b + pos_part b * inc)
    → owed x m ≡ owed w m + sum_parts m * inc
unfolding owed sum_parts
owed_shift w x inc [] h = omega arith
owed_shift w x inc ((k, b) ∷ m) h = omega (arith, h k b, owed_shift w x inc m h)

-- Balances that are not negative have the sum of their natural parts.
pub sum_parts_eq :
    (m : Map ℤ)
    → IsMap m
    → ((u : ℕ) (b : ℤ) → lookup u m ≡ some b → pos 0 ≤ℤ b)
    → pos (sum_parts m) ≡ sum_balances m
unfolding sum_parts sum_balances
sum_parts_eq [] i h = refl
sum_parts_eq ((k, b) ∷ m) i h = eq_of_parts _ _ (
    omega (
      int_laws,
      neg_part_zero b (h k b (rw (==_refl k) refl)),
      parts_of_eq (sum_parts_eq m i.1 (λ u c e. h u c (tail_at u k b c m i.0 e))),
    ))

-- Rewards that are rounded down leave no more to be owed than before.
pub earned_le :
    (reward staked index from : ℕ)
    → (reward + earned staked index from) * reward_index_scale
      ≤ reward * reward_index_scale + staked * (index - from)
unfolding earned
earned_le reward staked index from = omega arith

pub no_gain : (b x : ℕ) → b * (x - x) ≡ 0
no_gain b x = rw (sub_zero x x (omega arith)) (omega arith)

-- The index grows by the amount over the total, rounded down.
pub increment_le :
    (amount total : ℕ) → total * (amount * reward_index_scale / total) ≤ amount * reward_index_scale
increment_le amount total = mul-div-le (amount * reward_index_scale) total

module _ {T : Type 0} where
  -- What is owed to a user with a balance: the reward, and what has been earned since the index.
  unfoldable pub weight : State T → ℕ → ℤ → ℕ
  weight s user balance =
      pos_part (get_claimable_reward s user) * reward_index_scale
      + pos_part balance
        * (pos_part (get_global_reward_index s) - pos_part (get_user_reward_index s user))

  pub record IsSound (s : State T) : Type 0 where
    pub has_admin : is_some s.upgrade.admin ≡ true
    pub keys : IsMap s.staked_balance
    pub total : get_total_staked s ≡ sum_balances s.staked_balance
    pub used : (u : ℕ) → pos 0 ≤ℤ get_used_stake s u
    pub within : (u : ℕ) → get_used_stake s u ≤ℤ get_staked_balance s u
    pub rewards : (u : ℕ) → pos 0 ≤ℤ get_claimable_reward s u
    pub indices : (u : ℕ) → pos 0 ≤ℤ get_user_reward_index s u
    pub behind : (u : ℕ) → get_user_reward_index s u ≤ℤ get_global_reward_index s
    pub absent : (u : ℕ) → lookup u s.staked_balance ≡ none → get_claimable_reward s u ≡ pos 0
