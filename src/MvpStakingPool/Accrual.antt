-- ===== src/MvpStakingPool/Accrual.antt =====
-- mvp_staking_pool/src/lib.rs: what the accrual adds to the reward of a user.
use shelterflex_contracts.Prelude.{
  ℕ, zero, suc, ◌+◌, ◌-◌, ◌*◌, ◌/◌, ◌≤◌, ◌≡◌, refl, ap, ◌∙◌, subst, ◌≢◌, inl, inr, true, false,
  some, arith, ==_refl, ==_ne, Bool-cases, ◌-ℤ◌, ◌*ℤ◌, ◌/ℤ◌, ltb_ℤ, leb_ℤ, pos-+ℤ, pos-sub_ℤ,
  pos-*ℤ, ℤ, pos, update,
}
use shelterflex_contracts.Host.{◌>>=◌, checked_i128, >>=-elim, ok-injective, checked_i128_ok, ok}
use shelterflex_contracts.MvpStakingPool.Types.{
  reward_index_scale, get_global_reward_index, get_staked_balance, get_user_reward_index,
  get_claimable_reward, credit_reward, add_accrued, accrue_user_rewards, State,
}

-- The reward of `staked` units since the index `from`, rounded down.
unfoldable pub earned : ℕ → ℕ → ℕ → ℕ
earned staked index from = staked * (index - from) / reward_index_scale

pub sub_zero : (a b : ℕ) → a ≤ b → a - b ≡ 0
sub_zero a b h = omega arith

none_earned : (staked index from : ℕ) → index ≤ from → earned staked index from ≡ 0
unfolding earned
none_earned staked index from h = rw (sub_zero index from h) (omega arith)

pub zero_earned : (index from : ℕ) → earned 0 index from ≡ 0
unfolding earned
zero_earned index from = omega arith

module _ {T : Type 0} where
  -- Only the reward of the user may differ.
  pub record IsCredited (user : ℕ) (s t : State T) : Type 0 where
    pub kept : t ≡ record s { claimable_reward = t.claimable_reward }
    pub others : (v : ℕ) → v ≢ user → get_claimable_reward t v ≡ get_claimable_reward s v

  credit_eq :
      (user reward gain : ℕ) (s t : State T)
      → get_claimable_reward s user ≡ pos reward
      → credit_reward user (pos gain) s ≡ ok t
      → get_claimable_reward t user ≡ pos (reward + gain)
  unfolding credit_reward get_claimable_reward
  credit_eq user reward gain s t c e = ground (arith, pos-+ℤ reward gain, ==_refl user)

  credit_kept :
      (user : ℕ) (gain : ℤ) (s t : State T) → credit_reward user gain s ≡ ok t → IsCredited user s t
  unfolding credit_reward get_claimable_reward
  credit_kept user gain s t e = record {
    kept = ground arith;
    others = λ v ne. ground (arith, ==_ne v user ne);
  }

  -- The two ways in which the reward is added: not at all, or by the product.
  record IsProduct (user : ℕ) (g i b : ℤ) (s t : State T) : Type 0 where
    product : ℤ
    is_product : product ≡ b *ℤ (g -ℤ i)
    credited : credit_reward user (product /ℤ reward_index_scale) s ≡ ok t

  add-IsProduct :
      (user : ℕ) (g i b : ℤ) (s t : State T)
      → add_accrued user g i b s ≡ ok t
      → ltb_ℤ (pos 0) b ≡ true
      → IsProduct user g i b s t
  unfolding add_accrued
  add-IsProduct user g i b s t e y =
      >>=-elim (checked_i128 (g -ℤ i))
        (λ delta. checked_i128 (b *ℤ delta) >>= λ product.
          credit_reward user (product /ℤ reward_index_scale) s)
        (rw y at e)
        λ d p q.
          >>=-elim (checked_i128 (b *ℤ d))
            (λ product. credit_reward user (product /ℤ reward_index_scale) s) q
            λ m r k. record {
              product = m;
              is_product = (checked_i128_ok _ r).0 ∙ ap (λ x. b *ℤ x) (checked_i128_ok _ p).0;
              credited = k;
            }

  add_none :
      (user : ℕ) (g i b : ℤ) (s t : State T)
      → add_accrued user g i b s ≡ ok t
      → ltb_ℤ (pos 0) b ≡ false
      → s ≡ t
  unfolding add_accrued
  add_none user g i b s t e n = ok-injective (rw n at e)

  pub add_kept :
      (user : ℕ) (g i b : ℤ) (s t : State T) → add_accrued user g i b s ≡ ok t → IsCredited user s t
  add_kept user g i b s t e = elim (Bool-cases (ltb_ℤ (pos 0) b)) [
    | inl y ↦ credit_kept user _ s t (add-IsProduct user g i b s t e y).credited
    | inr n ↦
        subst (IsCredited user s) (add_none user g i b s t e n)
          (record { kept = refl; others = λ v ne. refl })
  ]

  pub add_eq :
      (user index from staked reward : ℕ) (s t : State T)
      → from ≤ index
      → get_claimable_reward s user ≡ pos reward
      → add_accrued user (pos index) (pos from) (pos staked) s ≡ ok t
      → get_claimable_reward t user ≡ pos (reward + earned staked index from)
  unfolding earned ◌/ℤ◌
  add_eq user index from zero reward s t h c e = rw (zero_earned index from) (
      subst (λ u. get_claimable_reward u user ≡ pos (reward + 0))
        (add_none user _ _ (pos 0) s t e (ground arith)) (c ∙ ap pos (omega arith)))
  add_eq user index from (suc n) reward s t h c e =
      let k = add-IsProduct user _ _ (pos (suc n)) s t e (ground arith) in
      let m =
        k.is_product
        ∙ (ap (λ x. pos (suc n) *ℤ x) (pos-sub_ℤ index from h) ∙ pos-*ℤ (suc n) (index - from)) in
      credit_eq user reward (earned (suc n) index from) s t c
        (subst (λ x. credit_reward user (x /ℤ reward_index_scale) s ≡ ok t) m k.credited)

  pub record IsAccrued (user : ℕ) (s t : State T) : Type 0 where
    pub kept : t ≡ record s {
      claimable_reward = t.claimable_reward;
      user_reward_index = t.user_reward_index;
    }
    pub same_rewards : (v : ℕ) → v ≢ user → get_claimable_reward t v ≡ get_claimable_reward s v
    pub same_indices : (v : ℕ) → v ≢ user → get_user_reward_index t v ≡ get_user_reward_index s v

  -- The call goes on after the reward is added, as `c`.
  record IsIndexed (user : ℕ) (s t : State T) : Type 0 where
    c : State T
    added :
        add_accrued user
          (get_global_reward_index s)
          (get_user_reward_index s user)
          (get_staked_balance s user)
          s
        ≡ ok c
    written :
        record c {
          user_reward_index = update user (some (get_global_reward_index s)) c.user_reward_index;
        }
        ≡ t

  accrue-IsIndexed :
      (user : ℕ) (s t : State T)
      → accrue_user_rewards user s ≡ ok t
      → leb_ℤ (get_global_reward_index s) (get_user_reward_index s user) ≡ false
      → IsIndexed user s t
  unfolding accrue_user_rewards
  accrue-IsIndexed user s t h e =
      let g = get_global_reward_index s in
      >>=-elim (add_accrued user g (get_user_reward_index s user) (get_staked_balance s user) s)
        (λ c. ok (record c { user_reward_index = update user (some g) c.user_reward_index }))
        (rw e at h) λ c p q. record { c = c; added = p; written = ok-injective q }

  accrue_none :
      (user : ℕ) (s t : State T)
      → accrue_user_rewards user s ≡ ok t
      → leb_ℤ (get_global_reward_index s) (get_user_reward_index s user) ≡ true
      → s ≡ t
  unfolding accrue_user_rewards
  accrue_none user s t h e = ok-injective (rw e at h)

  indexed-IsAccrued :
      (user : ℕ) (g : ℤ) (s c : State T)
      → IsCredited user s c
      → IsAccrued user s (record c { user_reward_index = update user (some g) c.user_reward_index })
  unfolding get_user_reward_index get_claimable_reward
  indexed-IsAccrued user g s c k = record {
    kept = rw k.kept refl;
    same_rewards = k.others;
    same_indices = λ v ne. rw (==_ne v user ne, ap (λ u. u.user_reward_index) k.kept) refl;
  }

  -- What an accrual that returned has written.
  pub accrue_ok :
      (user : ℕ) (s t : State T) → accrue_user_rewards user s ≡ ok t → IsAccrued user s t
  accrue_ok user s t h =
      elim (Bool-cases (leb_ℤ (get_global_reward_index s) (get_user_reward_index s user))) [
        | inl e ↦
            subst (IsAccrued user s) (accrue_none user s t h e)
              (record { kept = refl; same_rewards = λ v ne. refl; same_indices = λ v ne. refl })
        | inr e ↦
            let i = accrue-IsIndexed user s t h e in
            subst (IsAccrued user s) i.written (
              indexed-IsAccrued user (get_global_reward_index s) s i.c
                (add_kept user _ _ _ s i.c i.added))
      ]

  module _ (user index from staked reward : ℕ) (s t : State T) (le : from ≤ index)
      (g : get_global_reward_index s ≡ pos index) (i : get_user_reward_index s user ≡ pos from)
      (b : get_staked_balance s user ≡ pos staked) (c : get_claimable_reward s user ≡ pos reward)
      (h : accrue_user_rewards user s ≡ ok t) where
    abbrev Earns : State T → Type 0
    Earns u =
        (get_claimable_reward u user ≡ pos (reward + earned staked index from))
        × (get_user_reward_index u user ≡ pos index)

    Earns-none : leb_ℤ (pos index) (pos from) ≡ true → Earns t
    Earns-none e =
        let same : index ≤ from = ground arith in
        subst Earns (accrue_none user s t h (rw (g, i) e)) (
          rw (none_earned staked index from same) (c ∙ ap pos (omega arith)),
          i ∙ ap pos (omega arith),
        )

    Earns-some : leb_ℤ (pos index) (pos from) ≡ false → Earns t
    unfolding get_claimable_reward get_user_reward_index
    Earns-some e =
        let k = accrue-IsIndexed user s t h (rw (g, i) e) in
        subst Earns k.written (
          add_eq user index from staked reward s k.c le c (rw (g, i, b) at k.added),
          rw (==_refl user) g,
        )

    -- An accrual adds what the stake has earned since the index of the user, rounded down, and
    -- moves that index to the global one.
    pub accrue_eq : Earns t
    accrue_eq = elim (Bool-cases (leb_ℤ (pos index) (pos from))) [
      | inl e ↦ Earns-none e
      | inr e ↦ Earns-some e
    ]
