-- ===== src/StakingPool/Effects.antt =====
-- staking_pool/src/lib.rs: what `stake` and `unstake` demand and do where they return.
use shelterflex_contracts.Prelude.{
  ℕ, ◌+◌, ◌≡◌, refl, ◌≢◌, ◌⊎◌, Bool, true, false, Option, none, some, arith, ==_refl, ==_ne, ◌+ℤ◌,
  ◌-ℤ◌, ◌≤ℤ◌, ◌<ℤ◌, ltb_ℤ, ℤ, pos, unwrap_or, update, insert,
}
use shelterflex_contracts.Host.{
  fail_if, unwrap, checked_i128, checked_u32, >>=-elim, ok-injective, fail_if_ok, unwrap_ok,
  checked_i128_ok, checked_u32_ok, Env, ok,
}
use shelterflex_contracts.StakingPool.Deposits.{unlocked_from, take_from}
use shelterflex_contracts.StakingPool.Types.{
  get_staked_balance, get_total_staked, get_lock_period, get_deposit_count, is_paused, get_token,
  get_operator, State, External, insufficient_balance, tokens_locked, reentrancy_detected,
}
use shelterflex_contracts.StakingPool.Deposits.Amounts.{amount_of, free_amount, sum_from}
use shelterflex_contracts.StakingPool.Deposits.Consumed.{Took}
use shelterflex_contracts.StakingPool.Deposits.Covered.{not_less, unlocked_covers, takes_all}
use shelterflex_contracts.StakingPool.Calls.{require_valid_amount, require_not_paused}
use shelterflex_contracts.Reentrancy.{enter}
use shelterflex_contracts.StakingPool.Staking.{require_user_or_operator, stake, unstake}

module _ {T : Type 0} (x : External T) (env : Env) where
  -- What both calls demand first: not paused, and the operator's authorisation where there is an
  -- operator, the user's where there is none.
  pub record IsAllowed (user : ℕ) (s : State T) : Type 0 where
    pub running : is_paused s ≡ false
    pub unlocked : unwrap_or s.reentrancy false ≡ false
    pub gate :
        ((op : ℕ) × (get_operator x s ≡ ok (some op)) × (env.authorized op ≡ true))
        ⊎ ((get_operator x s ≡ ok none) × (env.authorized user ≡ true))

  -- The fields that neither call writes.
  pub record SameSettings (s t : State T) : Type 0 where
    pub same_upgrade : t.upgrade ≡ s.upgrade
    pub same_operator : t.operator ≡ s.operator
    pub same_token : t.token ≡ s.token
    pub same_pause : t.paused_flag ≡ s.paused_flag
    pub same_lock : t.lock_period ≡ s.lock_period
    pub released : t.reentrancy ≡ some false

  pub record Staked (from : ℕ) (amount : ℤ) (s t : State T) : Type 0 where
    pub settings : SameSettings s t
    pub positive : pos 0 <ℤ amount
    pub balance :
        t.staked_balance ≡ insert from (get_staked_balance s from +ℤ amount) s.staked_balance
    pub total : t.total_staked ≡ some (get_total_staked s +ℤ amount)
    pub counted :
        t.deposit_count ≡ update from (some (get_deposit_count s from + 1)) s.deposit_count
    pub deposited :
        t.deposits
        ≡ update from
            (update
              (get_deposit_count s from)
              (some (record { amount = amount; timestamp = env.timestamp }))
              (s.deposits from))
            s.deposits
    pub moved :
        x.transfer env (unwrap_or s.token 0) from env.current amount s.tokens ≡ some t.tokens

  valid_positive :
      (amount : ℤ) {u : Unit {0}} → require_valid_amount amount ≡ ok u → pos 0 <ℤ amount
  unfolding require_valid_amount
  valid_positive amount h = ground arith

  -- The two gates that stand first in both calls.
  allowed :
      (user : ℕ) (s : State T) {u : Unit {0}} {v : ℕ} {l : Option Bool}
      → require_not_paused s ≡ ok u
      → require_user_or_operator x env user user s ≡ ok v
      → enter s.reentrancy reentrancy_detected ≡ ok l
      → IsAllowed user s
  unfolding require_not_paused require_user_or_operator enter
  allowed user s p q r = record {
    running = fail_if_ok (is_paused s) _ p;
    unlocked = ground arith;
    gate = ground arith;
  }

  -- Where `stake` returns, the pool was not paused, the lock was open and the operator, or the user
  -- if there is none, had authorised it; the amount is positive, the token contract has moved it
  -- from the staker to the pool, the balance and the total are raised by it, one deposit with the
  -- ledger's time is added behind the others, the lock is released and the other settings are
  -- unchanged.
  pub stake_ok :
      (from : ℕ) (amount : ℤ) (s t : State T)
      → stake x env from amount s ≡ ok t
      → IsAllowed from s × Staked from amount s t
  unfolding stake
  stake_ok from amount s t h = >>=-elim (require_not_paused s) _ h λ _ p1 h.
      >>=-elim (require_user_or_operator x env from from s) _ h λ _ p2 h.
        >>=-elim (require_valid_amount amount) _ h λ _ p3 h.
          >>=-elim (enter s.reentrancy reentrancy_detected) _ h λ lock p4 h.
            >>=-elim (get_token s) _ h λ token p5 h.
              >>=-elim (unwrap (x.transfer env token from env.current amount s.tokens)) _ h
                λ tokens p6 h.
                  >>=-elim (checked_i128 (get_staked_balance s from +ℤ amount)) _ h λ balance p7 h.
                    >>=-elim (checked_i128 (get_total_staked s +ℤ amount)) _ h λ total p8 h.
                      >>=-elim (checked_u32 (get_deposit_count s from + 1)) _ h λ next p9 h. (
                        allowed from s p1 p2 p4,
                        rw (← ok-injective h) (record {
                          settings = record {
                            same_upgrade = refl;
                            same_operator = refl;
                            same_token = refl;
                            same_pause = refl;
                            same_lock = refl;
                            released = refl;
                          };
                          positive = valid_positive amount p3;
                          balance = rw (checked_i128_ok (get_staked_balance s from +ℤ amount) p7).0;
                          total = rw (checked_i128_ok (get_total_staked s +ℤ amount) p8).0;
                          counted = rw (checked_u32_ok (get_deposit_count s from + 1) p9).0;
                          deposited = refl;
                          moved = rw (unwrap_ok s.token p5) (unwrap_ok _ p6);
                        }),
                      )

  pub record Unstaked (to : ℕ) (amount : ℤ) (s t : State T) : Type 0 where
    pub settings : SameSettings s t
    pub positive : pos 0 <ℤ amount
    pub covered : amount ≤ℤ get_staked_balance s to
    pub balance : t.staked_balance ≡ insert to (get_staked_balance s to -ℤ amount) s.staked_balance
    pub total : t.total_staked ≡ some (get_total_staked s -ℤ amount)
    pub same_count : t.deposit_count ≡ s.deposit_count
    pub same_others : (u : ℕ) → u ≢ to → t.deposits u ≡ s.deposits u
    pub unlocked :
        amount
        ≤ℤ sum_from
            (free_amount (get_lock_period s) env.timestamp)
            (s.deposits to)
            (get_deposit_count s to)
            0
    pub took :
        ((u j : ℕ) → pos 0 ≤ℤ amount_of (s.deposits u j))
        → Took
            (get_lock_period s)
            env.timestamp
            (get_deposit_count s to)
            0
            amount
            (pos 0)
            (s.deposits to)
            (t.deposits to)
    pub moved : x.transfer env (unwrap_or s.token 0) env.current to amount s.tokens ≡ some t.tokens

  pub unstake_ok :
      (to : ℕ) (amount : ℤ) (s t : State T)
      → unstake x env to amount s ≡ ok t
      → IsAllowed to s × Unstaked to amount s t
  unfolding unstake
  unstake_ok to amount s t h = >>=-elim (require_not_paused s) _ h λ _ p1 h.
      >>=-elim (require_user_or_operator x env to to s) _ h λ _ p2 h.
        >>=-elim (require_valid_amount amount) _ h λ _ p3 h.
          >>=-elim (fail_if (ltb_ℤ (get_staked_balance s to) amount) insufficient_balance) _ h
            λ _ p4 h.
              >>=-elim
                (unlocked_from (get_lock_period s) env.timestamp (s.deposits to)
                  (get_deposit_count s to) 0 (pos 0))
                _ h
                λ u p5 h. >>=-elim (fail_if (ltb_ℤ u amount) tokens_locked) _ h λ _ p6 h.
                  >>=-elim
                    (take_from (get_lock_period s) env.timestamp (get_deposit_count s to) 0 amount
                      (s.deposits to))
                    _ h
                    λ taken p7 h.
                      >>=-elim (checked_i128 (get_staked_balance s to -ℤ amount)) _ h
                        λ balance p8 h.
                          >>=-elim (checked_i128 (get_total_staked s -ℤ amount)) _ h λ total p9 h.
                            >>=-elim (get_token s) _ h λ token p10 h.
                              >>=-elim (enter s.reentrancy reentrancy_detected) _ h λ lock p11 h.
                                >>=-elim
                                  (unwrap (x.transfer env token env.current to amount s.tokens)) _ h
                                  λ tokens p12 h. (
                                    allowed to s p1 p2 p11,
                                    rw (← ok-injective h) (record {
                                      settings = record {
                                        same_upgrade = refl;
                                        same_operator = refl;
                                        same_token = refl;
                                        same_pause = refl;
                                        same_lock = refl;
                                        released = refl;
                                      };
                                      positive = valid_positive amount p3;
                                      covered =
                                          not_less (get_staked_balance s to) amount
                                            insufficient_balance p4;
                                      balance =
                                          rw
                                            (checked_i128_ok (get_staked_balance s to -ℤ amount)
                                              p8).0;
                                      total =
                                          rw (checked_i128_ok (get_total_staked s -ℤ amount) p9).0;
                                      same_count = refl;
                                      same_others = λ v ne. rw (==_ne v to ne);
                                      unlocked =
                                          unlocked_covers _ _ _ amount u _ p5
                                            (not_less u amount tokens_locked p6);
                                      took = λ a. rw (==_refl to) (
                                          takes_all _ _ _ amount u _ p5
                                            (not_less u amount tokens_locked p6) taken.0 taken.1
                                            (omega (arith, valid_positive amount p3)) (λ j. a to j)
                                            p7);
                                      moved = rw (unwrap_ok s.token p10) (unwrap_ok _ p12);
                                    }),
                                  )
