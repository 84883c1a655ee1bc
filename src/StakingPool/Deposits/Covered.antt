-- ===== src/StakingPool/Deposits/Covered.antt =====
-- staking_pool/src/lib.rs: the two loops of `unstake` together.
use shelterflex_contracts.Prelude.{
  ℕ, ◌≡◌, inl, inr, Option, arith, ◌≤ℤ◌, ltb_ℤ, eq_of_parts, parts_of_eq, zero-add_ℤ, ℤ, int_laws,
  pos,
}
use shelterflex_contracts.Host.{fail_if, ok}
use shelterflex_contracts.StakingPool.Types.{Deposit}
use shelterflex_contracts.StakingPool.Deposits.{unlocked_from, take_from}
use shelterflex_contracts.StakingPool.Deposits.Amounts.{amount_of, free_amount, sum_from}
use shelterflex_contracts.StakingPool.Deposits.Unlocked.{unlocked_from_ok}
use shelterflex_contracts.StakingPool.Deposits.Consumed.{take_from_ok, Took}

-- After `if a < b { return Err(e) }`.
pub not_less : {E : Type 0} (a b : ℤ) (e : E) {u : Unit {0}} → fail_if (ltb_ℤ a b) e ≡ ok u → b ≤ℤ a
not_less a b e h = ground arith

nothing_left :
    (lock now n i : ℕ) (r left : ℤ) (d d' : ℕ → Option Deposit)
    → r ≤ℤ sum_from (free_amount lock now) d n i
    → Took lock now n i r left d d'
    → left ≡ pos 0
nothing_left lock now n i r left d d' c t = elim t.done [
  | inl e ↦ e
  | inr z ↦
      eq_of_parts left (pos 0) (omega (int_laws, parts_of_eq t.frees, parts_of_eq z, t.left_nonneg))
]

module _ (lock now n : ℕ) (r u : ℤ) (d : ℕ → Option Deposit)
    (counted : unlocked_from lock now d n 0 (pos 0) ≡ ok u) (enough : r ≤ℤ u) where
  pub unlocked_covers : r ≤ℤ sum_from (free_amount lock now) d n 0
  unlocked_covers = rw (unlocked_from_ok lock now d n 0 (pos 0) u counted, zero-add_ℤ) at enough

  pub takes_all :
      (left : ℤ) (d' : ℕ → Option Deposit)
      → pos 0 ≤ℤ r
      → ((j : ℕ) → pos 0 ≤ℤ amount_of (d j))
      → take_from lock now n 0 r d ≡ ok (left, d')
      → Took lock now n 0 r (pos 0) d d'
  takes_all left d' p a h =
      let t = take_from_ok lock now n 0 r left d d' p a h in
      rw (nothing_left lock now n 0 r left d d' unlocked_covers t) at t
