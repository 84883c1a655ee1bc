-- ===== src/StakingPool/Deposits/Unlocked.antt =====
-- staking_pool/src/lib.rs: the first loop of `unstake` against a plain sum.
use shelterflex_contracts.Prelude.{
  ℕ, zero, suc, ◌+◌, ◌<◌, ◌≡◌, ap, ◌∙◌, Option, none, some, arith, ◌+ℤ◌, ◌≤ℤ◌, +ℤ_parts, add-zero_ℤ,
  ℤ, int_laws, pos,
}
use shelterflex_contracts.Host.{>>=-eq-ok, ok}
use shelterflex_contracts.StakingPool.Types.{Deposit}
use shelterflex_contracts.StakingPool.Deposits.{add_unlocked, unlocked_from}
use shelterflex_contracts.StakingPool.Deposits.Amounts.{
  amount_of, free_amount, sum_from, sum_from_nonneg,
}

add_unlocked_ok :
    (lock now : ℕ) (o : Option Deposit) (total u : ℤ)
    → add_unlocked lock now o total ≡ ok u
    → u ≡ total +ℤ free_amount lock now o
unfolding add_unlocked
add_unlocked_ok lock now none total u h = grind (int_laws, add-zero_ℤ total)
add_unlocked_ok lock now (some deposit) total u h = ground (arith, add-zero_ℤ total)

-- If the loop returns, its result is the start plus the unlocked amounts in the range.
pub unlocked_from_ok :
    (lock now : ℕ) (d : ℕ → Option Deposit) (n i : ℕ) (total u : ℤ)
    → unlocked_from lock now d n i total ≡ ok u
    → u ≡ total +ℤ sum_from (free_amount lock now) d n i
unfolding unlocked_from sum_from
unlocked_from_ok lock now d zero i total u h = ground (arith, add-zero_ℤ total)
unlocked_from_ok lock now d (suc n) i total u h =
    let (v, p, q) = >>=-eq-ok (add_unlocked lock now (d i) total) _ h in
    unlocked_from_ok lock now d n (i + 1) v u q
    ∙ ap (λ t. t +ℤ sum_from (free_amount lock now) d n (i + 1))
        (add_unlocked_ok lock now (d i) total v p)
    ∙ omega int_laws

-- No lock end of a deposit overflows a u64.
abbrev pub InTime : ℕ → Option Deposit → Type 0
InTime lock none = Unit
InTime lock (some deposit) = deposit.timestamp + lock < 18446744073709551616

abbrev pub i128_max : ℤ
i128_max = pos 170141183460469231731687303715884105727

add_unlocked_total :
    (lock now : ℕ) (o : Option Deposit) (total : ℤ)
    → InTime lock o
    → pos 0 ≤ℤ total
    → total +ℤ free_amount lock now o ≤ℤ i128_max
    → pos 0 ≤ℤ amount_of o
    → add_unlocked lock now o total ≡ ok (total +ℤ free_amount lock now o)
unfolding add_unlocked
add_unlocked_total lock now none total t p q r = ground (arith, add-zero_ℤ total)
add_unlocked_total lock now (some deposit) total t p q r =
    ground (arith, add-zero_ℤ total, +ℤ_parts total deposit.amount)

free_nonneg :
    (lock now : ℕ) (o : Option Deposit) → pos 0 ≤ℤ amount_of o → pos 0 ≤ℤ free_amount lock now o
free_nonneg lock now none h = omega arith
free_nonneg lock now (some deposit) h = ground arith

-- The first loop of `unstake` returns its start plus the sum of the unlocked amounts in its range,
-- if no lock end overflows a u64, no amount is negative, the start is not negative and the result
-- fits an i128.
pub unlocked_from_total :
    (lock now : ℕ) (d : ℕ → Option Deposit) (n i : ℕ) (total : ℤ)
    → ((j : ℕ) → InTime lock (d j))
    → ((j : ℕ) → pos 0 ≤ℤ amount_of (d j))
    → pos 0 ≤ℤ total
    → total +ℤ sum_from (free_amount lock now) d n i ≤ℤ i128_max
    → unlocked_from lock now d n i total ≡ ok (total +ℤ sum_from (free_amount lock now) d n i)
unfolding unlocked_from sum_from
unlocked_from_total lock now d zero i total t a p q = rw add-zero_ℤ
unlocked_from_total lock now d (suc n) i total t a p q =
    let tail : pos 0 ≤ℤ sum_from (free_amount lock now) d n (i + 1) =
      sum_from_nonneg (free_amount lock now) d n (i + 1) (λ j. free_nonneg lock now (d j) (a j)) in
    rw (add_unlocked_total lock now (d i) total (t i) p (omega int_laws) (a i)) (
      unlocked_from_total lock now d n (i + 1) (total +ℤ free_amount lock now (d i)) t a
        (omega (int_laws, free_nonneg lock now (d i) (a i))) (omega int_laws)
      ∙ ap ok (omega int_laws))
