-- ===== src/StakingPool/Deposits.antt =====
-- staking_pool/src/lib.rs: the two loops of `unstake` over the deposits of one user, which are the
-- values at the keys `Deposit(user, i)`.
use shelterflex_contracts.Prelude.{
  ℕ, zero, suc, ◌+◌, Bool, true, false, Option, none, some, leb, ◌==◌, if◌then◌else◌, ◌+ℤ◌, ◌-ℤ◌,
  leb_ℤ, eqb_ℤ, ℤ, pos, update,
}
use shelterflex_contracts.Host.{◌>>=◌, ◌>>◌, checked_i128, checked_u64, Outcome, ok}
use shelterflex_contracts.StakingPool.Types.{Deposit, Error}
pub mod Amounts
pub mod Unlocked
pub mod Consumed
pub mod Total
pub mod Covered

-- `lock_period == 0 || current_time >= deposit.timestamp + lock_period`
unfoldable pub is_unlocked : ℕ → ℕ → Deposit → Outcome Error Bool
is_unlocked lock_period current_time deposit =
    if lock_period == 0
    then ok true
    else (checked_u64 (deposit.timestamp + lock_period) >>= λ opens_at.
        ok (leb opens_at current_time))

unfoldable pub add_unlocked : ℕ → ℕ → Option Deposit → ℤ → Outcome Error ℤ
unfolding is_unlocked
add_unlocked lock_period current_time none total = ok total
add_unlocked lock_period current_time (some deposit) total = do
  free ← is_unlocked lock_period current_time deposit
  if free then checked_i128 (total +ℤ deposit.amount) else ok total

-- The first loop, over the rounds that are left from index `i` on.
unfoldable pub unlocked_from : ℕ → ℕ → (ℕ → Option Deposit) → ℕ → ℕ → ℤ → Outcome Error ℤ
unlocked_from lock_period current_time d zero i total = ok total
unlocked_from lock_period current_time d (suc n) i total =
    add_unlocked lock_period current_time (d i) total
    >>= unlocked_from lock_period current_time d n (i + 1)

-- The body of the second loop at an unlocked deposit: it goes whole, or what is left is taken off it.
unfoldable pub take_unlocked :
    ℕ → Deposit → ℤ → (ℕ → Option Deposit) → Outcome Error (ℤ × (ℕ → Option Deposit))
take_unlocked i deposit remaining d =
    if leb_ℤ deposit.amount remaining
    then (checked_i128 (remaining -ℤ deposit.amount) >>= λ left. ok (left, update i none d))
    else (checked_i128 (deposit.amount -ℤ remaining) >>= λ kept.
        ok (pos 0, update i (some (record deposit { amount = kept })) d))

unfoldable pub take_deposit :
    ℕ → ℕ → ℕ → Deposit → ℤ → (ℕ → Option Deposit) → Outcome Error (ℤ × (ℕ → Option Deposit))
unfolding is_unlocked take_unlocked
take_deposit lock_period current_time i deposit remaining d = do
  free ← is_unlocked lock_period current_time deposit
  if free then take_unlocked i deposit remaining d else ok (remaining, d)

unfoldable pub take_at :
    ℕ → ℕ → ℕ → Option Deposit → ℤ → (ℕ → Option Deposit) → Outcome Error (ℤ × (ℕ → Option Deposit))
unfolding take_deposit
take_at lock_period current_time i none remaining d = ok (remaining, d)
take_at lock_period current_time i (some deposit) remaining d =
    take_deposit lock_period current_time i deposit remaining d

-- The second loop, which stops once nothing remains to be taken.
unfoldable pub take_from :
    ℕ → ℕ → ℕ → ℕ → ℤ → (ℕ → Option Deposit) → Outcome Error (ℤ × (ℕ → Option Deposit))
take_from lock_period current_time zero i remaining d = ok (remaining, d)
take_from lock_period current_time (suc n) i remaining d = elim (eqb_ℤ remaining (pos 0)) [
  | true ↦ ok (remaining, d)
  | false ↦ take_at lock_period current_time i (d i) remaining d >>= λ (left, d').
      take_from lock_period current_time n (i + 1) left d'
]
