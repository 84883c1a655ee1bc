-- ===== src/StakingPool/Deposits/Total.antt =====
-- staking_pool/src/lib.rs: where the second loop of `unstake` returns.
use shelterflex_contracts.Prelude.{
  ℕ, zero, suc, ◌+◌, ◌≡◌, refl, ◌⊎◌, inl, inr, Option, none, some, arith, ◌==◌, Bool-cases, ◌-ℤ◌,
  ◌≤ℤ◌, leb_ℤ, eqb_ℤ, -ℤ_parts, ℤ, pos, update,
}
use shelterflex_contracts.Host.{ok}
use shelterflex_contracts.StakingPool.Types.{Deposit}
use shelterflex_contracts.StakingPool.Deposits.{take_at, take_from}
use shelterflex_contracts.StakingPool.Deposits.Amounts.{amount_of, is_free}
use shelterflex_contracts.StakingPool.Deposits.Unlocked.{InTime, i128_max}

-- An amount that is not negative and fits an i128.
abbrev pub InRange : ℤ → Type 0
InRange a = (pos 0 ≤ℤ a) × (a ≤ℤ i128_max)

-- A stored deposit whose lock end and amount cause no overflow.
abbrev pub IsSound : ℕ → Option Deposit → Type 0
IsSound lock o = InTime lock o × InRange (amount_of o)

take_at_total :
    (lock now i : ℕ) (o : Option Deposit) (r : ℤ) (d : ℕ → Option Deposit)
    → IsSound lock o
    → InRange r
    → (m : ℤ) × (o' : Option Deposit) × (d1 : ℕ → Option Deposit) × (take_at lock now i o r d
        ≡ ok (m, d1))
      × InRange m
      × IsSound lock o'
      × ((d1 ≡ d) ⊎ (d1 ≡ update i o' d))
unfolding take_at
take_at_total lock now i none r d s p = (r, none, d, refl, p, s, inl refl)
take_at_total lock now i (some deposit) r d s p = elim (Bool-cases (is_free lock now deposit)) [
  | inr locked ↦ (r, none, d, ground arith, p, (tt, omega arith), inl refl)
  | inl free ↦ elim (Bool-cases (leb_ℤ deposit.amount r)) [
    | inl whole ↦ (
      r -ℤ deposit.amount,
      none,
      update i none d,
      ground (arith, -ℤ_parts r deposit.amount),
      ground (arith, -ℤ_parts r deposit.amount),
      (tt, omega arith),
      inr refl,
    )
    | inr part ↦
        let o' : Option Deposit = some (record deposit { amount = deposit.amount -ℤ r }) in
        (
          pos 0,
          o',
          update i o' d,
          ground (arith, -ℤ_parts deposit.amount r),
          omega arith,
          ground (arith, -ℤ_parts deposit.amount r),
          inr refl,
        )
  ]
]

IsSound-step :
    (lock i : ℕ) (o' : Option Deposit) (d d1 : ℕ → Option Deposit)
    → IsSound lock o'
    → ((d1 ≡ d) ⊎ (d1 ≡ update i o' d))
    → ((j : ℕ) → IsSound lock (d j))
    → (j : ℕ) → IsSound lock (d1 j)
IsSound-step lock i o' d d1 s (inl e) a j = rw e (a j)
IsSound-step lock i o' d d1 s (inr e) a j = elim (Bool-cases (j == i)) [
  | inl same ↦ rw (e, same) s
  | inr other ↦ rw (e, other) (a j)
]

-- The loop returns on sound deposits.
pub take_from_total :
    (lock now n i : ℕ) (r : ℤ) (d : ℕ → Option Deposit)
    → ((j : ℕ) → IsSound lock (d j))
    → InRange r
    → (left : ℤ) × (d' : ℕ → Option Deposit) × (take_from lock now n i r d ≡ ok (left, d'))
unfolding take_from
take_from_total lock now zero i r d a p = (r, d, refl)
take_from_total lock now (suc n) i r d a p = elim (Bool-cases (eqb_ℤ r (pos 0))) [
  | inl z ↦ (r, d, rw (z, take_from))
  | inr more ↦
      let (m, o', d1, e, q, s, c) = take_at_total lock now i (d i) r d (a i) p in
      let (left, d', g) =
        take_from_total lock now n (i + 1) m d1 (IsSound-step lock i o' d d1 s c a) q in
      (left, d', rw (more, take_from, e) g)
]
