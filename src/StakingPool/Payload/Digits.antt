-- ===== src/StakingPool/Payload/Digits.antt =====
-- staking_pool/src/lib.rs: the digit loop of the payload and the number that digits stand for.
use shelterflex_contracts.Prelude.{
  ℕ, zero, suc, ◌+◌, ◌-◌, ◌*◌, ◌/◌, ◌%◌, ◌^◌, ◌≤◌, ◌<◌, ◌≡◌, inl, inr, List, [], ◌∷◌, arith,
  pow-suc, ◌==◌, Bool-cases,
}
use shelterflex_contracts.Host.{ok}
use shelterflex_contracts.StakingPool.Payload.{digits_from}

-- The number that digits stand for, the lowest first.
pub value : List ℕ → ℕ
value [] = 0
value (d ∷ ds) = (d - b'0') + 10 * value ds

abbrev IsDigit : ℕ → Type 0
IsDigit d = (b'0' ≤ d) × (d ≤ b'9')

abbrev pub AllDigits : List ℕ → Type 0
AllDigits [] = Unit
AllDigits (d ∷ ds) = IsDigit d × AllDigits ds

-- For a number below 10 to the power of the number of cells, the digit loop returns, and writes
-- decimal digits that stand for the number.
pub digits_from_exact :
    (cells n : ℕ)
    → n < 10 ^ cells
    → (ds : List ℕ) × (digits_from cells n ≡ ok ds) × (value ds ≡ n) × AllDigits ds
unfolding digits_from value
digits_from_exact zero n h = ([], ground arith, omega arith, tt)
digits_from_exact (suc cells) n h = elim (Bool-cases (n == 0)) [
  | inl z ↦ ([], rw (z, digits_from), ground arith, tt)
  | inr nz ↦
      let (ds, e, v, a) = digits_from_exact cells (n / 10) (power_step cells n h) in
      ((n % 10 + b'0') ∷ ds, rw (nz, digits_from, e), omega arith, ((omega arith, omega arith), a))
]
  where
    power_step : (cells n : ℕ) → n < 10 ^ suc cells → n / 10 < 10 ^ cells
    power_step cells n h = omega (arith, pow-suc 10 cells)
