-- ===== src/StakingPool/Deposits/Amounts.antt =====
-- staking_pool/src/lib.rs: the amounts of a user's deposits, as plain sums over an index range, and
-- how the write of one deposit changes them.
use shelterflex_contracts.Prelude.{
  ℕ, zero, suc, ◌+◌, ◌≤◌, ◌<◌, ◌≡◌, refl, ap, ◌∙◌, Bool, true, Option, none, some, arith, leb, ◌==◌,
  if◌then◌else◌, ==_refl, ==_ne, ◌+ℤ◌, ◌≤ℤ◌, ℤ, int_laws, pos, update,
}
use shelterflex_contracts.StakingPool.Types.{Deposit}

abbrev pub amount_of : Option Deposit → ℤ
amount_of none = pos 0
amount_of (some deposit) = deposit.amount

-- Whether the lock of a deposit is over, with no overflow.
abbrev pub is_free : ℕ → ℕ → Deposit → Bool
is_free lock now deposit = if lock == 0 then true else leb (deposit.timestamp + lock) now

abbrev pub free_amount : ℕ → ℕ → Option Deposit → ℤ
free_amount lock now none = pos 0
free_amount lock now (some deposit) = if is_free lock now deposit then deposit.amount else pos 0

-- The sum of `f` over the deposits with the `n` indices from `i` on.
unfoldable pub sum_from : (Option Deposit → ℤ) → (ℕ → Option Deposit) → ℕ → ℕ → ℤ
sum_from f d zero i = pos 0
sum_from f d (suc n) i = f (d i) +ℤ sum_from f d n (i + 1)

-- Deposits that agree on the range have the same sum.
pub sum_from-cong :
    (f : Option Deposit → ℤ) (d e : ℕ → Option Deposit) (n i : ℕ)
    → ((j : ℕ) → i ≤ j → j < i + n → d j ≡ e j)
    → sum_from f d n i ≡ sum_from f e n i
unfolding sum_from
sum_from-cong f d e zero i h = refl
sum_from-cong f d e (suc n) i h = rw (
  h i (omega arith) (omega arith),
  sum_from-cong f d e n (i + 1) (λ j p q. h j (omega arith) (omega arith)),
)

-- The range grows by one at its end.
pub sum_from-suc :
    (f : Option Deposit → ℤ) (d : ℕ → Option Deposit) (n i : ℕ)
    → sum_from f d (suc n) i ≡ sum_from f d n i +ℤ f (d (i + n))
unfolding sum_from
sum_from-suc f d zero i = let e : i + 0 ≡ i = omega arith in rw e (omega int_laws)
sum_from-suc f d (suc n) i =
    let e : i + suc n ≡ i + 1 + n = omega arith in
    rw e (ap (λ t. f (d i) +ℤ t) (sum_from-suc f d n (i + 1)) ∙ omega int_laws)

pub sum_from_nonneg :
    (f : Option Deposit → ℤ) (d : ℕ → Option Deposit) (n i : ℕ)
    → ((j : ℕ) → pos 0 ≤ℤ f (d j))
    → pos 0 ≤ℤ sum_from f d n i
unfolding sum_from
sum_from_nonneg f d zero i h = omega arith
sum_from_nonneg f d (suc n) i h = omega (int_laws, h i, sum_from_nonneg f d n (i + 1) h)

-- The unlocked amounts are part of all amounts.
pub free-le-all :
    (lock now : ℕ) (d : ℕ → Option Deposit) (n i : ℕ)
    → ((j : ℕ) → pos 0 ≤ℤ amount_of (d j))
    → sum_from (free_amount lock now) d n i ≤ℤ sum_from amount_of d n i
unfolding sum_from
free-le-all lock now d zero i h = omega arith
free-le-all lock now d (suc n) i h = grind (int_laws, h i, free-le-all lock now d n (i + 1) h)

-- A new deposit behind the others adds its amount.
pub sum_from-push :
    (f : Option Deposit → ℤ) (d : ℕ → Option Deposit) (v : Option Deposit) (n : ℕ)
    → sum_from f (update n v d) (n + 1) 0 ≡ sum_from f d n 0 +ℤ f v
sum_from-push f d v n =
    let e : n + 1 ≡ suc n = omega arith in
    let z : 0 + n ≡ n = omega arith in
    rw (e, sum_from-suc f (update n v d) n 0, z, ==_refl n)
      (ap (λ t. t +ℤ f v)
        (sum_from-cong f (update n v d) d n 0 (λ j p q. rw (==_ne j n (omega arith)))))
