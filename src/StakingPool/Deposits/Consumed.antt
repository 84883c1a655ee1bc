-- ===== src/StakingPool/Deposits/Consumed.antt =====
-- staking_pool/src/lib.rs: the second loop of `unstake`, round by round.
use shelterflex_contracts.Prelude.{
  ℕ, zero, suc, ◌+◌, ◌≤◌, ◌<◌, ◌≡◌, refl, ap, ◌∙◌, ◌≢◌, ◌⊎◌, inl, inr, false, Option, none, some,
  arith, ℕ_discrete, ==_eq, Bool-cases, ◌+ℤ◌, ◌-ℤ◌, ◌≤ℤ◌, eqb_ℤ, -ℤ_parts, eq_of_parts, parts_of_eq,
  ℤ, int_laws, pos,
}
use shelterflex_contracts.Host.{>>=-eq-ok, ok-injective, ok}
use shelterflex_contracts.StakingPool.Types.{Deposit}
use shelterflex_contracts.StakingPool.Deposits.{take_at, take_from}
use shelterflex_contracts.StakingPool.Deposits.Amounts.{
  amount_of, is_free, free_amount, sum_from, sum_from-cong,
}

-- One round at index `i`, which lowers what remains from `r` to `left`.
record TookOne (lock now i : ℕ) (r left : ℤ) (d d' : ℕ → Option Deposit) : Type 0 where
  others : (j : ℕ) → j ≢ i → d' j ≡ d j
  amount : amount_of (d' i) +ℤ r ≡ amount_of (d i) +ℤ left
  free : free_amount lock now (d' i) +ℤ r ≡ free_amount lock now (d i) +ℤ left
  left_le : left ≤ℤ r
  left_nonneg : pos 0 ≤ℤ left
  done : (left ≡ pos 0) ⊎ (free_amount lock now (d' i) ≡ pos 0)
  kept :
      (deposit : Deposit)
      → d i ≡ some deposit
      → is_free lock now deposit ≡ false
      → d' i ≡ some deposit
  still_nonneg : pos 0 ≤ℤ amount_of (d' i)

taken_whole : (a r : ℤ) → pos 0 +ℤ r ≡ a +ℤ (r -ℤ a)
taken_whole a r = omega int_laws

taken_in_part : (a r : ℤ) → a -ℤ r +ℤ r ≡ a +ℤ pos 0
taken_in_part a r = omega int_laws

take_at_ok :
    (lock now i : ℕ) (o : Option Deposit) (r left : ℤ) (d d' : ℕ → Option Deposit)
    → d i ≡ o
    → pos 0 ≤ℤ r
    → pos 0 ≤ℤ amount_of o
    → take_at lock now i o r d ≡ ok (left, d')
    → TookOne lock now i r left d d'
unfolding take_at
take_at_ok lock now i none r left d d' e p a h = record {
  others = λ j ne. ground arith;
  amount = ground arith;
  free = ground arith;
  left_le = ground arith;
  left_nonneg = ground arith;
  done = ground arith;
  kept = λ deposit q l. ground arith;
  still_nonneg = ground arith;
}
take_at_ok lock now i (some deposit) r left d d' e p a h = record {
  others = λ j ne. ground arith;
  amount = ground (arith, taken_whole deposit.amount r, taken_in_part deposit.amount r);
  free = ground (arith, taken_whole deposit.amount r, taken_in_part deposit.amount r);
  left_le = ground (arith, -ℤ_parts r deposit.amount);
  left_nonneg = ground (arith, -ℤ_parts r deposit.amount);
  done = ground arith;
  kept = λ deposit q l. ground arith;
  still_nonneg = ground (arith, -ℤ_parts deposit.amount r);
}

-- What the loop does over the `n` indices from `i` on: the amounts and the unlocked amounts go down
-- by what was taken, locked deposits stay as they are, and something remains only if no unlocked
-- amount is left.
pub record Took (lock now n i : ℕ) (r left : ℤ) (d d' : ℕ → Option Deposit) : Type 0 where
  pub below : (j : ℕ) → j < i → d' j ≡ d j
  pub above : (j : ℕ) → i + n ≤ j → d' j ≡ d j
  pub amounts : sum_from amount_of d' n i +ℤ r ≡ sum_from amount_of d n i +ℤ left
  pub frees :
      sum_from (free_amount lock now) d' n i +ℤ r ≡ sum_from (free_amount lock now) d n i +ℤ left
  pub left_le : left ≤ℤ r
  pub left_nonneg : pos 0 ≤ℤ left
  pub done : (left ≡ pos 0) ⊎ (sum_from (free_amount lock now) d' n i ≡ pos 0)
  pub kept :
      (j : ℕ) (deposit : Deposit)
      → d j ≡ some deposit
      → is_free lock now deposit ≡ false
      → d' j ≡ some deposit
  pub still_nonneg : (j : ℕ) → pos 0 ≤ℤ amount_of (d' j)

add_step : (a b c e r m l : ℤ) → a +ℤ r ≡ b +ℤ m → c +ℤ m ≡ e +ℤ l → a +ℤ c +ℤ r ≡ b +ℤ e +ℤ l
add_step a b c e r m l p q = omega (int_laws, parts_of_eq p, parts_of_eq q)

module _ (lock now n i : ℕ) (r m left : ℤ) (d d1 d' : ℕ → Option Deposit)
    (one : TookOne lock now i r m d d1) (rest : Took lock now n (i + 1) m left d1 d') where
  at_i : d' i ≡ d1 i
  at_i = rest.below i (omega arith)

  sums_agree : (f : Option Deposit → ℤ) → sum_from f d1 n (i + 1) ≡ sum_from f d n (i + 1)
  sums_agree f = sum_from-cong f d1 d n (i + 1) (λ j p q. one.others j (omega arith))

  sums_step :
      (f : Option Deposit → ℤ)
      → f (d1 i) +ℤ r ≡ f (d i) +ℤ m
      → sum_from f d' n (i + 1) +ℤ m ≡ sum_from f d1 n (i + 1) +ℤ left
      → sum_from f d' (suc n) i +ℤ r ≡ sum_from f d (suc n) i +ℤ left
  unfolding sum_from
  sums_step f p q = rw at_i (
      add_step (f (d1 i)) (f (d i)) (sum_from f d' n (i + 1)) (sum_from f d n (i + 1)) r m left p
        (q ∙ ap (λ t. t +ℤ left) (sums_agree f)))

  kept_one :
      (j : ℕ) (deposit : Deposit)
      → d j ≡ some deposit
      → is_free lock now deposit ≡ false
      → d1 j ≡ some deposit
  kept_one j deposit p q = elim (ℕ_discrete j i) [
    | yes e ↦ rw e (one.kept deposit (rw e at p) q)
    | no ne ↦ one.others j ne ∙ p
  ]

  done_suc :
      (m ≡ pos 0) ⊎ (free_amount lock now (d1 i) ≡ pos 0)
      → (left ≡ pos 0) ⊎ (sum_from (free_amount lock now) d' n (i + 1) ≡ pos 0)
      → (left ≡ pos 0) ⊎ (sum_from (free_amount lock now) d' (suc n) i ≡ pos 0)
  unfolding sum_from
  done_suc _ (inl e) = inl e
  done_suc (inl z) (inr e) =
      inl (eq_of_parts left (pos 0) (omega (arith, parts_of_eq z, rest.left_le, rest.left_nonneg)))
  done_suc (inr z) (inr e) = inr (rw (at_i, z, e) (omega int_laws))

  Took-suc : Took lock now (suc n) i r left d d'
  unfolding sum_from
  Took-suc = record {
    below = λ j p. rest.below j (omega arith) ∙ one.others j (omega arith);
    above = λ j p. rest.above j (omega arith) ∙ one.others j (omega arith);
    amounts = sums_step amount_of one.amount rest.amounts;
    frees = sums_step (free_amount lock now) one.free rest.frees;
    left_le = omega (arith, one.left_le, rest.left_le);
    left_nonneg = rest.left_nonneg;
    done = done_suc one.done rest.done;
    kept = λ j deposit p q. rest.kept j deposit (kept_one j deposit p q) q;
    still_nonneg = rest.still_nonneg;
  }

Took-zero :
    (lock now i : ℕ) (r : ℤ) (d : ℕ → Option Deposit)
    → pos 0 ≤ℤ r
    → ((j : ℕ) → pos 0 ≤ℤ amount_of (d j))
    → Took lock now zero i r r d d
unfolding sum_from
Took-zero lock now i r d p a = record {
  below = λ j q. refl;
  above = λ j q. refl;
  amounts = refl;
  frees = refl;
  left_le = omega arith;
  left_nonneg = p;
  done = inr refl;
  kept = λ j deposit q l. q;
  still_nonneg = a;
}

-- A loop with nothing left to take stops.
Took-stop :
    (lock now n i : ℕ) (r : ℤ) (d : ℕ → Option Deposit)
    → r ≡ pos 0
    → ((j : ℕ) → pos 0 ≤ℤ amount_of (d j))
    → Took lock now n i r r d d
Took-stop lock now n i r d z a = record {
  below = λ j q. refl;
  above = λ j q. refl;
  amounts = refl;
  frees = refl;
  left_le = omega arith;
  left_nonneg = rw z (omega arith);
  done = inl z;
  kept = λ j deposit q l. q;
  still_nonneg = a;
}

nonneg_after :
    (lock now i : ℕ) (r m : ℤ) (d d1 : ℕ → Option Deposit)
    → TookOne lock now i r m d d1
    → ((j : ℕ) → pos 0 ≤ℤ amount_of (d j))
    → (j : ℕ) → pos 0 ≤ℤ amount_of (d1 j)
nonneg_after lock now i r m d d1 one a j = elim (ℕ_discrete j i) [
  | yes e ↦ rw e one.still_nonneg
  | no ne ↦ rw (one.others j ne) (a j)
]

pub take_from_ok :
    (lock now n i : ℕ) (r left : ℤ) (d d' : ℕ → Option Deposit)
    → pos 0 ≤ℤ r
    → ((j : ℕ) → pos 0 ≤ℤ amount_of (d j))
    → take_from lock now n i r d ≡ ok (left, d')
    → Took lock now n i r left d d'
unfolding take_from
take_from_ok lock now zero i r left d d' p a h =
    let e = ok-injective h in
    rw (← ap (λ t. t.0) e, ← ap (λ t. t.1) e) (Took-zero lock now i r d p a)
take_from_ok lock now (suc n) i r left d d' p a h = elim (Bool-cases (eqb_ℤ r (pos 0))) [
  | inl z ↦
      let e = ok-injective (rw (z, take_from) at h) in
      rw (← ap (λ t. t.0) e, ← ap (λ t. t.1) e)
        (Took-stop lock now (suc n) i r d (eq_of_parts r (pos 0) (==_eq _ _ z)) a)
  | inr more ↦
      let ((m, d1), q, g) =
        >>=-eq-ok (take_at lock now i (d i) r d) _ (rw (more, take_from) at h) in
      let one = take_at_ok lock now i (d i) r m d d1 refl p (a i) q in
      Took-suc lock now n i r m left d d1 d' one (
        take_from_ok lock now n (i + 1) m left d1 d' one.left_nonneg
          (nonneg_after lock now i r m d d1 one a) g)
]
