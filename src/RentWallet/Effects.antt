-- ===== src/RentWallet/Effects.antt =====
-- rent_wallet/src/lib.rs: what a credit or a debit has checked and written, where it returned, and
-- that the other calls leave the balances and the monthly sums alone.
use shelterflex_contracts.Prelude.{
  ℕ, ◌≤◌, ◌≡◌, refl, ◌≢◌, ◌⊎◌, inl, inr, true, false, some, arith, if◌then◌else◌, ==_eq, Bool-cases,
  ◌+ℤ◌, ◌-ℤ◌, ◌≤ℤ◌, eqb_ℤ, eq_of_parts, fits_i128, ℤ, pos, negsuc, update,
}
use shelterflex_contracts.Host.{Outcome, Env, ok, err, trap}
use shelterflex_contracts.RentWallet.Types.{
  validate_amount, get_balance, require_not_paused, current_month_key, effective_cap,
  get_monthly_spent, record_monthly_spent, check_and_record_debit, Error, State,
}
use shelterflex_contracts.RentWallet.Calls.{credit, debit}

pub record IsCredited (user : ℕ) (amount : ℤ) (s t : State) : Type 0 where
  pub units : ℕ
  pub is_units : amount ≡ pos units
  pub positive : 1 ≤ units
  pub in_range : fits_i128 (get_balance s user +ℤ amount) ≡ true
  pub balances : t.balances ≡ update user (some (get_balance s user +ℤ amount)) s.balances
  pub same_spent : t.monthly_spent ≡ s.monthly_spent
  pub same_default : t.monthly_cap_default ≡ s.monthly_cap_default
  pub same_override : t.monthly_cap_override ≡ s.monthly_cap_override

pos-IsCredited :
    (env : Env) (a user n : ℕ) (s t : State)
    → credit env a user (pos n) s ≡ ok t
    → IsCredited user (pos n) s t
unfolding credit require_not_paused validate_amount
pos-IsCredited env a user n s t h = record {
  units = n;
  is_units = refl;
  positive = ground arith;
  in_range = ground arith;
  balances = ground arith;
  same_spent = ground arith;
  same_default = ground arith;
  same_override = ground arith;
}

no_negative_credit :
    (env : Env) (a user n : ℕ) (s t : State) → credit env a user (negsuc n) s ≡ ok t → ⊥
unfolding credit require_not_paused validate_amount
no_negative_credit env a user n s t h = ground arith

pub credit_ok :
    (env : Env) (a user : ℕ) (amount : ℤ) (s t : State)
    → credit env a user amount s ≡ ok t
    → IsCredited user amount s t
credit_ok env a user (pos n) s t h = pos-IsCredited env a user n s t h
credit_ok env a user (negsuc n) s t h = absurd (no_negative_credit env a user n s t h)

-- What the monthly cap has checked and recorded.
pub record IsRecorded (env : Env) (user : ℕ) (amount : ℤ) (s t : State) : Type 0 where
  pub same_balances : t.balances ≡ s.balances
  pub same_default : t.monthly_cap_default ≡ s.monthly_cap_default
  pub same_override : t.monthly_cap_override ≡ s.monthly_cap_override
  pub within :
      (effective_cap s user ≡ pos 0)
      ⊎ (get_monthly_spent env s user +ℤ amount ≤ℤ effective_cap s user)
  pub spent : t.monthly_spent ≡ (
      if eqb_ℤ (effective_cap s user) (pos 0)
      then s.monthly_spent
      else update user
          (update
            (current_month_key env)
            (some (get_monthly_spent env s user +ℤ amount))
            (s.monthly_spent user))
          s.monthly_spent)

free-IsRecorded :
    (env : Env) (user : ℕ) (amount : ℤ) (s t : State)
    → eqb_ℤ (effective_cap s user) (pos 0) ≡ true
    → check_and_record_debit env user amount s ≡ ok t
    → IsRecorded env user amount s t
unfolding check_and_record_debit
free-IsRecorded env user amount s t e h = record {
  same_balances = ground arith;
  same_default = ground arith;
  same_override = ground arith;
  within = inl (eq_of_parts _ _ (==_eq _ _ e));
  spent = rw e (ground arith);
}

capped-IsRecorded :
    (env : Env) (user : ℕ) (amount : ℤ) (s t : State)
    → eqb_ℤ (effective_cap s user) (pos 0) ≡ false
    → check_and_record_debit env user amount s ≡ ok t
    → IsRecorded env user amount s t
unfolding check_and_record_debit record_monthly_spent get_monthly_spent
capped-IsRecorded env user amount s t e h = record {
  same_balances = ground arith;
  same_default = ground arith;
  same_override = ground arith;
  within = inr (ground arith);
  spent = rw e (ground arith);
}

pub record_ok :
    (env : Env) (user : ℕ) (amount : ℤ) (s t : State)
    → check_and_record_debit env user amount s ≡ ok t
    → IsRecorded env user amount s t
record_ok env user amount s t h = elim (Bool-cases (eqb_ℤ (effective_cap s user) (pos 0))) [
  | inl e ↦ free-IsRecorded env user amount s t e h
  | inr e ↦ capped-IsRecorded env user amount s t e h
]

pub record IsDebited (env : Env) (user : ℕ) (amount : ℤ) (s t : State) : Type 0 where
  pub units : ℕ
  pub is_units : amount ≡ pos units
  pub positive : 1 ≤ units
  pub covered : amount ≤ℤ get_balance s user
  pub recorded : State
  pub is_recorded : IsRecorded env user amount s recorded
  pub balances : t.balances ≡ update user (some (get_balance s user -ℤ amount)) s.balances
  pub same_spent : t.monthly_spent ≡ recorded.monthly_spent
  pub same_default : t.monthly_cap_default ≡ s.monthly_cap_default
  pub same_override : t.monthly_cap_override ≡ s.monthly_cap_override

pos-IsDebited :
    (env : Env) (a user n : ℕ) (s r t : State)
    → check_and_record_debit env user (pos n) s ≡ ok r
    → debit env a user (pos n) s ≡ ok t
    → IsDebited env user (pos n) s t
unfolding debit require_not_paused validate_amount
pos-IsDebited env a user n s r t e h =
    let c = record_ok env user (pos n) s r e in
    record {
      units = n;
      is_units = refl;
      positive = ground arith;
      covered = ground arith;
      recorded = r;
      is_recorded = c;
      balances = ground (arith, c.same_balances);
      same_spent = ground arith;
      same_default = ground (arith, c.same_default);
      same_override = ground (arith, c.same_override);
    }

not_recorded :
    (env : Env) (a user n : ℕ) (s t : State) (k : Outcome Error State)
    → check_and_record_debit env user (pos n) s ≡ k
    → ((r : State) → k ≢ ok r)
    → debit env a user (pos n) s ≡ ok t
    → ⊥
unfolding debit require_not_paused validate_amount
not_recorded env a user n s t (ok r) e none_ok h = none_ok r refl
not_recorded env a user n s t (err x) e none_ok h = ground arith
not_recorded env a user n s t trap e none_ok h = ground arith

from-IsDebited :
    (env : Env) (a user n : ℕ) (s t : State) (k : Outcome Error State)
    → check_and_record_debit env user (pos n) s ≡ k
    → debit env a user (pos n) s ≡ ok t
    → IsDebited env user (pos n) s t
from-IsDebited env a user n s t (ok r) e h = pos-IsDebited env a user n s r t e h
from-IsDebited env a user n s t (err x) e h =
    absurd (not_recorded env a user n s t (err x) e (λ r p. absurd (cc)) h)
from-IsDebited env a user n s t trap e h =
    absurd (not_recorded env a user n s t trap e (λ r p. absurd (cc)) h)

no_negative_debit :
    (env : Env) (a user n : ℕ) (s t : State) → debit env a user (negsuc n) s ≡ ok t → ⊥
unfolding debit require_not_paused validate_amount
no_negative_debit env a user n s t h = ground arith

pub debit_ok :
    (env : Env) (a user : ℕ) (amount : ℤ) (s t : State)
    → debit env a user amount s ≡ ok t
    → IsDebited env user amount s t
debit_ok env a user (pos n) s t h = from-IsDebited env a user n s t _ refl h
debit_ok env a user (negsuc n) s t h = absurd (no_negative_debit env a user n s t h)

-- The calls that write neither balances nor monthly sums.
pub record SameBooks (s t : State) : Type 0 where
  pub same_balances : t.balances ≡ s.balances
  pub same_spent : t.monthly_spent ≡ s.monthly_spent
