-- ===== src/RentWallet/Ledger.antt =====
-- rent_wallet/src/lib.rs: a ledger of natural numbers, which refuses a debit that is not covered,
-- and the balances that the contract keeps, which agree with it.
use shelterflex_contracts.Prelude.{
  ℕ, ◌+◌, ◌-◌, ◌≤◌, ◌<◌, ◌≡◌, refl, subst, ◌≢◌, true, Option, none, some, List, [], ◌∷◌, arith,
  ℕ_discrete, leb, ◌==◌, if◌then◌else◌, le→leb, ==_refl, ==_ne, pos_part, ◌≤ℤ◌, pos-+ℤ, pos-sub_ℤ,
  fits_i128, ℤ, pos, update,
}
use shelterflex_contracts.Host.{Outcome, Env, ok, err, trap}
use shelterflex_contracts.RentWallet.Types.{get_balance, current_month_key, Error, State}
use shelterflex_contracts.RentWallet.Effects.{credit_ok, debit_ok, IsCredited, IsDebited}
use shelterflex_contracts.RentWallet.Machine.{note, step, run, Call, Entry, credited, debited}
use shelterflex_contracts.RentWallet.Calls.{credit, debit}
use shelterflex_contracts.RentWallet.Cases.{by_cases}

-- One entry on the amount `m` of the user `u`.
unfoldable pub post : Entry → ℕ → ℕ → Option ℕ
post (credited user n) u m = some (if u == user then m + n else m)
post (debited user month n) u m =
    if u == user then (if leb n m then some (m - n) else none) else some m

unfoldable pub replay : List Entry → ℕ → Option ℕ
replay [] u = some 0
replay (e ∷ log) u = let before = replay log u in elim before [ none ↦ none | some m ↦ post e u m ]

pub record IsBooked (s : State) (log : List Entry) (u : ℕ) : Type 0 where
  pub amount : ℕ
  pub replayed : replay log u ≡ some amount
  pub balance : get_balance s u ≡ pos amount
  pub in_range : amount < 170141183460469231731687303715884105728

same-IsBooked :
    (s t : State) (log : List Entry) (u : ℕ)
    → t.balances ≡ s.balances
    → IsBooked s log u
    → IsBooked t log u
unfolding get_balance
same-IsBooked s t log u e b = record {
  amount = b.amount;
  replayed = b.replayed;
  balance = rw e b.balance;
  in_range = b.in_range;
}

written_balance :
    (s t : State) (user : ℕ) (v : ℤ) (u : ℕ)
    → t.balances ≡ update user (some v) s.balances
    → get_balance t u ≡ (if u == user then v else get_balance s u)
unfolding get_balance
written_balance s t user v u e = rw e (ground arith)

fits_pos : (n : ℕ) → fits_i128 (pos n) ≡ true → n < 170141183460469231731687303715884105728
fits_pos n h = ground arith

enough_units : (a b : ℕ) → pos b ≤ℤ pos a → b ≤ a
enough_units a b h = omega (arith, h)

credited_own :
    (s t : State) (log : List Entry) (user : ℕ) (amount : ℤ)
    → IsCredited user amount s t
    → IsBooked s log user
    → IsBooked t (credited user (pos_part amount) ∷ log) user
unfolding replay post
credited_own s t log user amount c b = record {
  amount = b.amount + c.units;
  replayed = rw (b.replayed, c.is_units, ==_refl user) refl;
  balance =
      rw (written_balance s t user _ user c.balances, ==_refl user, b.balance, c.is_units)
        (pos-+ℤ b.amount c.units);
  in_range =
      fits_pos (b.amount + c.units)
        (rw (b.balance, c.is_units, pos-+ℤ b.amount c.units) at c.in_range);
}

debited_own :
    (env : Env) (s t : State) (log : List Entry) (user : ℕ) (amount : ℤ)
    → IsDebited env user amount s t
    → IsBooked s log user
    → IsBooked t (debited user (current_month_key env) (pos_part amount) ∷ log) user
unfolding replay post
debited_own env s t log user amount c b =
    let enough : c.units ≤ b.amount =
      enough_units b.amount c.units (rw (b.balance, c.is_units) at c.covered) in
    record {
      amount = b.amount - c.units;
      replayed = rw (b.replayed, c.is_units, ==_refl user, le→leb c.units b.amount enough) refl;
      balance =
          rw (written_balance s t user _ user c.balances, ==_refl user, b.balance, c.is_units)
            (pos-sub_ℤ b.amount c.units enough);
      in_range = omega (arith, b.in_range);
    }

-- An entry of another user leaves the amount.
other_entry :
    (s t : State) (log : List Entry) (e : Entry) (user u : ℕ) (v : ℤ)
    → u ≢ user
    → ((m : ℕ) → post e u m ≡ some m)
    → t.balances ≡ update user (some v) s.balances
    → IsBooked s log u
    → IsBooked t (e ∷ log) u
unfolding replay
other_entry s t log e user u v ne p w b = record {
  amount = b.amount;
  replayed = rw b.replayed (p b.amount);
  balance = rw (written_balance s t user v u w, ==_ne u user ne) b.balance;
  in_range = b.in_range;
}

credit-IsBooked :
    (s t : State) (log : List Entry) (user : ℕ) (amount : ℤ) (u : ℕ)
    → IsCredited user amount s t
    → IsBooked s log u
    → IsBooked t (credited user (pos_part amount) ∷ log) u
unfolding post
credit-IsBooked s t log user amount u c b = elim (ℕ_discrete u user) [
  | yes e ↦ rw e (credited_own s t log user amount c (subst (λ i. IsBooked s log i) e b))
  | no ne ↦ other_entry s t log _ user u _ ne (λ m. rw (==_ne u user ne) refl) c.balances b
]

debit-IsBooked :
    (env : Env) (s t : State) (log : List Entry) (user : ℕ) (amount : ℤ) (u : ℕ)
    → IsDebited env user amount s t
    → IsBooked s log u
    → IsBooked t (debited user (current_month_key env) (pos_part amount) ∷ log) u
unfolding post
debit-IsBooked env s t log user amount u c b = elim (ℕ_discrete u user) [
  | yes e ↦ rw e (debited_own env s t log user amount c (subst (λ i. IsBooked s log i) e b))
  | no ne ↦ other_entry s t log _ user u _ ne (λ m. rw (==_ne u user ne) refl) c.balances b
]

noted :
    (e : Entry) (s : State) (log : List Entry) (u : ℕ) (r : Outcome Error State)
    → IsBooked s log u
    → ((t : State) → r ≡ ok t → IsBooked t (e ∷ log) u)
    → IsBooked (note e s log r).0 (note e s log r).1 u
unfolding note
noted e s log u (ok t) b k = k t refl
noted e s log u (err x) b k = b
noted e s log u trap b k = b

step-IsBooked :
    (env : Env) (s : State) (log : List Entry) (u : ℕ) (c : Call)
    → IsBooked s log u
    → IsBooked (step env c s log).0 (step env c s log).1 u
unfolding step
step-IsBooked env s log u c b =
    by_cases env s log {P = λ k. IsBooked (step env k s log).0 (step env k s log).1 u}
      (record {
        on_quiet = λ k q.
            rw q.same_log (same-IsBooked s (step env k s log).0 log u q.books.same_balances b);
        on_credit = λ a user amount.
            noted _ s log u (credit env a user amount s) b
              λ t h. credit-IsBooked s t log user amount u (credit_ok env a user amount s t h) b;
        on_debit = λ a user amount.
            noted _ s log u (debit env a user amount s) b
              λ t h. debit-IsBooked env s t log user amount u (debit_ok env a user amount s t h) b;
      })
      c

-- From a wallet whose balance of a user is what a ledger of natural numbers gives that replays the
-- log of credits and debits and refuses a debit that is not covered, any sequence of calls, with
-- the credits and debits that returned added to the log, leads to a wallet and a log of which the
-- same holds, and the balance stays below 2 to the power of 127.
pub run-IsBooked :
    (cs : List (Env × Call)) (s : State) (log : List Entry) (u : ℕ)
    → IsBooked s log u
    → IsBooked (run cs s log).0 (run cs s log).1 u
unfolding run
run-IsBooked [] s log u b = b
run-IsBooked ((env, c) ∷ cs) s log u b =
    run-IsBooked cs (step env c s log).0 (step env c s log).1 u (step-IsBooked env s log u c b)
