-- ===== src/RentWallet/Cap.antt =====
-- rent_wallet/src/monthly_cap.rs: the monthly cap over any sequence of calls.
use shelterflex_contracts.Prelude.{
  ℕ, ◌+◌, ◌≤◌, ◌≡◌, refl, sym, ap, ◌∙◌, subst, ◌≢◌, inl, inr, Bool, true, false, Option, some, List,
  [], ◌∷◌, arith, ℕ_discrete, ◌==◌, if◌then◌else◌, ==_refl, ==_ne, pos_part, ◌+ℤ◌, eqb_ℤ,
  parts_of_eq, pos-+ℤ, ℤ, pos, unwrap_or, update,
}
use shelterflex_contracts.Host.{Outcome, Env, ok, err, trap}
use shelterflex_contracts.RentWallet.Types.{
  current_month_key, get_monthly_cap_default, effective_cap, get_monthly_spent, Error, State,
}
use shelterflex_contracts.RentWallet.Effects.{credit_ok, debit_ok, IsDebited}
use shelterflex_contracts.RentWallet.Machine.{note, step, run, Call, Entry, credited, debited}
use shelterflex_contracts.RentWallet.Cases.{keeps_caps, by_cases, SameCaps, IsQuiet}
use shelterflex_contracts.RentWallet.Calls.{credit, debit}

-- What the user was debited in the month.
unfoldable pub debited_in : ℕ → ℕ → List Entry → ℕ
debited_in u m [] = 0
debited_in u m (credited user n ∷ log) = debited_in u m log
debited_in u m (debited user month n ∷ log) =
    let rest = debited_in u m log in
    if u == user then (if m == month then n + rest else rest) else rest

-- No call of the sequence sets a cap.
unfoldable pub KeepCaps : List (Env × Call) → Type 0
KeepCaps [] = Unit {0}
KeepCaps ((env, c) ∷ cs) = (keeps_caps c ≡ true) × KeepCaps cs

-- The user has the cap, and the recorded sums are those of the log and within it.
pub record IsCapped (u limit : ℕ) (s : State) (log : List Entry) : Type 0 where
  pub cap_is : effective_cap s u ≡ pos limit
  pub recorded : (m : ℕ) → unwrap_or (s.monthly_spent u m) (pos 0) ≡ pos (debited_in u m log)
  pub within : (m : ℕ) → debited_in u m log ≤ limit

module _ (u limit : ℕ) (some_cap : 1 ≤ limit) where
  same_cap :
      (s t : State) → SameCaps s t → effective_cap s u ≡ pos limit → effective_cap t u ≡ pos limit
  unfolding effective_cap get_monthly_cap_default
  same_cap s t c e = rw (c.same_default, c.same_override) e

  quiet-IsCapped :
      (s t : State) (log : List Entry)
      → SameCaps s t
      → t.monthly_spent ≡ s.monthly_spent
      → IsCapped u limit s log
      → IsCapped u limit t log
  quiet-IsCapped s t log c e k = record {
    cap_is = same_cap s t c k.cap_is;
    recorded = λ m. rw e (k.recorded m);
    within = k.within;
  }

  credited-IsCapped :
      (s t : State) (log : List Entry) (user n : ℕ)
      → SameCaps s t
      → t.monthly_spent ≡ s.monthly_spent
      → IsCapped u limit s log
      → IsCapped u limit t (credited user n ∷ log)
  unfolding debited_in
  credited-IsCapped s t log user n c e k = record {
    cap_is = same_cap s t c k.cap_is;
    recorded = λ m. rw e (k.recorded m);
    within = k.within;
  }

  if_other :
      (b : Bool) (f : ℕ → ℕ → Option ℤ) (user : ℕ) (g : ℕ → Option ℤ)
      → u ≢ user
      → (if b then f else update user g f) u ≡ f u
  if_other true f user g ne = refl
  if_other false f user g ne = rw (==_ne u user ne) refl

  other_spent :
      (env : Env) (s t : State) (user : ℕ) (amount : ℤ)
      → u ≢ user
      → IsDebited env user amount s t
      → t.monthly_spent u ≡ s.monthly_spent u
  other_spent env s t user amount ne c =
      rw (c.same_spent, c.is_recorded.spent) (if_other _ s.monthly_spent user _ ne)

  -- A debit of another user.
  other-IsCapped :
      (env : Env) (s t : State) (log : List Entry) (user : ℕ) (amount : ℤ)
      → u ≢ user
      → IsDebited env user amount s t
      → IsCapped u limit s log
      → IsCapped u limit t (debited user (current_month_key env) (pos_part amount) ∷ log)
  unfolding debited_in
  other-IsCapped env s t log user amount ne c k = record {
    cap_is =
        same_cap s t (record { same_default = c.same_default; same_override = c.same_override })
          k.cap_is;
    recorded = λ m. rw (other_spent env s t user amount ne c, ==_ne u user ne) (k.recorded m);
    within = λ m. rw (==_ne u user ne) (k.within m);
  }

  no_free_cap : eqb_ℤ (pos limit) (pos 0) ≡ false
  no_free_cap = ==_ne (limit + 0) (0 + 0) (λ e. omega (arith, e, some_cap))

  -- A debit of the user is recorded in its month.
  own_spent :
      (env : Env) (s t : State) (amount : ℤ)
      → effective_cap s u ≡ pos limit
      → IsDebited env u amount s t
      → t.monthly_spent u
        ≡ update
            (current_month_key env)
            (some (get_monthly_spent env s u +ℤ amount))
            (s.monthly_spent u)
  own_spent env s t amount e c =
      rw (c.same_spent, c.is_recorded.spent, e, no_free_cap, ==_refl u) refl

  own_month :
      (env : Env) (s t : State) (log : List Entry) (amount : ℤ)
      → IsDebited env u amount s t
      → IsCapped u limit s log
      → get_monthly_spent env s u +ℤ amount
        ≡ pos (pos_part amount + debited_in u (current_month_key env) log)
  unfolding get_monthly_spent
  own_month env s t log amount c k =
      rw (k.recorded (current_month_key env), c.is_units)
        (pos-+ℤ (debited_in u (current_month_key env) log) c.units ∙ ap pos (omega arith))

  own_within :
      (env : Env) (s t : State) (log : List Entry) (amount : ℤ)
      → IsDebited env u amount s t
      → IsCapped u limit s log
      → pos_part amount + debited_in u (current_month_key env) log ≤ limit
  own_within env s t log amount c k = elim c.is_recorded.within [
    | inl free ↦ absurd (omega (arith, some_cap, parts_of_eq (sym k.cap_is ∙ free)))
    | inr le ↦ omega (arith, rw (own_month env s t log amount c k, k.cap_is) at le)
  ]

  own-IsCapped :
      (env : Env) (s t : State) (log : List Entry) (amount : ℤ)
      → IsDebited env u amount s t
      → IsCapped u limit s log
      → IsCapped u limit t (debited u (current_month_key env) (pos_part amount) ∷ log)
  unfolding debited_in
  own-IsCapped env s t log amount c k = record {
    cap_is =
        same_cap s t (record { same_default = c.same_default; same_override = c.same_override })
          k.cap_is;
    recorded = λ m. elim (ℕ_discrete m (current_month_key env)) [
      | yes e ↦
          subst
            (λ i.
              unwrap_or (t.monthly_spent u i) (pos 0)
              ≡ pos (debited_in u i (debited u (current_month_key env) (pos_part amount) ∷ log)))
            (sym e)
            (rw (own_spent env s t amount k.cap_is c, ==_refl u, ==_refl (current_month_key env))
              (own_month env s t log amount c k))
      | no ne ↦
          rw (own_spent env s t amount k.cap_is c, ==_refl u, ==_ne m (current_month_key env) ne)
            (k.recorded m)
    ];
    within = λ m. elim (ℕ_discrete m (current_month_key env)) [
      | yes e ↦
          subst
            (λ i.
              debited_in u i (debited u (current_month_key env) (pos_part amount) ∷ log) ≤ limit)
            (sym e)
            (rw (==_refl u, ==_refl (current_month_key env)) (own_within env s t log amount c k))
      | no ne ↦ rw (==_refl u, ==_ne m (current_month_key env) ne) (k.within m)
    ];
  }

  debit-IsCapped :
      (env : Env) (s t : State) (log : List Entry) (user : ℕ) (amount : ℤ)
      → IsDebited env user amount s t
      → IsCapped u limit s log
      → IsCapped u limit t (debited user (current_month_key env) (pos_part amount) ∷ log)
  debit-IsCapped env s t log user amount c k = elim (ℕ_discrete u user) [
    | yes e ↦
        subst (λ i. IsCapped u limit t (debited i (current_month_key env) (pos_part amount) ∷ log))
          e (own-IsCapped env s t log amount (subst (λ i. IsDebited env i amount s t) (sym e) c) k)
    | no ne ↦ other-IsCapped env s t log user amount ne c k
  ]

  noted :
      (e : Entry) (s : State) (log : List Entry) (r : Outcome Error State)
      → IsCapped u limit s log
      → ((t : State) → r ≡ ok t → IsCapped u limit t (e ∷ log))
      → IsCapped u limit (note e s log r).0 (note e s log r).1
  unfolding note
  noted e s log (ok t) b k = k t refl
  noted e s log (err x) b k = b
  noted e s log trap b k = b

  quiet_step :
      (env : Env) (s : State) (log : List Entry) (c : Call)
      → IsQuiet env s log c
      → keeps_caps c ≡ true
      → IsCapped u limit s log
      → IsCapped u limit (step env c s log).0 (step env c s log).1
  quiet_step env s log c q keep k = elim q.caps [
    | inl e ↦ absurd (cc (keep, e))
    | inr same ↦ rw q.same_log (quiet-IsCapped s (step env c s log).0 log same q.books.same_spent k)
  ]

  step-IsCapped :
      (env : Env) (s : State) (log : List Entry)
      → IsCapped u limit s log
      → (c : Call) → keeps_caps c ≡ true
      → IsCapped u limit (step env c s log).0 (step env c s log).1
  unfolding step
  step-IsCapped env s log k =
      by_cases env s log
        {P = λ c. keeps_caps c ≡ true → IsCapped u limit (step env c s log).0 (step env c s log).1}
        (record {
          on_quiet = λ c q keep. quiet_step env s log c q keep k;
          on_credit = λ a user amount keep. noted _ s log (credit env a user amount s) k λ t h.
              let c = credit_ok env a user amount s t h in
              credited-IsCapped s t log user (pos_part amount)
                (record { same_default = c.same_default; same_override = c.same_override })
                c.same_spent k;
          on_debit = λ a user amount keep.
              noted _ s log (debit env a user amount s) k
                λ t h. debit-IsCapped env s t log user amount (debit_ok env a user amount s t h) k;
        })

  -- If a user has a monthly cap that is not 0, and the recorded sums of each month are the debits
  -- of the log and within the cap, then any sequence of calls that sets no cap keeps this: in no
  -- month are more than the cap debited from the user.
  pub run-IsCapped :
      (cs : List (Env × Call)) (s : State) (log : List Entry)
      → KeepCaps cs
      → IsCapped u limit s log
      → IsCapped u limit (run cs s log).0 (run cs s log).1
  unfolding run KeepCaps
  run-IsCapped [] s log keep k = k
  run-IsCapped ((env, c) ∷ cs) s log keep k =
      run-IsCapped cs (step env c s log).0 (step env c s log).1 keep.1
        (step-IsCapped env s log k c keep.0)
