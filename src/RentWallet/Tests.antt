-- ===== src/RentWallet/Tests.antt =====
-- rent_wallet/src/lib.rs: the properties at concrete calls.
use shelterflex_contracts.Prelude.{
  ℕ, ◌≡◌, refl, false, none, some, List, [], ◌∷◌, arith, ◌+ℤ◌, ◌-ℤ◌, pos,
}
use shelterflex_contracts.Host.{Env}
use shelterflex_contracts.Token.Wallets.{at}
use shelterflex_contracts.AccessControl.{require_admin_permission}
use shelterflex_contracts.RentWallet.Types.{
  validate_amount, get_admin, get_balance, put_balance, get_paused_state, require_not_paused,
  require_admin, current_month_key, get_monthly_cap_default, effective_cap, get_monthly_spent,
  record_monthly_spent, check_and_record_debit, State,
}
use shelterflex_contracts.RentWallet.Calls.{credit, debit}
use shelterflex_contracts.RentWallet.Machine.{
  note, step, run, Call, credits, debits, credited, debited,
}
use shelterflex_contracts.RentWallet.Cases.{keeps_caps}
use shelterflex_contracts.RentWallet.Ledger.{replay, run-IsBooked, IsBooked}
use shelterflex_contracts.RentWallet.Cap.{debited_in, KeepCaps, run-IsCapped, IsCapped}

-- Admin 1, and a cap of 100 a month for everybody.
abbrev opened : State
opened = record {
  upgrade = record {
    admin = some 1;
    guardian = none;
    pending_hash = none;
    pending_at = none;
    pending_version = none;
    contract_version = some 1;
    upgrade_delay = none;
    schema_version = some 1;
    wasm = 1000;
  };
  balances = λ u. none;
  paused_flag = some false;
  monthly_cap_default = some (pos 100);
  monthly_cap_override = λ u. none;
  monthly_spent = λ u m. none;
}

-- The second debit of the first month would pass the cap; the same debit a month later does not.
abbrev calls : List (Env × Call)
calls =
    (at 10, credits 1 7 (pos 500))
    ∷ (at 20, debits 1 7 (pos 80))
    ∷ (at 30, debits 1 7 (pos 30))
    ∷ (at 2592000, debits 1 7 (pos 30))
    ∷ []

calls_test : (run calls opened []).1 ≡ debited 7 1 30 ∷ debited 7 0 80 ∷ credited 7 500 ∷ []
unfolding run step note credit debit require_admin get_admin require_admin_permission
    require_not_paused get_paused_state validate_amount get_balance put_balance
    check_and_record_debit effective_cap get_monthly_cap_default get_monthly_spent
    record_monthly_spent current_month_key ◌+ℤ◌ ◌-ℤ◌
calls_test = refl

opened-IsBooked : (u : ℕ) → IsBooked opened [] u
unfolding replay get_balance
opened-IsBooked u = record { amount = 0; replayed = refl; balance = refl; in_range = omega arith }

run-IsBooked_example : IsBooked (run calls opened []).0 (run calls opened []).1 7
run-IsBooked_example = run-IsBooked calls opened [] 7 (opened-IsBooked 7)

opened-IsCapped : (u : ℕ) → IsCapped u 100 opened []
unfolding effective_cap get_monthly_cap_default debited_in
opened-IsCapped u = record { cap_is = refl; recorded = λ m. refl; within = λ m. omega arith }

run-IsCapped_example : IsCapped 7 100 (run calls opened []).0 (run calls opened []).1
unfolding KeepCaps keeps_caps
run-IsCapped_example =
    run-IsCapped 7 100 (omega arith) calls opened [] (refl, (refl, (refl, (refl, tt))))
      (opened-IsCapped 7)
