-- ===== src/DealEscrow/Fixture.antt =====
-- deal_escrow/src/lib.rs: an escrow with a deal whose rent is pending, for the tests.
use shelterflex_contracts.Prelude.{
  ◌≡◌, refl, subst, false, none, some, List, [], ◌∷◌, ◌==◌, if◌then◌else◌, ◌+ℤ◌, ◌-ℤ◌, pos, update,
}
use shelterflex_contracts.Host.{commit, Env}
use shelterflex_contracts.Token.Wallets.{at, Wallets, move, transfer}
use shelterflex_contracts.Upgrade
use shelterflex_contracts.Reentrancy.{enter, exit}
use shelterflex_contracts.AccessControl.{
  require_admin_permission, require_admin_or_operator_permission,
}
use shelterflex_contracts.DealEscrow.Types.{
  require_valid_amount, require_non_empty_string, assert_deal_invariants, get_deal_balance,
  get_deal_state, set_deal_depositor_if_missing, get_admin, get_operator,
  get_challenge_window_seconds, get_token, get_paused, require_not_paused, require_admin,
  require_admin_or_operator, PendingRentRelease, Deals, State,
}
use shelterflex_contracts.DealEscrow.Funds.{init, deposit}
use shelterflex_contracts.DealEscrow.Releases.{request_rent_release}
use shelterflex_contracts.DealEscrow.Admin.{set_resolver}
use shelterflex_contracts.DealEscrow.Steps.{IsEscrow}
use shelterflex_contracts.DealEscrow.Runs.{init-IsEscrow, run-IsEscrow, IsFresh}
use shelterflex_contracts.DealEscrow.Machine.{step, run, Call, deposits, requests, sets_resolver}

abbrev pub no_upgrade : Upgrade.Store
no_upgrade = record {
  admin = none;
  guardian = none;
  pending_hash = none;
  pending_at = none;
  pending_version = none;
  contract_version = none;
  upgrade_delay = none;
  schema_version = none;
  wasm = 1000;
}

abbrev pub no_deals : Deals
no_deals = record {
  balance = [];
  depositor = λ id. none;
  state = λ id. none;
  lifecycle = λ id. none;
  release = λ id. none;
  dispute = λ id. none;
  legacy_locked = λ id. none;
  legacy_pending = λ id. none;
}

-- User 3 has 500 of the token.
abbrev pub blank : State Wallets
blank = record {
  upgrade = no_upgrade;
  operator = none;
  resolver = none;
  challenge_window = none;
  dispute_timeout = none;
  token = none;
  receipt_contract = none;
  paused_flag = none;
  deals = no_deals;
  reentrancy = none;
  circuit_breaker = none;
  drain_hash = none;
  drain_at = none;
  recovery_delay = none;
  tokens = λ a. if a == 3 then pos 500 else pos 0;
}

pub blank-IsFresh : IsFresh blank
blank-IsFresh = record {
  no_admin = refl;
  no_upgrade = refl;
  no_balance = refl;
  no_state = λ id. refl;
  no_release = λ id. refl;
  no_lock = refl;
}

-- Admin 1, operator 2, token 9 and receipt contract 8.
abbrev pub opened : State Wallets
opened = record blank {
  upgrade = record no_upgrade {
    admin = some 1;
    contract_version = some 1;
    schema_version = some 3;
  };
  operator = some 2;
  token = some 9;
  receipt_contract = some 8;
  paused_flag = some false;
}

opened_test : commit blank (init 1 2 9 8 blank) ≡ opened
unfolding init
opened_test = refl

pub opened-IsEscrow : IsEscrow opened
opened-IsEscrow = subst (λ s. IsEscrow s) opened_test (init-IsEscrow 1 2 9 8 blank blank-IsFresh)

-- User 3 deposits 100 for the deal 5, the operator asks to pay 60 of it to user 4, with resolver 6.
abbrev pub calls : List (Env × Call)
calls =
    (at 10, deposits 3 5 (pos 100))
    ∷ (at 20, sets_resolver 1 6)
    ∷ (at 100, requests 2 5 4 (pos 60) 11 12)
    ∷ []

abbrev pub rent : PendingRentRelease
rent = record {
  to = 4;
  amount = pos 60;
  requested_by = 2;
  requested_at = 100;
  challenge_end_at = 86500;
  external_ref_source = 11;
  external_ref = 12;
}

abbrev pub requested : State Wallets
requested = record opened {
  resolver = some 6;
  deals = record no_deals {
    balance = (5, pos 100) ∷ [];
    depositor = update 5 (some 3) (λ id. none);
    state =
        update 5
          (some
            (record { total_balance = pos 100; locked_amount = pos 60; pending_payout = pos 60 }))
          (update 5
            (some
              (record { total_balance = pos 100; locked_amount = pos 0; pending_payout = pos 0 }))
            (λ id. none));
    release = update 5 (some rent) (λ id. none);
  };
  reentrancy = some false;
  tokens = move 3 50 (pos 100) blank.tokens;
}

pub requested_test : run transfer calls opened ≡ requested
unfolding run step deposit set_resolver request_rent_release require_not_paused get_paused
    require_valid_amount require_non_empty_string get_token enter exit get_deal_balance
    get_deal_state assert_deal_invariants set_deal_depositor_if_missing require_admin get_admin
    get_operator require_admin_permission require_admin_or_operator
    require_admin_or_operator_permission get_challenge_window_seconds ◌+ℤ◌ ◌-ℤ◌
requested_test = refl

pub requested-IsEscrow : IsEscrow requested
requested-IsEscrow =
    subst (λ s. IsEscrow s) requested_test (run-IsEscrow transfer calls opened opened-IsEscrow)
