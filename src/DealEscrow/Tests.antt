-- ===== src/DealEscrow/Tests.antt =====
-- deal_escrow/src/lib.rs: the properties at concrete calls.
use shelterflex_contracts.Prelude.{
  ℕ, ◌≡◌, refl, subst, false, none, some, List, [], ◌∷◌, arith, ◌+ℤ◌, ◌-ℤ◌, ◌≤ℤ◌, pos, update,
}
use shelterflex_contracts.Host.{Env, ok}
use shelterflex_contracts.Token.Wallets.{at, Wallets, move, transfer, held, transfer-IsToken}
use shelterflex_contracts.Reentrancy.{enter, exit}
use shelterflex_contracts.AccessControl.{
  require_admin_permission, require_admin_or_operator_permission,
}
use shelterflex_contracts.DealEscrow.Types.{
  require_non_empty_string, assert_deal_invariants, get_deal_balance, get_deal_state,
  get_deal_lifecycle, get_admin, get_operator, get_dispute_timeout_seconds, get_token, get_paused,
  get_circuit_breaker_state, require_not_frozen, require_not_paused, require_admin,
  require_admin_or_operator, RentDispute, SettlementOutcome, State, completed, release_to_recipient,
  refund_to_depositor,
}
use shelterflex_contracts.DealEscrow.Releases.{
  recipient_of, challenge_rent_release, settle_release_inner, resolve_rent_dispute,
  settle_rent_release_timeout, settle_dispute_timeout,
}
use shelterflex_contracts.DealEscrow.Admin.{move_deal, activate_deal, complete_deal}
use shelterflex_contracts.DealEscrow.Account.{account}
use shelterflex_contracts.DealEscrow.Ledger.{replay}
use shelterflex_contracts.DealEscrow.Replay.{movements, run-replay}
use shelterflex_contracts.DealEscrow.Settings.{SameUpgrade}
use shelterflex_contracts.DealEscrow.Steps.{IsEscrow}
use shelterflex_contracts.DealEscrow.Runs.{run-IsEscrow, run-SameUpgrade}
use shelterflex_contracts.DealEscrow.Payouts.{IsJustified, step-IsJustified}
use shelterflex_contracts.DealEscrow.Solvency.{surplus}
use shelterflex_contracts.DealEscrow.Funded.{AreOutside, run-surplus}
use shelterflex_contracts.DealEscrow.Lifecycle.{step-Next, Next}
use shelterflex_contracts.DealEscrow.Returns.{
  settled_state, settle_rent_release_timeout_returns, resolve_rent_dispute_returns,
  settle_dispute_timeout_returns, IsPayable,
}
use shelterflex_contracts.DealEscrow.Machine.{
  step, run, Call, challenges, settles, activates, completes, proposes_upgrade,
}
use shelterflex_contracts.DealEscrow.Fixture.{
  opened, opened-IsEscrow, calls, rent, requested, requested-IsEscrow,
}
use shelterflex_contracts.DealEscrow.Funds.{no_amounts, require_split, pay_part, pay_parts, release}
use shelterflex_contracts.DealEscrow.Stuck.{release-IsStuck, IsStuck}

run-IsEscrow_example : IsEscrow (run transfer calls opened)
run-IsEscrow_example = run-IsEscrow transfer calls opened opened-IsEscrow

run-replay_example :
    replay 5 (movements transfer calls opened) (account opened.deals 5)
    ≡ some (account (run transfer calls opened).deals 5)
run-replay_example = run-replay transfer 5 calls opened opened-IsEscrow

run-SameUpgrade_example :
    SameUpgrade opened.upgrade (run transfer ((at 5, proposes_upgrade 1 77) ∷ calls) opened).upgrade
run-SameUpgrade_example =
    run-SameUpgrade transfer ((at 5, proposes_upgrade 1 77) ∷ calls) opened opened-IsEscrow

run-surplus_example :
    surplus transfer held 50 opened ≤ℤ surplus transfer held 50 (run transfer calls opened)
unfolding AreOutside
run-surplus_example =
    run-surplus transfer held transfer-IsToken 50 calls opened opened-IsEscrow
      (refl, (refl, (refl, (refl, (refl, (refl, tt))))))

-- The deal is activated and completed; a second activation is refused.
abbrev life : List (Env × Call)
life = (at 5, activates 1 5) ∷ (at 6, completes 1 5) ∷ (at 7, activates 1 5) ∷ []

step-Next_example :
    Next 5 (at 5) (activates 1 5) opened (step transfer (at 5) (activates 1 5) opened)
step-Next_example = step-Next 5 transfer (at 5) opened opened-IsEscrow (activates 1 5)

life_test : get_deal_lifecycle (run transfer life opened).deals 5 ≡ completed
unfolding get_deal_lifecycle run step activate_deal complete_deal move_deal require_not_paused
    get_paused require_non_empty_string require_admin get_admin require_admin_permission
life_test = refl

-- Nobody has challenged the rent a day later.
requested-IsPayable :
    (outcome : SettlementOutcome) (now : ℕ)
    → IsPayable transfer
        (at now)
        5
        outcome
        rent
        3
        9
        (move 50 (recipient_of outcome rent 3) (pos 60) requested.tokens)
        requested
unfolding get_paused get_deal_state get_deal_balance ◌+ℤ◌ ◌-ℤ◌
requested-IsPayable outcome now = record {
  named = λ e. omega (arith, e);
  not_paused = refl;
  is_pending = refl;
  is_locked = refl;
  has_depositor = refl;
  in_range = refl;
  has_token = refl;
  can_pay = refl;
}

settle_rent_release_timeout_returns_example :
    settle_rent_release_timeout transfer (at 86500) 5 requested
    ≡ ok (settled_state 5 rent (move 50 4 (pos 60) requested.tokens) requested)
settle_rent_release_timeout_returns_example =
    settle_rent_release_timeout_returns transfer (at 86500) 5 rent 3 9
      (move 50 4 (pos 60) requested.tokens) requested requested-IsEscrow
      (requested-IsPayable release_to_recipient 86500) refl (omega arith)

-- The call lowers the balance of the deal from 100 to 40.
step-IsJustified_example : IsJustified (at 86500) 5 requested (settles 5)
unfolding get_deal_balance step settle_rent_release_timeout settle_release_inner require_not_paused
    get_paused require_non_empty_string get_token enter exit get_deal_state assert_deal_invariants
    ◌+ℤ◌ ◌-ℤ◌
step-IsJustified_example =
    step-IsJustified transfer (at 86500) 5 requested requested-IsEscrow (settles 5) (omega arith)

-- The tenant challenges; the resolver pays the rent back.
abbrev dispute : RentDispute
dispute = record {
  opened_by = 3;
  opened_at = 200;
  evidence_ref = 12;
  challenge_evidence_ref = 13;
  resolved = false;
}

abbrev disputed : State Wallets
disputed = record requested {
  deals = record (requested.deals) { dispute = update 5 (some dispute) (λ id. none) };
}

disputed_test : run transfer ((at 200, challenges 3 5 13) ∷ []) requested ≡ disputed
unfolding run step challenge_rent_release require_not_paused get_paused require_non_empty_string
disputed_test = refl

disputed-IsEscrow : IsEscrow disputed
disputed-IsEscrow =
    subst (λ s. IsEscrow s) disputed_test
      (run-IsEscrow transfer ((at 200, challenges 3 5 13) ∷ []) requested requested-IsEscrow)

disputed-IsPayable :
    (outcome : SettlementOutcome) (now : ℕ)
    → IsPayable transfer
        (at now)
        5
        outcome
        rent
        3
        9
        (move 50 (recipient_of outcome rent 3) (pos 60) requested.tokens)
        disputed
unfolding get_paused get_deal_state get_deal_balance ◌+ℤ◌ ◌-ℤ◌
disputed-IsPayable outcome now = record {
  named = λ e. omega (arith, e);
  not_paused = refl;
  is_pending = refl;
  is_locked = refl;
  has_depositor = refl;
  in_range = refl;
  has_token = refl;
  can_pay = refl;
}

resolve_rent_dispute_returns_test :
    resolve_rent_dispute transfer (at 300) 6 5 refund_to_depositor 14 disputed
    ≡ ok (settled_state 5 rent (move 50 3 (pos 60) requested.tokens) disputed)
resolve_rent_dispute_returns_test =
    resolve_rent_dispute_returns transfer (at 300) 5 rent 3 9 (move 50 3 (pos 60) requested.tokens)
      disputed disputed-IsEscrow refund_to_depositor 6 14 dispute
      (disputed-IsPayable refund_to_depositor 300) refl refl refl refl (λ e. omega (arith, e))

settle_dispute_timeout_returns_test :
    settle_dispute_timeout transfer (at 173000) 5 disputed
    ≡ ok (settled_state 5 rent (move 50 3 (pos 60) requested.tokens) disputed)
unfolding get_dispute_timeout_seconds
settle_dispute_timeout_returns_test =
    settle_dispute_timeout_returns transfer (at 173000) 5 rent 3 9
      (move 50 3 (pos 60) requested.tokens) disputed disputed-IsEscrow dispute
      (disputed-IsPayable refund_to_depositor 173000) refl refl (omega arith) (omega arith)

-- The admin pays the whole deal out while the rent is pending.
abbrev released : State Wallets
released = record requested {
  deals = record (requested.deals) {
    balance = (5, pos 0) ∷ [];
    state = update 5 (some no_amounts) requested.deals.state;
  };
  tokens = move 50 4 (pos 100) requested.tokens;
}

released_test :
    release transfer (at 200) 1 5 4 (pos 100) 7 (pos 0) 7 (pos 0) 12 requested
    ≡ ok (released, pos 100)
unfolding release require_not_paused get_paused require_not_frozen get_circuit_breaker_state
    require_non_empty_string require_admin_or_operator get_admin get_operator
    require_admin_or_operator_permission get_deal_balance require_split get_token
    assert_deal_invariants no_amounts enter exit pay_parts pay_part ◌+ℤ◌ ◌-ℤ◌
released_test = refl

-- A year later the rent can still not be settled.
abbrev too_late : List (Env × Call)
too_late = (at 31536000, settles 5) ∷ []

release-IsStuck_example : IsStuck rent 5 (run transfer too_late released).deals
release-IsStuck_example =
    release-IsStuck rent 5 transfer (at 200) 1 4 (pos 100) 7 (pos 0) 7 (pos 0) 12 requested released
      (pos 100) requested-IsEscrow refl released_test too_late
