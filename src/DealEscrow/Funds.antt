-- ===== src/DealEscrow/Funds.antt =====
-- deal_escrow/src/lib.rs: `init`, `deposit` and `release`. Events and the time to live of the
-- entries are left out, and with them the transaction id, which only an event carries.
use shelterflex_contracts.Prelude.{
  ℕ, false, not, ◌||◌, some, if◌then◌else◌, ◌+ℤ◌, ltb_ℤ, leb_ℤ, eqb_ℤ, ℤ, pos, is_some,
}
use shelterflex_contracts.Host.{
  ◌>>=◌, ◌>>◌, fail_if, unwrap, require_auth, checked_i128, Outcome, Env, ok,
}
use shelterflex_contracts.Token.{Transfer}
use shelterflex_contracts.Reentrancy.{enter, exit}
use shelterflex_contracts.DealEscrow.Types.{
  require_valid_amount, require_non_empty_string, assert_deal_invariants, get_deal_balance,
  get_deal_state, set_deal_depositor_if_missing, put_amounts, get_token, require_not_frozen,
  require_not_paused, require_admin_or_operator, Error, DealState, State, already_initialized,
  invalid_amount, insufficient_balance, invalid_split, reentrancy_detected,
}

unfoldable pub no_amounts : DealState
no_amounts = record { total_balance = pos 0; locked_amount = pos 0; pending_payout = pos 0 }

-- The three parts sum to the balance of the deal.
unfoldable pub require_split : ℤ → ℤ → ℤ → ℤ → Outcome Error (Unit {0})
require_split principal_amount platform_amount reporter_amount cur = do
  two ← checked_i128 (principal_amount +ℤ platform_amount)
  three ← checked_i128 (two +ℤ reporter_amount)
  fail_if (not (eqb_ℤ three cur)) invalid_split

module _ {T : Type 0} where
  unfoldable pub init : ℕ → ℕ → ℕ → ℕ → State T → Outcome Error (State T)
  init admin operator token receipt_contract s = do
    fail_if (is_some s.upgrade.admin) already_initialized
    let u = s.upgrade
    ok (record s {
      upgrade = record u { admin = some admin; contract_version = some 1; schema_version = some 3 };
      operator = some operator;
      token = some token;
      receipt_contract = some receipt_contract;
      paused_flag = some false;
    })

  module _ (transfer : Transfer T) where
    unfoldable pub deposit : Env → ℕ → ℕ → ℤ → State T → Outcome Error (State T)
    unfolding require_not_paused require_valid_amount require_non_empty_string get_token enter exit
        get_deal_balance get_deal_state assert_deal_invariants
    deposit env from deal_id amount s = do
      require_not_paused s
      require_valid_amount amount
      require_non_empty_string deal_id
      require_auth env from
      token_addr ← get_token s
      locked ← enter s.reentrancy reentrancy_detected
      tokens ← unwrap (transfer env token_addr from env.current amount s.tokens)
      let cur = get_deal_balance s.deals deal_id
      total ← checked_i128 (cur +ℤ amount)
      let old = get_deal_state s.deals deal_id
      let state = record old { total_balance = total }
      assert_deal_invariants state
      let d = s.deals
      ok (record s {
        deals =
            put_amounts deal_id total state
              (record d { depositor = set_deal_depositor_if_missing deal_id from d });
        reentrancy = exit locked;
        tokens = tokens;
      })

    -- A part of the split that is not positive is not transferred.
    unfoldable pub pay_part : Env → ℕ → ℕ → ℤ → T → Outcome Error T
    pay_part env token_addr to amount tokens =
        if ltb_ℤ (pos 0) amount
        then unwrap (transfer env token_addr env.current to amount tokens)
        else ok tokens

    unfoldable pub pay_parts : Env → ℕ → ℕ → ℤ → ℕ → ℤ → ℕ → ℤ → T → Outcome Error T
    unfolding pay_part
    pay_parts env token_addr to principal_amount platform_addr platform_amount reporter_addr
          reporter_amount tokens =
        do
          after_principal ← pay_part env token_addr to principal_amount tokens
          after_platform ← pay_part env token_addr platform_addr platform_amount after_principal
          pay_part env token_addr reporter_addr reporter_amount after_platform

    unfoldable pub release :
        Env → ℕ → ℕ → ℕ → ℤ → ℕ → ℤ → ℕ → ℤ → ℕ → State T → Outcome Error (State T × ℤ)
    unfolding require_not_paused require_not_frozen require_non_empty_string
        require_admin_or_operator get_deal_balance get_token enter exit assert_deal_invariants
        no_amounts
    release env caller deal_id to principal_amount platform_addr platform_amount reporter_addr
          reporter_amount external_ref s =
        do
          require_not_paused s
          require_not_frozen false s
          require_non_empty_string deal_id
          require_non_empty_string external_ref
          require_admin_or_operator env caller s
          fail_if
              (ltb_ℤ principal_amount (pos 0)
                || (ltb_ℤ platform_amount (pos 0) || ltb_ℤ reporter_amount (pos 0)))
              invalid_amount
          let cur = get_deal_balance s.deals deal_id
          fail_if (leb_ℤ cur (pos 0)) insufficient_balance
          require_split principal_amount platform_amount reporter_amount cur
          token_addr ← get_token s
          assert_deal_invariants no_amounts
          locked ← enter s.reentrancy reentrancy_detected
          tokens ←
              pay_parts env token_addr to principal_amount platform_addr platform_amount
                reporter_addr reporter_amount s.tokens
          ok (
            record s {
              deals = put_amounts deal_id (pos 0) no_amounts s.deals;
              reentrancy = exit locked;
              tokens = tokens;
            },
            cur,
          )
