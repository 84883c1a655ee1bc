-- ===== src/RentWallet/Cases.antt =====
-- rent_wallet/src/lib.rs: one case for all calls but credits and debits.
use shelterflex_contracts.Prelude.{
  ℕ, ◌≡◌, refl, ◌⊎◌, inl, inr, Bool, true, false, not, some, List, arith, ◌==◌, ℤ, unwrap_or,
}
use shelterflex_contracts.Host.{◌>>◌, fail_if, map_err, commit, Outcome, Env, ok, err, trap}
use shelterflex_contracts.Upgrade
use shelterflex_contracts.RentWallet.Types.{Error, State, incompatible_state_schema}
use shelterflex_contracts.RentWallet.Upgrades.{
  as_not_authorized, propose_error, execute_error, emergency_error, contract_version, with_upgrade,
  set_guardian, set_upgrade_delay, propose_upgrade, execute_upgrade, emergency_upgrade,
  cancel_upgrade,
}
use shelterflex_contracts.RentWallet.Effects.{SameBooks}
use shelterflex_contracts.RentWallet.Machine.{
  step, Call, Entry, inits, credits, debits, sets_admin, sets_guardian, sets_delay, executes,
  pauses, unpauses, cancels, proposes, emergency, sets_default_cap, sets_user_cap,
}
use shelterflex_contracts.RentWallet.Calls.{
  init, set_admin, pause, unpause, set_default_monthly_cap, set_user_monthly_cap,
}

-- The caps stay too.
pub record SameCaps (s t : State) : Type 0 where
  pub same_default : t.monthly_cap_default ≡ s.monthly_cap_default
  pub same_override : t.monthly_cap_override ≡ s.monthly_cap_override

-- The call sets no cap.
unfoldable pub keeps_caps : Call → Bool
keeps_caps (sets_default_cap a limit) = false
keeps_caps (sets_user_cap a user limit) = false
keeps_caps _ = true

module _ (env : Env) (s : State) (log : List Entry) where
  pub record IsQuiet (c : Call) : Type 0 where
    pub books : SameBooks s (step env c s log).0
    pub same_log : (step env c s log).1 ≡ log
    pub caps : (keeps_caps c ≡ false) ⊎ SameCaps s (step env c s log).0

  pub record Cases {ℓ} (P : Call → Type ℓ) : Type ℓ where
    pub on_quiet : (c : Call) → IsQuiet c → P c
    pub on_credit : (a user : ℕ) (amount : ℤ) → P (credits a user amount)
    pub on_debit : (a user : ℕ) (amount : ℤ) → P (debits a user amount)

  abbrev Same : Outcome Error State → Type 0
  Same r = SameBooks s (commit s r) × SameCaps s (commit s r)

  upgraded :
      (f : Upgrade.Error → Error) (r : Outcome Upgrade.Error Upgrade.Store)
      → Same (with_upgrade s (map_err f r))
  upgraded f (ok u) = ground arith
  upgraded f (err e) = ground arith
  upgraded f trap = ground arith

  guarded : (b : Bool) (e : Error) (r : Outcome Error State) → Same r → Same (fail_if b e >> r)
  guarded true e r h = ground arith
  guarded false e r h = h

  pub by_cases {ℓ} : {P : Call → Type ℓ} → Cases P → (c : Call) → P c
  unfolding step keeps_caps init set_admin set_guardian set_upgrade_delay propose_upgrade
      execute_upgrade emergency_upgrade cancel_upgrade pause unpause set_default_monthly_cap
      set_user_monthly_cap
  by_cases k (credits a user amount) = k.on_credit a user amount
  by_cases k (debits a user amount) = k.on_debit a user amount
  by_cases k (inits a) =
      k.on_quiet (inits a)
        (record { books = ground arith; same_log = refl; caps = inr (ground arith) })
  by_cases k (sets_admin a new) =
      k.on_quiet (sets_admin a new)
        (record { books = ground arith; same_log = refl; caps = inr (ground arith) })
  by_cases k (pauses a) =
      k.on_quiet (pauses a)
        (record { books = ground arith; same_log = refl; caps = inr (ground arith) })
  by_cases k (unpauses a) =
      k.on_quiet (unpauses a)
        (record { books = ground arith; same_log = refl; caps = inr (ground arith) })
  by_cases k (cancels a) =
      k.on_quiet (cancels a)
        (record { books = ground arith; same_log = refl; caps = inr (ground arith) })
  by_cases k (sets_default_cap a limit) =
      k.on_quiet (sets_default_cap a limit)
        (record { books = ground arith; same_log = refl; caps = inl refl })
  by_cases k (sets_user_cap a user limit) =
      k.on_quiet (sets_user_cap a user limit)
        (record { books = ground arith; same_log = refl; caps = inl refl })
  by_cases k (sets_guardian a g) =
      let q = upgraded as_not_authorized (Upgrade.set_guardian env a (some g) s.upgrade) in
      k.on_quiet (sets_guardian a g) (record { books = q.0; same_log = refl; caps = inr q.1 })
  by_cases k (sets_delay a n) =
      let q = upgraded as_not_authorized (Upgrade.set_upgrade_delay env a n s.upgrade) in
      k.on_quiet (sets_delay a n) (record { books = q.0; same_log = refl; caps = inr q.1 })
  by_cases k (executes a h) =
      let q = upgraded execute_error (Upgrade.execute_upgrade env a h s.upgrade) in
      k.on_quiet (executes a h) (record { books = q.0; same_log = refl; caps = inr q.1 })
  by_cases k (proposes a h n) =
      let q =
        guarded (not (unwrap_or s.upgrade.schema_version 0 == contract_version s))
          incompatible_state_schema _
          (upgraded propose_error (
            Upgrade.propose_upgrade env a h n (some (unwrap_or s.upgrade.schema_version 0))
              s.upgrade)) in
      k.on_quiet (proposes a h n) (record { books = q.0; same_log = refl; caps = inr q.1 })
  by_cases k (emergency a h n) =
      let q =
        guarded (not (unwrap_or s.upgrade.schema_version 0 == contract_version s))
          incompatible_state_schema _
          (upgraded emergency_error (
            Upgrade.emergency_upgrade env a h n (some (unwrap_or s.upgrade.schema_version 0)) true
              s.upgrade)) in
      k.on_quiet (emergency a h n) (record { books = q.0; same_log = refl; caps = inr q.1 })
