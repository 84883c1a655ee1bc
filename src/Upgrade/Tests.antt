-- ===== src/Upgrade/Tests.antt =====
-- soroban_upgrade_governance_core/src/lib.rs: the properties at concrete calls.
use shelterflex_contracts.Prelude.{
  ℕ, ◌+◌, ◌≡◌, refl, ◌⊎◌, inl, true, false, none, some, List, [], ◌∷◌, arith, ltb, if◌then◌else◌,
}
use shelterflex_contracts.Host.{Env, ok, err, trap}
use shelterflex_contracts.Upgrade.{
  validate_upgrade_safety, propose_upgrade, install, execute_upgrade, emergency_upgrade,
  initialize_upgrade_governance, Store, upgrade_delay_not_elapsed,
}
use shelterflex_contracts.Upgrade.Laws.{
  IsAdmin, execute_upgrade_ok, propose_upgrade_ok, propose-execute, emergency_upgrade_ok, IsReady,
  IsNext,
}
use shelterflex_contracts.Upgrade.Machine.{
  run, run-Evolves, Call, IsCoherent, Evolves, proposes, executes,
}

abbrev at : ℕ → Env
at time = record {
  authorized = λ a. true;
  reauthorized = λ a. false;
  timestamp = time;
  sequence = 1;
  current = 50;
  uploaded = λ hash. true;
}

abbrev blank : Store
blank = record {
  admin = none;
  guardian = none;
  pending_hash = none;
  pending_at = none;
  pending_version = none;
  contract_version = none;
  upgrade_delay = none;
  schema_version = none;
  wasm = 1000;
}

abbrev governed : Store
governed = record blank {
  admin = some 1;
  guardian = some 2;
  contract_version = some 1;
  schema_version = some 1;
  upgrade_delay = some 60;
}

initialize_test : initialize_upgrade_governance 1 (some 2) 1 1 60 blank ≡ governed
unfolding initialize_upgrade_governance
initialize_test = refl

abbrev proposed : Store
proposed = record governed {
  pending_hash = some 2000;
  pending_at = some 100;
  pending_version = some 2;
}

propose_test : propose_upgrade (at 100) 1 2000 2 (some 1) governed ≡ ok proposed
unfolding propose_upgrade validate_upgrade_safety
propose_test = refl

propose_upgrade_ok_test :
    IsAdmin (at 100) 1 governed
    × (governed.pending_hash ≡ none)
    × IsNext 2 (some 1) governed
    × (proposed ≡ record governed {
      pending_hash = some 2000;
      pending_at = some 100;
      pending_version = some 2;
    })
propose_upgrade_ok_test =
    propose_upgrade_ok (at 100) 1 2000 2 (some 1) governed proposed propose_test

propose-execute_example : execute_upgrade (at 160) 1 2000 proposed ≡ (
    if ltb 160 (100 + 60)
    then err upgrade_delay_not_elapsed
    else if true
    then ok (install 2000 2 governed)
    else trap)
propose-execute_example =
    propose-execute (at 100) (at 160) 1 2000 2 (some 1) governed proposed (omega arith)
      (omega arith) refl propose_test

execute_test : execute_upgrade (at 160) 1 2000 proposed ≡ ok (install 2000 2 proposed)
unfolding execute_upgrade
execute_test = refl

execute_upgrade_ok_test :
    (version : ℕ) × IsAdmin (at 160) 1 proposed
    × IsReady (at 160) 2000 version proposed
    × (install 2000 2 proposed ≡ record proposed {
      pending_hash = none;
      pending_at = none;
      pending_version = none;
      contract_version = some version;
      wasm = 2000;
    })
execute_upgrade_ok_test =
    execute_upgrade_ok (at 160) 1 2000 proposed (install 2000 2 proposed) execute_test

emergency_test :
    emergency_upgrade (at 101) 1 3000 2 none true governed ≡ ok (install 3000 2 governed)
unfolding emergency_upgrade
emergency_test = refl

emergency_upgrade_ok_test :
    IsAdmin (at 101) 1 governed
    × IsNext 2 none governed
    × (((g : ℕ) × (governed.guardian ≡ some g) × ((at 101).authorized g ≡ true))
        ⊎ ((true ≡ false) × (governed.guardian ≡ none)))
    × (install 3000 2 governed ≡ install 3000 2 governed)
emergency_upgrade_ok_test =
    emergency_upgrade_ok (at 101) 1 3000 2 none true governed (install 3000 2 governed)
      emergency_test

governed-IsCoherent : IsCoherent governed
governed-IsCoherent = record {
  at_together = refl;
  version_together = refl;
  pending_is_next = inl refl;
}

abbrev calls : List (Env × Call)
calls = (at 100, proposes 1 2000 2 (some 1)) ∷ (at 160, executes 1 2000) ∷ []

run-Evolves_test : Evolves governed (run calls governed)
run-Evolves_test = run-Evolves calls governed governed-IsCoherent
