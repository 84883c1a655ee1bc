-- ===== src/Timelock/Calls.antt =====
-- timelock/src/lib.rs: the entry points. Events and the time to live of the entries are left out; a
-- trap of the called contract rolls the whole call back.
use shelterflex_contracts.Prelude.{
  ℕ, ◌+◌, true, false, not, ◌||◌, none, some, List, [], ◌∷◌, ltb, leb, ◌==◌, unwrap_or, is_some,
  length, contains, update,
}
use shelterflex_contracts.Host.{
  ◌>>=◌, ◌>>◌, fail_if, ok_or, unwrap, require_auth, require_auth_after, checked_u64, Outcome, Env,
  ok,
}
use shelterflex_contracts.Timelock.Types.{
  grace_period, u64_max, Error, State, Tx, External, already_initialized, not_authorized,
  invalid_delay, transaction_already_queued, transaction_not_queued, timestamp_not_met,
  transaction_expired, insufficient_multisig_approvals, contract_paused,
}

-- Each given member must authorise the call and be one of the stored members.
unfoldable pub check_members : Env → List ℕ → List ℕ → List ℕ → Outcome Error (Unit {0})
check_members env allowed seen [] = ok tt
check_members env allowed seen (member ∷ members) =
    require_auth_after env seen member
    >> fail_if (not (contains allowed member)) not_authorized
    >>= λ _. check_members env allowed (member ∷ seen) members

module _ {T : Type 0} where
  unfoldable pub init : ℕ → ℕ → ℕ → List ℕ → State T → Outcome Error (State T)
  init admin min_delay max_delay multisig_members s = do
    fail_if (is_some s.admin) already_initialized
    fail_if (ltb max_delay min_delay) invalid_delay
    fail_if (min_delay == 0) invalid_delay
    ok (record s {
      admin = some admin;
      min_delay = some min_delay;
      max_delay = some max_delay;
      multisig_members = some multisig_members;
      paused = some false;
    })

  -- The check that five entry points begin with.
  unfoldable pub require_admin : Env → ℕ → State T → Outcome Error (Unit {0})
  require_admin env admin s = do
    require_auth env admin
    current_admin ← unwrap s.admin
    fail_if (not (admin == current_admin)) not_authorized

  unfoldable pub queue : External T → Env → ℕ → Tx → ℕ → State T → Outcome Error (State T × ℕ)
  unfolding require_admin
  queue x env admin tx delay s = do
    require_admin env admin s
    fail_if (ltb delay (unwrap_or s.min_delay 0) || ltb (unwrap_or s.max_delay u64_max) delay)
        invalid_delay
    eta ← checked_u64 (env.timestamp + delay)
    fail_if (is_some (s.queued (x.tx_hash tx eta))) transaction_already_queued
    ok (record s { queued = update (x.tx_hash tx eta) (some eta) s.queued }, x.tx_hash tx eta)

  unfoldable pub execute : External T → Env → Tx → ℕ → State T → Outcome Error (State T × ℕ)
  execute x env tx eta s = do
    fail_if (unwrap_or s.paused false) contract_paused
    stored_eta ← ok_or (s.queued (x.tx_hash tx eta)) transaction_not_queued
    fail_if (not (stored_eta == eta)) transaction_not_queued
    fail_if (ltb env.timestamp eta) timestamp_not_met
    last ← checked_u64 (eta + grace_period)
    fail_if (ltb last env.timestamp) transaction_expired
    (world, result) ← unwrap (x.invoke env tx s.world)
    ok (record s { queued = update (x.tx_hash tx eta) none s.queued; world = world }, result)

  unfoldable pub cancel : Env → ℕ → ℕ → State T → Outcome Error (State T)
  unfolding require_admin
  cancel env admin tx_hash s = do
    require_admin env admin s
    fail_if (not (is_some (s.queued tx_hash))) transaction_not_queued
    ok (record s { queued = update tx_hash none s.queued })

  unfoldable pub emergency_pause : Env → List ℕ → State T → Outcome Error (State T)
  unfolding check_members
  emergency_pause env members s = do
    fail_if (ltb (length members) 2) insufficient_multisig_approvals
    allowed_members ← unwrap s.multisig_members
    check_members env allowed_members [] members
    ok (record s { paused = some true })

  unfoldable pub unpause : Env → ℕ → State T → Outcome Error (State T)
  unfolding require_admin
  unpause env admin s = do require_admin env admin s; ok (record s { paused = some false })

  unfoldable pub expire : Env → ℕ → ℕ → State T → Outcome Error (State T)
  unfolding require_admin
  expire env admin tx_hash s = do
    require_admin env admin s
    stored_eta ← ok_or (s.queued tx_hash) transaction_not_queued
    last ← checked_u64 (stored_eta + grace_period)
    fail_if (leb env.timestamp last) timestamp_not_met
    ok (record s { queued = update tx_hash none s.queued })

  unfoldable pub set_min_delay : Env → ℕ → ℕ → State T → Outcome Error (State T)
  unfolding require_admin
  set_min_delay env admin new_min_delay s = do
    require_admin env admin s
    fail_if (new_min_delay == 0) invalid_delay
    fail_if (ltb new_min_delay (unwrap_or s.min_delay 0)) invalid_delay
    fail_if (ltb (unwrap_or s.max_delay u64_max) new_min_delay) invalid_delay
    ok (record s { min_delay = some new_min_delay })
