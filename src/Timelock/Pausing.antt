-- ===== src/Timelock/Pausing.antt =====
-- timelock/src/lib.rs: the emergency pause.
use shelterflex_contracts.Prelude.{
  ℕ, ◌≤◌, ◌≡◌, refl, true, false, some, List, [], ◌∷◌, arith, length, contains,
}
use shelterflex_contracts.Host.{Env, ok, err}
use shelterflex_contracts.Timelock.Types.{State, Tx, External, contract_paused}
use shelterflex_contracts.Timelock.Calls.{check_members, execute, emergency_pause}

-- Every address of the list has authorised the call and is one of the stored members.
unfoldable pub AllApprove : Env → List ℕ → List ℕ → Type 0
AllApprove env allowed [] = Unit {0}
AllApprove env allowed (m ∷ ms) =
    (env.authorized m ≡ true) × (contains allowed m ≡ true) × AllApprove env allowed ms

-- No address stands twice in the list, nor in the one before it.
unfoldable pub AreDistinct : List ℕ → List ℕ → Type 0
AreDistinct seen [] = Unit {0}
AreDistinct seen (m ∷ ms) = (contains seen m ≡ false) × AreDistinct (m ∷ seen) ms

pub check_members_ok :
    (env : Env) (allowed seen ms : List ℕ)
    → check_members env allowed seen ms ≡ ok tt
    → AllApprove env allowed ms
unfolding check_members AllApprove
check_members_ok env allowed seen [] h = tt
check_members_ok env allowed seen (m ∷ ms) h =
    (ground arith, ground arith, check_members_ok env allowed (m ∷ seen) ms (ground arith))

check_members-AreDistinct :
    (env : Env) (allowed seen ms : List ℕ)
    → ((a : ℕ) → env.reauthorized a ≡ false)
    → check_members env allowed seen ms ≡ ok tt
    → AreDistinct seen ms
unfolding check_members AreDistinct
check_members-AreDistinct env allowed seen [] once h = tt
check_members-AreDistinct env allowed seen (m ∷ ms) once h = (
  ground (arith, once m),
  check_members-AreDistinct env allowed (m ∷ seen) ms once (ground arith),
)

pub check_members_pass :
    (env : Env) (allowed seen ms : List ℕ)
    → AllApprove env allowed ms
    → AreDistinct seen ms
    → check_members env allowed seen ms ≡ ok tt
unfolding check_members AllApprove AreDistinct
check_members_pass env allowed seen [] a d = refl
check_members_pass env allowed seen (m ∷ ms) (a, c, h) (n, d) =
    ground (arith, check_members_pass env allowed (m ∷ seen) ms h d)

-- Where `emergency_pause` returns, two or more addresses were given, each of them has authorised
-- the call and is one of the stored members, and only the pause flag, now set, may differ from
-- before.
pub emergency_pause_ok :
    {T : Type 0} (env : Env) (ms allowed : List ℕ) (s t : State T)
    → s.multisig_members ≡ some allowed
    → emergency_pause env ms s ≡ ok t
    → (2 ≤ length ms) × AllApprove env allowed ms × (t ≡ record s { paused = some true })
unfolding emergency_pause
emergency_pause_ok env ms allowed s t m h =
    (ground arith, check_members_ok env allowed [] ms (ground arith), ground arith)

-- If the host refuses to let an address authorise a call twice and `emergency_pause` returns on a
-- timelock with stored members, then two or more addresses were given, no two of them the same,
-- each of them is one of the stored members and has authorised the call, and only the pause flag,
-- now set, may differ from before.
pub emergency_pause_distinct :
    {T : Type 0} (env : Env) (ms allowed : List ℕ) (s t : State T)
    → ((a : ℕ) → env.reauthorized a ≡ false)
    → s.multisig_members ≡ some allowed
    → emergency_pause env ms s ≡ ok t
    → (2 ≤ length ms)
      × (AreDistinct [] ms × (AllApprove env allowed ms × (t ≡ record s { paused = some true })))
unfolding emergency_pause
emergency_pause_distinct env ms allowed s t once m h =
    let (two, all, w) = emergency_pause_ok env ms allowed s t m h in
    (two, (check_members-AreDistinct env allowed [] ms once (ground arith), (all, w)))

-- The converse: different members who have authorised the call can pause.
pub emergency_pause_total :
    {T : Type 0} (env : Env) (ms allowed : List ℕ) (s : State T)
    → s.multisig_members ≡ some allowed
    → 2 ≤ length ms
    → AllApprove env allowed ms
    → AreDistinct [] ms
    → emergency_pause env ms s ≡ ok (record s { paused = some true })
unfolding emergency_pause
emergency_pause_total env ms allowed s m two all d =
    ground (arith, check_members_pass env allowed [] ms all d)

-- In the state that an emergency pause has left, every execution is refused as paused.
pub pause-execute :
    {T : Type 0} (x : External T) (env later : Env) (ms : List ℕ) (tx : Tx) (eta : ℕ)
    (s t : State T)
    → emergency_pause env ms s ≡ ok t
    → execute x later tx eta t ≡ err contract_paused
unfolding emergency_pause execute
pause-execute x env later ms tx eta s t h = ground arith
