-- ===== src/DealEscrow/Replay.antt =====
-- deal_escrow/src/lib.rs: the movements of the abstract machine that a sequence of calls makes.
use shelterflex_contracts.Prelude.{ℕ, ◌≡◌, refl, sym, ap, ◌∙◌, some, List, [], ◌∷◌, arith}
use shelterflex_contracts.Host.{commit, state_of, state_of_ok, Outcome, Env, ok, err, trap}
use shelterflex_contracts.Token.{Transfer}
use shelterflex_contracts.DealEscrow.Types.{
  Error, DealLifecycleStatus, SettlementOutcome, State, draft, active, completed, defaulted,
  release_to_recipient, refund_to_depositor,
}
use shelterflex_contracts.DealEscrow.Funds.{deposit, release}
use shelterflex_contracts.DealEscrow.Releases.{
  request_rent_release, challenge_rent_release, settle_release_inner, resolve_rent_dispute,
  settle_rent_release_timeout, settle_dispute_timeout,
}
use shelterflex_contracts.DealEscrow.Account.{account, SameDeal-account, SameDeal}
use shelterflex_contracts.DealEscrow.Ledger.{
  replay, replay-none, replay-step, apply-other, Movement, nothing, deposited, requested, settled,
  released,
}
use shelterflex_contracts.DealEscrow.Effects.{deposit_ok, release_ok, request_ok, settle_ok}
use shelterflex_contracts.DealEscrow.Machine.{
  step, run, Call, inits, deposits, releases, requests, challenges, resolves, settles, times_out,
  pauses, unpauses, freezes, cancels_upgrade, configures, migrates, sets_resolver, proposes_drain,
  executes_drain, sets_recovery_delay, activates, completes, defaults, sets_guardian,
  sets_upgrade_delay, proposes_upgrade, executes_upgrade, emergency,
}
use shelterflex_contracts.DealEscrow.Settings.{
  init-SameFunds, pause-SameFunds, unpause-SameFunds, freeze-SameFunds, configure-SameFunds,
  set_resolver-SameFunds, migrate-SameFunds, propose_drain-SameFunds, execute_drain-SameFunds,
  set_recovery_delay-SameFunds, set_guardian-SameFunds, set_upgrade_delay-SameFunds,
  propose_upgrade-SameFunds, execute_upgrade-SameFunds, emergency_upgrade-SameFunds,
  cancel_upgrade-SameFunds, SameFunds,
}
use shelterflex_contracts.DealEscrow.Admin.{move_deal, activate_deal, complete_deal, default_deal}
use shelterflex_contracts.DealEscrow.Settlements.{resolve_ok, settles_ok, times_out_ok}
use shelterflex_contracts.DealEscrow.Steps.{IsStep-IsEscrow, IsEscrow}
use shelterflex_contracts.DealEscrow.Runs.{step-IsStep}
use shelterflex_contracts.DealEscrow.Movements.{
  IsReplayed, deposit-IsReplayed, release-IsReplayed, settle-IsReplayed, request-IsReplayed,
}

module _ {T : Type 0} where
  -- The movement of a call that returned.
  abbrev pub note : Movement → Outcome Error (State T) → Movement
  note m (ok t) = m
  note m (err e) = nothing
  note m trap = nothing

  module _ (transfer : Transfer T) where
    -- The amounts are those of the calls. The last clause has the calls that move no funds.
    unfoldable pub movement : Env → Call → State T → Movement
    movement env (deposits from id amount) s =
        note (deposited id amount) (deposit transfer env from id amount s)
    movement env (releases caller id to n platform p reporter r ref) s =
        note (released id)
          (state_of (release transfer env caller id to n platform p reporter r ref s))
    movement env (requests caller id to amount source ref) s =
        note (requested id amount) (request_rent_release env caller id to amount source ref s)
    movement env (resolves caller id outcome ref) s =
        note (settled id) (resolve_rent_dispute transfer env caller id outcome ref s)
    movement env (settles id) s = note (settled id) (settle_rent_release_timeout transfer env id s)
    movement env (times_out id) s = note (settled id) (settle_dispute_timeout transfer env id s)
    movement env _ s = nothing

    unfoldable pub movements : List (Env × Call) → State T → List Movement
    movements [] s = []
    movements ((env, c) ∷ cs) s = movement env c s ∷ movements cs (step transfer env c s)

module _ {T : Type 0} (transfer : Transfer T) (env : Env) (j : ℕ) (s : State T) where
  same-IsReplayed : (t : State T) → SameDeal j s.deals t.deals → IsReplayed j s nothing t
  same-IsReplayed t c =
      apply-other j nothing (account s.deals j) refl
      ∙ ap some (sym (SameDeal-account j s.deals t.deals c))

  funds-IsReplayed : (t : State T) → SameFunds s t → IsReplayed j s nothing t
  funds-IsReplayed t c =
      same-IsReplayed t
        (rw c.same_deals (record { same_balance = refl; same_state = refl; same_release = refl }))

  kept-IsReplayed :
      (t : State T)
      → (t.deals.balance ≡ s.deals.balance)
        × ((t.deals.state ≡ s.deals.state) × (t.deals.release ≡ s.deals.release))
      → IsReplayed j s nothing t
  kept-IsReplayed t (b, (d, r)) =
      same-IsReplayed t
        (record { same_balance = rw b refl; same_state = rw d refl; same_release = rw r refl })

  noted :
      (m : Movement) (r : Outcome Error (State T))
      → ((t : State T) → r ≡ ok t → IsReplayed j s m t)
      → IsReplayed j s (note m r) (commit s r)
  noted m (ok t) k = k t refl
  noted m (err e) k =
      same-IsReplayed s (record { same_balance = refl; same_state = refl; same_release = refl })
  noted m trap k =
      same-IsReplayed s (record { same_balance = refl; same_state = refl; same_release = refl })

  settled_by :
      (id : ℕ) (outcome : SettlementOutcome) (t : State T)
      → IsEscrow s
      → settle_release_inner transfer env id outcome s ≡ ok t
      → IsReplayed j s (settled id) t
  settled_by id outcome t i h =
      settle-IsReplayed transfer env j s id outcome t (settle_ok transfer env id outcome s t h)
        (i.accounts j)

  challenge-IsReplayed :
      (caller id ref : ℕ)
      → IsReplayed j s nothing (commit s (challenge_rent_release env caller id ref s))
  unfolding challenge_rent_release
  challenge-IsReplayed caller id ref =
      kept-IsReplayed (commit s (challenge_rent_release env caller id ref s)) (ground arith)

  move_deal-IsReplayed :
      (before after : DealLifecycleStatus) (admin id : ℕ)
      → IsReplayed j s nothing (commit s (move_deal before after env admin id s))
  unfolding move_deal
  move_deal-IsReplayed before after admin id =
      kept-IsReplayed (commit s (move_deal before after env admin id s)) (ground arith)

  step-IsReplayed :
      IsEscrow s → (c : Call) → IsReplayed j s (movement transfer env c s) (step transfer env c s)
  unfolding step movement activate_deal complete_deal default_deal
  step-IsReplayed i (deposits from id amount) = noted (deposited id amount) _ λ t h.
      deposit-IsReplayed transfer env j s from id amount t
        (deposit_ok transfer env from id amount s t h) (i.accounts j)
  step-IsReplayed i (releases caller id to n platform p reporter r ref) =
      noted (released id) _ λ t h.
        let (cur, e) =
          state_of_ok (release transfer env caller id to n platform p reporter r ref s) h in
        release-IsReplayed transfer env j s to id n platform p reporter r cur t
          (release_ok transfer env caller id to n platform p reporter r ref s t cur e)
          (i.accounts j)
  step-IsReplayed i (requests caller id to amount source ref) = noted (requested id amount) _ λ t h.
      request-IsReplayed transfer env j s caller id to amount t
        (request_ok env caller id to amount source ref s t h) (i.accounts j)
  step-IsReplayed i (challenges caller id ref) = challenge-IsReplayed caller id ref
  step-IsReplayed i (resolves caller id outcome ref) =
      noted (settled id) _
        λ t h. settled_by id outcome t i (resolve_ok transfer env id s t caller outcome ref h).1
  step-IsReplayed i (settles id) =
      noted (settled id) _
        λ t h. settled_by id release_to_recipient t i (settles_ok transfer env id s t h).1
  step-IsReplayed i (times_out id) =
      noted (settled id) _
        λ t h. settled_by id refund_to_depositor t i (times_out_ok transfer env id s t h).1
  step-IsReplayed i (activates a id) = move_deal-IsReplayed draft active a id
  step-IsReplayed i (completes a id) = move_deal-IsReplayed active completed a id
  step-IsReplayed i (defaults a id) = move_deal-IsReplayed active defaulted a id
  step-IsReplayed i (inits admin op token receipt) =
      funds-IsReplayed (step transfer env (inits admin op token receipt) s)
        (init-SameFunds env admin s i.upgrade op token receipt)
  step-IsReplayed i (pauses a) =
      funds-IsReplayed (step transfer env (pauses a) s) (pause-SameFunds env a s i.upgrade)
  step-IsReplayed i (unpauses a) =
      funds-IsReplayed (step transfer env (unpauses a) s) (unpause-SameFunds env a s i.upgrade)
  step-IsReplayed i (freezes a) =
      funds-IsReplayed (step transfer env (freezes a) s) (freeze-SameFunds env a s i.upgrade)
  step-IsReplayed i (cancels_upgrade a) =
      funds-IsReplayed (step transfer env (cancels_upgrade a) s)
        (cancel_upgrade-SameFunds env a s i.upgrade)
  step-IsReplayed i (configures a w t) =
      funds-IsReplayed (step transfer env (configures a w t) s)
        (configure-SameFunds env a s i.upgrade w t)
  step-IsReplayed i (migrates a n ids) =
      funds-IsReplayed (step transfer env (migrates a n ids) s)
        (migrate-SameFunds env a s i.upgrade n ids)
  step-IsReplayed i (sets_resolver a r) =
      funds-IsReplayed (step transfer env (sets_resolver a r) s)
        (set_resolver-SameFunds env a s i.upgrade r)
  step-IsReplayed i (proposes_drain a h) =
      funds-IsReplayed (step transfer env (proposes_drain a h) s)
        (propose_drain-SameFunds env a s i.upgrade h)
  step-IsReplayed i (executes_drain a h) =
      funds-IsReplayed (step transfer env (executes_drain a h) s)
        (execute_drain-SameFunds env a s i.upgrade h)
  step-IsReplayed i (sets_recovery_delay a n) =
      funds-IsReplayed (step transfer env (sets_recovery_delay a n) s)
        (set_recovery_delay-SameFunds env a s i.upgrade n)
  step-IsReplayed i (sets_guardian a g) =
      funds-IsReplayed (step transfer env (sets_guardian a g) s)
        (set_guardian-SameFunds env a s i.upgrade g)
  step-IsReplayed i (sets_upgrade_delay a n) =
      funds-IsReplayed (step transfer env (sets_upgrade_delay a n) s)
        (set_upgrade_delay-SameFunds env a s i.upgrade n)
  step-IsReplayed i (proposes_upgrade a h) =
      funds-IsReplayed (step transfer env (proposes_upgrade a h) s)
        (propose_upgrade-SameFunds env a s i.upgrade h)
  step-IsReplayed i (executes_upgrade a h) =
      funds-IsReplayed (step transfer env (executes_upgrade a h) s)
        (execute_upgrade-SameFunds env a s i.upgrade h)
  step-IsReplayed i (emergency a h) =
      funds-IsReplayed (step transfer env (emergency a h) s)
        (emergency_upgrade-SameFunds env a s i.upgrade h)

module _ {T : Type 0} (transfer : Transfer T) (j : ℕ) where
  -- From an escrow whose accounts agree, after any sequence of calls the balance and the locked
  -- amount of each deal are what an abstract machine makes of them that replays the calls which
  -- returned, with the amounts of the calls. The machine adds a positive deposit; locks a positive
  -- requested amount up to the balance where nothing was locked; at a settlement takes exactly what
  -- is locked, which is positive, off the balance; at a release takes the whole balance, which is
  -- positive, and the lock; takes nothing else; and refuses any other movement, which the replay
  -- does not meet.
  pub run-replay :
      (cs : List (Env × Call)) (s : State T)
      → IsEscrow s
      → replay j (movements transfer cs s) (account s.deals j)
        ≡ some (account (run transfer cs s).deals j)
  unfolding run movements
  run-replay [] s i = replay-none j (account s.deals j)
  run-replay ((env, c) ∷ cs) s i =
      let one = step-IsStep transfer env c s i in
      replay-step j (movement transfer env c s) (movements transfer cs (step transfer env c s))
        (account s.deals j) (account (step transfer env c s).deals j) _
        (step-IsReplayed transfer env j s i c)
        (run-replay cs (step transfer env c s) (IsStep-IsEscrow s _ one i))
