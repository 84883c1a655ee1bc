-- ===== src/DealEscrow/Steps.antt =====
-- deal_escrow/src/lib.rs: what one call keeps of the accounts of the deals and of the settings.
use shelterflex_contracts.Prelude.{ℕ, ◌≡◌, refl, false, arith, ℤ, unwrap_or}
use shelterflex_contracts.Host.{commit, state_of, state_of_ok, Outcome, Env, ok, err, trap}
use shelterflex_contracts.Balances.{IsMap, insert-IsMap}
use shelterflex_contracts.Token.{Transfer}
use shelterflex_contracts.DealEscrow.Types.{
  Error, DealLifecycleStatus, SettlementOutcome, State, release_to_recipient, refund_to_depositor,
}
use shelterflex_contracts.DealEscrow.Funds.{deposit, release}
use shelterflex_contracts.DealEscrow.Releases.{
  request_rent_release, challenge_rent_release, settle_release_inner, resolve_rent_dispute,
  settle_rent_release_timeout, settle_dispute_timeout,
}
use shelterflex_contracts.DealEscrow.Settlements.{resolve_ok, settles_ok, times_out_ok}
use shelterflex_contracts.DealEscrow.Effects.{
  deposit_ok, release_ok, request_ok, settle_ok, SameSettings,
}
use shelterflex_contracts.DealEscrow.Account.{IsAccounted}
use shelterflex_contracts.DealEscrow.Moves.{
  SameDeal-IsAdvanced, refl-IsAdvanced, deposit-IsAdvanced, release-IsAdvanced, settle-IsAdvanced,
  request-IsAdvanced, IsAdvanced,
}
use shelterflex_contracts.DealEscrow.Settings.{SameUpgrade-IsFixed, IsFixed, SameUpgrade, SameFunds}
use shelterflex_contracts.DealEscrow.Admin.{move_deal}

module _ {T : Type 0} where
  pub record IsEscrow (s : State T) : Type 0 where
    pub upgrade : IsFixed s.upgrade
    pub accounts : (id : ℕ) → IsAccounted s.deals id
    pub keys : IsMap s.deals.balance
    pub open_lock : unwrap_or s.reentrancy false ≡ false

  -- What one call keeps.
  pub record IsStep (s t : State T) : Type 0 where
    pub same_upgrade : SameUpgrade s.upgrade t.upgrade
    pub advanced : (id : ℕ) → IsAdvanced s.deals t.deals id
    pub keys : IsMap t.deals.balance
    pub open_lock : unwrap_or t.reentrancy false ≡ false
    pub same_token : t.token ≡ s.token

  pub IsStep-IsEscrow : (s t : State T) → IsStep s t → IsEscrow s → IsEscrow t
  IsStep-IsEscrow s t c i = record {
    upgrade = SameUpgrade-IsFixed _ _ c.same_upgrade i.upgrade;
    accounts = λ id. (c.advanced id).accounted;
    keys = c.keys;
    open_lock = c.open_lock;
  }

  SameUpgrade-refl : (s t : State T) → t.upgrade ≡ s.upgrade → SameUpgrade s.upgrade t.upgrade
  SameUpgrade-refl s t e = ground arith

  pub SameFunds-IsStep : (s t : State T) → SameFunds s t → IsEscrow s → IsStep s t
  SameFunds-IsStep s t c i = record {
    same_upgrade = c.upgrade;
    advanced = λ id. rw c.same_deals (refl-IsAdvanced id s.deals (i.accounts id));
    keys = rw c.same_deals i.keys;
    open_lock = rw c.same_lock i.open_lock;
    same_token = c.same_token;
  }

  -- A call that moves funds.
  Settings-IsStep :
      (s t : State T)
      → SameSettings s t
      → IsMap t.deals.balance
      → ((id : ℕ) → IsAdvanced s.deals t.deals id)
      → IsStep s t
  Settings-IsStep s t c k a = record {
    same_upgrade = SameUpgrade-refl s t c.same_upgrade;
    advanced = a;
    keys = k;
    open_lock = c.unlocked;
    same_token = c.same_token;
  }

  returned :
      (s : State T) (r : Outcome Error (State T))
      → IsEscrow s
      → ((t : State T) → r ≡ ok t → IsStep s t)
      → IsStep s (commit s r)
  returned s (ok t) i k = k t refl
  returned s (err e) i k = SameFunds-IsStep s s (ground arith) i
  returned s trap i k = SameFunds-IsStep s s (ground arith) i

  -- A dispute or a status of a deal is written, and nothing else.
  Same-IsStep :
      (s t : State T)
      → (t.deals.balance ≡ s.deals.balance)
        × ((t.deals.state ≡ s.deals.state) × (t.deals.release ≡ s.deals.release))
      → (t.upgrade ≡ s.upgrade) × ((t.reentrancy ≡ s.reentrancy) × (t.token ≡ s.token))
      → IsEscrow s
      → IsStep s t
  Same-IsStep s t (b, (d, r)) (u, (l, k)) i = record {
    same_upgrade = SameUpgrade-refl s t u;
    advanced = λ id.
        SameDeal-IsAdvanced id s.deals t.deals
          (record { same_balance = rw b refl; same_state = rw d refl; same_release = rw r refl })
          (i.accounts id);
    keys = rw b i.keys;
    open_lock = rw l i.open_lock;
    same_token = k;
  }

  module _ (transfer : Transfer T) (env : Env) (s : State T) (i : IsEscrow s) where
    pub deposit-IsStep :
        (from id : ℕ) (amount : ℤ) → IsStep s (commit s (deposit transfer env from id amount s))
    deposit-IsStep from id amount = returned s _ i λ t h.
        let c = deposit_ok transfer env from id amount s t h in
        Settings-IsStep s t c.settings (rw c.deals (insert-IsMap id _ s.deals.balance i.keys))
          λ j. deposit-IsAdvanced transfer env s t j id from amount c (i.accounts j)

    settle-IsStep :
        (id : ℕ) (outcome : SettlementOutcome) (t : State T)
        → settle_release_inner transfer env id outcome s ≡ ok t
        → IsStep s t
    settle-IsStep id outcome t h =
        let c = settle_ok transfer env id outcome s t h in
        Settings-IsStep s t c.settings (rw c.deals (insert-IsMap id _ s.deals.balance i.keys))
          λ j. settle-IsAdvanced transfer env s t j id outcome c (i.accounts j)

    pub release-IsStep :
        (caller id to : ℕ) (n : ℤ) (platform : ℕ) (p : ℤ) (reporter : ℕ) (r : ℤ) (ref : ℕ)
        → IsStep s
            (commit s (state_of (release transfer env caller id to n platform p reporter r ref s)))
    release-IsStep caller id to n platform p reporter r ref = returned s _ i λ t h.
        let (cur, e) =
          state_of_ok (release transfer env caller id to n platform p reporter r ref s) h in
        let c = release_ok transfer env caller id to n platform p reporter r ref s t cur e in
        Settings-IsStep s t c.settings (rw c.deals (insert-IsMap id _ s.deals.balance i.keys)) λ j.
          release-IsAdvanced transfer env s t j id to n platform p reporter r cur c (i.accounts j)

    pub request-IsStep :
        (caller id to : ℕ) (amount : ℤ) (source ref : ℕ)
        → IsStep s (commit s (request_rent_release env caller id to amount source ref s))
    request-IsStep caller id to amount source ref = returned s _ i λ t h.
        let c = request_ok env caller id to amount source ref s t h in
        (record {
          same_upgrade = SameUpgrade-refl s t c.same_upgrade;
          advanced = λ j. request-IsAdvanced env s t j caller id to amount c (i.accounts j);
          keys = rw c.deals i.keys;
          open_lock = rw c.same_lock i.open_lock;
          same_token = c.same_token;
        })

    pub challenge-IsStep :
        (caller id ref : ℕ) → IsStep s (commit s (challenge_rent_release env caller id ref s))
    unfolding challenge_rent_release
    challenge-IsStep caller id ref = Same-IsStep s _ (ground arith) (ground arith) i

    pub resolve-IsStep :
        (caller id : ℕ) (outcome : SettlementOutcome) (ref : ℕ)
        → IsStep s (commit s (resolve_rent_dispute transfer env caller id outcome ref s))
    resolve-IsStep caller id outcome ref =
        returned s _ i
          λ t h. settle-IsStep id outcome t (resolve_ok transfer env id s t caller outcome ref h).1

    pub settles-IsStep :
        (id : ℕ) → IsStep s (commit s (settle_rent_release_timeout transfer env id s))
    settles-IsStep id =
        returned s _ i
          λ t h. settle-IsStep id release_to_recipient t (settles_ok transfer env id s t h).1

    pub times_out-IsStep : (id : ℕ) → IsStep s (commit s (settle_dispute_timeout transfer env id s))
    times_out-IsStep id =
        returned s _ i
          λ t h. settle-IsStep id refund_to_depositor t (times_out_ok transfer env id s t h).1

    pub move_deal-IsStep :
        (before after : DealLifecycleStatus) (admin id : ℕ)
        → IsStep s (commit s (move_deal before after env admin id s))
    unfolding move_deal
    move_deal-IsStep before after admin id = Same-IsStep s _ (ground arith) (ground arith) i
