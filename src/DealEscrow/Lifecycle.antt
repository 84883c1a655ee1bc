-- ===== src/DealEscrow/Lifecycle.antt =====
-- deal_escrow/src/lib.rs: what a call does to the life cycle of a deal, and who may do it.
use shelterflex_contracts.Prelude.{
  ℕ, ◌≡◌, refl, sym, ap, subst, ◌≢◌, true, some, arith, ℕ_discrete, ==_refl, ==_ne, ℤ, update,
}
use shelterflex_contracts.Host.{commit, state_of, state_of_ok, Outcome, Env, ok, err, trap}
use shelterflex_contracts.Token.{Transfer}
use shelterflex_contracts.DealEscrow.Types.{
  require_non_empty_string, get_deal_lifecycle, get_admin, require_not_paused, require_admin, Error,
  DealLifecycleStatus, SettlementOutcome, State, draft, active, completed, defaulted,
  release_to_recipient, refund_to_depositor,
}
use shelterflex_contracts.DealEscrow.Funds.{release}
use shelterflex_contracts.DealEscrow.Releases.{challenge_rent_release, settle_release_inner}
use shelterflex_contracts.DealEscrow.Admin.{
  is_status, move_deal, activate_deal, complete_deal, default_deal,
}
use shelterflex_contracts.DealEscrow.Effects.{deposit_ok, release_ok, request_ok, settle_ok}
use shelterflex_contracts.DealEscrow.Settlements.{resolve_ok, settles_ok, times_out_ok}
use shelterflex_contracts.DealEscrow.Cases.{by_cases}
use shelterflex_contracts.DealEscrow.Steps.{IsEscrow}
use shelterflex_contracts.AccessControl.{require_admin_permission}
use shelterflex_contracts.DealEscrow.Machine.{step, Call, activates, completes, defaults}

is_status_eq : (a b : DealLifecycleStatus) → is_status a b ≡ true → a ≡ b
is_status_eq draft b h = ground arith
is_status_eq active b h = ground arith
is_status_eq completed b h = ground arith
is_status_eq defaulted b h = ground arith

-- The stored admin calls, and has authorised the call.
abbrev pub ByAdmin : {T : Type 0} → Env → ℕ → State T → Type 0
ByAdmin env caller s = (s.upgrade.admin ≡ some caller) × (env.authorized caller ≡ true)

-- What a call may do to the status of the deal `id`.
pub data Next {T : Type 0} (id : ℕ) (env : Env) (c : Call) (s t : State T) : Type 0 where
  stays_there : get_deal_lifecycle t.deals id ≡ get_deal_lifecycle s.deals id → Next id env c s t
  is_activated :
      (admin : ℕ)
      → c ≡ activates admin id
      → ByAdmin env admin s
      → get_deal_lifecycle s.deals id ≡ draft
      → get_deal_lifecycle t.deals id ≡ active
      → Next id env c s t
  is_completed :
      (admin : ℕ)
      → c ≡ completes admin id
      → ByAdmin env admin s
      → get_deal_lifecycle s.deals id ≡ active
      → get_deal_lifecycle t.deals id ≡ completed
      → Next id env c s t
  is_defaulted :
      (admin : ℕ)
      → c ≡ defaults admin id
      → ByAdmin env admin s
      → get_deal_lifecycle s.deals id ≡ active
      → get_deal_lifecycle t.deals id ≡ defaulted
      → Next id env c s t

module _ {T : Type 0} (id : ℕ) (transfer : Transfer T) (env : Env) (s : State T) where
  same_status : (c : Call) (t : State T) → t.deals.lifecycle ≡ s.deals.lifecycle → Next id env c s t
  unfolding get_deal_lifecycle
  same_status c t e = stays_there (rw e refl)

  by_outcome :
      (c : Call) (r : Outcome Error (State T))
      → ((t : State T) → r ≡ ok t → Next id env c s t)
      → Next id env c s (commit s r)
  by_outcome c (ok t) k = k t refl
  by_outcome c (err e) k = stays_there refl
  by_outcome c trap k = stays_there refl

  kept_status :
      (c : Call) (r : Outcome Error (State T))
      → ((t : State T) → r ≡ ok t → t.deals.lifecycle ≡ s.deals.lifecycle)
      → Next id env c s (commit s r)
  kept_status c r k = by_outcome c r λ t h. same_status c t (k t h)

  settled_status :
      (deal : ℕ) (outcome : SettlementOutcome) (t : State T)
      → settle_release_inner transfer env deal outcome s ≡ ok t
      → t.deals.lifecycle ≡ s.deals.lifecycle
  settled_status deal outcome t h =
      ap (λ d. d.lifecycle) (settle_ok transfer env deal outcome s t h).deals

  released_status :
      (caller deal to : ℕ) (n : ℤ) (platform : ℕ) (p : ℤ) (reporter : ℕ) (r : ℤ) (ref : ℕ)
      (t : State T)
      → state_of (release transfer env caller deal to n platform p reporter r ref s) ≡ ok t
      → t.deals.lifecycle ≡ s.deals.lifecycle
  released_status caller deal to n platform p reporter r ref t h =
      let (cur, e) =
        state_of_ok (release transfer env caller deal to n platform p reporter r ref s) h in
      ap (λ d. d.lifecycle)
        (release_ok transfer env caller deal to n platform p reporter r ref s t cur e).deals

  challenged_status :
      (c : Call) (caller deal ref : ℕ)
      → Next id env c s (commit s (challenge_rent_release env caller deal ref s))
  unfolding challenge_rent_release
  challenged_status c caller deal ref =
      same_status c (commit s (challenge_rent_release env caller deal ref s)) (ground arith)

  record IsMoved (before after : DealLifecycleStatus) (admin deal : ℕ) (t : State T) : Type 0 where
    by_admin : ByAdmin env admin s
    was : get_deal_lifecycle s.deals deal ≡ before
    now : get_deal_lifecycle t.deals deal ≡ after
    others : (j : ℕ) → j ≢ deal → get_deal_lifecycle t.deals j ≡ get_deal_lifecycle s.deals j

  move_written :
      (before after : DealLifecycleStatus) (admin deal : ℕ) (t : State T)
      → move_deal before after env admin deal s ≡ ok t
      → t.deals.lifecycle ≡ update deal (some after) s.deals.lifecycle
  unfolding move_deal require_not_paused require_non_empty_string
  move_written before after admin deal t h = ground arith

  move_ok :
      (before after : DealLifecycleStatus) (admin deal : ℕ) (t : State T)
      → move_deal before after env admin deal s ≡ ok t
      → IsMoved before after admin deal t
  unfolding move_deal require_not_paused require_non_empty_string require_admin get_admin
      require_admin_permission get_deal_lifecycle
  move_ok before after admin deal t h =
      let w = move_written before after admin deal t h in
      record {
        by_admin = (ground arith, ground arith);
        was = is_status_eq _ _ (ground arith);
        now = rw (w, ==_refl deal) refl;
        others = λ j ne. rw (w, ==_ne j deal ne) refl;
      }

  -- The call moves the deal `deal`; `own` says what that is if it is this one.
  moved_status :
      (before after : DealLifecycleStatus) (admin deal : ℕ) (c : Call)
      → ((t : State T) → IsMoved before after admin deal t → id ≡ deal → Next id env c s t)
      → Next id env c s (commit s (move_deal before after env admin deal s))
  moved_status before after admin deal c own =
      by_outcome c (move_deal before after env admin deal s) λ t h.
        let k = move_ok before after admin deal t h in
        elim (ℕ_discrete id deal) [ yes e ↦ own t k e | no ne ↦ stays_there (k.others id ne) ]

  -- In an escrow whose accounts agree, a call leaves the status of a deal as it is, or it is one of
  -- three calls for that deal by the stored admin, who has authorised it: an activation, which
  -- takes it from draft to active; a completion, from active to completed; or a default, from
  -- active to defaulted.
  pub step-Next : IsEscrow s → (c : Call) → Next id env c s (step transfer env c s)
  unfolding step activate_deal complete_deal default_deal
  step-Next i c =
      by_cases transfer env s i.upgrade {P = λ k. Next id env k s (step transfer env k s)}
        (record {
          on_settings = λ k same.
              same_status k (step transfer env k s) (ap (λ d. d.lifecycle) same.same_deals);
          on_deposit = λ from deal amount.
              kept_status _ _
                λ t h. ap (λ d. d.lifecycle) (deposit_ok transfer env from deal amount s t h).deals;
          on_release = λ caller deal to n platform p reporter r ref.
              kept_status _ _ (released_status caller deal to n platform p reporter r ref);
          on_request = λ caller deal to amount source ref. kept_status _ _ λ t h.
              ap (λ d. d.lifecycle) (request_ok env caller deal to amount source ref s t h).deals;
          on_challenge = λ caller deal ref. challenged_status _ caller deal ref;
          on_resolve = λ caller deal outcome ref. kept_status _ _ λ t h.
              settled_status deal outcome t
                (resolve_ok transfer env deal s t caller outcome ref h).1;
          on_settle = λ deal. kept_status _ _ λ t h.
              settled_status deal release_to_recipient t (settles_ok transfer env deal s t h).1;
          on_time_out = λ deal. kept_status _ _ λ t h.
              settled_status deal refund_to_depositor t (times_out_ok transfer env deal s t h).1;
          on_activate = λ a deal. moved_status draft active a deal _ λ t k e.
              is_activated a (ap (λ j. activates a j) (sym e)) k.by_admin
                (subst (λ j. get_deal_lifecycle s.deals j ≡ draft) (sym e) k.was)
                (subst (λ j. get_deal_lifecycle t.deals j ≡ active) (sym e) k.now);
          on_complete = λ a deal. moved_status active completed a deal _ λ t k e.
              is_completed a (ap (λ j. completes a j) (sym e)) k.by_admin
                (subst (λ j. get_deal_lifecycle s.deals j ≡ active) (sym e) k.was)
                (subst (λ j. get_deal_lifecycle t.deals j ≡ completed) (sym e) k.now);
          on_default = λ a deal. moved_status active defaulted a deal _ λ t k e.
              is_defaulted a (ap (λ j. defaults a j) (sym e)) k.by_admin
                (subst (λ j. get_deal_lifecycle s.deals j ≡ active) (sym e) k.was)
                (subst (λ j. get_deal_lifecycle t.deals j ≡ defaulted) (sym e) k.now);
        })
        c
