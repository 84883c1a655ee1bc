-- ===== src/DealEscrow/Movements.antt =====
-- deal_escrow/src/lib.rs: the movement of the abstract machine that each call is which moves funds.
use shelterflex_contracts.Prelude.{
  ℕ, ◌≡◌, refl, sym, ap, ◌∙◌, subst, ◌≢◌, some, arith, ℕ_discrete, ◌==◌, lt→ltb, ==_refl, ==_ne,
  parts_of_eq, ℤ, pos,
}
use shelterflex_contracts.Host.{Env}
use shelterflex_contracts.Token.{Transfer}
use shelterflex_contracts.DealEscrow.Types.{
  get_deal_balance, get_deal_state, put_amounts, DealState, SettlementOutcome, Deals, State,
}
use shelterflex_contracts.DealEscrow.Funds.{no_amounts}
use shelterflex_contracts.DealEscrow.Account.{
  account, Held, SameDeal-account, put_amounts-SameDeal, IsAccounted, SameDeal,
}
use shelterflex_contracts.DealEscrow.Ledger.{
  move_own, concerns, apply, apply-other, apply-own, own-requested, Movement, deposited, requested,
  settled, released,
}
use shelterflex_contracts.DealEscrow.Effects.{IsDeposited, IsReleased, IsRequested, IsSettled}
use shelterflex_contracts.DealEscrow.Moves.{put_account, Held-some}

-- The machine takes the movement `m` from the account of the deal `j` in `s` to the one in `t`.
abbrev pub IsReplayed : {T : Type 0} → ℕ → State T → Movement → State T → Type 0
IsReplayed j s m t = apply j m (account s.deals j) ≡ some (account t.deals j)

put_applied :
    (j id : ℕ) (amount : ℤ) (state : DealState) (d k : Deals) (m : Movement)
    → ((i : ℕ) → concerns m i ≡ (i == id))
    → (j ≢ id → SameDeal j d k)
    → (IsAccounted d id
        → move_own m (account d id)
          ≡ some (record { balance = amount; locked = state.locked_amount }))
    → IsAccounted d j
    → apply j m (account d j) ≡ some (account (put_amounts id amount state k) j)
put_applied j id amount state d k m t c own a = elim (ℕ_discrete j id) [
  | no ne ↦
      apply-other j m (account d j) (t j ∙ ==_ne j id ne)
      ∙ ap some (
          sym (
            SameDeal-account j d (put_amounts id amount state k)
              (put_amounts-SameDeal j id amount state d k ne (c ne))))
  | yes e ↦
      subst (λ i. apply i m (account d i) ≡ some (account (put_amounts id amount state k) i))
        (sym e)
        (apply-own id m (account d id) (t id ∙ ==_refl id)
          ∙ (own (subst (λ i. IsAccounted d i) e a)
              ∙ ap some (sym (put_account id amount state k))))
]

module _ {T : Type 0} (transfer : Transfer T) (env : Env) (j : ℕ) (s : State T) where
  pub deposit-IsReplayed :
      (from id : ℕ) (amount : ℤ) (t : State T)
      → IsDeposited transfer env from id amount s t
      → IsAccounted s.deals j
      → IsReplayed j s (deposited id amount) t
  unfolding account move_own
  deposit-IsReplayed from id amount t c a =
      subst (λ d. apply j (deposited id amount) (account s.deals j) ≡ some (account d j))
        (sym c.deals)
        (put_applied j id _ _ s.deals _ (deposited id amount) (λ i. refl)
          (λ ne. record { same_balance = refl; same_state = refl; same_release = refl })
          (λ b. rw (lt→ltb _ _ c.positive) refl) a)

  pub release-IsReplayed :
      (to id : ℕ) (n : ℤ) (platform : ℕ) (p : ℤ) (reporter : ℕ) (r cur : ℤ) (t : State T)
      → IsReleased transfer env id to n platform p reporter r s t cur
      → IsAccounted s.deals j
      → IsReplayed j s (released id) t
  unfolding account move_own no_amounts
  release-IsReplayed to id n platform p reporter r cur t c a =
      subst (λ d. apply j (released id) (account s.deals j) ≡ some (account d j)) (sym c.deals)
        (put_applied j id _ _ s.deals _ (released id) (λ i. refl)
          (λ ne. record { same_balance = refl; same_state = refl; same_release = refl })
          (λ b. rw (lt→ltb _ _ (rw c.answer at c.positive)) refl) a)

  pub settle-IsReplayed :
      (id : ℕ) (outcome : SettlementOutcome) (t : State T)
      → IsSettled transfer env id outcome s t
      → IsAccounted s.deals j
      → IsReplayed j s (settled id) t
  unfolding account move_own
  settle-IsReplayed id outcome t c a =
      subst (λ d. apply j (settled id) (account s.deals j) ≡ some (account d j)) (sym c.deals)
        (put_applied j id _ _ s.deals _ (settled id) (λ i. refl)
          (λ ne. record {
            same_balance = refl;
            same_state = refl;
            same_release = rw (==_ne j id ne) refl;
          })
          (λ b.
            rw (lt→ltb _ _ (Held-some c.pending _ c.was_locked (rw c.was_pending at b.held)))
              (rw (c.was_locked, b.total) refl))
          a)

  request_free :
      (caller id to : ℕ) (amount : ℤ) (t : State T)
      → IsRequested env caller id to amount s t
      → IsAccounted s.deals id
      → (account s.deals id).locked ≡ pos 0
  unfolding account Held
  request_free caller id to amount t c a = rw c.none_pending at a.held

  request_account :
      (caller id to : ℕ) (amount : ℤ) (t : State T)
      → IsRequested env caller id to amount s t
      → account t.deals id ≡ record (account s.deals id) { locked = amount }
  unfolding account get_deal_state get_deal_balance
  request_account caller id to amount t c = rw c.deals (rw (==_refl id) refl)

  request_own :
      (caller id to : ℕ) (amount : ℤ) (t : State T)
      → IsRequested env caller id to amount s t
      → IsAccounted s.deals id
      → move_own (requested id amount) (account s.deals id) ≡ some (account t.deals id)
  unfolding account
  request_own caller id to amount t c a =
      own-requested id amount (account s.deals id) c.positive
        (omega (arith, c.covered, parts_of_eq a.total)) (request_free caller id to amount t c a)
      ∙ ap some (sym (request_account caller id to amount t c))

  pub request-IsReplayed :
      (caller id to : ℕ) (amount : ℤ) (t : State T)
      → IsRequested env caller id to amount s t
      → IsAccounted s.deals j
      → IsReplayed j s (requested id amount) t
  request-IsReplayed caller id to amount t c a = elim (ℕ_discrete j id) [
    | no ne ↦
        apply-other j (requested id amount) (account s.deals j) (==_ne j id ne)
        ∙ ap some (
            sym (
              SameDeal-account j s.deals t.deals (
                rw c.deals (record {
                  same_balance = refl;
                  same_state = rw (==_ne j id ne) refl;
                  same_release = rw (==_ne j id ne) refl;
                }))))
    | yes e ↦
        subst (λ i. apply i (requested id amount) (account s.deals i) ≡ some (account t.deals i))
          (sym e)
          (apply-own id (requested id amount) (account s.deals id) (==_refl id)
            ∙ request_own caller id to amount t c (subst (λ i. IsAccounted s.deals i) e a))
  ]
