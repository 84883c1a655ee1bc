-- ===== src/DealEscrow/Solvency.antt =====
-- deal_escrow/src/lib.rs: the tokens that the escrow holds against the balances of the deals.
use shelterflex_contracts.Prelude.{
  ℕ, ◌≡◌, refl, sym, ap, subst, ◌≢◌, inl, inr, true, false, some, arith, ℕ_discrete, Bool-cases,
  ◌+ℤ◌, ◌-ℤ◌, ◌≤ℤ◌, ltb_ℤ, parts_of_eq, ℤ, int_laws, pos, unwrap_or,
}
use shelterflex_contracts.Host.{◌>>=◌, commit, >>=-eq-ok, Outcome, Env, ok, err, trap}
use shelterflex_contracts.Balances.{sum_balances, sum_balances-insert}
use shelterflex_contracts.Token.{Transfer, IsToken}
use shelterflex_contracts.DealEscrow.Types.{
  get_deal_balance, put_amounts, Error, DealState, SettlementOutcome, Deals, State,
}
use shelterflex_contracts.DealEscrow.Funds.{deposit, pay_part, pay_parts, release}
use shelterflex_contracts.DealEscrow.Account.{IsAccounted}
use shelterflex_contracts.DealEscrow.Releases.{recipient_of, settle_release_inner}
use shelterflex_contracts.DealEscrow.Effects.{
  deposit_ok, IsPaidPart, pay_part_ok, release_ok, settle_ok,
}
use shelterflex_contracts.DealEscrow.Settings.{SameFunds}

module _ {T : Type 0} (transfer : Transfer T) (held : T → ℕ → ℕ → ℤ) where
  -- What the escrow at `self` holds, and what it holds beyond the sum of the balances.
  unfoldable pub holding : ℕ → State T → ℤ
  holding self s = held s.tokens (unwrap_or s.token 0) self

  unfoldable pub surplus : ℕ → State T → ℤ
  unfolding holding
  surplus self s = holding self s -ℤ sum_balances s.deals.balance

  module _ (law : IsToken transfer held) (env : Env) where
    signer_outside :
        (from : ℕ)
        → env.authorized from ≡ true
        → env.authorized env.current ≡ false
        → from ≢ env.current
    signer_outside from p q e = absurd (cc (p, q, ap (λ a. env.authorized a) e))

    -- A payment by the escrow lowers its holding by the amount at most.
    paid_least :
        (token to : ℕ) (amount : ℤ) (before after : T)
        → pos 0 ≤ℤ amount
        → transfer env token env.current to amount before ≡ some after
        → held before token env.current ≤ℤ held after token env.current +ℤ amount
    paid_least token to amount before after p h = elim (ℕ_discrete env.current to) [
      | yes e ↦ omega (
        int_laws,
        p,
        parts_of_eq (
            law.to_itself env token env.current amount before after
              (subst (λ a. transfer env token env.current a amount before ≡ some after) (sym e) h)),
      )
      | no ne ↦
          omega
            (int_laws, p, parts_of_eq (law.pays env token env.current to amount before after h ne))
    ]

    same_after :
        (token to : ℕ) (amount : ℤ) (before after : T)
        → ltb_ℤ (pos 0) amount ≡ false
        → pay_part transfer env token to amount before ≡ ok after
        → after ≡ before
    unfolding IsPaidPart
    same_after token to amount before after q h =
        rw q at (pay_part_ok transfer env token to amount before after h)

    part_least :
        (token to : ℕ) (amount : ℤ) (before after : T)
        → pos 0 ≤ℤ amount
        → pay_part transfer env token to amount before ≡ ok after
        → held before token env.current ≤ℤ held after token env.current +ℤ amount
    unfolding IsPaidPart
    part_least token to amount before after p h = elim (Bool-cases (ltb_ℤ (pos 0) amount)) [
      | inl q ↦
          paid_least token to amount before after p
            (rw q at (pay_part_ok transfer env token to amount before after h))
      | inr q ↦ rw (same_after token to amount before after q h) (omega (int_laws, p))
    ]

    parts_least :
        (token to : ℕ) (n : ℤ) (platform : ℕ) (p : ℤ) (reporter : ℕ) (r : ℤ) (before after : T)
        → pos 0 ≤ℤ n
        → pos 0 ≤ℤ p
        → pos 0 ≤ℤ r
        → pay_parts transfer env token to n platform p reporter r before ≡ ok after
        → held before token env.current ≤ℤ held after token env.current +ℤ (n +ℤ p +ℤ r)
    unfolding pay_parts
    parts_least token to n platform p reporter r before after hn hp hr h =
        let (second, h1, k1) =
          >>=-eq-ok (pay_part transfer env token to n before)
            (λ a. pay_part transfer env token platform p a >>= λ b.
              pay_part transfer env token reporter r b)
            h in
        let (third, h2, h3) =
          >>=-eq-ok (pay_part transfer env token platform p second)
            (λ b. pay_part transfer env token reporter r b) k1 in
        omega (
          int_laws,
          part_least token to n before second hn h1,
          part_least token platform p second third hp h2,
          part_least token reporter r third after hr h3,
        )

    -- A write of the amounts of a deal changes the sum by the difference.
    put_sum :
        (id : ℕ) (amount : ℤ) (state : DealState) (d e k : Deals)
        → e ≡ put_amounts id amount state k
        → k.balance ≡ d.balance
        → sum_balances e.balance +ℤ get_deal_balance d id ≡ sum_balances d.balance +ℤ amount
    unfolding get_deal_balance
    put_sum id amount state d e k q b = rw (q, b) (sum_balances-insert id amount d.balance)

    module _ (s : State T) where
      pub deposit_surplus :
          (from id : ℕ) (amount : ℤ) (t : State T)
          → env.authorized env.current ≡ false
          → deposit transfer env from id amount s ≡ ok t
          → surplus env.current s ≤ℤ surplus env.current t
      unfolding surplus holding
      deposit_surplus from id amount t outside h =
          let c = deposit_ok transfer env from id amount s t h in
          rw c.settings.same_token (
            omega (
              int_laws,
              parts_of_eq (put_sum id _ _ s.deals t.deals _ c.deals refl),
              parts_of_eq (
                  law.receives env (unwrap_or s.token 0) from env.current amount s.tokens t.tokens
                    c.moved (signer_outside from c.signed outside)),
            ))

      pub settle_surplus :
          (id : ℕ) (outcome : SettlementOutcome) (t : State T)
          → IsAccounted s.deals id
          → settle_release_inner transfer env id outcome s ≡ ok t
          → surplus env.current s ≤ℤ surplus env.current t
      unfolding surplus holding
      settle_surplus id outcome t a h =
          let c = settle_ok transfer env id outcome s t h in
          rw c.settings.same_token (
            omega (
              int_laws,
              a.nonneg,
              parts_of_eq c.was_locked,
              parts_of_eq a.total,
              parts_of_eq (put_sum id _ _ s.deals t.deals _ c.deals refl),
              paid_least (unwrap_or s.token 0) (recipient_of outcome c.pending c.depositor)
                  c.pending.amount s.tokens t.tokens
                  (omega (arith, a.nonneg, parts_of_eq c.was_locked)) c.moved,
            ))

      pub release_surplus :
          (caller id to : ℕ) (n : ℤ) (platform : ℕ) (p : ℤ) (reporter : ℕ) (r : ℤ) (ref : ℕ)
          (t : State T) (cur : ℤ)
          → release transfer env caller id to n platform p reporter r ref s ≡ ok (t, cur)
          → surplus env.current s ≤ℤ surplus env.current t
      unfolding surplus holding
      release_surplus caller id to n platform p reporter r ref t cur h =
          let c = release_ok transfer env caller id to n platform p reporter r ref s t cur h in
          rw c.settings.same_token (
            omega (
              int_laws,
              parts_of_eq c.split,
              parts_of_eq (put_sum id _ _ s.deals t.deals _ c.deals refl),
              parts_least (unwrap_or s.token 0) to n platform p reporter r s.tokens t.tokens
                  c.principal c.platform_part c.reporter_part c.paid,
            ))

      pub same_surplus :
          (t : State T) → SameFunds s t → surplus env.current s ≤ℤ surplus env.current t
      unfolding surplus holding
      same_surplus t c = rw (c.same_deals, c.same_tokens, c.same_token) (omega arith)

      pub commit_surplus :
          (r : Outcome Error (State T))
          → ((t : State T) → r ≡ ok t → surplus env.current s ≤ℤ surplus env.current t)
          → surplus env.current s ≤ℤ surplus env.current (commit s r)
      commit_surplus (ok t) k = k t refl
      commit_surplus (err e) k = omega arith
      commit_surplus trap k = omega arith

      pub kept_surplus :
          (t : State T)
          → (t.deals.balance ≡ s.deals.balance) × ((t.tokens ≡ s.tokens) × (t.token ≡ s.token))
          → surplus env.current s ≤ℤ surplus env.current t
      unfolding surplus holding
      kept_surplus t (b, (k, a)) = rw (b, k, a) (omega arith)
