-- ===== src/DealEscrow/Moves.antt =====
-- deal_escrow/src/lib.rs: what each call that moves funds does to the account of each deal.
use shelterflex_contracts.Prelude.{
  ℕ, ◌≡◌, refl, subst, ◌≢◌, inl, inr, Option, none, some, arith, ℕ_discrete, ==_refl, ==_ne, ◌≤ℤ◌,
  ◌<ℤ◌, parts_of_eq, ℤ, int_laws, pos, update,
}
use shelterflex_contracts.DealEscrow.Types.{
  get_deal_balance, get_deal_state, put_amounts, DealState, PendingRentRelease, SettlementOutcome,
  Deals, State,
}
use shelterflex_contracts.DealEscrow.Funds.{no_amounts}
use shelterflex_contracts.DealEscrow.Account.{
  account, Held, SameDeal-account, SameDeal-IsAccounted, put_amounts-SameDeal, put_amounts-balance,
  put_amounts-state, Move, IsAccounted, SameDeal, stays, credits, locks, pays, closes,
}
use shelterflex_contracts.Host.{Env}
use shelterflex_contracts.Token.{Transfer}
use shelterflex_contracts.DealEscrow.Effects.{IsDeposited, IsReleased, IsRequested, IsSettled}

pub record IsAdvanced (d e : Deals) (id : ℕ) : Type 0 where
  pub accounted : IsAccounted e id
  pub move : Move (account d id) (account e id)

pub SameDeal-IsAdvanced :
    (id : ℕ) (d e : Deals) → SameDeal id d e → IsAccounted d id → IsAdvanced d e id
SameDeal-IsAdvanced id d e c a = record {
  accounted = SameDeal-IsAccounted id d e c a;
  move = stays (SameDeal-account id d e c);
}

pub refl-IsAdvanced : (id : ℕ) (d : Deals) → IsAccounted d id → IsAdvanced d d id
refl-IsAdvanced id d a =
    SameDeal-IsAdvanced id d d
      (record { same_balance = refl; same_state = refl; same_release = refl }) a

-- The new account of a deal whose amounts are written.
pub put_account :
    (id : ℕ) (amount : ℤ) (state : DealState) (k : Deals)
    → account (put_amounts id amount state k) id
      ≡ record { balance = amount; locked = state.locked_amount }
unfolding account
put_account id amount state k =
    rw (put_amounts-balance id amount state k, put_amounts-state id amount state k) refl

-- Amounts of a deal that agree with each other and with the release that is pending.
record AreGood (amount : ℤ) (state : DealState) (o : Option PendingRentRelease) : Type 0 where
  total : state.total_balance ≡ amount
  payout : state.pending_payout ≡ state.locked_amount
  nonneg : pos 0 ≤ℤ state.locked_amount
  covered : state.locked_amount ≤ℤ amount
  held : Held o state.locked_amount

put-IsAccounted :
    (id : ℕ) (amount : ℤ) (state : DealState) (k : Deals)
    → AreGood amount state (k.release id)
    → IsAccounted (put_amounts id amount state k) id
put-IsAccounted id amount state k g = record {
  total = rw (put_amounts-balance id amount state k, put_amounts-state id amount state k) g.total;
  payout = rw (put_amounts-state id amount state k) g.payout;
  nonneg = rw (put_amounts-state id amount state k) g.nonneg;
  covered =
      rw (put_amounts-balance id amount state k, put_amounts-state id amount state k) g.covered;
  held = rw (put_amounts-state id amount state k) g.held;
}

-- A write of the amounts of one deal, from what it does to that deal.
put-IsAdvanced :
    (j id : ℕ) (amount : ℤ) (state : DealState) (d k : Deals)
    → (j ≢ id → SameDeal j d k)
    → (IsAccounted d id
        → AreGood amount state (k.release id)
          × Move (account d id) (record { balance = amount; locked = state.locked_amount }))
    → IsAccounted d j
    → IsAdvanced d (put_amounts id amount state k) j
put-IsAdvanced j id amount state d k c own a = elim (ℕ_discrete j id) [
  | no ne ↦
      SameDeal-IsAdvanced j d (put_amounts id amount state k)
        (put_amounts-SameDeal j id amount state d k ne (c ne)) a
  | yes e ↦
      let (g, m) = own (subst (λ i. IsAccounted d i) e a) in
      rw e (record {
        accounted = put-IsAccounted id amount state k g;
        move = rw (put_account id amount state k) m;
      })
]

Held-zero : (o : Option PendingRentRelease) (locked : ℤ) → Held o locked → Held o (pos 0)
unfolding Held
Held-zero none locked h = refl
Held-zero (some p) locked h = (h.0, inl refl)

-- A locked amount that is not 0 is the one that is pending.
pub Held-some :
    (p : PendingRentRelease) (locked : ℤ)
    → locked ≡ p.amount
    → Held (some p) locked
    → pos 0 <ℤ locked
unfolding Held
Held-some p locked e h = rw e h.0

module _ {T : Type 0} (transfer : Transfer T) (env : Env) (s t : State T) (j id : ℕ) where
  pub deposit-IsAdvanced :
      (from : ℕ) (amount : ℤ)
      → IsDeposited transfer env from id amount s t
      → IsAccounted s.deals j
      → IsAdvanced s.deals t.deals j
  unfolding account
  deposit-IsAdvanced from amount c a = rw c.deals (
      put-IsAdvanced j id _ _ s.deals _
        (λ ne. record { same_balance = refl; same_state = refl; same_release = refl })
        (λ b. (
          record {
            total = refl;
            payout = b.payout;
            nonneg = b.nonneg;
            covered = omega (int_laws, b.covered, c.positive);
            held = b.held;
          },
          credits amount c.positive refl refl,
        ))
        a)

  pub release-IsAdvanced :
      (to : ℕ) (n : ℤ) (platform : ℕ) (p : ℤ) (reporter : ℕ) (r cur : ℤ)
      → IsReleased transfer env id to n platform p reporter r s t cur
      → IsAccounted s.deals j
      → IsAdvanced s.deals t.deals j
  unfolding account no_amounts
  release-IsAdvanced to n platform p reporter r cur c a = rw c.deals (
      put-IsAdvanced j id _ _ s.deals _
        (λ ne. record { same_balance = refl; same_state = refl; same_release = refl })
        (λ b. (
          record {
            total = refl;
            payout = refl;
            nonneg = omega arith;
            covered = omega arith;
            held = Held-zero _ _ b.held;
          },
          closes (rw c.answer at c.positive) refl refl,
        ))
        a)

  pub settle-IsAdvanced :
      (outcome : SettlementOutcome)
      → IsSettled transfer env id outcome s t
      → IsAccounted s.deals j
      → IsAdvanced s.deals t.deals j
  unfolding account Held
  settle-IsAdvanced outcome c a = rw c.deals (
      put-IsAdvanced j id _ _ s.deals _
        (λ ne. record {
          same_balance = refl;
          same_state = refl;
          same_release = rw (==_ne j id ne) refl;
        })
        (λ b. (
          record {
            total = refl;
            payout = refl;
            nonneg = omega arith;
            covered = omega (int_laws, b.covered, parts_of_eq b.total, parts_of_eq c.was_locked);
            held = rw (==_refl id) refl;
          },
          pays (Held-some c.pending _ c.was_locked (rw c.was_pending at b.held))
              (rw (c.was_locked, b.total) refl) refl,
        ))
        a)

-- The deal of a request, for the deal itself and for the others.
requested_own :
    (id : ℕ) (amount : ℤ) (pending : PendingRentRelease) (d e : Deals)
    → e ≡ record d {
      state =
          update id
            (some
              (record (get_deal_state d id) { locked_amount = amount; pending_payout = amount }))
            d.state;
      release = update id (some pending) d.release;
    }
    → pending.amount ≡ amount
    → pos 0 <ℤ amount
    → amount ≤ℤ (get_deal_state d id).total_balance
    → d.release id ≡ none
    → IsAccounted d id
    → IsAdvanced d e id
unfolding account get_deal_state get_deal_balance Held
requested_own id amount pending d e w q p c r a = rw w (record {
  accounted = record {
    total = rw (==_refl id) a.total;
    payout = rw (==_refl id) refl;
    nonneg = rw (==_refl id) (omega (arith, p));
    covered = rw (==_refl id) (omega (arith, c, parts_of_eq a.total));
    held = rw (==_refl id, q) (p, inr refl);
  };
  move = rw (==_refl id) (locks p (omega (arith, c, parts_of_eq a.total)) (rw r at a.held) refl);
})

module _ {T : Type 0} (env : Env) (s t : State T) (j caller id to : ℕ) (amount : ℤ) where
  pub request-IsAdvanced :
      IsRequested env caller id to amount s t → IsAccounted s.deals j → IsAdvanced s.deals t.deals j
  request-IsAdvanced c a = elim (ℕ_discrete j id) [
    | no ne ↦
        SameDeal-IsAdvanced j s.deals t.deals
          (rw c.deals (record {
            same_balance = refl;
            same_state = rw (==_ne j id ne) refl;
            same_release = rw (==_ne j id ne) refl;
          }))
          a
    | yes e ↦ rw e (
        requested_own id amount c.pending s.deals t.deals c.deals c.asked c.positive c.covered
          c.none_pending (subst (λ i. IsAccounted s.deals i) e a))
  ]
