-- ===== src/DealEscrow/Account.antt =====
-- deal_escrow/src/lib.rs: what the contract promises of a deal, an account with a balance of which
-- an amount is locked, and how the stored keys of a deal stand for one.
use shelterflex_contracts.Prelude.{
  ℕ, ◌≡◌, refl, ◌≢◌, ◌⊎◌, Option, none, some, ==_refl, ==_ne, ◌+ℤ◌, ◌-ℤ◌, ◌≤ℤ◌, ◌<ℤ◌, ℤ, pos,
  lookup, lookup-insert,
}
use shelterflex_contracts.DealEscrow.Types.{
  get_deal_balance, get_deal_state, put_amounts, DealState, PendingRentRelease, Deals,
}

pub record Account : Type 0 where
  pub balance : ℤ
  pub locked : ℤ

-- The moves of an account: none, a deposit, the lock of an amount, the payment of what is locked,
-- and the payment of everything.
pub data Move (before after : Account) : Type 0 where
  stays : after ≡ before → Move before after
  credits :
      (amount : ℤ)
      → pos 0 <ℤ amount
      → after.balance ≡ before.balance +ℤ amount
      → after.locked ≡ before.locked
      → Move before after
  locks :
      pos 0 <ℤ after.locked
      → after.locked ≤ℤ before.balance
      → before.locked ≡ pos 0
      → after.balance ≡ before.balance
      → Move before after
  pays :
      pos 0 <ℤ before.locked
      → after.balance ≡ before.balance -ℤ before.locked
      → after.locked ≡ pos 0
      → Move before after
  closes :
      pos 0 <ℤ before.balance → after.balance ≡ pos 0 → after.locked ≡ pos 0 → Move before after

unfoldable pub account : Deals → ℕ → Account
account d id = record {
  balance = get_deal_balance d id;
  locked = (get_deal_state d id).locked_amount;
}

unfoldable pub Held : Option PendingRentRelease → ℤ → Type 0
Held none locked = locked ≡ pos 0
Held (some pending) locked =
    (pos 0 <ℤ pending.amount) × ((locked ≡ pos 0) ⊎ (locked ≡ pending.amount))

pub record IsAccounted (d : Deals) (id : ℕ) : Type 0 where
  pub total : (get_deal_state d id).total_balance ≡ get_deal_balance d id
  pub payout : (get_deal_state d id).pending_payout ≡ (get_deal_state d id).locked_amount
  pub nonneg : pos 0 ≤ℤ (get_deal_state d id).locked_amount
  pub covered : (get_deal_state d id).locked_amount ≤ℤ get_deal_balance d id
  pub held : Held (d.release id) (get_deal_state d id).locked_amount

-- The keys of one deal.
pub record SameDeal (id : ℕ) (d e : Deals) : Type 0 where
  pub same_balance : lookup id e.balance ≡ lookup id d.balance
  pub same_state : e.state id ≡ d.state id
  pub same_release : e.release id ≡ d.release id

pub SameDeal-balance :
    (id : ℕ) (d e : Deals) → SameDeal id d e → get_deal_balance e id ≡ get_deal_balance d id
unfolding get_deal_balance
SameDeal-balance id d e c = rw c.same_balance refl

pub SameDeal-state :
    (id : ℕ) (d e : Deals) → SameDeal id d e → get_deal_state e id ≡ get_deal_state d id
unfolding get_deal_state get_deal_balance
SameDeal-state id d e c = rw (c.same_balance, c.same_state) refl

pub SameDeal-account : (id : ℕ) (d e : Deals) → SameDeal id d e → account e id ≡ account d id
unfolding account
SameDeal-account id d e c = rw (SameDeal-balance id d e c, SameDeal-state id d e c) refl

pub SameDeal-IsAccounted :
    (id : ℕ) (d e : Deals) → SameDeal id d e → IsAccounted d id → IsAccounted e id
SameDeal-IsAccounted id d e c a = record {
  total = rw (SameDeal-balance id d e c, SameDeal-state id d e c) a.total;
  payout = rw (SameDeal-state id d e c) a.payout;
  nonneg = rw (SameDeal-state id d e c) a.nonneg;
  covered = rw (SameDeal-balance id d e c, SameDeal-state id d e c) a.covered;
  held = rw (SameDeal-state id d e c, c.same_release) a.held;
}

-- A write to another deal.
pub put_amounts-SameDeal :
    (j id : ℕ) (amount : ℤ) (state : DealState) (d k : Deals)
    → j ≢ id
    → SameDeal j d k
    → SameDeal j d (put_amounts id amount state k)
put_amounts-SameDeal j id amount state d k ne c = record {
  same_balance = rw (lookup-insert j id amount k.balance, ==_ne j id ne) c.same_balance;
  same_state = rw (==_ne j id ne) c.same_state;
  same_release = c.same_release;
}

-- A write to the deal itself.
pub put_amounts-balance :
    (id : ℕ) (amount : ℤ) (state : DealState) (d : Deals)
    → get_deal_balance (put_amounts id amount state d) id ≡ amount
unfolding get_deal_balance
put_amounts-balance id amount state d = rw (lookup-insert id id amount d.balance, ==_refl id) refl

pub put_amounts-state :
    (id : ℕ) (amount : ℤ) (state : DealState) (d : Deals)
    → get_deal_state (put_amounts id amount state d) id ≡ state
unfolding get_deal_state
put_amounts-state id amount state d = rw (==_refl id) refl
