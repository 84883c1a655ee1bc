-- ===== src/DealEscrow/Ledger.antt =====
-- deal_escrow/src/lib.rs: what the contract promises of its deals, as an abstract machine: an account
-- for a deal, and the movements that it takes or refuses.
use shelterflex_contracts.Prelude.{
  ℕ, ◌≡◌, refl, sym, subst, Bool, true, false, ◌&&◌, Option, none, some, List, [], ◌∷◌, arith, ◌==◌,
  if◌then◌else◌, ◌+ℤ◌, ◌-ℤ◌, ◌≤ℤ◌, ◌<ℤ◌, ltb_ℤ, leb_ℤ, eqb_ℤ, parts_of_eq, ℤ, pos,
}
use shelterflex_contracts.DealEscrow.Account.{Account}

pub data Movement : Type 0 where
  nothing : Movement
  deposited requested : ℕ → ℤ → Movement
  settled released : ℕ → Movement

-- A movement of a deal: a positive amount comes in; a positive amount up to the balance is locked
-- where nothing was; the whole of what is locked, which is positive, leaves; or the whole balance,
-- which is positive, leaves with the lock. Anything else is refused.
unfoldable pub move_own : Movement → Account → Option Account
move_own nothing a = some a
move_own (deposited id n) a =
    if ltb_ℤ (pos 0) n then some (record a { balance = a.balance +ℤ n }) else none
move_own (requested id n) a =
    if ltb_ℤ (pos 0) n && leb_ℤ n a.balance && eqb_ℤ a.locked (pos 0)
    then some (record a { locked = n })
    else none
move_own (settled id) a =
    if ltb_ℤ (pos 0) a.locked
    then some (record { balance = a.balance -ℤ a.locked; locked = pos 0 })
    else none
move_own (released id) a =
    if ltb_ℤ (pos 0) a.balance then some (record { balance = pos 0; locked = pos 0 }) else none

abbrev pub concerns : Movement → ℕ → Bool
concerns nothing j = false
concerns (deposited id n) j = j == id
concerns (requested id n) j = j == id
concerns (settled id) j = j == id
concerns (released id) j = j == id

-- The account of the deal `j` after a movement of any deal.
unfoldable pub apply : ℕ → Movement → Account → Option Account
unfolding move_own
apply j m a = if concerns m j then move_own m a else some a

unfoldable pub replay : ℕ → List Movement → Account → Option Account
replay j [] a = some a
replay j (m ∷ ms) a = elim (apply j m a) [ none ↦ none | some b ↦ replay j ms b ]

pub replay-none : (j : ℕ) (a : Account) → replay j [] a ≡ some a
unfolding replay
replay-none j a = refl

pub replay-step :
    (j : ℕ) (m : Movement) (ms : List Movement) (a b c : Account)
    → apply j m a ≡ some b
    → replay j ms b ≡ some c
    → replay j (m ∷ ms) a ≡ some c
unfolding replay
replay-step j m ms a b c e f =
    subst (λ o. elim o [ none ↦ none | some x ↦ replay j ms x ] ≡ some c) (sym e) f

pub apply-other : (j : ℕ) (m : Movement) (a : Account) → concerns m j ≡ false → apply j m a ≡ some a
unfolding apply
apply-other j m a n = rw n refl

pub apply-own :
    (j : ℕ) (m : Movement) (a : Account) → concerns m j ≡ true → apply j m a ≡ move_own m a
unfolding apply
apply-own j m a y = rw y refl

pub own-requested :
    (id : ℕ) (n : ℤ) (a : Account)
    → pos 0 <ℤ n
    → n ≤ℤ a.balance
    → a.locked ≡ pos 0
    → move_own (requested id n) a ≡ some (record a { locked = n })
unfolding move_own
own-requested id n a p c z = ground (arith, parts_of_eq z)
