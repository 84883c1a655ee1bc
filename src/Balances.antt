-- ===== src/Balances.antt =====
-- Maps from a key to an amount, as the contracts keep their balances, and the sum of one.
use shelterflex_contracts.Prelude.{
  ℕ, ◌≡◌, refl, inl, inr, none, [], ◌∷◌, arith, ℕ_discrete, ◌==◌, if◌then◌else◌, ==_refl, ==_ne,
  Bool-cases, ◌+ℤ◌, ◌≤ℤ◌, parts_of_eq, ℤ, int_laws, pos, unwrap_or, Map, lookup, insert,
  lookup-insert,
}

abbrev pub balance_at : ℕ → Map ℤ → ℤ
balance_at user m = unwrap_or (lookup user m) (pos 0)

unfoldable pub sum_balances : Map ℤ → ℤ
sum_balances [] = pos 0
sum_balances ((u, b) ∷ m) = b +ℤ sum_balances m

-- No key stands twice.
abbrev pub IsMap : Map ℤ → Type 0
IsMap [] = Unit
IsMap ((u, b) ∷ m) = (lookup u m ≡ none) × IsMap m

pub insert-IsMap : (k : ℕ) (v : ℤ) (m : Map ℤ) → IsMap m → IsMap (insert k v m)
insert-IsMap k v [] h = (refl, tt)
insert-IsMap k v ((j, b) ∷ m) h = ground (arith, insert-IsMap k v m h.1, lookup-insert j k v m)

-- A write changes the sum by the difference between the new and the old balance.
pub sum_balances-insert :
    (k : ℕ) (v : ℤ) (m : Map ℤ)
    → sum_balances (insert k v m) +ℤ balance_at k m ≡ sum_balances m +ℤ v
unfolding sum_balances
sum_balances-insert k v [] = omega int_laws
sum_balances-insert k v ((j, b) ∷ m) = elim (Bool-cases (k == j)) [
  | inl same ↦ rw same (omega int_laws)
  | inr other ↦ rw other (omega (int_laws, parts_of_eq (sum_balances-insert k v m)))
]

-- The other balances stay.
pub balance_at-insert :
    (j k : ℕ) (v : ℤ) (m : Map ℤ)
    → balance_at j (insert k v m) ≡ (if j == k then v else balance_at j m)
balance_at-insert j k v m = ground (arith, lookup-insert j k v m)

lookup-head :
    (k : ℕ) (b : ℤ) (m : Map ℤ) → ((u : ℕ) → pos 0 ≤ℤ balance_at u ((k, b) ∷ m)) → pos 0 ≤ℤ b
lookup-head k b m h = rw (==_refl k) at (h k)

lookup-tail :
    (k : ℕ) (b : ℤ) (m : Map ℤ)
    → lookup k m ≡ none
    → ((u : ℕ) → pos 0 ≤ℤ balance_at u ((k, b) ∷ m))
    → (u : ℕ) → pos 0 ≤ℤ balance_at u m
lookup-tail k b m n h u = elim (ℕ_discrete u k) [
  | yes e ↦ rw (e, n) (omega arith)
  | no ne ↦ rw (==_ne u k ne) at (h u)
]

-- Balances that are not negative have a sum that is not negative.
pub sum_balances_nonneg :
    (m : Map ℤ) → IsMap m → ((u : ℕ) → pos 0 ≤ℤ balance_at u m) → pos 0 ≤ℤ sum_balances m
unfolding sum_balances
sum_balances_nonneg [] k h = omega arith
sum_balances_nonneg ((u, b) ∷ m) k h =
    omega (int_laws, lookup-head u b m h, sum_balances_nonneg m k.1 (lookup-tail u b m k.0 h))
