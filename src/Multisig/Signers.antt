-- ===== src/Multisig/Signers.antt =====
-- multisig_admin/src/lib.rs: lists of signers without repetition.
use shelterflex_contracts.Prelude.{
  ℕ, ◌≡◌, refl, inl, inr, true, false, List, [], ◌∷◌, ◌++◌, arith, ◌==◌, if◌then◌else◌, Bool-cases,
  contains,
}
use shelterflex_contracts.Multisig.Calls.{without}

-- No signer stands twice.
unfoldable pub Distinct : List ℕ → Type 0
Distinct [] = Unit {0}
Distinct (x ∷ xs) = (contains xs x ≡ false) × Distinct xs

unfoldable pub AllIn : List ℕ → List ℕ → Type 0
AllIn signers [] = Unit {0}
AllIn signers (x ∷ xs) = (contains signers x ≡ true) × AllIn signers xs

pub contains-push :
    (xs : List ℕ) (y x : ℕ) → contains (xs ++ y ∷ []) x ≡ (if contains xs x then true else x == y)
contains-push [] y x = ground arith
contains-push (z ∷ xs) y x = ground (arith, contains-push xs y x)

pub Distinct-push :
    (xs : List ℕ) (y : ℕ) → contains xs y ≡ false → Distinct xs → Distinct (xs ++ y ∷ [])
unfolding Distinct
Distinct-push [] y n d = (refl, tt)
Distinct-push (z ∷ xs) y n (f, d) =
    (ground (arith, contains-push xs y z), Distinct-push xs y (ground arith) d)

pub AllIn-push :
    (signers xs : List ℕ) (y : ℕ)
    → contains signers y ≡ true
    → AllIn signers xs
    → AllIn signers (xs ++ y ∷ [])
unfolding AllIn
AllIn-push signers [] y m a = (m, tt)
AllIn-push signers (z ∷ xs) y m (f, a) = (f, AllIn-push signers xs y m a)

contains-without :
    (xs : List ℕ) (y x : ℕ) → contains xs x ≡ false → contains (without y xs) x ≡ false
unfolding without
contains-without [] y x h = refl
contains-without (z ∷ xs) y x h = ground (arith, contains-without xs y x)

pub Distinct-without : (xs : List ℕ) (y : ℕ) → Distinct xs → Distinct (without y xs)
unfolding without Distinct
Distinct-without [] y d = tt
Distinct-without (z ∷ xs) y (f, d) = elim (Bool-cases (z == y)) [
  | inl same ↦ rw same (Distinct-without xs y d)
  | inr other ↦ rw other (contains-without xs y z f, Distinct-without xs y d)
]

pub AllIn-without : (signers xs : List ℕ) (y : ℕ) → AllIn signers xs → AllIn signers (without y xs)
unfolding without AllIn
AllIn-without signers [] y a = tt
AllIn-without signers (z ∷ xs) y (f, a) = elim (Bool-cases (z == y)) [
  | inl same ↦ rw same (AllIn-without signers xs y a)
  | inr other ↦ rw other (f, AllIn-without signers xs y a)
]

-- Taking a signer out again that was put at the end of a list without it.
pub without-push : (xs : List ℕ) (y : ℕ) → contains xs y ≡ false → without y (xs ++ y ∷ []) ≡ xs
unfolding without
without-push [] y n = ground arith
without-push (z ∷ xs) y n = ground (arith, without-push xs y)
