-- ===== src/Prelude/Int.antt =====
-- Signed integers over the native numbers, for Rust's i128.
use Prim.Native.Nat.{ℕ, suc, ◌+◌, ◌-◌, ◌*◌, ◌/◌, ◌≤◌, ◌<◌}
use mathlib.Core.Path.{◌≡◌, refl, ap}
use mathlib.Core.Bool.{Bool, ◌&&◌}
use native.Mathlib.Omega.{arith}
use shelterflex_contracts.Prelude.Booleans.{ltb, leb, ◌==◌, if◌then◌else◌}

-- `negsuc n` is -(n + 1).
pub data ℤ : Type 0 where
  pos : ℕ → ℤ
  negsuc : ℕ → ℤ

abbrev pub pos_part : ℤ → ℕ
pos_part (pos n) = n
pos_part (negsuc n) = 0

abbrev pub neg_part : ℤ → ℕ
neg_part (pos n) = 0
neg_part (negsuc n) = suc n

-- a - b, as an integer.
abbrev pub sub_ℕ : ℕ → ℕ → ℤ
sub_ℕ a b = if leb b a then pos (a - b) else negsuc (b - a - 1)

infixl 65 ◌+ℤ◌ ◌-ℤ◌
infixl 70 ◌*ℤ◌ ◌/ℤ◌
infix 50 ◌≤ℤ◌ ◌<ℤ◌
unfoldable pub ◌+ℤ◌ : ℤ → ℤ → ℤ
a +ℤ b = sub_ℕ (pos_part a + pos_part b) (neg_part a + neg_part b)

unfoldable pub ◌-ℤ◌ : ℤ → ℤ → ℤ
a -ℤ b = sub_ℕ (pos_part a + neg_part b) (neg_part a + pos_part b)

unfoldable pub ◌*ℤ◌ : ℤ → ℤ → ℤ
a *ℤ b =
    sub_ℕ (pos_part a * pos_part b + neg_part a * neg_part b)
      (pos_part a * neg_part b + neg_part a * pos_part b)

-- Rust's `/` by a positive number: the quotient is rounded towards zero.
unfoldable pub ◌/ℤ◌ : ℤ → ℕ → ℤ
pos n /ℤ d = pos (n / d)
negsuc n /ℤ d = sub_ℕ 0 (suc n / d)

abbrev pub ◌≤ℤ◌ : ℤ → ℤ → Type 0
a ≤ℤ b = pos_part a + neg_part b ≤ pos_part b + neg_part a

abbrev pub ◌<ℤ◌ : ℤ → ℤ → Type 0
a <ℤ b = pos_part a + neg_part b < pos_part b + neg_part a

abbrev pub ltb_ℤ : ℤ → ℤ → Bool
ltb_ℤ a b = ltb (pos_part a + neg_part b) (pos_part b + neg_part a)

abbrev pub leb_ℤ : ℤ → ℤ → Bool
leb_ℤ a b = leb (pos_part a + neg_part b) (pos_part b + neg_part a)

abbrev pub eqb_ℤ : ℤ → ℤ → Bool
eqb_ℤ a b = pos_part a + neg_part b == pos_part b + neg_part a

abbrev pub min_ℤ : ℤ → ℤ → ℤ
min_ℤ a b = if leb_ℤ a b then a else b

-- One lemma for each operation lets `omega` work with the operations shut.
pub +ℤ_parts :
    (a b : ℤ)
    → pos_part (a +ℤ b) + neg_part a + neg_part b ≡ neg_part (a +ℤ b) + pos_part a + pos_part b
unfolding ◌+ℤ◌
+ℤ_parts a b = ground arith

pub -ℤ_parts :
    (a b : ℤ)
    → pos_part (a -ℤ b) + neg_part a + pos_part b ≡ neg_part (a -ℤ b) + pos_part a + neg_part b
unfolding ◌-ℤ◌
-ℤ_parts a b = ground arith

pub eq_of_parts : (a b : ℤ) → pos_part a + neg_part b ≡ pos_part b + neg_part a → a ≡ b
eq_of_parts a b h = ground arith

-- An equation of integers, for `omega` to read.
pub parts_of_eq : {a b : ℤ} → a ≡ b → (pos_part a ≡ pos_part b) × (neg_part a ≡ neg_part b)
parts_of_eq e = (ap pos_part e, ap neg_part e)

pub ruleset int_laws = (arith, +ℤ_parts, -ℤ_parts, eq_of_parts)

pub pos-+ℤ : (a b : ℕ) → pos a +ℤ pos b ≡ pos (a + b)
unfolding ◌+ℤ◌
pos-+ℤ a b = ground arith

pub pos-sub_ℤ : (a b : ℕ) → b ≤ a → pos a -ℤ pos b ≡ pos (a - b)
unfolding ◌-ℤ◌
pos-sub_ℤ a b h = ground arith

pub pos-*ℤ : (a b : ℕ) → pos a *ℤ pos b ≡ pos (a * b)
unfolding ◌*ℤ◌
pos-*ℤ a b = ground arith

pub add-zero_ℤ : (a : ℤ) → a +ℤ pos 0 ≡ a
add-zero_ℤ a = omega int_laws

pub zero-add_ℤ : (a : ℤ) → pos 0 +ℤ a ≡ a
zero-add_ℤ a = omega int_laws

-- A value that is not negative is a natural number.
pub nonneg_pos : (a : ℤ) → pos 0 ≤ℤ a → (n : ℕ) × (a ≡ pos n)
nonneg_pos (pos n) h = (n, refl)
nonneg_pos (negsuc n) h = absurd (omega arith)

-- The range of i128: from -2^127 up to 2^127 - 1.
abbrev pub fits_i128 : ℤ → Bool
fits_i128 a =
    ltb (pos_part a) 170141183460469231731687303715884105728
    && leb (neg_part a) 170141183460469231731687303715884105728

-- `saturating_sub` stays within the range of an i128.
unfoldable pub saturating_sub : ℤ → ℤ → ℤ
saturating_sub a b =
    if leb_ℤ (a -ℤ b) (pos 170141183460469231731687303715884105727)
    then if leb_ℤ (negsuc 170141183460469231731687303715884105727) (a -ℤ b)
      then a -ℤ b
      else negsuc 170141183460469231731687303715884105727
    else pos 170141183460469231731687303715884105727

pub saturating_sub_le : (a b c : ℤ) → pos 0 <ℤ c → c ≤ℤ saturating_sub a b → c ≤ℤ (a -ℤ b)
unfolding saturating_sub
saturating_sub_le a b c p h = ground arith

pub neg_part_zero : (a : ℤ) → pos 0 ≤ℤ a → neg_part a ≡ 0
neg_part_zero (pos n) h = refl
neg_part_zero (negsuc n) h = absurd (omega arith)

pub pos-pos_part : (a : ℤ) → pos 0 ≤ℤ a → a ≡ pos (pos_part a)
pos-pos_part (pos n) h = refl
pos-pos_part (negsuc n) h = absurd (omega arith)
