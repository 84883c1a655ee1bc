-- ===== src/Host.antt =====
-- The Soroban host as an entry point sees it. A call ends with a value, with an error of the
-- contract, or with a trap (a panic, a failed `require_auth`, an arithmetic overflow: the release
-- profile of Cargo.toml sets `overflow-checks`). Only the first commits the storage writes.
use shelterflex_contracts.Prelude.{
  ℕ, ◌<◌, ◌≡◌, refl, Bool, true, false, not, ◌&&◌, List, contains, Option, none, some, arith, ltb,
  if◌then◌else◌, fits_i128, ℤ,
}

pub data Outcome (E : Type 0) (A : Type 0) : Type 0 where
  ok : A → Outcome E A
  err : E → Outcome E A
  trap : Outcome E A

-- What the ledger hands to a call: who has authorised it, whose `require_auth` passes again in the
-- same call, the time, the ledger's sequence number, the address of the contract itself, and which
-- code is uploaded. Addresses and hashes are only compared, so they are numbers.
pub record Env : Type 0 where
  pub authorized : ℕ → Bool
  pub reauthorized : ℕ → Bool
  pub timestamp : ℕ  -- u64
  pub sequence : ℕ  -- u32
  pub current : ℕ
  pub uploaded : ℕ → Bool

infixl 5 ◌>>=◌ ◌>>◌
abbrev pub ◌>>=◌ : {E A B : Type 0} → Outcome E A → (A → Outcome E B) → Outcome E B
ok a >>= f = f a
err e >>= f = err e
trap >>= f = trap

abbrev pub ◌>>◌ : {E A B : Type 0} → Outcome E A → Outcome E B → Outcome E B
m >> k = m >>= λ _. k

-- `if test { return Err(e) }`
abbrev pub fail_if : {E : Type 0} → Bool → E → Outcome E (Unit {0})
fail_if true e = err e
fail_if false e = ok tt

-- `.ok_or(e)?`
abbrev pub ok_or : {E A : Type 0} → Option A → E → Outcome E A
ok_or none e = err e
ok_or (some a) e = ok a

-- `.unwrap()` and `.expect(…)`
abbrev pub unwrap : {E A : Type 0} → Option A → Outcome E A
unwrap none = trap
unwrap (some a) = ok a

-- `.map_err(f)`
abbrev pub map_err : {E F A : Type 0} → (E → F) → Outcome E A → Outcome F A
map_err f (ok a) = ok a
map_err f (err e) = err (f e)
map_err f trap = trap

-- `address.require_auth()`
abbrev pub require_auth : {E : Type 0} → Env → ℕ → Outcome E (Unit {0})
require_auth env a = if env.authorized a then ok tt else trap

-- The same where the call has required the addresses of `seen` already: whether it passes again for
-- one of them is up to the host.
abbrev pub require_auth_after : {E : Type 0} → Env → List ℕ → ℕ → Outcome E (Unit {0})
require_auth_after env seen a =
    require_auth env a >> (if contains seen a && not (env.reauthorized a) then trap else ok tt)

-- `env.deployer().update_current_contract_wasm(hash)`, which traps where no code with the hash is
-- uploaded. What it writes is part of the contract's state.
abbrev pub require_uploaded : {E : Type 0} → Env → ℕ → Outcome E (Unit {0})
require_uploaded env hash = if env.uploaded hash then ok tt else trap

-- i128 arithmetic that traps where it overflows.
abbrev pub checked_i128 : {E : Type 0} → ℤ → Outcome E ℤ
checked_i128 a = if fits_i128 a then ok a else trap

-- u64 and u32 results are not negative, so only the upper end is tested.
abbrev pub checked_u64 : {E : Type 0} → ℕ → Outcome E ℕ
checked_u64 n = if ltb n 18446744073709551616 then ok n else trap

abbrev pub checked_u32 : {E : Type 0} → ℕ → Outcome E ℕ
checked_u32 n = if ltb n 4294967296 then ok n else trap

-- What the ledger keeps of a call: the new state if the call returned, and the old one otherwise.
abbrev pub commit : {E S : Type 0} → S → Outcome E S → S
commit s (ok t) = t
commit s (err e) = s
commit s trap = s

-- The new state of a call that returns a value too.
abbrev pub state_of : {E S A : Type 0} → Outcome E (S × A) → Outcome E S
state_of (ok (s, a)) = ok s
state_of (err e) = err e
state_of trap = trap

-- From a chain that returned to its first step and the rest, handed on to keep long chains small.
pub >>=-elim {ℓ} :
    {E A B : Type 0} {P : Type ℓ} (m : Outcome E A) (f : A → Outcome E B) {b : B}
    → (m >>= f) ≡ ok b
    → ((a : A) → m ≡ ok a → f a ≡ ok b → P)
    → P
>>=-elim (ok a) f h k = k a refl h
>>=-elim (err e) f h k = absurd (cc)
>>=-elim trap f h k = absurd (cc)

-- The same as a pair.
pub >>=-eq-ok :
    {E A B : Type 0} (step : Outcome E A) (next : A → Outcome E B) {out : B}
    → (step >>= next) ≡ ok out
    → (mid : A) × (step ≡ ok mid) × (next mid ≡ ok out)
>>=-eq-ok step next h = >>=-elim step next h λ mid p q. (mid, p, q)

pub ok-injective : {E A : Type 0} {a b : A} → ◌≡◌ {A = Outcome E A} (ok a) (ok b) → a ≡ b
ok-injective h = cc

-- The steps of a call that returned, each read backwards.
pub fail_if_ok : {E : Type 0} (b : Bool) (e : E) {u : Unit {0}} → fail_if b e ≡ ok u → b ≡ false
fail_if_ok true e h = cc
fail_if_ok false e h = refl

pub ok_or_ok : {E A : Type 0} (o : Option A) (e : E) {a : A} → ok_or o e ≡ ok a → o ≡ some a
ok_or_ok none e h = cc
ok_or_ok (some b) e h = cc

pub unwrap_ok : {E A : Type 0} (o : Option A) {a : A} → unwrap {E = E} o ≡ ok a → o ≡ some a
unwrap_ok none h = cc
unwrap_ok (some b) h = cc

pub require_auth_ok :
    {E : Type 0} (env : Env) (a : ℕ) {u : Unit {0}}
    → require_auth {E = E} env a ≡ ok u
    → env.authorized a ≡ true
require_auth_ok env a h = ground arith

pub checked_i128_ok :
    {E : Type 0} (a : ℤ) {b : ℤ} → checked_i128 {E = E} a ≡ ok b → (b ≡ a) × (fits_i128 a ≡ true)
checked_i128_ok a h = ground arith

pub checked_u64_ok :
    {E : Type 0} (a : ℕ) {b : ℕ}
    → checked_u64 {E = E} a ≡ ok b
    → (b ≡ a) × (a < 18446744073709551616)
checked_u64_ok a h = ground arith

pub checked_u32_ok :
    {E : Type 0} (a : ℕ) {b : ℕ} → checked_u32 {E = E} a ≡ ok b → (b ≡ a) × (a < 4294967296)
checked_u32_ok a h = ground arith

pub state_of_ok :
    {E S A : Type 0} (m : Outcome E (S × A)) {s : S} → state_of m ≡ ok s → (a : A) × (m ≡ ok (s, a))
state_of_ok (ok (t, a)) h = (a, cc)
state_of_ok (err e) h = absurd (cc)
state_of_ok trap h = absurd (cc)
