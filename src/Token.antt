-- ===== src/Token.antt =====
-- The token contracts that the contracts of this repository call through `TokenClient`. They are
-- not part of the repository: `T` is their state, and a transfer is a function that the models take.
pub mod Wallets
use shelterflex_contracts.Prelude.{ℕ, ◌≡◌, ◌≢◌, Option, some, ◌+ℤ◌, ◌-ℤ◌, ℤ}
use shelterflex_contracts.Host.{Env}

-- `transfer env token from to amount`: a result of `none` is a trap.
abbrev pub Transfer : Type 0 → Type 0
Transfer T = Env → ℕ → ℕ → ℕ → ℤ → T → Option T

-- What a token contract does in a transfer: `held` is a balance, by the state of the token
-- contracts, the token and the holder.
pub record IsToken {T : Type 0} (transfer : Transfer T) (held : T → ℕ → ℕ → ℤ) : Type 0 where
  pub receives :
      (env : Env) (token from to : ℕ) (amount : ℤ) (before after : T)
      → transfer env token from to amount before ≡ some after
      → from ≢ to
      → held after token to ≡ held before token to +ℤ amount
  pub pays :
      (env : Env) (token from to : ℕ) (amount : ℤ) (before after : T)
      → transfer env token from to amount before ≡ some after
      → from ≢ to
      → held after token from ≡ held before token from -ℤ amount
  pub to_itself :
      (env : Env) (token from : ℕ) (amount : ℤ) (before after : T)
      → transfer env token from from amount before ≡ some after
      → held after token from ≡ held before token from
