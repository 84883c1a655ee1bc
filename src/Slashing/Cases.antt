-- ===== src/Slashing/Cases.antt =====
-- slashing_module/src/lib.rs: one case for all calls that touch no pending slash.
use shelterflex_contracts.Prelude.{ℕ, ◌≡◌, refl, ◌⊎◌, inl, inr, Bool, true, false, List, arith}
use shelterflex_contracts.Host.{Env}
use shelterflex_contracts.Slashing.Types.{Offence, State}
use shelterflex_contracts.Slashing.Calls.{
  init, configure_tiers, set_submitter, set_staked_balance, set_challenge_window, approve_unjail,
  unjail, set_bond_contract, slash, pause, unpause,
}
use shelterflex_contracts.Slashing.Reduction.{KeepsSlashes}
use shelterflex_contracts.Slashing.Machine.{
  step, Call, inits, pauses, unpauses, unjails, configures, sets_submitter, sets_balance,
  sets_window, approves_unjail, sets_bond, cancels, finalizes, slashes, submits, reveals, proposes,
}

-- The call does not write a staked balance by hand.
unfoldable pub keeps_stakes : Call → Bool
keeps_stakes (sets_balance a actor balance) = false
keeps_stakes _ = true

pub record SameStakes (s t : State) : Type 0 where
  pub same_staked : t.staked_balance ≡ s.staked_balance
  pub same_slashed : t.slashed_amount ≡ s.slashed_amount

module _ (hash : List ℕ → ℕ) (env : Env) (s : State) where
  pub record IsQuiet (c : Call) : Type 0 where
    pub slashes_kept : KeepsSlashes s (step hash env c s)
    pub stakes : (keeps_stakes c ≡ false) ⊎ SameStakes s (step hash env c s)

  pub record Cases {ℓ} (P : Call → Type ℓ) : Type ℓ where
    pub on_quiet : (c : Call) → IsQuiet c → P c
    pub on_submit : (a commitment actor : ℕ) (kind : Offence) → P (submits a commitment actor kind)
    pub on_reveal : (a id : ℕ) (evidence salt : List ℕ) → P (reveals a id evidence salt)
    pub on_propose : (a actor bps : ℕ) → P (proposes a actor bps)
    pub on_finalize : (a id : ℕ) → P (finalizes a id)
    pub on_cancel : (a id : ℕ) → P (cancels a id)

  pub by_cases {ℓ} : {P : Call → Type ℓ} → Cases P → (c : Call) → P c
  unfolding step keeps_stakes init configure_tiers set_submitter set_staked_balance
      set_challenge_window approve_unjail unjail set_bond_contract slash pause unpause
  by_cases k (submits a commitment actor kind) = k.on_submit a commitment actor kind
  by_cases k (reveals a id evidence salt) = k.on_reveal a id evidence salt
  by_cases k (proposes a actor bps) = k.on_propose a actor bps
  by_cases k (finalizes a id) = k.on_finalize a id
  by_cases k (cancels a id) = k.on_cancel a id
  by_cases k (sets_balance a actor balance) =
      k.on_quiet (sets_balance a actor balance)
        (record { slashes_kept = ground arith; stakes = inl refl })
  by_cases k (inits a) =
      k.on_quiet (inits a) (record { slashes_kept = ground arith; stakes = inr (ground arith) })
  by_cases k (pauses a) =
      k.on_quiet (pauses a) (record { slashes_kept = ground arith; stakes = inr (ground arith) })
  by_cases k (unpauses a) =
      k.on_quiet (unpauses a) (record { slashes_kept = ground arith; stakes = inr (ground arith) })
  by_cases k (unjails a) =
      k.on_quiet (unjails a) (record { slashes_kept = ground arith; stakes = inr (ground arith) })
  by_cases k (configures a double down invalid most) =
      k.on_quiet (configures a double down invalid most)
        (record { slashes_kept = ground arith; stakes = inr (ground arith) })
  by_cases k (sets_submitter a who enabled) =
      k.on_quiet (sets_submitter a who enabled)
        (record { slashes_kept = ground arith; stakes = inr (ground arith) })
  by_cases k (sets_window a n) =
      k.on_quiet (sets_window a n)
        (record { slashes_kept = ground arith; stakes = inr (ground arith) })
  by_cases k (approves_unjail a actor) =
      k.on_quiet (approves_unjail a actor)
        (record { slashes_kept = ground arith; stakes = inr (ground arith) })
  by_cases k (sets_bond a bond) =
      k.on_quiet (sets_bond a bond)
        (record { slashes_kept = ground arith; stakes = inr (ground arith) })
  by_cases k (slashes a who amount inspection reason) =
      k.on_quiet (slashes a who amount inspection reason)
        (record { slashes_kept = ground arith; stakes = inr (ground arith) })
