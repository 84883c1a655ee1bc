-- ===== src/Slashing/Reduction.antt =====
-- slashing_module/src/lib.rs: what reducing a stake, for a validator and for a proposed slash, writes.
use shelterflex_contracts.Prelude.{
  ℕ, ◌≡◌, sym, ap, ◌⊎◌, inl, inr, Bool, true, false, some, arith, if◌then◌else◌, Bool-cases, ◌+ℤ◌,
  ◌-ℤ◌, ltb_ℤ, min_ℤ, ℤ, pos, update,
}
use shelterflex_contracts.Host.{>>=-elim, ok-injective, Outcome, Env, ok}
use shelterflex_contracts.Slashing.Types.{
  get_staked_balance, get_total_slashed, PendingSlash, Error, State,
}
use shelterflex_contracts.Slashing.Finality.{reduce_stake, slash_validator, slash_proposed}

pub pick_then :
    (b : Bool) (x y : Outcome Error State) {r : Outcome Error State}
    → (if b then x else y) ≡ r
    → b ≡ true
    → x ≡ r
pick_then true x y h e = h
pick_then false x y h e = absurd (cc)

pub pick_else :
    (b : Bool) (x y : Outcome Error State) {r : Outcome Error State}
    → (if b then x else y) ≡ r
    → b ≡ false
    → y ≡ r
pick_else true x y h e = absurd (cc)
pick_else false x y h e = h

-- The amount that is taken from the stake of the actor.
unfoldable pub taken : ℕ → ℤ → State → ℤ
taken actor amount s = min_ℤ amount (get_staked_balance s actor)

pub record IsReduced (actor : ℕ) (amount : ℤ) (s t : State) : Type 0 where
  pub staked :
      t.staked_balance
      ≡ update actor (some (get_staked_balance s actor -ℤ taken actor amount s)) s.staked_balance
  pub slashed :
      t.slashed_amount
      ≡ update actor (some (get_total_slashed s actor +ℤ taken actor amount s)) s.slashed_amount

reduce_ok :
    (actor : ℕ) (amount : ℤ) (s t : State) (actual : ℤ)
    → reduce_stake actor amount s ≡ ok (t, actual)
    → IsReduced actor amount s t
      × ((t.pending_slash ≡ s.pending_slash)
          × ((t.commitment_revealed ≡ s.commitment_revealed) × (t.next_slash_id ≡ s.next_slash_id)))
unfolding reduce_stake taken
reduce_ok actor amount s t actual h = (
  record { staked = ground arith; slashed = ground arith },
  (ground arith, (ground arith, ground arith)),
)

-- What a slash of the stake leaves as it was.
pub record KeepsSlashes (s t : State) : Type 0 where
  pub same_pending : t.pending_slash ≡ s.pending_slash
  pub same_revealed : t.commitment_revealed ≡ s.commitment_revealed
  pub same_next : t.next_slash_id ≡ s.next_slash_id

module _ (env : Env) (caller : ℕ) (pending : PendingSlash) (s t : State) where
  pub record IsValidatorSlash : Type 0 where
    pub reduced : IsReduced pending.actor pending.amount s t
    pub now_jailed : t.jailed ≡ update pending.actor (some true) s.jailed
    pub kept : KeepsSlashes s t

  pub validator_ok : slash_validator env caller pending s ≡ ok t → IsValidatorSlash
  unfolding slash_validator
  validator_ok h = >>=-elim (reduce_stake pending.actor pending.amount s) _ h λ reduced e rest.
      let (c, k) = reduce_ok pending.actor pending.amount s reduced.0 reduced.1 e in
      record {
        reduced = record { staked = ground (arith, c.staked); slashed = ground (arith, c.slashed) };
        now_jailed = ground arith;
        kept = ground (arith, k);
      }

  -- A slash that was proposed without evidence takes nothing if its amount is not positive.
  pub record IsProposedSlash : Type 0 where
    pub reduced :
        (IsReduced pending.actor pending.amount s t)
        ⊎ ((t.staked_balance ≡ s.staked_balance) × (t.slashed_amount ≡ s.slashed_amount))
    pub same_jailed : t.jailed ≡ s.jailed
    pub kept : KeepsSlashes s t

  proposed_reduced :
      (r : State × ℤ)
      → reduce_stake pending.actor pending.amount s ≡ ok r
      → ◌≡◌ {A = Outcome Error State} (ok r.0) (ok t)
      → IsProposedSlash
  unfolding reduce_stake
  proposed_reduced (u, actual) e h =
      let (c, k) = reduce_ok pending.actor pending.amount s u actual e in
      record {
        reduced =
            inl (record { staked = ground (arith, c.staked); slashed = ground (arith, c.slashed) });
        same_jailed = ground arith;
        kept = ground (arith, k);
      }

  pub proposed_ok : slash_proposed pending s ≡ ok t → IsProposedSlash
  unfolding slash_proposed
  proposed_ok h = elim (Bool-cases (ltb_ℤ (pos 0) pending.amount)) [
    | inl e ↦
        >>=-elim (reduce_stake pending.actor pending.amount s) (λ r. ok r.0) (rw e at h)
          λ r p q. proposed_reduced r p q
    | inr e ↦
        let same : s ≡ t = ok-injective (rw e at h) in
        record {
          reduced =
              inr (ap (λ u. u.staked_balance) (sym same), ap (λ u. u.slashed_amount) (sym same));
          same_jailed = ap (λ u. u.jailed) (sym same);
          kept = record {
            same_pending = ap (λ u. u.pending_slash) (sym same);
            same_revealed = ap (λ u. u.commitment_revealed) (sym same);
            same_next = ap (λ u. u.next_slash_id) (sym same);
          };
        }
  ]
