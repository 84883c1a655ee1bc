-- ===== src/Slashing/Resolution.antt =====
-- slashing_module/src/lib.rs: what a call that finalises a slash has checked and written, where it
-- returned.
use shelterflex_contracts.Prelude.{
  ℕ, ◌≤◌, ◌≡◌, ◌⊎◌, inl, inr, true, false, none, some, arith, if◌then◌else◌, Bool-cases,
  Option-cases, unwrap_or, update,
}
use shelterflex_contracts.Host.{Env, ok}
use shelterflex_contracts.Slashing.Types.{
  is_submitter, require_slasher, get_staked_balance, get_total_slashed, is_open, PendingSlash,
  State, is_finalized,
}
use shelterflex_contracts.Slashing.Finality.{slash_validator, slash_proposed, finalize_slash}
use shelterflex_contracts.Slashing.Reduction.{
  pick_then, pick_else, taken, validator_ok, proposed_ok, IsReduced,
}

-- The state in which the slash is marked as finalised, before the stake is reduced.
unfoldable pub marked : ℕ → PendingSlash → State → State
marked id pending s = record s {
  pending_slash = update id (some (record pending { status = is_finalized })) s.pending_slash;
}

pub record IsFinalized (env : Env) (caller id : ℕ) (s t : State) : Type 0 where
  pub signed : env.authorized caller ≡ true
  pub role :
      (s.admin ≡ some caller) ⊎ ((is_submitter s caller ≡ true) ⊎ (s.bond_contract ≡ some caller))
  pub pending : PendingSlash
  pub was_pending : s.pending_slash id ≡ some pending
  pub was_open : is_open pending.status ≡ true
  pub due : pending.deadline ≤ env.timestamp
  pub disclosed :
      (pending.is_validator ≡ false) ⊎ (unwrap_or (s.commitment_revealed id) false ≡ true)
  pub written :
      t.pending_slash ≡ update id (some (record pending { status = is_finalized })) s.pending_slash
  pub same_revealed : t.commitment_revealed ≡ s.commitment_revealed
  pub same_next : t.next_slash_id ≡ s.next_slash_id
  pub reduced :
      (IsReduced pending.actor pending.amount s t)
      ⊎ ((t.staked_balance ≡ s.staked_balance) × (t.slashed_amount ≡ s.slashed_amount))
  pub jailed :
      t.jailed
      ≡ (if pending.is_validator then update pending.actor (some true) s.jailed else s.jailed)

module _ (env : Env) (caller id : ℕ) (s t : State) where
  record PassedGates (pending : PendingSlash) : Type 0 where
    signed : env.authorized caller ≡ true
    role :
        (s.admin ≡ some caller) ⊎ ((is_submitter s caller ≡ true) ⊎ (s.bond_contract ≡ some caller))
    was_open : is_open pending.status ≡ true
    due : pending.deadline ≤ env.timestamp
    disclosed : (pending.is_validator ≡ false) ⊎ (unwrap_or (s.commitment_revealed id) false ≡ true)
    applied :
        (if pending.is_validator
          then slash_validator env caller pending (marked id pending s)
          else slash_proposed pending (marked id pending s))
        ≡ ok t

  gates_ok :
      (pending : PendingSlash)
      → s.pending_slash id ≡ some pending
      → finalize_slash env caller id s ≡ ok t
      → PassedGates pending
  unfolding finalize_slash require_slasher marked
  gates_ok pending e h = record {
    signed = ground arith;
    role = ground arith;
    was_open = ground arith;
    due = ground arith;
    disclosed = ground arith;
    applied = ground arith;
  }

  -- The stakes in the marked state are those before.
  unmarked :
      (pending : PendingSlash)
      → IsReduced pending.actor pending.amount (marked id pending s) t
      → IsReduced pending.actor pending.amount s t
  unfolding marked taken get_staked_balance get_total_slashed
  unmarked pending c = record { staked = c.staked; slashed = c.slashed }

  validator-IsFinalized :
      (pending : PendingSlash)
      → s.pending_slash id ≡ some pending
      → PassedGates pending
      → pending.is_validator ≡ true
      → IsFinalized env caller id s t
  unfolding marked
  validator-IsFinalized pending e g v =
      let c =
        validator_ok env caller pending (marked id pending s) t
          (pick_then pending.is_validator _ _ g.applied v) in
      record {
        signed = g.signed;
        role = g.role;
        pending = pending;
        was_pending = e;
        was_open = g.was_open;
        due = g.due;
        disclosed = g.disclosed;
        written = c.kept.same_pending;
        same_revealed = c.kept.same_revealed;
        same_next = c.kept.same_next;
        reduced = inl (unmarked pending c.reduced);
        jailed = rw v c.now_jailed;
      }

  proposed-IsFinalized :
      (pending : PendingSlash)
      → s.pending_slash id ≡ some pending
      → PassedGates pending
      → pending.is_validator ≡ false
      → IsFinalized env caller id s t
  unfolding marked
  proposed-IsFinalized pending e g v =
      let c =
        proposed_ok env caller pending (marked id pending s) t
          (pick_else pending.is_validator _ _ g.applied v) in
      record {
        signed = g.signed;
        role = g.role;
        pending = pending;
        was_pending = e;
        was_open = g.was_open;
        due = g.due;
        disclosed = g.disclosed;
        written = c.kept.same_pending;
        same_revealed = c.kept.same_revealed;
        same_next = c.kept.same_next;
        reduced = elim c.reduced [ inl r ↦ inl (unmarked pending r) | inr r ↦ inr r ];
        jailed = rw v c.same_jailed;
      }

  not_finalized : s.pending_slash id ≡ none → finalize_slash env caller id s ≡ ok t → ⊥
  unfolding finalize_slash require_slasher
  not_finalized e h = ground arith

  -- What a call of `finalize_slash` that returned has checked and written.
  pub finalize_slash-IsFinalized :
      finalize_slash env caller id s ≡ ok t → IsFinalized env caller id s t
  finalize_slash-IsFinalized h = elim (Option-cases (s.pending_slash id)) [
    | inl e ↦ absurd (not_finalized e h)
    | inr (pending, e) ↦ elim (Bool-cases pending.is_validator) [
      | inl v ↦ validator-IsFinalized pending e (gates_ok pending e h) v
      | inr v ↦ proposed-IsFinalized pending e (gates_ok pending e h) v
    ]
  ]
