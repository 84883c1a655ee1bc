-- ===== src/Slashing/Cancellation.antt =====
-- slashing_module/src/lib.rs: what a call that cancels a slash has checked and written, where it
-- returned.
use shelterflex_contracts.Prelude.{ℕ, ◌≡◌, inl, inr, true, none, some, arith, Option-cases, update}
use shelterflex_contracts.Host.{Env, ok}
use shelterflex_contracts.Slashing.Types.{require_admin, is_open, PendingSlash, State, is_cancelled}
use shelterflex_contracts.Slashing.Finality.{cancel_slash}

module _ (env : Env) (caller id : ℕ) (s t : State) where
  pub record IsCancelled : Type 0 where
    pub pending : PendingSlash
    pub was_pending : s.pending_slash id ≡ some pending
    pub was_open : is_open pending.status ≡ true
    pub signed : env.authorized caller ≡ true
    pub by_admin : s.admin ≡ some caller
    pub written :
        t.pending_slash
        ≡ update id (some (record pending { status = is_cancelled })) s.pending_slash
    pub revealed : t.commitment_revealed ≡ update id none s.commitment_revealed
    pub same_next : t.next_slash_id ≡ s.next_slash_id
    pub same_staked : t.staked_balance ≡ s.staked_balance
    pub same_slashed : t.slashed_amount ≡ s.slashed_amount

  cancelled_with :
      (pending : PendingSlash)
      → s.pending_slash id ≡ some pending
      → cancel_slash env caller id s ≡ ok t
      → IsCancelled
  unfolding cancel_slash require_admin
  cancelled_with pending e h = record {
    pending = pending;
    was_pending = e;
    was_open = ground arith;
    signed = ground arith;
    by_admin = ground arith;
    written = ground arith;
    revealed = ground arith;
    same_next = ground arith;
    same_staked = ground arith;
    same_slashed = ground arith;
  }

  none_cancelled : s.pending_slash id ≡ none → cancel_slash env caller id s ≡ ok t → ⊥
  unfolding cancel_slash
  none_cancelled e h = ground arith

  pub cancel_ok : cancel_slash env caller id s ≡ ok t → IsCancelled
  cancel_ok h = elim (Option-cases (s.pending_slash id)) [
    | inl e ↦ absurd (none_cancelled e h)
    | inr (pending, e) ↦ cancelled_with pending e h
  ]
