-- ===== src/Slashing/Effects.antt =====
-- slashing_module/src/lib.rs: what a call that touches a pending slash has checked and written, where
-- it returned.
use shelterflex_contracts.Prelude.{
  ℕ, ◌+◌, ◌≡◌, refl, ◌⊎◌, inl, inr, true, false, none, some, List, ◌++◌, arith, if◌then◌else◌,
  Option-cases, ℤ, unwrap_or, update,
}
use shelterflex_contracts.Host.{Outcome, Env, ok, err, trap}
use shelterflex_contracts.Slashing.Types.{
  get_tier_bps, get_max_slash_bps, require_submitter, require_slasher, get_staked_balance,
  is_jailed, get_challenge_window, min_ℕ, is_open, slash_amount, Offence, PendingSlash, Error,
  State, is_pending, no_offence,
}
use shelterflex_contracts.Slashing.Evidence.{
  next_slash_id, submit_evidence, hash_commitment, reveal_evidence, propose_slash,
}

-- A new slash of the actor, at the next number.
pub record IsCreated (env : Env) (actor : ℕ) (s t : State) : Type 0 where
  pub pending : PendingSlash
  pub is_new : is_open pending.status ≡ true
  pub of_actor : pending.actor ≡ actor
  pub deadline : pending.deadline ≡ env.timestamp + get_challenge_window s
  pub next : t.next_slash_id ≡ some (unwrap_or s.next_slash_id 0 + 1)
  pub written :
      t.pending_slash ≡ update (unwrap_or s.next_slash_id 0 + 1) (some pending) s.pending_slash
  pub same_staked : t.staked_balance ≡ s.staked_balance
  pub same_slashed : t.slashed_amount ≡ s.slashed_amount

pub record IsSubmitted (env : Env) (commitment actor : ℕ) (s t : State) : Type 0 where
  pub created : IsCreated env actor s t
  pub committed : (created.pending).evidence_hash ≡ some commitment
  pub unrevealed :
      t.commitment_revealed
      ≡ update (unwrap_or s.next_slash_id 0 + 1) (some false) s.commitment_revealed
  pub not_jailed : is_jailed s actor ≡ false

with-IsSubmitted :
    (env : Env) (a commitment actor : ℕ) (kind : Offence) (s t : State) (id : ℕ) (amount : ℤ)
    → slash_amount (get_staked_balance s actor) (min_ℕ (get_tier_bps s kind) (get_max_slash_bps s))
      ≡ ok amount
    → submit_evidence env a commitment actor kind s ≡ ok (t, id)
    → IsSubmitted env commitment actor s t
unfolding submit_evidence next_slash_id require_submitter
with-IsSubmitted env a commitment actor kind s t id amount e h = record {
  created = record {
    pending = record {
      id = unwrap_or s.next_slash_id 0 + 1;
      actor = actor;
      amount = amount;
      deadline = env.timestamp + get_challenge_window s;
      status = is_pending;
      is_validator = true;
      evidence_hash = some commitment;
      offence = kind;
      submitter = some a;
      penalty_bps = min_ℕ (get_tier_bps s kind) (get_max_slash_bps s);
      inspection_id = none;
      reason = none;
    };
    is_new = refl;
    of_actor = refl;
    deadline = refl;
    next = ground arith;
    written = ground arith;
    same_staked = ground arith;
    same_slashed = ground arith;
  };
  committed = refl;
  unrevealed = ground arith;
  not_jailed = ground arith;
}

submitted_from :
    (env : Env) (a commitment actor : ℕ) (kind : Offence) (s t : State) (id : ℕ)
    (k : Outcome Error ℤ)
    → slash_amount (get_staked_balance s actor) (min_ℕ (get_tier_bps s kind) (get_max_slash_bps s))
      ≡ k
    → submit_evidence env a commitment actor kind s ≡ ok (t, id)
    → (amount : ℤ) × (k ≡ ok amount)
unfolding submit_evidence require_submitter
submitted_from env a commitment actor kind s t id (ok amount) e h = (amount, refl)
submitted_from env a commitment actor kind s t id (err x) e h = absurd (ground arith)
submitted_from env a commitment actor kind s t id trap e h = absurd (ground arith)

pub submit_ok :
    (env : Env) (a commitment actor : ℕ) (kind : Offence) (s t : State) (id : ℕ)
    → submit_evidence env a commitment actor kind s ≡ ok (t, id)
    → IsSubmitted env commitment actor s t
submit_ok env a commitment actor kind s t id h =
    let (amount, e) = submitted_from env a commitment actor kind s t id _ refl h in
    with-IsSubmitted env a commitment actor kind s t id amount e h

pub record IsProposed (env : Env) (actor : ℕ) (s t : State) : Type 0 where
  pub created : IsCreated env actor s t
  pub no_evidence : (created.pending).is_validator ≡ false
  pub same_revealed : t.commitment_revealed ≡ s.commitment_revealed

with-IsProposed :
    (env : Env) (a actor bps : ℕ) (s t : State) (id : ℕ) (amount : ℤ)
    → slash_amount (get_staked_balance s actor) (min_ℕ bps (get_max_slash_bps s)) ≡ ok amount
    → propose_slash env a actor bps s ≡ ok (t, id)
    → IsProposed env actor s t
unfolding propose_slash next_slash_id require_slasher
with-IsProposed env a actor bps s t id amount e h = record {
  created = record {
    pending = record {
      id = unwrap_or s.next_slash_id 0 + 1;
      actor = actor;
      amount = amount;
      deadline = env.timestamp + get_challenge_window s;
      status = is_pending;
      is_validator = false;
      evidence_hash = none;
      offence = no_offence;
      submitter = some a;
      penalty_bps = min_ℕ bps (get_max_slash_bps s);
      inspection_id = none;
      reason = none;
    };
    is_new = refl;
    of_actor = refl;
    deadline = refl;
    next = ground arith;
    written = ground arith;
    same_staked = ground arith;
    same_slashed = ground arith;
  };
  no_evidence = refl;
  same_revealed = ground arith;
}

proposed_from :
    (env : Env) (a actor bps : ℕ) (s t : State) (id : ℕ) (k : Outcome Error ℤ)
    → slash_amount (get_staked_balance s actor) (min_ℕ bps (get_max_slash_bps s)) ≡ k
    → propose_slash env a actor bps s ≡ ok (t, id)
    → (amount : ℤ) × (k ≡ ok amount)
unfolding propose_slash require_slasher
proposed_from env a actor bps s t id (ok amount) e h = (amount, refl)
proposed_from env a actor bps s t id (err x) e h = absurd (ground arith)
proposed_from env a actor bps s t id trap e h = absurd (ground arith)

pub propose_ok :
    (env : Env) (a actor bps : ℕ) (s t : State) (id : ℕ)
    → propose_slash env a actor bps s ≡ ok (t, id)
    → IsProposed env actor s t
propose_ok env a actor bps s t id h =
    let (amount, e) = proposed_from env a actor bps s t id _ refl h in
    with-IsProposed env a actor bps s t id amount e h

-- A commitment that is revealed by evidence and salt that hash to it, or was so before.
pub record IsRevealed (hash : List ℕ → ℕ) (id : ℕ) (evidence salt : List ℕ) (s t : State)
    : Type 0 where
  pub pending : PendingSlash
  pub was_pending : s.pending_slash id ≡ some pending
  pub was_open : is_open pending.status ≡ true
  pub revealed :
      (unwrap_or (s.commitment_revealed id) false ≡ true)
      ⊎ (hash (evidence ++ salt) ≡ unwrap_or pending.evidence_hash 0)
  pub written : t.commitment_revealed ≡ (
      if unwrap_or (s.commitment_revealed id) false
      then s.commitment_revealed
      else update id (some true) s.commitment_revealed)
  pub same_pending : t.pending_slash ≡ s.pending_slash
  pub same_next : t.next_slash_id ≡ s.next_slash_id
  pub same_staked : t.staked_balance ≡ s.staked_balance
  pub same_slashed : t.slashed_amount ≡ s.slashed_amount

module _ (hash : List ℕ → ℕ) (env : Env) (a id : ℕ) (evidence salt : List ℕ) (s t : State) where
  with-IsRevealed :
      (pending : PendingSlash)
      → s.pending_slash id ≡ some pending
      → reveal_evidence hash env a id evidence salt s ≡ ok t
      → IsRevealed hash id evidence salt s t
  unfolding reveal_evidence hash_commitment require_submitter
  with-IsRevealed pending e h = record {
    pending = pending;
    was_pending = e;
    was_open = ground arith;
    revealed = ground arith;
    written = ground arith;
    same_pending = ground arith;
    same_next = ground arith;
    same_staked = ground arith;
    same_slashed = ground arith;
  }

  none_revealed :
      s.pending_slash id ≡ none → reveal_evidence hash env a id evidence salt s ≡ ok t → ⊥
  unfolding reveal_evidence require_submitter
  none_revealed e h = ground arith

  pub reveal_ok :
      reveal_evidence hash env a id evidence salt s ≡ ok t → IsRevealed hash id evidence salt s t
  reveal_ok h = elim (Option-cases (s.pending_slash id)) [
    | inl e ↦ absurd (none_revealed e h)
    | inr (pending, e) ↦ with-IsRevealed pending e h
  ]
