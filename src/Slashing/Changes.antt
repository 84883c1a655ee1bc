-- ===== src/Slashing/Changes.antt =====
-- slashing_module/src/lib.rs: what one call can do to the pending slashes, as a relation.
use shelterflex_contracts.Prelude.{
  ℕ, ◌+◌, ◌≡◌, refl, ◌⊎◌, inl, inr, true, false, some, List, ◌++◌, arith, Bool-cases, unwrap_or,
  update,
}
use shelterflex_contracts.Host.{commit, state_of, state_of_ok, Outcome, Env, ok, err, trap}
use shelterflex_contracts.Slashing.Types.{
  is_submitter, require_submitter, require_slasher, is_open, Offence, PendingSlash, Error, State,
}
use shelterflex_contracts.Slashing.Evidence.{submit_evidence, reveal_evidence, propose_slash}
use shelterflex_contracts.Slashing.Effects.{submit_ok, propose_ok, reveal_ok}
use shelterflex_contracts.Slashing.Reduction.{KeepsSlashes}
use shelterflex_contracts.Slashing.Resolution.{finalize_slash-IsFinalized, IsFinalized}
use shelterflex_contracts.Slashing.Cancellation.{cancel_ok, IsCancelled}
use shelterflex_contracts.Slashing.Machine.{
  step, Call, cancels, finalizes, submits, reveals, proposes,
}
use shelterflex_contracts.Slashing.Cases.{by_cases}

abbrev pub new_id : State → ℕ
new_id s = unwrap_or s.next_slash_id 0 + 1

-- A slash that a submitter has raised by a commitment to evidence.
pub record IsSubmittedBy (env : Env) (c : Call) (s : State) (p : PendingSlash) : Type 0 where
  pub caller : ℕ
  pub commitment : ℕ
  pub offence : Offence
  pub is_call : c ≡ submits caller commitment p.actor offence
  pub committed : p.evidence_hash ≡ some commitment
  pub signed : env.authorized caller ≡ true
  pub allowed : is_submitter s caller ≡ true

-- A slash without evidence that the admin, a submitter or the bond contract has proposed.
pub record IsProposedBy (env : Env) (c : Call) (s : State) (p : PendingSlash) : Type 0 where
  pub caller : ℕ
  pub bps : ℕ
  pub is_call : c ≡ proposes caller p.actor bps
  pub no_evidence : p.is_validator ≡ false
  pub signed : env.authorized caller ≡ true
  pub role :
      (s.admin ≡ some caller) ⊎ ((is_submitter s caller ≡ true) ⊎ (s.bond_contract ≡ some caller))

abbrev pub IsRaised : Env → Call → State → PendingSlash → Type 0
IsRaised env c s p = IsSubmittedBy env c s p ⊎ IsProposedBy env c s p

submit_signed :
    (env : Env) (a commitment actor : ℕ) (kind : Offence) (s t : State) (id : ℕ)
    → submit_evidence env a commitment actor kind s ≡ ok (t, id)
    → env.authorized a ≡ true
unfolding submit_evidence require_submitter
submit_signed env a commitment actor kind s t id h = ground arith

submit_allowed :
    (env : Env) (a commitment actor : ℕ) (kind : Offence) (s t : State) (id : ℕ)
    → submit_evidence env a commitment actor kind s ≡ ok (t, id)
    → is_submitter s a ≡ true
unfolding submit_evidence require_submitter
submit_allowed env a commitment actor kind s t id h = ground arith

propose_signed :
    (env : Env) (a actor bps : ℕ) (s t : State) (id : ℕ)
    → propose_slash env a actor bps s ≡ ok (t, id)
    → env.authorized a ≡ true
unfolding propose_slash require_slasher
propose_signed env a actor bps s t id h = ground arith

propose_role :
    (env : Env) (a actor bps : ℕ) (s t : State) (id : ℕ)
    → propose_slash env a actor bps s ≡ ok (t, id)
    → (s.admin ≡ some a) ⊎ ((is_submitter s a ≡ true) ⊎ (s.bond_contract ≡ some a))
unfolding propose_slash require_slasher
propose_role env a actor bps s t id h = ground arith

-- The changes that a call may make, each for the calls that may make it.
pub data Change (hash : List ℕ → ℕ) (env : Env) (c : Call) (s t : State) : Type 0 where
  keeps : KeepsSlashes s t → Change hash env c s t
  creates :
      (p : PendingSlash)
      → IsRaised env c s p
      → is_open p.status ≡ true
      → t.next_slash_id ≡ some (new_id s)
      → t.pending_slash ≡ update (new_id s) (some p) s.pending_slash
      → (t.commitment_revealed ≡ update (new_id s) (some false) s.commitment_revealed)
        ⊎ ((p.is_validator ≡ false) × (t.commitment_revealed ≡ s.commitment_revealed))
      → Change hash env c s t
  discloses :
      (p : PendingSlash) (a id : ℕ) (evidence salt : List ℕ)
      → c ≡ reveals a id evidence salt
      → s.pending_slash id ≡ some p
      → hash (evidence ++ salt) ≡ unwrap_or p.evidence_hash 0
      → t.commitment_revealed ≡ update id (some true) s.commitment_revealed
      → t.pending_slash ≡ s.pending_slash
      → t.next_slash_id ≡ s.next_slash_id
      → Change hash env c s t
  resolves : (a id : ℕ) → c ≡ finalizes a id → IsFinalized env a id s t → Change hash env c s t
  cancels_one : (a id : ℕ) → c ≡ cancels a id → IsCancelled env a id s t → Change hash env c s t

module _ (hash : List ℕ → ℕ) (env : Env) (s : State) where
  by_outcome :
      (c : Call) (r : Outcome Error State)
      → ((t : State) → r ≡ ok t → Change hash env c s t)
      → Change hash env c s (commit s r)
  by_outcome c (ok t) k = k t refl
  by_outcome c (err e) k =
      keeps (record { same_pending = refl; same_revealed = refl; same_next = refl })
  by_outcome c trap k =
      keeps (record { same_pending = refl; same_revealed = refl; same_next = refl })

  submitted :
      (a commitment actor : ℕ) (kind : Offence) (t : State)
      → state_of (submit_evidence env a commitment actor kind s) ≡ ok t
      → Change hash env (submits a commitment actor kind) s t
  submitted a commitment actor kind t h =
      let (id, e) = state_of_ok (submit_evidence env a commitment actor kind s) h in
      let k = submit_ok env a commitment actor kind s t id e in
      creates k.created.pending
        (inl (record {
          caller = a;
          commitment = commitment;
          offence = kind;
          is_call = cc (k.created.of_actor);
          committed = k.committed;
          signed = submit_signed env a commitment actor kind s t id e;
          allowed = submit_allowed env a commitment actor kind s t id e;
        }))
        k.created.is_new k.created.next k.created.written (inl k.unrevealed)

  proposed :
      (a actor bps : ℕ) (t : State)
      → state_of (propose_slash env a actor bps s) ≡ ok t
      → Change hash env (proposes a actor bps) s t
  proposed a actor bps t h =
      let (id, e) = state_of_ok (propose_slash env a actor bps s) h in
      let k = propose_ok env a actor bps s t id e in
      creates k.created.pending
        (inr (record {
          caller = a;
          bps = bps;
          is_call = cc (k.created.of_actor);
          no_evidence = k.no_evidence;
          signed = propose_signed env a actor bps s t id e;
          role = propose_role env a actor bps s t id e;
        }))
        k.created.is_new k.created.next k.created.written (inr (k.no_evidence, k.same_revealed))

  disclosed :
      (a id : ℕ) (evidence salt : List ℕ) (t : State)
      → reveal_evidence hash env a id evidence salt s ≡ ok t
      → Change hash env (reveals a id evidence salt) s t
  disclosed a id evidence salt t h =
      let c = reveal_ok hash env a id evidence salt s t h in
      elim (Bool-cases (unwrap_or (s.commitment_revealed id) false)) [
        | inl e ↦ keeps (record {
          same_pending = c.same_pending;
          same_revealed = rw e at c.written;
          same_next = c.same_next;
        })
        | inr e ↦ elim c.revealed [
          | inl f ↦ absurd (cc (e, f))
          | inr f ↦
              discloses c.pending a id evidence salt refl c.was_pending f (rw e at c.written)
                c.same_pending c.same_next
        ]
      ]

  -- Whatever a call does to the pending slashes is one of five changes: none; a new open slash at
  -- the next number, not revealed if it is of a validator, by a submission that a submitter signs
  -- or by a proposal that the stored admin, a submitter or the bond contract signs; the mark that
  -- evidence and salt were given that hash to the commitment of a pending slash; the finalisation,
  -- signed by the admin, a submitter or the bond contract, of an open slash that is due and, if of
  -- a validator, revealed; or the cancellation of an open one that the stored admin calls and
  -- signs.
  pub step-Change : (c : Call) → Change hash env c s (step hash env c s)
  unfolding step
  step-Change c =
      by_cases hash env s {P = λ k. Change hash env k s (step hash env k s)}
        (record {
          on_quiet = λ k q. keeps q.slashes_kept;
          on_submit = λ a commitment actor kind. by_outcome _ _ (submitted a commitment actor kind);
          on_reveal = λ a id evidence salt. by_outcome _ _ (disclosed a id evidence salt);
          on_propose = λ a actor bps. by_outcome _ _ (proposed a actor bps);
          on_finalize = λ a id.
              by_outcome _ _ λ t h. resolves a id refl (finalize_slash-IsFinalized env a id s t h);
          on_cancel =
              λ a id. by_outcome _ _ λ t h. cancels_one a id refl (cancel_ok env a id s t h);
        })
        c
