-- ===== src/Slashing/Backed.antt =====
-- slashing_module/src/lib.rs: the evidence behind the slashes of validators.
use shelterflex_contracts.Prelude.{
  ℕ, ◌≡◌, refl, ◌≢◌, ◌⊎◌, inl, inr, Bool, true, false, ◌&&◌, ◌||◌, Option, none, some, List, [],
  ◌∷◌, ◌++◌, arith, ℕ_discrete, ==_refl, ==_ne, unwrap_or, update,
}
use shelterflex_contracts.Host.{Env}
use shelterflex_contracts.Slashing.Types.{is_open, SlashStatus, PendingSlash, State, is_finalized}
use shelterflex_contracts.Slashing.Resolution.{IsFinalized}
use shelterflex_contracts.Slashing.Cancellation.{IsCancelled}
use shelterflex_contracts.Slashing.Machine.{step, run, Call}
use shelterflex_contracts.Slashing.Changes.{
  new_id, step-Change, Change, keeps, creates, discloses, resolves, cancels_one,
}

abbrev pub is_final : SlashStatus → Bool
is_final is_finalized = true
is_final _ = false

-- A slash of a validator whose commitment counts as revealed, or that is finalised.
unfoldable pub needs_evidence : PendingSlash → Bool → Bool
needs_evidence p revealed = p.is_validator && (revealed || is_final p.status)

-- Evidence and salt that hash to the commitment of the slash.
pub record HasEvidence (hash : List ℕ → ℕ) (p : PendingSlash) : Type 0 where
  pub evidence : List ℕ
  pub salt : List ℕ
  pub matches : hash (evidence ++ salt) ≡ unwrap_or p.evidence_hash 0

unfoldable pub IsBacked : (List ℕ → ℕ) → Option PendingSlash → Bool → Type 0
IsBacked hash none revealed = Unit {0}
IsBacked hash (some p) revealed = (needs_evidence p revealed ≡ false) ⊎ HasEvidence hash p

abbrev pub revealed_at : State → ℕ → Bool
revealed_at s id = unwrap_or (s.commitment_revealed id) false

unfoldable pub AllBacked : (List ℕ → ℕ) → State → Type 0
AllBacked hash s = (id : ℕ) → IsBacked hash (s.pending_slash id) (revealed_at s id)

module _ (hash : List ℕ → ℕ) where
  new_needs :
      (p : PendingSlash) (r : Bool)
      → is_open p.status ≡ true
      → (r ≡ false) ⊎ (p.is_validator ≡ false)
      → needs_evidence p r ≡ false
  unfolding needs_evidence
  new_needs p r o h = ground arith

  final_needs :
      (p : PendingSlash) (r : Bool)
      → is_open p.status ≡ true
      → IsBacked hash (some p) r
      → (p.is_validator ≡ false) ⊎ (r ≡ true)
      → IsBacked hash (some (record p { status = is_finalized })) r
  unfolding IsBacked needs_evidence
  final_needs p r o (inr b) h =
      inr (record { evidence = b.evidence; salt = b.salt; matches = b.matches })
  final_needs p r o (inl b) h = inl (ground arith)

  -- A slash at another number, whose entries are as before.
  other-IsBacked :
      (s t : State) (j id : ℕ) (o : Option PendingSlash) (r : Option Bool)
      → j ≢ id
      → t.pending_slash ≡ update id o s.pending_slash
      → (t.commitment_revealed ≡ update id r s.commitment_revealed)
        ⊎ (t.commitment_revealed ≡ s.commitment_revealed)
      → IsBacked hash (s.pending_slash j) (revealed_at s j)
      → IsBacked hash (t.pending_slash j) (revealed_at t j)
  other-IsBacked s t j id o r ne w (inl v) b = rw (w, v, ==_ne j id ne) b
  other-IsBacked s t j id o r ne w (inr v) b = rw (w, v, ==_ne j id ne) b

  resolved-IsBacked :
      (env : Env) (a : ℕ) (s t : State) (id j : ℕ)
      → IsFinalized env a id s t
      → AllBacked hash s
      → IsBacked hash (t.pending_slash j) (revealed_at t j)
  unfolding AllBacked
  resolved-IsBacked env a s t id j c b = elim (ℕ_discrete j id) [
    | no ne ↦ other-IsBacked s t j id _ none ne c.written (inr c.same_revealed) (b j)
    | yes e ↦
        rw (e, c.written, c.same_revealed, ==_refl id)
          (final_needs c.pending (revealed_at s id) c.was_open (rw c.was_pending at (b id))
            c.disclosed)
  ]

  cancelled-IsBacked :
      (env : Env) (a : ℕ) (s t : State) (id j : ℕ)
      → IsCancelled env a id s t
      → AllBacked hash s
      → IsBacked hash (t.pending_slash j) (revealed_at t j)
  unfolding AllBacked IsBacked needs_evidence
  cancelled-IsBacked env a s t id j c b = elim (ℕ_discrete j id) [
    | no ne ↦ other-IsBacked s t j id _ none ne c.written (inl c.revealed) (b j)
    | yes e ↦ rw (e, c.written, c.revealed, ==_refl id) (inl (ground arith))
  ]

  change-AllBacked :
      (env : Env) (k : Call) (s t : State)
      → Change hash env k s t
      → AllBacked hash s
      → AllBacked hash t
  unfolding AllBacked IsBacked
  change-AllBacked env _ s t (keeps k) b = λ j. rw (k.same_pending, k.same_revealed) (b j)
  change-AllBacked env _ s t (creates p m o k w (inl v)) b = λ j. elim (ℕ_discrete j (new_id s)) [
    | no ne ↦ other-IsBacked s t j (new_id s) _ _ ne w (inl v) (b j)
    | yes e ↦ rw (e, w, v, ==_refl (new_id s)) (inl (new_needs p false o (inl refl)))
  ]
  change-AllBacked env _ s t (creates p m o k w (inr v)) b = λ j. elim (ℕ_discrete j (new_id s)) [
    | no ne ↦ other-IsBacked s t j (new_id s) _ none ne w (inr v.1) (b j)
    | yes e ↦ rw (e, w, v.1, ==_refl (new_id s)) (inl (new_needs p _ o (inr v.0)))
  ]
  change-AllBacked env _ s t (discloses p a id evidence salt m e h r w k) b = λ j.
      elim (ℕ_discrete j id) [
        | no ne ↦ rw (w, r, ==_ne j id ne) (b j)
        | yes q ↦
            rw (q, w, r, ==_refl id, e)
              (inr (record { evidence = evidence; salt = salt; matches = h }))
      ]
  change-AllBacked env _ s t (resolves a id m c) b = λ j. resolved-IsBacked env a s t id j c b
  change-AllBacked env _ s t (cancels_one a id m c) b = λ j. cancelled-IsBacked env a s t id j c b

  run-AllBacked :
      (cs : List (Env × Call)) (s : State) → AllBacked hash s → AllBacked hash (run hash cs s)
  unfolding run
  run-AllBacked [] s b = b
  run-AllBacked ((env, c) ∷ cs) s b =
      run-AllBacked cs (step hash env c s) (change-AllBacked env _ s _ (step-Change hash env s c) b)

  fresh-AllBacked : (s : State) → ((id : ℕ) → s.pending_slash id ≡ none) → AllBacked hash s
  unfolding AllBacked IsBacked
  fresh-AllBacked s f = λ id. rw (f id) tt

  -- After any sequence of calls of a module without pending slashes, there are evidence and a salt
  -- that hash to the commitment of each stored slash of a validator that is finalised.
  pub run-HasEvidence :
      (cs : List (Env × Call)) (s : State) (id : ℕ) (p : PendingSlash)
      → ((j : ℕ) → s.pending_slash j ≡ none)
      → (run hash cs s).pending_slash id ≡ some p
      → p.is_validator ≡ true
      → p.status ≡ is_finalized
      → HasEvidence hash p
  unfolding AllBacked IsBacked needs_evidence
  run-HasEvidence cs s id p f e v d = elim (rw e at (run-AllBacked cs s (fresh-AllBacked s f) id)) [
    | inl needs ↦ absurd (ground arith)
    | inr evidence ↦ evidence
  ]
