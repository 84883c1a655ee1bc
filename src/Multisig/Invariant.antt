-- ===== src/Multisig/Invariant.antt =====
-- multisig_admin/src/lib.rs: the contract given a state machine, and what holds of its proposals.
use shelterflex_contracts.Prelude.{
  ℕ, ◌≤◌, ◌≡◌, ◌∙◌, inl, inr, Bool, true, false, not, Option, none, some, List, [], ◌∷◌, ◌++◌,
  arith, ℕ_discrete, ◌==◌, if◌then◌else◌, ==_refl, ==_ne, Option-cases, unwrap_or, length, contains,
  update,
}
use shelterflex_contracts.Host.{commit, state_of, Env, ok}
use shelterflex_contracts.Multisig.Types.{
  Config, ProposalStatus, OperationType, Proposal, State, pending, executed, cancelled, expired,
}
use shelterflex_contracts.Multisig.Calls.{
  is_pending, without, init, propose, put_approvals, approve, revoke_approval, put_status, execute,
  cancel,
}
use shelterflex_contracts.Multisig.Signers.{Distinct, AllIn}

pub data Call : Type 0 where
  inits : List ℕ → ℕ → Call
  proposes : ℕ → OperationType → List ℕ → ℕ → Call
  approves revokes executes cancels : ℕ → ℕ → Call

unfoldable pub step : Env → Call → State → State
step env (inits signers threshold) s = commit s (init signers threshold s)
step env (proposes a operation params expiry) s =
    commit s (state_of (propose env a operation params expiry s))
step env (approves a id) s = commit s (approve env a id s)
step env (revokes a id) s = commit s (revoke_approval env a id s)
step env (executes a id) s = commit s (execute env a id s)
step env (cancels a id) s = commit s (cancel env a id s)

unfoldable pub run : List (Env × Call) → State → State
run [] s = s
run ((env, c) ∷ cs) s = run cs (step env c s)

-- What the threshold asks of an executed proposal, and nothing of another one.
abbrev pub required : Config → ProposalStatus → ℕ
required cfg executed = cfg.threshold
required cfg _ = 0

abbrev pub is_expired : ProposalStatus → Bool
is_expired expired = true
is_expired _ = false

-- A stored proposal with its list of approvals.
pub record IsApproved (cfg : Config) (p : Proposal) (given : List ℕ) : Type 0 where
  pub distinct : Distinct given
  pub signers : AllIn cfg.signers given
  pub counted : p.approval_count ≡ length given
  pub enough : required cfg p.status ≤ length given
  pub not_expired : is_expired p.status ≡ false

unfoldable pub Entry : Config → Option Proposal → List ℕ → Type 0
Entry cfg none given = Unit {0}
Entry cfg (some p) given = IsApproved cfg p given

pub record IsValid (cfg : Config) (s : State) : Type 0 where
  pub configured : s.config ≡ some cfg
  pub entries : (id : ℕ) → Entry cfg (s.proposals id) (unwrap_or (s.approvals id) [])

-- A call that writes one entry, and leaves the configuration alone.
pub record Writes (cfg : Config) (id : ℕ) (s t : State) : Type 0 where
  pub proposal : Proposal
  pub approvals : List ℕ
  pub valid : IsApproved cfg proposal approvals
  pub same_config : t.config ≡ s.config
  pub wrote : t.proposals ≡ update id (some proposal) s.proposals
  pub listed :
      (j : ℕ)
      → unwrap_or (t.approvals j) [] ≡ (if j == id then approvals else unwrap_or (s.approvals j) [])

pub Writes-IsValid :
    (cfg : Config) (id : ℕ) (s t : State) → Writes cfg id s t → IsValid cfg s → IsValid cfg t
unfolding Entry
Writes-IsValid cfg id s t w v = record {
  configured = w.same_config ∙ v.configured;
  entries = λ j.
      rw (w.wrote, w.listed j)
        (elim (ℕ_discrete j id) [
          | yes e ↦ rw (e, ==_refl id) w.valid
          | no ne ↦ rw (==_ne j id ne) (v.entries j)
        ]);
}

pub stored-IsApproved :
    (cfg : Config) (s : State) (id : ℕ) (p : Proposal)
    → IsValid cfg s
    → s.proposals id ≡ some p
    → IsApproved cfg p (unwrap_or (s.approvals id) [])
unfolding Entry
stored-IsApproved cfg s id p v e = let i = v.entries id in rw e at i

-- A call on a pending proposal that returned: the proposal, and the caller among the signers.
pub record OnPending (cfg : Config) (a id : ℕ) (s : State) : Type 0 where
  pub proposal : Proposal
  pub stored : s.proposals id ≡ some proposal
  pub was_pending : proposal.status ≡ pending
  pub is_signer : contains cfg.signers a ≡ true

pending_only : (st : ProposalStatus) → not (is_pending st) ≡ false → st ≡ pending
pending_only st h = ground arith

module _ (cfg : Config) (env : Env) (a id : ℕ) (s t : State) (c : s.config ≡ some cfg) where
  pub approve_lem :
      approve env a id s ≡ ok t
      → (o : OnPending cfg a id s) × (contains (unwrap_or (s.approvals id) []) a ≡ false)
        × (t ≡ put_approvals id o.proposal (unwrap_or (s.approvals id) [] ++ a ∷ []) s)
  unfolding approve
  approve_lem h = elim (Option-cases (s.proposals id)) [
    | inl n ↦ absurd (ground arith)
    | inr (p, e) ↦ (
      record { proposal = p; stored = e; was_pending = ground arith; is_signer = ground arith },
      ground arith,
      ground arith,
    )
  ]

  pub revoke_lem :
      revoke_approval env a id s ≡ ok t
      → (o : OnPending cfg a id s) × (t
          ≡ put_approvals id o.proposal (without a (unwrap_or (s.approvals id) [])) s)
  unfolding revoke_approval
  revoke_lem h = elim (Option-cases (s.proposals id)) [
    | inl n ↦ absurd (ground arith)
    | inr (p, e) ↦ (
      record { proposal = p; stored = e; was_pending = ground arith; is_signer = ground arith },
      ground arith,
    )
  ]

  pub execute_lem :
      execute env a id s ≡ ok t
      → (o : OnPending cfg a id s) × (cfg.threshold ≤ length (unwrap_or (s.approvals id) []))
        × (t ≡ put_status id o.proposal executed s)
  unfolding execute
  execute_lem h = elim (Option-cases (s.proposals id)) [
    | inl n ↦ absurd (ground arith)
    | inr (p, e) ↦ (
      record { proposal = p; stored = e; was_pending = ground arith; is_signer = ground arith },
      ground arith,
      ground arith,
    )
  ]

  pub cancel_lem :
      cancel env a id s ≡ ok t
      → (o : OnPending cfg a id s) × (t ≡ put_status id o.proposal cancelled s)
  unfolding cancel
  cancel_lem h = elim (Option-cases (s.proposals id)) [
    | inl n ↦ absurd (ground arith)
    | inr (p, e) ↦ (
      record { proposal = p; stored = e; was_pending = ground arith; is_signer = ground arith },
      ground arith,
    )
  ]
