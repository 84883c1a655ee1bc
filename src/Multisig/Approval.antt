-- ===== src/Multisig/Approval.antt =====
-- multisig_admin/src/lib.rs: approvals and statuses of proposals after any calls.
use shelterflex_contracts.Prelude.{
  ℕ, ◌≤◌, ◌≡◌, refl, ap, ◌∙◌, ◌≢◌, true, false, none, some, List, [], ◌∷◌, ◌++◌, arith, ==_refl,
  unwrap_or, length, contains,
}
use shelterflex_contracts.Host.{Env, ok}
use shelterflex_contracts.Multisig.Types.{
  Config, ProposalStatus, Proposal, State, pending, executed, expired,
}
use shelterflex_contracts.Multisig.Calls.{
  is_late, without, init, put_approvals, approve, revoke_approval,
}
use shelterflex_contracts.Multisig.Signers.{Distinct, AllIn, contains-push, without-push}
use shelterflex_contracts.Multisig.Invariant.{
  run, is_expired, stored-IsApproved, approve_lem, Call, IsApproved,
}
use shelterflex_contracts.Multisig.Runs.{run-IsValid, init-IsValid}

not-expired : (st : ProposalStatus) → is_expired st ≡ false → st ≢ expired
not-expired st h e = ground arith

module _ (signers : List ℕ) (threshold : ℕ) (s t : State) (f : (id : ℕ) → s.proposals id ≡ none)
    (h : init signers threshold s ≡ ok t) (cs : List (Env × Call)) (id : ℕ) (p : Proposal)
    (e : (run cs t).proposals id ≡ some p) where
  run-IsApproved :
      IsApproved
        (record { signers = signers; threshold = threshold })
        p
        (unwrap_or ((run cs t).approvals id) [])
  run-IsApproved =
      let cfg : Config = record { signers = signers; threshold = threshold } in
      stored-IsApproved cfg (run cs t) id p
        (run-IsValid cfg cs t (init-IsValid signers threshold s t f h)) e

  -- After the initialisation of a contract without proposals, and any sequence of calls, the
  -- approvals of a stored proposal that was executed are by different addresses, all of them
  -- signers, their number is the stored count, and it is at least the threshold.
  pub run-approvals_enough :
      p.status ≡ executed
      → Distinct (unwrap_or ((run cs t).approvals id) [])
        × AllIn signers (unwrap_or ((run cs t).approvals id) [])
        × (p.approval_count ≡ length (unwrap_or ((run cs t).approvals id) []))
        × (threshold ≤ p.approval_count)
  run-approvals_enough st =
      let i = run-IsApproved in
      let enough = i.enough in (i.distinct, i.signers, i.counted, rw i.counted (rw st at enough))

  -- After the initialisation of a contract without proposals, and any sequence of calls, no stored
  -- proposal has the status `Expired`.
  pub run-never_expired : p.status ≢ expired
  run-never_expired = not-expired p.status run-IsApproved.not_expired

-- A revocation whose guards all pass.
revoke_returns :
    (env : Env) (cfg : Config) (a id : ℕ) (p : Proposal) (list : List ℕ) (s : State)
    → s.config ≡ some cfg
    → contains cfg.signers a ≡ true
    → env.authorized a ≡ true
    → s.proposals id ≡ some p
    → p.status ≡ pending
    → is_late env p ≡ false
    → unwrap_or (s.approvals id) [] ≡ list
    → contains list a ≡ true
    → revoke_approval env a id s ≡ ok (put_approvals id p (without a list) s)
unfolding revoke_approval
revoke_returns env cfg a id p list s c m auth e st late l has = rw (auth, c, m, e, st, late, l, has)

-- An approval that returned on a configured contract can be revoked by the signer, with
-- authorisation and before the proposal is too late; the list of approvals is then what it was, and
-- the stored proposal differs from before at most in its count, which is the length of the list.
pub approve-revoke :
    (env later : Env) (cfg : Config) (a id : ℕ) (p : Proposal) (s t : State)
    → s.config ≡ some cfg
    → s.proposals id ≡ some p
    → approve env a id s ≡ ok t
    → later.authorized a ≡ true
    → is_late later p ≡ false
    → (u : State) × (revoke_approval later a id t ≡ ok u)
      × (unwrap_or (u.approvals id) [] ≡ unwrap_or (s.approvals id) [])
      × (u.proposals id
          ≡ some (record p { approval_count = length (unwrap_or (s.approvals id) []) }))
approve-revoke env later cfg a id p s t c e h auth late =
    let (o, new, w) = approve_lem cfg env a id s t c h in
    let list : List ℕ = unwrap_or (s.approvals id) [] in
    let pushed : Proposal = record p { approval_count = length (list ++ a ∷ []) } in
    let same : o.proposal ≡ p = ground (arith, o.stored) in
    (
      put_approvals id pushed list t,
      revoke_returns later cfg a id pushed (list ++ a ∷ []) t (rw w c) o.is_signer auth
            (rw (w, same, ==_refl id) refl) (rw (← same) o.was_pending) late
            (rw (w, ==_refl id) refl) (rw (contains-push list a a, ==_refl a, new) refl)
          ∙ ap (λ l. ok (put_approvals id pushed l t)) (without-push list a new),
      ground arith,
      ground arith,
    )
