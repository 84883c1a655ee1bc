-- ===== src/Slashing/Final.antt =====
-- slashing_module/src/lib.rs: the pending slashes over any sequence of calls.
use shelterflex_contracts.Prelude.{
  ℕ, ◌<◌, ◌≡◌, ap, true, false, none, some, List, [], ◌∷◌, arith, ℕ_discrete, ==_ne, unwrap_or,
  update,
}
use shelterflex_contracts.Host.{Env}
use shelterflex_contracts.Slashing.Types.{is_open, PendingSlash, State}
use shelterflex_contracts.Slashing.Machine.{step, run, Call}
use shelterflex_contracts.Slashing.Changes.{
  new_id, step-Change, Change, keeps, creates, discloses, resolves, cancels_one,
}

-- Numbers that are not given away yet have no slash.
unfoldable pub IsNumbered : State → Type 0
IsNumbered s = (id : ℕ) → unwrap_or s.next_slash_id 0 < id → s.pending_slash id ≡ none

module _ (hash : List ℕ → ℕ) where
  -- A write at a number that is given away.
  written-IsNumbered :
      (s t : State) (id : ℕ) (p q : PendingSlash)
      → IsNumbered s
      → s.pending_slash id ≡ some p
      → t.pending_slash ≡ update id (some q) s.pending_slash
      → t.next_slash_id ≡ s.next_slash_id
      → IsNumbered t
  unfolding IsNumbered
  written-IsNumbered s t id p q n e w k j =
      rw (w, k)
        λ lt. elim (ℕ_discrete j id) [
          | yes same ↦ absurd (cc (n j lt, ap s.pending_slash same, e))
          | no other ↦ rw (==_ne j id other) (n j lt)
        ]

  change-IsNumbered :
      (env : Env) (k : Call) (s t : State) → Change hash env k s t → IsNumbered s → IsNumbered t
  unfolding IsNumbered
  change-IsNumbered env _ s t (keeps k) n = rw (k.same_pending, k.same_next) n
  change-IsNumbered env _ s t (creates p m o k w r) n = λ j.
      rw (k, w) λ lt. rw (==_ne j (new_id s) (λ e. omega (arith, e, lt))) (n j (omega (arith, lt)))
  change-IsNumbered env _ s t (discloses p a id evidence salt m e h r w k) n = rw (w, k) n
  change-IsNumbered env _ s t (resolves a id m c) n =
      written-IsNumbered s t id c.pending _ n c.was_pending c.written c.same_next
  change-IsNumbered env _ s t (cancels_one a id m c) n =
      written-IsNumbered s t id c.pending _ n c.was_pending c.written c.same_next

  not_both :
      {A : Type 0} (p q : PendingSlash)
      → is_open p.status ≡ false
      → is_open q.status ≡ true
      → p ≡ q
      → A
  not_both p q f o e = absurd (cc (f, o, ap (λ r. is_open r.status) e))

  -- A write at the number of another slash, which was open.
  kept_final :
      (s t : State) (id j : ℕ) (p q r : PendingSlash)
      → s.pending_slash id ≡ some p
      → is_open p.status ≡ false
      → s.pending_slash j ≡ some q
      → is_open q.status ≡ true
      → t.pending_slash ≡ update j (some r) s.pending_slash
      → t.pending_slash id ≡ some p
  kept_final s t id j p q r e f g o w = rw w (elim (ℕ_discrete id j) [
    | yes same ↦ not_both p q f o (cc (e, g, ap s.pending_slash same))
    | no other ↦ rw (==_ne id j other) e
  ])

  change_final :
      (env : Env) (k : Call) (s t : State) (id : ℕ) (p : PendingSlash)
      → Change hash env k s t
      → IsNumbered s
      → s.pending_slash id ≡ some p
      → is_open p.status ≡ false
      → t.pending_slash id ≡ some p
  unfolding IsNumbered
  change_final env _ s t id p (keeps k) n e f = rw k.same_pending e
  change_final env _ s t id p (creates q m o k w r) n e f = rw w (elim (ℕ_discrete id (new_id s)) [
    | yes same ↦ absurd (cc (e, n id (omega (arith, same))))
    | no other ↦ rw (==_ne id (new_id s) other) e
  ])
  change_final env _ s t id p (discloses q a j evidence salt m g h r w k) n e f = rw w e
  change_final env _ s t id p (resolves a j m c) n e f =
      kept_final s t id j p c.pending _ e f c.was_pending c.was_open c.written
  change_final env _ s t id p (cancels_one a j m c) n e f =
      kept_final s t id j p c.pending _ e f c.was_pending c.was_open c.written

  -- If no slash is stored at a number that is not given away yet, then a slash that is finalised or
  -- cancelled stays as it is stored over any sequence of calls.
  pub run_final :
      (cs : List (Env × Call)) (s : State) (id : ℕ) (p : PendingSlash)
      → IsNumbered s
      → s.pending_slash id ≡ some p
      → is_open p.status ≡ false
      → (run hash cs s).pending_slash id ≡ some p
  unfolding run
  run_final [] s id p n e f = e
  run_final ((env, c) ∷ cs) s id p n e f =
      let one = step-Change hash env s c in
      run_final cs (step hash env c s) id p (change-IsNumbered env _ s _ one n)
        (change_final env _ s _ id p one n e f) f
