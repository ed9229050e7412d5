-- ===== src/PaymentService/Interbank/Timeouts/Others.antt =====
-- What `resolveTimeout` of interbank.service.ts does to the rows of other ids.
use proyecto_sa_b.Prelude.{
  ℕ, ◌+◌, ◌≡◌, ◌∙◌, inl, inr, Bool, true, false, Option, none, some, List, ◌==◌, Bool-cases,
  Option-cases, if◌then◌else◌,
}
use proyecto_sa_b.Prelude.Dict.{lookup, lookup-insert}
use proyecto_sa_b.Prelude.Program.Keeps.{
  Keeps, skip-Keeps, bind-Keeps, if-Keeps, fail-Keeps, write-Keeps, change-Keeps, read-Keeps,
  return-Keeps,
}
use proyecto_sa_b.PaymentService.Rules.{Resolution, accept, release, cancel, retry}
use proyecto_sa_b.PaymentService.Interbank.{
  State, Transfer, World, Reason, Env, service_unavailable, null_date, is_due, set_transfer,
}
use proyecto_sa_b.PaymentService.Interbank.Outbox.{
  is_state, one_of, transition, transition_in, update, update_in, claim, claim_in, clear_in,
  event_for, flush_row, flush_in, flush_seen, publish_in,
}
use proyecto_sa_b.PaymentService.Interbank.Sender.{
  finalize_out, finalize_found, finalize_patch, no_patch, with_reason,
}
use proyecto_sa_b.PaymentService.Interbank.Timeouts.{
  cancel_patch, again_patch, resolved, resolve_until, resolve_timeout, resolve_row, asked,
}

abbrev pub At : ℕ → Option Transfer → World → Type 0
At id o w = lookup id w.transfers ≡ o

-- What is done to the row of another id.
module _ (id j : ℕ) (o : Option Transfer) (apart : id == j ≡ false) where
  set-At : (r : Transfer) (w : World) → At id o w → At id o (set_transfer j r w)
  set-At r w h = lookup-insert id j r w.transfers ∙ rw apart h

  clear-At : (s : State) (w : World) → At id o w → At id o (clear_in j s w)
  clear-At s w h = elim (Option-cases (lookup j w.transfers)) [
    | inl missing ↦ rw (clear_in, missing) h
    | inr (r, e) ↦ elim (Bool-cases (is_state r.state s)) [
      | inl same ↦ rw (clear_in, e, same) (set-At (record r { pending_event = false }) w h)
      | inr other ↦ rw (clear_in, e, other) h
    ]
  ]

  if-At : (b : Bool) (w w' : World) → At id o w → At id o w' → At id o (if b then w else w')
  if-At true w w' h h' = h
  if-At false w w' h h' = h'

  flush_seen-At : (seen : Transfer) (w : World) → At id o w → At id o (flush_seen j seen w)
  flush_seen-At seen w h = elim (Bool-cases seen.pending_event) [
    | inr done ↦ rw (flush_seen, done) h
    | inl waits ↦ elim (Option-cases (event_for j seen)) [
      | inl quiet ↦ rw (flush_seen, waits, quiet) (clear-At seen.state w h)
      | inr (m, em) ↦
          rw (flush_seen, waits, em)
            (if-At w.broker (clear_in j seen.state (publish_in m w)) w
              (clear-At seen.state (publish_in m w) h) h)
    ]
  ]

  flush_row-At : Keeps (At id o) (flush_row j)
  unfolding flush_row
  flush_row-At = write-Keeps (flush_in j) (λ w h. elim (Option-cases (lookup j w.transfers)) [
    | inl missing ↦ rw (flush_in, missing) h
    | inr (r, e) ↦ rw (flush_in, e) (flush_seen-At r w h)
  ])

  update-At : (patch : Transfer → Transfer) → Keeps (At id o) (update j patch)
  unfolding update
  update-At patch = write-Keeps (update_in j patch) (λ w h.
      elim (Option-cases (lookup j w.transfers)) [
        | inl missing ↦ rw (update_in, missing) h
        | inr (r, e) ↦ rw (update_in, e) (set-At (patch r) w h)
      ])

  claim-At : (now : ℕ) → Keeps (At id o) (claim now j)
  unfolding claim
  claim-At now = change-Keeps (claim_in now j) (λ w h. elim (Option-cases (lookup j w.transfers)) [
    | inl missing ↦ rw (claim_in, missing) h
    | inr (r, e) ↦ elim (Bool-cases (is_due now r.locked_until)) [
      | inl due ↦
          rw (claim_in, e, due) (set-At (record r { locked_until = some (now + 30000) }) w h)
      | inr locked ↦ rw (claim_in, e, locked) h
    ]
  ])

  transition-At :
      (now : ℕ) (from : List State) (patch : Transfer → Transfer)
      → Keeps (At id o) (transition now j from patch)
  unfolding transition
  transition-At now from patch = change-Keeps (transition_in now j from patch) (λ w h.
      elim (Option-cases (lookup j w.transfers)) [
        | inl missing ↦ rw (transition_in, missing) h
        | inr (r, e) ↦ elim (Bool-cases (one_of from r.state)) [
          | inl there ↦
              rw (transition_in, e, there)
                (set-At (record (patch r) { updated_at = now; locked_until = none }) w h)
          | inr past ↦ rw (transition_in, e, past) h
        ]
      ])

  finalize_found-At :
      (env : Env) (from : List State) (next : State) (patch : Transfer → Transfer)
      (row : Option Transfer)
      → Keeps (At id o) (finalize_found env j from next patch row)
  finalize_found-At env from next patch none = return-Keeps false
  finalize_found-At env from next patch (some r) =
      bind-Keeps _ _ (transition-At env.now from (finalize_patch env next r.is_refund patch))
        (λ moved.
          if-Keeps moved _ _ (bind-Keeps _ _ flush_row-At (λ _. return-Keeps true))
            (return-Keeps false))

  finalize_out-At :
      (env : Env) (from : List State) (next : State) (patch : Transfer → Transfer)
      → Keeps (At id o) (finalize_out env j from next patch)
  unfolding finalize_out
  finalize_out-At env from next patch =
      bind-Keeps _ _ (read-Keeps _) (finalize_found-At env from next patch)

  resolved-At :
      (env : Env) (seen : Transfer) (how : Resolution) → Keeps (At id o) (resolved env j seen how)
  resolved-At env seen accept =
      bind-Keeps _ _ (finalize_out-At env _ State.accepted no_patch) (λ _. skip-Keeps)
  resolved-At env seen release =
      bind-Keeps _ _ (finalize_out-At env _ State.reversed (with_reason (some Reason.timeout)))
        (λ _. skip-Keeps)
  resolved-At env seen cancel = update-At (cancel_patch env)
  resolved-At env seen retry =
      if-Keeps _ _ _ (update-At (cancel_patch env)) (update-At (again_patch env seen))

  resolve_until-At :
      (env : Env) (seen : Transfer) (at : Option ℕ) → Keeps (At id o) (resolve_until env j seen at)
  resolve_until-At env seen none = fail-Keeps null_date
  resolve_until-At env seen (some at) =
      if-Keeps _ _ _
        (bind-Keeps _ _
          (finalize_out-At env _ State.reversed (with_reason (some Reason.timeout_no_response)))
          (λ _. skip-Keeps))
        (if-Keeps _ _ _ (fail-Keeps service_unavailable) (resolved-At env seen (asked env j seen)))

  pub resolve_row-At : (env : Env) (seen : Transfer) → Keeps (At id o) (resolve_row env (j, seen))
  unfolding resolve_row resolve_timeout
  resolve_row-At env seen =
      bind-Keeps _ _ (claim-At env.now)
        (λ claimed. if-Keeps claimed _ _ (resolve_until-At env seen seen.expires_at) skip-Keeps)
