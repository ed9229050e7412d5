-- ===== src/PaymentService/Interbank/Timeouts/Kept.antt =====
-- The timeouts of the sender keep the invariant of the tables.
use proyecto_sa_b.Prelude.{ℕ, ◌≡◌, refl, sym, ap, Option, none, some, [], ◌∷◌, not, arith}
use proyecto_sa_b.Prelude.{keep}
use proyecto_sa_b.Prelude.Dict.{lookup}
use proyecto_sa_b.Prelude.Dict.Distinct.{Listed-keep}
use proyecto_sa_b.Prelude.Program.{skip, ◌>>◌}
use proyecto_sa_b.Prelude.Program.Keeps.{Keeps, skip-Keeps, bind-Keeps, if-Keeps, fail-Keeps}
use proyecto_sa_b.PaymentService.Rules.{Resolution, accept, release, cancel, retry}
use proyecto_sa_b.PaymentService.Interbank.{
  State, Transfer, World, Reason, Env, service_unavailable, null_date,
}
use proyecto_sa_b.PaymentService.Interbank.Outbox.{update}
use proyecto_sa_b.PaymentService.Interbank.Sender.{finalize_out, no_patch, with_reason}
use proyecto_sa_b.PaymentService.Interbank.Sender.Kept.{finalize_out-Keeps, ends_one}
use proyecto_sa_b.PaymentService.Interbank.Timeouts.{
  open_states, timeout_patch, expire_row, expire_outbound, cancel_patch, again_patch, resolved,
  resolve_until, resolve_timeout, resolve_row, process_timeouts, asked, is_overdue, is_waiting,
  to_resolve,
}
use proyecto_sa_b.PaymentService.Interbank.Moves.{Fixed, touched}
use proyecto_sa_b.PaymentService.Interbank.Moves.Steps.{moved_out}
use proyecto_sa_b.PaymentService.Interbank.Invariant.{Inv}
use proyecto_sa_b.PaymentService.Interbank.Statements.{
  transition-Keeps, update-Keeps, claim-Keeps, flush_row-Keeps, rows_of-Keeps,
}

expire_row-Keeps :
    {b : World} (env : Env) (id : ℕ) (seen : Transfer)
    → lookup id b.transfers ≡ some seen
    → Keeps (Inv b) (expire_row env (id, seen))
unfolding expire_row
expire_row-Keeps env id seen e =
    bind-Keeps _ _
      (transition-Keeps env.now id open_states (timeout_patch env seen) (λ r f.
        let opened = f.state in
        moved_out id r _ refl f.fit (ground arith) (ground arith) (ground arith)
          (sym (ap (λ (x : Fixed). not x.is_refund) (f.version seen e).fixed))))
      (λ moved. if-Keeps moved _ _ (flush_row-Keeps id) skip-Keeps)

module _ {b : World} (env : Env) where
  pub expire_outbound-Keeps : Keeps (Inv b) (expire_outbound env)
  unfolding expire_outbound
  expire_outbound-Keeps =
      rows_of-Keeps (is_overdue env.now) 50 (expire_row env) (λ rows. rows) (λ c rows h. h)
        (λ c id r. expire_row-Keeps env id r)

  touch-Keeps :
      (id : ℕ) (seen : Transfer)
      → Keeps (Inv b) (update id (cancel_patch env))
        × Keeps (Inv b) (update id (again_patch env seen))
  touch-Keeps id seen = (
    update-Keeps id (cancel_patch env) (λ r. touched refl refl refl refl),
    update-Keeps id (again_patch env seen) (λ r. touched refl refl refl refl),
  )

  closed-Keeps :
      (id : ℕ) (reason : Option Reason)
      → Keeps
          (Inv b)
          (finalize_out env id (State.timeout ∷ []) State.reversed (with_reason reason) >> skip)
  closed-Keeps id reason =
      bind-Keeps _ _
        (finalize_out-Keeps env id _ State.reversed (with_reason reason) (λ r. refl)
          (ends_one State.timeout State.reversed refl refl))
        (λ _. skip-Keeps)

  resolved-Keeps :
      (id : ℕ) (seen : Transfer) (how : Resolution) → Keeps (Inv b) (resolved env id seen how)
  resolved-Keeps id seen accept =
      bind-Keeps _ _
        (finalize_out-Keeps env id _ State.accepted no_patch (λ r. refl)
          (ends_one State.timeout State.accepted refl refl))
        (λ _. skip-Keeps)
  resolved-Keeps id seen release = closed-Keeps id (some Reason.timeout)
  resolved-Keeps id seen cancel = (touch-Keeps id seen).0
  resolved-Keeps id seen retry = if-Keeps _ _ _ (touch-Keeps id seen).0 (touch-Keeps id seen).1

  resolve_until-Keeps :
      (id : ℕ) (seen : Transfer) (at : Option ℕ) → Keeps (Inv b) (resolve_until env id seen at)
  resolve_until-Keeps id seen none = fail-Keeps null_date
  resolve_until-Keeps id seen (some at) =
      if-Keeps _ _ _ (closed-Keeps id (some Reason.timeout_no_response)) (
        if-Keeps _ _ _ (fail-Keeps service_unavailable)
          (resolved-Keeps id seen (asked env id seen)))

  pub resolve_timeout-Keeps :
      (id : ℕ) (seen : Transfer) → Keeps (Inv b) (resolve_timeout env id seen)
  unfolding resolve_timeout
  resolve_timeout-Keeps id seen = resolve_until-Keeps id seen seen.expires_at

module _ (env : Env) where
  resolve_row-Keeps :
      {b : World} (id : ℕ) (seen : Transfer) → Keeps (Inv b) (resolve_row env (id, seen))
  unfolding resolve_row
  resolve_row-Keeps id seen =
      bind-Keeps _ _ (claim-Keeps env.now id)
        (λ claimed. if-Keeps claimed _ _ (resolve_timeout-Keeps env id seen) skip-Keeps)

  pub process_timeouts-Keeps : {b : World} → Keeps (Inv b) (process_timeouts env)
  unfolding process_timeouts
  process_timeouts-Keeps =
      rows_of-Keeps (is_waiting env.now) 100 (resolve_row env) (keep (to_resolve env))
        (λ c rows. Listed-keep (to_resolve env) c rows) (λ c id r e. resolve_row-Keeps id r)
