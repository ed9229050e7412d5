-- ===== src/PaymentService/Interbank/Worker/Kept.antt =====
-- The worker and the handlers of Account's events keep the invariant of the tables.
use proyecto_sa_b.Prelude.{ℕ, Bool, Option, none, some}
use proyecto_sa_b.Prelude.Program.{write}
use proyecto_sa_b.Prelude.Program.Keeps.{Keeps, skip-Keeps, read-Keeps, write-Keeps, program_rules}
use proyecto_sa_b.PaymentService.Rules.{Verdict}
use proyecto_sa_b.PaymentService.Interbank.{Transfer, Reversal, World, Failure, Env}
use proyecto_sa_b.PaymentService.Interbank.Sender.Kept.{send_now-Keeps, on_funds_reserved-Keeps}
use proyecto_sa_b.PaymentService.Interbank.Timeouts.{rows_of}
use proyecto_sa_b.PaymentService.Interbank.Timeouts.Kept.{
  expire_outbound-Keeps, process_timeouts-Keeps,
}
use proyecto_sa_b.PaymentService.Interbank.Callbacks.Kept.{
  deliver_callback-Keeps, on_deposit_result-Keeps,
}
use proyecto_sa_b.PaymentService.Interbank.Reversals.Kept.{
  flush_reversal-Keeps, on_reversal_debited-Keeps, on_reversal_failed-Keeps,
}
use proyecto_sa_b.PaymentService.Interbank.ReversalRequests.Kept.{process_reversals-Keeps}
use proyecto_sa_b.PaymentService.Interbank.Worker.{
  send_row, send_pending, deliver_row, deliver_callbacks, flush_found, flush_reversal_found,
  flush_pending, tick, AccountEvent, funds_reserved, deposit_credited, deposit_rejected,
  reversal_debited, reversal_failed, unknown_event, handle, mark_processed, handle_new,
  handle_event,
}
use proyecto_sa_b.PaymentService.Interbank.Invariant.{Inv}
use proyecto_sa_b.PaymentService.Interbank.Statements.{claim-Keeps, flush_row-Keeps}

module _ {b : World} where
  rows-Keeps : (p : Transfer → Bool) (limit : ℕ) → Keeps (Inv b) (rows_of p limit)
  rows-Keeps p limit = read-Keeps _

  send_row-Keeps : (env : Env) (x : ℕ × Transfer) → Keeps (Inv b) (send_row env x)
  send_row-Keeps env (id, seen) = search (program_rules, claim-Keeps, send_now-Keeps)

  send_pending-Keeps : (env : Env) → Keeps (Inv b) (send_pending env)
  unfolding send_pending
  send_pending-Keeps env = search (program_rules, rows-Keeps, send_row-Keeps)

  deliver_row-Keeps : (env : Env) (x : ℕ × Transfer) → Keeps (Inv b) (deliver_row env x)
  deliver_row-Keeps env (id, seen) = search (program_rules, claim-Keeps, deliver_callback-Keeps)

  deliver_callbacks-Keeps : (env : Env) → Keeps (Inv b) (deliver_callbacks env)
  unfolding deliver_callbacks
  deliver_callbacks-Keeps env = search (program_rules, rows-Keeps, deliver_row-Keeps)

  flush_found-Keeps : (x : ℕ × Transfer) → Keeps (Inv b) (flush_found x)
  flush_found-Keeps (id, r) = flush_row-Keeps id

  flush_reversal_found-Keeps : (x : ℕ × Reversal) → Keeps (Inv b) (flush_reversal_found x)
  flush_reversal_found-Keeps (id, v) = flush_reversal-Keeps id

  flush_pending-Keeps : Keeps (Inv b) flush_pending
  unfolding flush_pending
  flush_pending-Keeps =
      search (program_rules, rows-Keeps, flush_found-Keeps, flush_reversal_found-Keeps) depth 12

  pub tick-Keeps : (env : Env) → Keeps (Inv b) (tick env)
  unfolding tick
  tick-Keeps env =
      search
        (
          program_rules, flush_pending-Keeps, send_pending-Keeps, expire_outbound-Keeps,
          process_timeouts-Keeps, deliver_callbacks-Keeps, process_reversals-Keeps,
        )
        depth 20

  handle-Keeps : (env : Env) (e : AccountEvent) → Keeps (Inv b) (handle env e)
  handle-Keeps env (funds_reserved p) = on_funds_reserved-Keeps env p
  handle-Keeps env (deposit_credited id) = on_deposit_result-Keeps env id Verdict.accepted none
  handle-Keeps env (deposit_rejected id reason) =
      on_deposit_result-Keeps env id Verdict.rejected reason
  handle-Keeps env (reversal_debited id correlation) = on_reversal_debited-Keeps env id correlation
  handle-Keeps env (reversal_failed id) = on_reversal_failed-Keeps env id
  handle-Keeps env unknown_event = skip-Keeps

  mark-Keeps : (env : Env) (id : ℕ) → Keeps {E = Failure} (Inv b) (write (mark_processed env id))
  mark-Keeps env id =
      write-Keeps _ (λ w h. record { follows = h.follows; sound = h.sound; distinct = h.distinct })

  handle_new-Keeps :
      (env : Env) (id : ℕ) (e : AccountEvent) (seen : Option ℕ)
      → Keeps (Inv b) (handle_new env id e seen)
  handle_new-Keeps env id e (some at) = skip-Keeps
  handle_new-Keeps env id e none = search (program_rules, handle-Keeps, mark-Keeps)

  pub handle_event-Keeps :
      (env : Env) (id : ℕ) (e : AccountEvent) → Keeps (Inv b) (handle_event env id e)
  unfolding handle_event
  handle_event-Keeps env id e = search (program_rules, handle_new-Keeps)
