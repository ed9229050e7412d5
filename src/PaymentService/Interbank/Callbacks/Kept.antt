-- ===== src/PaymentService/Interbank/Callbacks/Kept.antt =====
-- Callbacks, in both directions, keep the invariant of the tables.
use proyecto_sa_b.Prelude.{ℕ, zero, suc, refl, Option, none, some}
use proyecto_sa_b.Prelude.Program.Keeps.{
  Keeps, skip-Keeps, bind-Keeps, if-Keeps, fail-Keeps, require-Keeps, program_rules,
}
use proyecto_sa_b.PaymentService.Rules.{
  Verdict, CallbackDecision, apply, ignore, conflict, late_accepted,
}
use proyecto_sa_b.PaymentService.Interbank.{
  State, Transfer, World, Reason, Call, Env, unauthorized, validation_error, not_found,
}
use proyecto_sa_b.PaymentService.Interbank.Outbox.{transition}
use proyecto_sa_b.PaymentService.Interbank.Sender.{no_patch, with_reason}
use proyecto_sa_b.PaymentService.Interbank.Sender.Kept.{finalize_out-Keeps, ends_any}
use proyecto_sa_b.PaymentService.Interbank.Receiver.{processing_only}
use proyecto_sa_b.PaymentService.Interbank.Callbacks.{
  finish, decide_callback, callback_found, receive_loop, ResultBody, checked_result, receive_result,
  delivered_patch, failed_patch, later_patch, deliver_callback, deliver_found, verdict_patch,
  result_found, on_deposit_result,
}
use proyecto_sa_b.PaymentService.Interbank.ReversalRequests.Kept.{create_reversal_request-Keeps}
use proyecto_sa_b.PaymentService.Interbank.Moves.{touched}
use proyecto_sa_b.PaymentService.Interbank.Invariant.{Inv}
use proyecto_sa_b.PaymentService.Interbank.Statements.{update-Keeps, claim-Keeps}
use proyecto_sa_b.PaymentService.Interbank.Receiver.Kept.{
  some_bank-Keeps, some_id-Keeps, or_unavailable-Keeps, find_row-Keeps, close-Keeps,
}

module _ {b : World} where
  finish-Keeps :
      (env : Env) (id : ℕ) (v : Verdict) (reason : Option Reason)
      → Keeps (Inv b) (finish env id v reason)
  finish-Keeps env id Verdict.accepted reason =
      finalize_out-Keeps env id _ State.accepted no_patch (λ r. refl) (ends_any State.accepted refl)
  finish-Keeps env id Verdict.rejected reason =
      finalize_out-Keeps env id _ State.rejected (with_reason _) (λ r. refl)
        (ends_any State.rejected refl)

  decide_callback-Keeps :
      (env : Env) (id : ℕ) (v : Verdict) (reason : Option Reason) (r : Transfer)
      (how : CallbackDecision) (again : Call (Unit {0}))
      → Keeps (Inv b) again
      → Keeps (Inv b) (decide_callback env id v reason r how again)
  decide_callback-Keeps env id v reason r ignore again h = skip-Keeps
  decide_callback-Keeps env id v reason r conflict again h = skip-Keeps
  decide_callback-Keeps env id v reason r late_accepted again h =
      create_reversal_request-Keeps env id r
  decide_callback-Keeps env id v reason r apply again h =
      bind-Keeps _ _ (finish-Keeps env id v reason) (λ closed. if-Keeps closed _ _ skip-Keeps h)

  callback_found-Keeps :
      (env : Env) (id caller destination : ℕ) (v : Verdict) (reason : Option Reason)
      (again : Call (Unit {0})) (row : Option Transfer)
      → Keeps (Inv b) again
      → Keeps (Inv b) (callback_found env id caller destination v reason again row)
  callback_found-Keeps env id caller destination v reason again none h = fail-Keeps not_found
  callback_found-Keeps env id caller destination v reason again (some r) h =
      bind-Keeps _ _ (require-Keeps _ not_found) (λ _.
        bind-Keeps _ _ (require-Keeps _ unauthorized)
          (λ _. decide_callback-Keeps env id v reason r _ again h))

  receive_loop-Keeps :
      (n : ℕ) (env : Env) (id caller destination : ℕ) (v : Verdict) (reason : Option Reason)
      → Keeps (Inv b) (receive_loop n env id caller destination v reason)
  unfolding receive_loop
  receive_loop-Keeps zero env id caller destination v reason = skip-Keeps
  receive_loop-Keeps (suc n) env id caller destination v reason =
      bind-Keeps _ _ (find_row-Keeps id) (λ row.
        callback_found-Keeps env id caller destination v reason _ row
          (receive_loop-Keeps n env id caller destination v reason))

  checked_result-Keeps :
      (env : Env) (id caller : ℕ) (reason : Option Reason) (destination : Option ℕ)
      (v : Option Verdict)
      → Keeps (Inv b) (checked_result env id caller reason destination v)
  checked_result-Keeps env id caller reason (some destination) (some v) =
      receive_loop-Keeps 3 env id caller destination v reason
  checked_result-Keeps env id caller reason none v = fail-Keeps validation_error
  checked_result-Keeps env id caller reason (some destination) none = fail-Keeps validation_error

  pub receive_result-Keeps :
      (env : Env) (caller id : Option ℕ) (body : ResultBody)
      → Keeps (Inv b) (receive_result env caller id body)
  unfolding receive_result
  receive_result-Keeps env caller id body =
      search (program_rules, some_bank-Keeps, some_id-Keeps, checked_result-Keeps) depth 12

  pub deliver_callback-Keeps :
      (env : Env) (id : ℕ) (seen : Transfer) → Keeps (Inv b) (deliver_callback env id seen)
  unfolding deliver_callback
  deliver_callback-Keeps env id seen = bind-Keeps _ _ (or_unavailable-Keeps env.own_bank) (λ own.
      if-Keeps _ _ _ (update-Keeps id (delivered_patch env) (λ r. touched refl refl refl refl)) (
        if-Keeps _ _ _ (update-Keeps id (failed_patch env seen) (λ r. touched refl refl refl refl))
          (update-Keeps id (later_patch env seen) (λ r. touched refl refl refl refl))))

  deliver_found-Keeps :
      (env : Env) (id : ℕ) (row : Option Transfer) → Keeps (Inv b) (deliver_found env id row)
  deliver_found-Keeps env id none = skip-Keeps
  deliver_found-Keeps env id (some r) = search (program_rules, claim-Keeps, deliver_callback-Keeps)

  verdict-Keeps :
      (env : Env) (id : ℕ) (v : Verdict) (reason : Option Reason)
      → Keeps (Inv b) (transition env.now id processing_only (verdict_patch env v reason))
  verdict-Keeps env id Verdict.accepted reason =
      close-Keeps env.now id (verdict_patch env Verdict.accepted reason) (λ r. refl) (λ r. refl)
  verdict-Keeps env id Verdict.rejected reason =
      close-Keeps env.now id (verdict_patch env Verdict.rejected reason) (λ r. refl) (λ r. refl)

  result_found-Keeps :
      (env : Env) (id : ℕ) (v : Verdict) (reason : Option Reason) (row : Option Transfer)
      → Keeps (Inv b) (result_found env id v reason row)
  result_found-Keeps env id v reason none = skip-Keeps
  result_found-Keeps env id v reason (some r) =
      search (program_rules, verdict-Keeps, find_row-Keeps, deliver_found-Keeps) depth 10

  pub on_deposit_result-Keeps :
      (env : Env) (id : ℕ) (v : Verdict) (reason : Option Reason)
      → Keeps (Inv b) (on_deposit_result env id v reason)
  unfolding on_deposit_result
  on_deposit_result-Keeps env id v reason =
      search (program_rules, find_row-Keeps, result_found-Keeps)
