-- ===== src/PaymentService/Interbank/Worker.antt =====
-- The worker of the protocol and the events of Account: `tick`, `sendPending`, `deliverCallbacks`,
-- `flushPending` and `handleEvent` of interbank.service.ts. The clock stands still during a call.
pub mod Kept
use proyecto_sa_b.Prelude.{
  ℕ, Bool, true, false, Option, none, some, ◌&&◌, is_some, keep, take, if◌then◌else◌,
}
use proyecto_sa_b.Prelude.Dict.{lookup, insert}
use proyecto_sa_b.Prelude.Program.{read, write, attempt, skip, for_each, ◌>>=◌, ◌>>◌}
use proyecto_sa_b.PaymentService.Rules.{Verdict}
use proyecto_sa_b.PaymentService.Interbank.{
  out_going, in_coming, State, Transfer, Reversal, Reason, CallbackState, World, Call, Env,
  same_direction, is_due,
}
use proyecto_sa_b.PaymentService.Interbank.Outbox.{is_state, claim, flush_row, flush_reversal}
use proyecto_sa_b.PaymentService.Interbank.Sender.{FundsReserved, send_now, on_funds_reserved}
use proyecto_sa_b.PaymentService.Interbank.Timeouts.{rows_of, expire_outbound, process_timeouts}
use proyecto_sa_b.PaymentService.Interbank.Callbacks.{deliver_callback, on_deposit_result}
use proyecto_sa_b.PaymentService.Interbank.Reversals.{on_reversal_debited, on_reversal_failed}
use proyecto_sa_b.PaymentService.Interbank.ReversalRequests.{process_reversals}

abbrev is_ready : ℕ → Transfer → Bool
is_ready now r = is_due now r.next_attempt_at && is_due now r.locked_until

abbrev is_unsent : ℕ → Transfer → Bool
is_unsent now r =
    same_direction r.direction out_going && is_state r.state State.pending && is_ready now r

abbrev send_row : Env → ℕ × Transfer → Call (Unit {0})
send_row env (id, _) = do claimed ← claim env.now id; if claimed then send_now env id else skip

-- `sendPending`
unfoldable pub send_pending : Env → Call (Unit {0})
send_pending env = do rows ← rows_of (is_unsent env.now) 20; for_each (send_row env) rows

abbrev is_final_in : State → Bool
is_final_in State.accepted = true
is_final_in State.rejected = true
is_final_in _ = false

abbrev is_callback_pending : Option CallbackState → Bool
is_callback_pending (some CallbackState.pending) = true
is_callback_pending _ = false

abbrev owes_callback : ℕ → Transfer → Bool
owes_callback now r =
    same_direction r.direction in_coming
    && is_final_in r.state
    && is_callback_pending r.callback_state
    && is_ready now r

abbrev deliver_row : Env → ℕ × Transfer → Call (Unit {0})
deliver_row env (id, seen) = do
  claimed ← claim env.now id
  if claimed then deliver_callback env id seen else skip

-- `deliverCallbacks`
unfoldable pub deliver_callbacks : Env → Call (Unit {0})
deliver_callbacks env = do
  rows ← rows_of (owes_callback env.now) 20
  for_each (deliver_row env) rows

abbrev waits : Transfer → Bool
waits r = r.pending_event

abbrev flush_found : ℕ × Transfer → Call (Unit {0})
flush_found (id, _) = flush_row id

abbrev flush_reversal_found : ℕ × Reversal → Call (Unit {0})
flush_reversal_found (id, _) = flush_reversal id

-- `flushPending`
unfoldable pub flush_pending : Call (Unit {0})
flush_pending = do
  rows ← rows_of waits 50
  for_each flush_found rows
  revs ← read (λ (w : World). take 20 (keep (λ e. e.1.pending_event) w.reversals))
  for_each flush_reversal_found revs

-- `tick`; an exception of a step is logged, and the next step follows.
unfoldable pub tick : Env → Call (Unit {0})
tick env =
    if is_some env.own_bank
    then attempt flush_pending
      >> attempt (send_pending env)
      >> attempt (expire_outbound env)
      >> attempt (process_timeouts env)
      >> attempt (deliver_callbacks env)
      >> attempt (process_reversals env)
    else skip

-- The events of Account, with their payloads.
pub data AccountEvent : Type 0 where
  funds_reserved : FundsReserved → AccountEvent
  deposit_credited : (id : ℕ) → AccountEvent
  deposit_rejected : (id : ℕ) → Option Reason → AccountEvent
  reversal_debited : (id correlation : ℕ) → AccountEvent
  reversal_failed : (id : ℕ) → AccountEvent
  unknown_event : AccountEvent

abbrev pub handle : Env → AccountEvent → Call (Unit {0})
handle env (funds_reserved p) = on_funds_reserved env p
handle env (deposit_credited id) = on_deposit_result env id Verdict.accepted none
handle env (deposit_rejected id reason) = on_deposit_result env id Verdict.rejected reason
handle env (reversal_debited id correlation) = on_reversal_debited env id correlation
handle env (reversal_failed id) = on_reversal_failed env id
handle env unknown_event = skip

abbrev mark_processed : Env → ℕ → World → World
mark_processed env id w = record w { processed = insert id env.now w.processed }

abbrev handle_new : Env → ℕ → AccountEvent → Option ℕ → Call (Unit {0})
handle_new env id e (some at) = skip
handle_new env id e none = handle env e >> write (mark_processed env id)

-- `handleEvent`, for the event with the id.
unfoldable pub handle_event : Env → ℕ → AccountEvent → Call (Unit {0})
handle_event env id e = do
  seen ← read (λ (w : World). lookup id w.processed)
  handle_new env id e seen
